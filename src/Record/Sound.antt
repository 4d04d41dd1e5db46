-- ===== src/Record/Sound.antt =====
-- What a record that ReadRecord returns is, whatever the bytes of the file are.
use memkvin_c.Base.{
  ap, ==→≡, Bytes, ◌≡◌, ◌⊎◌, subst, refl, Bool, Bool-cases, inl, inr, true, false, [], Option, none,
  some, ℕ, ◌+◌, take, drop, length, length-take, u32, if◌then◌else◌, arith,
}
use memkvin_c.Crc.{Crc32c}
use memkvin_c.Stream.{Stream, read, tellp, read_file_at}
use memkvin_c.Record.{Found, RecordHeader, header_of, get_crc32, read_body, read_record}
use memkvin_c.Record.Kept.{read-file_of, read_file_at-file_of}

-- The text is empty, or all the bytes of the file from an offset on that were asked for.
abbrev pub Slice : Bytes → ℕ → ℕ → Bytes → Type 0
Slice content at size text =
    (text ≡ []) ⊎ ((text ≡ take size (drop at content)) × (length text ≡ size))

-- The record has the checksum of the header, and its key and value stand where its offsets say.
pub record IsSound (c : Crc32c) (content : Bytes) (header : RecordHeader) (r : Found) : Type 0 where
  pub checked : header.crc ≡ get_crc32 c header.key_size header.value_size r.key r.value
  pub key : Slice content r.inf.key_offset header.key_size r.key
  pub value : Slice content r.inf.value_offset header.value_size r.value
  pub value_behind : r.inf.value_offset ≡ u32 (r.inf.key_offset + header.key_size)

read_file_at-Slice : (at size : ℕ) (s : Stream) → Slice s.content at size (read_file_at at size s).0
unfolding read_file_at
read_file_at-Slice at size s = ground (arith, length-take size (drop at s.content))

accepted :
    (b : Bool) (r0 r : Found) (s : Stream)
    → (if◌then◌else◌ {A = Option Found × Stream} b (some r0, s) (none, s)).0 ≡ some r
    → (b ≡ true) × (r0 ≡ r)
accepted true r0 r s h = (refl, cc)
accepted false r0 r s h = absurd (cc h)

module _ (c : Crc32c) where
  read_body-IsSound :
      (header : RecordHeader) (s : Stream) (r : Found)
      → (read_body c header s).0 ≡ some r
      → IsSound c s.content header r
  unfolding read_body
  read_body-IsSound header s r h =
      let at = tellp s in
      let first = read_file_at at header.key_size s in
      let second = u32 (at + header.key_size) in
      let (same, found) = accepted _ _ r _ h in
      subst (IsSound c s.content header) found (record {
        checked = ==→≡ _ _ same;
        key = read_file_at-Slice at header.key_size s;
        value =
            subst
              (λ t.
                Slice t second header.value_size (read_file_at second header.value_size first.1).0)
              (ap (λ t. t.1) (read_file_at-file_of at header.key_size s))
              (read_file_at-Slice second header.value_size first.1);
        value_behind = refl;
      })

  -- A record that ReadRecord returns, from whatever stream, has the checksum of the header that
  -- stands before it, and its key and its value are each empty or the bytes of the file from the
  -- offset that is reported on, exactly as many as the header says, the value's offset being the
  -- one behind the key.
  pub read_record-IsSound :
      (s : Stream) (r : Found)
      → (read_record c s).0 ≡ some r
      → IsSound c s.content (header_of (read 12 s).0) r
  unfolding read_record
  read_record-IsSound s r h = elim (Bool-cases (read 12 s).1.failbit) [
    | inl failed ↦ absurd (cc (rw failed at h))
    | inr good ↦
        subst (λ t. IsSound c t (header_of (read 12 s).0) r) (ap (λ t. t.1) (read-file_of 12 s))
          (read_body-IsSound (header_of (read 12 s).0) (read 12 s).1 r (rw good at h))
  ]
