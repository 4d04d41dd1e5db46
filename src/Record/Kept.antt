-- ===== src/Record/Kept.antt =====
-- A scan leaves the path and the bytes of its file as they are.
use memkvin_c.Base.{
  Bytes, ◌≡◌, ◌∙◌, ap, sym, inl, inr, Bool-cases, ℕ, zero, suc, Option, none, some, Option-cases,
  arith,
}
use memkvin_c.Crc.{Crc32c}
use memkvin_c.Stream.{Stream, read, seekg, tellp, read_value_from_file, read_file_at}
use memkvin_c.Record.{
  Found, RecordHeader, header_of, read_body, read_record, read_loop, rounds,
  read_all_record_from_file,
}
use memkvin_c.Record.Recovery.{stops}
use memkvin_c.Record.Total.{body_stream}

-- The path and the bytes of a stream.
abbrev pub file_of : Stream → Bytes × Bytes
file_of s = (s.path, s.content)

pub read-file_of : (size : ℕ) (s : Stream) → file_of (read size s).1 ≡ file_of s
unfolding read
read-file_of size s = ground arith

seekg-file_of : (offset : ℕ) (s : Stream) → file_of (seekg offset s) ≡ file_of s
unfolding seekg
seekg-file_of offset s = ground arith

pub read_file_at-file_of :
    (at size : ℕ) (s : Stream) → file_of (read_file_at at size s).1 ≡ file_of s
unfolding read_file_at read_value_from_file
read_file_at-file_of at size s = ground (arith, read-file_of size (seekg at s), seekg-file_of at s)

module _ (c : Crc32c) where
  read_body-file_of :
      (header : RecordHeader) (s : Stream) → file_of (read_body c header s).1 ≡ file_of s
  read_body-file_of header s =
      ap file_of (body_stream c header s)
      ∙ read_file_at-file_of _ header.value_size (read_file_at (tellp s) header.key_size s).1
      ∙ read_file_at-file_of (tellp s) header.key_size s

  read_record-file_of : (s : Stream) → file_of (read_record c s).1 ≡ file_of s
  unfolding read_record
  read_record-file_of s = elim (Bool-cases (read 12 s).1.failbit) [
    | inl e ↦ rw e (read-file_of 12 s)
    | inr e ↦ rw e (read_body-file_of (header_of (read 12 s).0) (read 12 s).1 ∙ read-file_of 12 s)
  ]

  module _ {ℓ} {S : Type ℓ} (callback : S → Found → S) where
    -- The stream of a scan that ended, and the one before it for a scan that did not.
    stream_of : Stream → Option (S × Stream) → Stream
    stream_of s none = s
    stream_of s (some (_, s')) = s'

    read_loop-found :
        (fuel : ℕ) (s : Stream) (st : S) (r : Found)
        → (read_record c s).0 ≡ some r
        → read_loop c callback (suc fuel) s st
          ≡ read_loop c callback fuel (read_record c s).1 (callback st r)
    unfolding read_loop
    read_loop-found fuel s st r e = λ i. elim (e i) [
      | none ↦ some (st, (read_record c s).1)
      | some r ↦ read_loop c callback fuel (read_record c s).1 (callback st r)
    ]

    read_loop-file_of :
        (fuel : ℕ) (before s : Stream) (st : S)
        → file_of before ≡ file_of s
        → file_of (stream_of before (read_loop c callback fuel s st)) ≡ file_of s
    unfolding stream_of read_loop
    read_loop-file_of zero before s st same = same
    read_loop-file_of (suc fuel) before s st same = elim (Option-cases (read_record c s).0) [
      | inl e ↦
          ap (λ o. file_of (stream_of before o)) (stops c callback fuel s st e)
          ∙ read_record-file_of s
      | inr (r, e) ↦
          ap (λ o. file_of (stream_of before o)) (read_loop-found fuel s st r e)
          ∙ read_loop-file_of fuel before (read_record c s).1 (callback st r)
              (same ∙ sym (read_record-file_of s))
          ∙ read_record-file_of s
    ]

    -- A scan that ends leaves its file.
    pub read_all-file_of :
        (s s' : Stream) (st st' : S)
        → read_all_record_from_file c s callback st ≡ some (st', s')
        → file_of s' ≡ file_of s
    unfolding read_all_record_from_file stream_of
    read_all-file_of s s' st st' e =
        ap (λ o. file_of (stream_of s o)) (sym e)
        ∙ read_loop-file_of (rounds s) s (seekg 0 s) st (sym (seekg-file_of 0 s))
        ∙ seekg-file_of 0 s
