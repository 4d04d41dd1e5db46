-- ===== src/Record/Total.antt =====
-- The scan of any file below 2^32 bytes ends, whatever its bytes are.
use memkvin_c.Base.{
  none-ne, ◌≡◌, ◌⊎◌, inl, inr, ◌∙◌, refl, ap, sym, true, false, ℕ, zero, suc, ◌+◌, ◌-◌, ◌/◌, ◌≤◌,
  ◌<◌, ◌^◌, length, length-take, length-drop, arith, some, none, drop, u32, Option-cases,
}
use memkvin_c.Crc.{Crc32c}
use memkvin_c.Stream.{Stream, read, tellp, read_file_at}
use memkvin_c.Stream.Laws.{tellp-pos}
use memkvin_c.Record.Log.{seekg_zero}
use memkvin_c.Record.Recovery.{stops}
use memkvin_c.Record.{
  Found, RecordHeader, header_of, read_body, read_record, read_loop, rounds,
  read_all_record_from_file,
}

-- A stream that another record can be read from.
pub record IsLive (s : Stream) : Type 0 where
  pub inside : s.pos ≤ length s.content
  pub no_eof : s.eofbit ≡ false
  pub no_fail : s.failbit ≡ false

-- The outcome of one read of `size` bytes at `at`: it failed, or it moved to `at + size` inside the file.
read_at_cases :
    (at size : ℕ) (s : Stream)
    → ((read_file_at at size s).1.failbit ≡ true)
      ⊎ (((read_file_at at size s).1.pos ≡ at + size)
          × (at + size ≤ length s.content ⊎ (size ≡ 0))
          × ((read_file_at at size s).1.eofbit ≡ false)
          × ((read_file_at at size s).1.failbit ≡ false)
          × ((read_file_at at size s).1.content ≡ s.content))
unfolding read_file_at
read_at_cases at size s =
    ground (arith, length-take size (drop at s.content), length-drop at s.content)

-- A record was read behind `s`: the stream has failed, or it is live and past a header at least.
abbrev Progress : Stream → Stream → Type 0
Progress s s' =
    ((s'.failbit ≡ true) × (s.pos + 12 ≤ length s.content))
    ⊎ ((s.pos + 12 ≤ s'.pos)
        × (s'.pos ≤ length s'.content)
        × (s'.eofbit ≡ false)
        × (s'.failbit ≡ false)
        × (s'.content ≡ s.content))

header_cases :
    (s : Stream)
    → IsLive s
    → ((read 12 s).1.failbit ≡ true)
      ⊎ (((read 12 s).1.pos ≡ s.pos + 12)
          × (s.pos + 12 ≤ length s.content)
          × ((read 12 s).1.failbit ≡ false)
          × ((read 12 s).1.content ≡ s.content))
unfolding read
header_cases s h =
    ground (arith, length-take 12 (drop s.pos s.content), length-drop s.pos s.content)

module _ (c : Crc32c) where
  pub body_stream :
      (header : RecordHeader) (s : Stream)
      → (read_body c header s).1
        ≡ (read_file_at
            (u32 (tellp s + header.key_size))
            header.value_size
            (read_file_at (tellp s) header.key_size s).1).1
  unfolding read_body
  body_stream header s = ground arith

  failed_stays :
      (at size : ℕ) (s : Stream) → s.failbit ≡ true → (read_file_at at size s).1.failbit ≡ true
  unfolding read_file_at
  failed_stays at size s f = ground arith

  body_cases :
      (header : RecordHeader) (s : Stream)
      → s.pos ≤ length s.content
      → s.failbit ≡ false
      → length s.content < 2 ^ 32
      → ((read_body c header s).1.failbit ≡ true)
        ⊎ ((s.pos ≤ (read_body c header s).1.pos)
            × ((read_body c header s).1.pos ≤ length (read_body c header s).1.content)
            × ((read_body c header s).1.eofbit ≡ false)
            × ((read_body c header s).1.failbit ≡ false)
            × ((read_body c header s).1.content ≡ s.content))
  body_cases header s inside f fits =
      let at = tellp s in
      let e : at ≡ s.pos = tellp-pos s s.pos f refl (omega arith) in
      let s1 = (read_file_at at header.key_size s).1 in
      let second = u32 (at + header.key_size) in
      rw (body_stream header s) (elim (read_at_cases at header.key_size s) [
        | inl failed ↦ inl (failed_stays second header.value_size s1 failed)
        | inr (p1, w1, e1, f1, c1) ↦ elim (read_at_cases second header.value_size s1) [
          | inl failed ↦ inl failed
          | inr (p2, w2, e2, f2, c2) ↦ inr (
            ground (arith, ap (λ t. length t) c1),
            ground (arith, ap (λ t. length t) c1, ap (λ t. length t) c2),
            e2,
            f2,
            c2 ∙ c1,
          )
        ]
      ])

  record_cases :
      (s : Stream)
      → IsLive s
      → length s.content < 2 ^ 32
      → ((read_record c s).0 ≡ none) ⊎ Progress s (read_record c s).1
  unfolding read_record
  record_cases s h fits = elim (header_cases s h) [
    | inl failed ↦ inl (rw failed)
    | inr (p, w, f, same) ↦
        rw f
          (elim (body_cases (header_of (read 12 s).0) (read 12 s).1
            (omega (arith, ap (λ t. length t) same)) f (omega (arith, ap (λ t. length t) same))) [
              | inl failed ↦ inr (inl (failed, w))
              | inr (q, b, e, f', same') ↦ inr (inr (omega arith, b, e, f', same' ∙ same))
            ])
  ]

  failed_read : (size : ℕ) (s : Stream) → s.failbit ≡ true → (read size s).1.failbit ≡ true
  unfolding read
  failed_read size s f = ground arith

  failed_record : (s : Stream) → s.failbit ≡ true → (read_record c s).0 ≡ none
  unfolding read_record
  failed_record s f = rw (failed_read 12 s f)

  module _ {ℓ} {S : Type ℓ} (callback : S → Found → S) where
    -- One round, by what `ReadRecord` returned.
    loop_found :
        (fuel : ℕ) (s : Stream) (st : S) {r : Found}
        → (read_record c s).0 ≡ some r
        → read_loop c callback (suc fuel) s st
          ≡ read_loop c callback fuel (read_record c s).1 (callback st r)
    unfolding read_loop
    loop_found fuel s st e = λ i. elim (e i) [
      | none ↦ some (st, (read_record c s).1)
      | some r ↦ read_loop c callback fuel (read_record c s).1 (callback st r)
    ]

    Ends : ℕ → Stream → S → Type ℓ
    Ends fuel s st = (r : S × Stream) × (read_loop c callback fuel s st ≡ some r)

    failed-Ends : (fuel : ℕ) (s : Stream) (st : S) → s.failbit ≡ true → 0 < fuel → Ends fuel s st
    unfolding Ends
    failed-Ends zero s st f enough = absurd (omega arith)
    failed-Ends (suc fuel) s st f enough = (_, stops c callback fuel s st (failed_record s f))

    live-Ends :
        (fuel : ℕ) (s : Stream) (st : S)
        → IsLive s
        → length s.content < 2 ^ 32
        → (length s.content - s.pos) / 12 < fuel
        → Ends fuel s st
    unfolding Ends
    live-Ends zero s st h fits enough = absurd (omega arith)
    live-Ends (suc fuel) s st h fits enough = elim (Option-cases (read_record c s).0) [
      | inl e ↦ (_, stops c callback fuel s st e)
      | inr (r, e) ↦ rw (loop_found fuel s st e) (elim (record_cases s h fits) [
        | inl no_record ↦ absurd (none-ne (sym no_record ∙ e))
        | inr (inl (failed, w)) ↦ failed-Ends fuel (read_record c s).1 _ failed (omega arith)
        | inr (inr (p, inside, e', f', same)) ↦
            live-Ends fuel (read_record c s).1 (callback st r)
              (record { inside = inside; no_eof = e'; no_fail = f' })
              (omega (arith, ap (λ t. length t) same)) (omega (arith, ap (λ t. length t) same))
      ])
    ]

    -- ReadAllRecordFromFile ends on every file below 2^32 bytes, whatever its bytes are, within
    -- the rounds that the model gives its loop.
    pub read_all_total :
        (s : Stream) (st : S)
        → s.failbit ≡ false
        → length s.content < 2 ^ 32
        → (r : S × Stream) × (read_all_record_from_file c s callback st ≡ some r)
    unfolding read_all_record_from_file Ends
    read_all_total s st f fits = rw (seekg_zero s f) (
        live-Ends (rounds s) (record s { pos = 0; eofbit = false }) st
          (record { inside = omega arith; no_eof = refl; no_fail = f }) fits (omega arith))
