-- ===== src/Record/Log.antt =====
-- `ReadAllRecordFromFile` on a file that holds a log: records, one behind the other, and a tail.
use mathlib.Core.List.{foldl}
use memkvin_c.Base.{
  Bytes, Key, Value, ◌≡◌, ◌∙◌, refl, ap, ap₂, sym, false, List, [], ◌∷◌, ◌++◌, append_assoc,
  append-nil, ℕ, suc, ◌+◌, ◌-◌, ◌*◌, ◌/◌, ◌≤◌, ◌<◌, ◌^◌, length, length-append, arith, some, none,
}
use memkvin_c.Crc.{Crc32c}
use memkvin_c.Stream.{Stream, seekg}
use memkvin_c.Record.{Found, read_loop, read_all_record_from_file}
use memkvin_c.Record.RoundTrip.{
  encode, inf_at, Fits, length-encode, read_record_exact, after_record,
}

abbrev pub Log : Type 0
Log = List (Key × Value)

-- The good stream `s` stands between `pre` and `tail`.
pub record StandsAt (s : Stream) (pre tail : Bytes) : Type 0 where
  pub bytes : s.content ≡ pre ++ tail
  pub at : s.pos ≡ length pre
  pub no_eof : s.eofbit ≡ false
  pub no_fail : s.failbit ≡ false

pub seekg_zero : (s : Stream) → s.failbit ≡ false → seekg 0 s ≡ record s { pos = 0; eofbit = false }
unfolding seekg
seekg_zero s f = rw f

module _ (c : Crc32c) where
  -- The bytes of a log.
  unfoldable pub encode_all : Log → Bytes
  encode_all [] = []
  encode_all ((key, value) ∷ log) = encode c key value ++ encode_all log

  -- What a scan of a log that starts at `at` finds.
  unfoldable pub founds : ℕ → Log → List Found
  founds at [] = []
  founds at ((key, value) ∷ log) =
      record { key = key; value = value; inf = inf_at c at key value }
      ∷ founds (at + (12 + length key + length value)) log

  pub length-encode_all-cons :
      (key : Key) (value : Value) (log : Log)
      → length (encode_all ((key, value) ∷ log))
        ≡ 12 + length key + length value + length (encode_all log)
  unfolding encode_all
  length-encode_all-cons key value log =
      omega (arith, length-append (encode c key value) (encode_all log), length-encode c key value)

  -- Each record takes a round.
  pub records_le : (log : Log) → 12 * length log ≤ length (encode_all log)
  records_le [] = omega arith
  records_le ((key, value) ∷ log) =
      omega (arith, records_le log, length-encode_all-cons key value log)

  -- The stream behind the records of a log that starts at `at`.
  unfoldable pub after_log : Stream → ℕ → Log → Stream
  after_log s at [] = s
  after_log s at ((key, value) ∷ log) =
      after_log (after_record c s at key value) (at + (12 + length key + length value)) log

  after_record-StandsAt :
      {s : Stream} (pre rest : Bytes) (key : Key) (value : Value)
      → StandsAt s pre (encode c key value ++ rest)
      → StandsAt (after_record c s (length pre) key value) (pre ++ encode c key value) rest
  after_record-StandsAt pre rest key value h = record {
    bytes = h.bytes ∙ sym (append_assoc pre (encode c key value) rest);
    at = omega (arith, length-append pre (encode c key value), length-encode c key value);
    no_eof = refl;
    no_fail = h.no_fail;
  }

  encode_all-split :
      (pre tail : Bytes) (key : Key) (value : Value) (log : Log)
      → pre ++ (encode_all ((key, value) ∷ log) ++ tail)
        ≡ pre ++ (encode c key value ++ (encode_all log ++ tail))
  unfolding encode_all
  encode_all-split pre tail key value log =
      ap (λ t. pre ++ t) (append_assoc (encode c key value) (encode_all log) tail)

  end_of_cons :
      (pre : Bytes) (key : Key) (value : Value) (log : Log)
      → length (pre ++ encode c key value) + length (encode_all log)
        ≡ length pre + length (encode_all ((key, value) ∷ log))
  end_of_cons pre key value log = omega (
    arith,
    length-append pre (encode c key value),
    length-encode c key value,
    length-encode_all-cons key value log,
  )

  next_start :
      (pre : Bytes) (key : Key) (value : Value)
      → length pre + (12 + length key + length value) ≡ length (pre ++ encode c key value)
  next_start pre key value =
      omega (arith, length-append pre (encode c key value), length-encode c key value)

  StandsAt-cons :
      {s : Stream} (pre tail : Bytes) (key : Key) (value : Value) (log : Log)
      → StandsAt s pre (encode_all ((key, value) ∷ log) ++ tail)
      → StandsAt s pre (encode c key value ++ (encode_all log ++ tail))
  StandsAt-cons pre tail key value log h = record {
    bytes = h.bytes ∙ encode_all-split pre tail key value log;
    at = h.at;
    no_eof = h.no_eof;
    no_fail = h.no_fail;
  }

  StandsAt-next :
      {s : Stream} (pre tail : Bytes) (key : Key) (value : Value) (log : Log)
      → StandsAt s pre (encode_all ((key, value) ∷ log) ++ tail)
      → StandsAt
          (after_record c s (length pre) key value)
          (pre ++ encode c key value)
          (encode_all log ++ tail)
  StandsAt-next pre tail key value log h =
      after_record-StandsAt pre (encode_all log ++ tail) key value
        (StandsAt-cons pre tail key value log h)

  pub after_log-StandsAt :
      (log : Log) {s : Stream} (pre tail : Bytes) (at : ℕ)
      → at ≡ length pre
      → StandsAt s pre (encode_all log ++ tail)
      → StandsAt (after_log s at log) (pre ++ encode_all log) tail
  unfolding encode_all after_log
  after_log-StandsAt [] {s} pre tail at e h = rw (append-nil pre) h
  after_log-StandsAt ((key, value) ∷ log) {s} pre tail at e h =
      rw (e, ← append_assoc pre (encode c key value) (encode_all log))
        (after_log-StandsAt log (pre ++ encode c key value) tail _ (next_start pre key value)
          (StandsAt-next pre tail key value log h))

  module _ {ℓ} {S : Type ℓ} (callback : S → Found → S) where
    read_loop-record :
        (s : Stream) (pre rest : Bytes) (key : Key) (value : Value) (st : S) (fuel : ℕ)
        → StandsAt s pre (encode c key value ++ rest)
        → Fits c (length pre) key value
        → read_loop c callback (suc fuel) s st
          ≡ read_loop c callback fuel (after_record c s (length pre) key value) (
              callback st
                (record { key = key; value = value; inf = inf_at c (length pre) key value }))
    unfolding read_loop
    read_loop-record s pre rest key value st fuel h fits =
        let e = read_record_exact c s pre rest key value h.bytes h.at h.no_eof h.no_fail fits in
        λ i. elim (e i).0 [
          | none ↦ some (st, (e i).1)
          | some r ↦ read_loop c callback fuel (e i).1 (callback st r)
        ]

    -- The loop takes the records of a log one by one, and goes on behind them.
    pub read_loop-log :
        (log : Log) (s : Stream) (pre tail : Bytes) (at : ℕ) (st : S) (fuel : ℕ)
        → at ≡ length pre
        → StandsAt s pre (encode_all log ++ tail)
        → length pre + length (encode_all log) < 2 ^ 32
        → read_loop c callback (length log + fuel) s st
          ≡ read_loop c callback fuel (after_log s at log) (foldl callback st (founds at log))
    unfolding founds after_log
    read_loop-log [] s pre tail at st fuel e h fits =
        ap (λ n. read_loop c callback n s st) (omega arith)
    read_loop-log ((key, value) ∷ log) s pre tail at st fuel e h fits = rw e (
        ap (λ n. read_loop c callback n s st) (omega arith)
        ∙ read_loop-record s pre (encode_all log ++ tail) key value st (length log + fuel)
            (StandsAt-cons pre tail key value log h)
            (omega (arith, length-encode_all-cons key value log))
        ∙ read_loop-log log _ (pre ++ encode c key value) tail _ _ fuel (next_start pre key value)
            (StandsAt-next pre tail key value log h) (omega (arith, end_of_cons pre key value log)))

    -- The whole scan: what the loop makes of the tail, from the state that the log leaves.
    pub read_all-log :
        (log : Log) (s : Stream) (tail : Bytes) (st : S)
        → s.content ≡ encode_all log ++ tail
        → s.failbit ≡ false
        → length (encode_all log) < 2 ^ 32
        → (s' : Stream) × StandsAt s' (encode_all log) tail
          × ((fuel : ℕ) × (read_all_record_from_file c s callback st
                ≡ read_loop c callback (suc fuel) s' (foldl callback st (founds 0 log))))
    unfolding read_all_record_from_file
    read_all-log log s tail st bytes f fits =
        let s0 : Stream = record s { pos = 0; eofbit = false } in
        let h : StandsAt s0 [] (encode_all log ++ tail) = record {
          bytes = bytes;
          at = refl;
          no_eof = refl;
          no_fail = f;
        } in
        let fuel : ℕ = length s.content / 12 - length log in
        (
          after_log s0 0 log,
          after_log-StandsAt log [] tail 0 refl h,
          (
            fuel,
            ap₂ (λ n t. read_loop c callback n t st)
                  (omega (
                    arith,
                    records_le log,
                    length-append (encode_all log) tail,
                    ap (λ t. length t / 12) bytes,
                  ))
                  (seekg_zero s f)
                ∙ read_loop-log log s0 [] tail 0 st (suc fuel) refl h (omega arith),
          ),
        )
