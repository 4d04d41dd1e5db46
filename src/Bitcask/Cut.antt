-- ===== src/Bitcask/Cut.antt =====
-- A file that a crash cut behind its first bytes: which writes are whole, and what is left of the next one.
use memkvin_c.Base.{
  Bytes, ◌≡◌, ◌∙◌, subst, refl, ap, sym, List, [], ◌∷◌, ◌++◌, ℕ, zero, suc, ◌-◌, ◌≤◌, ◌<◌, ◌^◌,
  take, take-append_of_le, take-append_of_ge, arith,
}
use native.Mathlib.Decide.{dec_lt}
use memkvin_c.Crc.{Crc32c}
use memkvin_c.HashMap.{HashMap}
use memkvin_c.Record.RoundTrip.{encode, length-encode}
use memkvin_c.Record.Log.{encode_all}
use memkvin_c.Record.Recovery.{DetectsTorn}
use memkvin_c.Bitcask.Engine.{Write}
use memkvin_c.Bitcask.Batch.{log_of, record_size}
use memkvin_c.Bitcask.Logs.{log_size, log_size-append, length-encode_all}
use memkvin_c.Bitcask.Durable.{encode_all-append}
use memkvin_c.Bitcask.Scans.{ScansLog, ScansLog-torn, ScansLog-whole}

-- The record of the next write is not whole in j bytes.
abbrev pub NoRoom : ℕ → List Write → Type 0
NoRoom j [] = Unit
NoRoom j (w ∷ ws) = j < record_size w

-- The writes whose records are whole in the first k bytes of the file, and those behind them.
pub record Cut (k : ℕ) (ws : List Write) : Type 0 where
  pub kept : List Write
  pub lost : List Write
  pub parts : kept ++ lost ≡ ws
  pub inside : log_size kept ≤ k
  pub short : NoRoom (k - log_size kept) lost

pub cut : (k : ℕ) (ws : List Write) → Cut k ws
cut k [] = record { kept = []; lost = []; parts = refl; inside = omega arith; short = tt }
cut k (w ∷ ws) = elim (dec_lt k (record_size w)) [
  | yes less ↦ record {
    kept = [];
    lost = w ∷ ws;
    parts = refl;
    inside = omega arith;
    short = omega (arith, less);
  }
  | no more ↦
      let r = cut (k - record_size w) ws in
      record {
        kept = w ∷ r.kept;
        lost = r.lost;
        parts = ap (λ t. w ∷ t) r.parts;
        inside = omega (arith, r.inside, more);
        short = subst (λ j. NoRoom j r.lost) (omega (arith, r.inside, more)) r.short;
      }
]

module _ (c : Crc32c) where
  -- The checksum of each record tells it from one that was cut short.
  abbrev pub DetectsAll : List Write → Type 0
  DetectsAll [] = Unit
  DetectsAll (w ∷ ws) = DetectsTorn c w.key w.value × DetectsAll ws

  detects_next :
      (kept ws : List Write) (w : Write) → DetectsAll (kept ++ w ∷ ws) → DetectsTorn c w.key w.value
  detects_next [] ws w (d, _) = d
  detects_next (a ∷ kept) ws w (_, h) = detects_next kept ws w h

  -- The bytes behind the whole records.
  abbrev pub torn : ℕ → List Write → Bytes
  torn j [] = []
  torn j (w ∷ ws) = take j (encode c w.key w.value)

  torn_first :
      (j : ℕ) (lost : List Write)
      → NoRoom j lost
      → take j (encode_all c (log_of lost)) ≡ torn j lost
  unfolding encode_all
  torn_first zero [] h = refl
  torn_first (suc j) [] h = refl
  torn_first j (w ∷ ws) h =
      take-append_of_le j (encode c w.key w.value) _
        (omega (arith, h, length-encode c w.key w.value))

  take-encode_all :
      (kept lost : List Write) (k : ℕ)
      → log_size kept ≤ k
      → NoRoom (k - log_size kept) lost
      → take k (encode_all c (log_of (kept ++ lost)))
        ≡ encode_all c (log_of kept) ++ torn (k - log_size kept) lost
  take-encode_all kept lost k h short =
      ap (take k) (encode_all-append c kept lost)
      ∙ take-append_of_ge k (encode_all c (log_of kept)) (encode_all c (log_of lost))
          (omega (arith, h, length-encode_all c kept))
      ∙ ap (λ n. encode_all c (log_of kept) ++ take (k - n) (encode_all c (log_of lost)))
          (length-encode_all c kept)
      ∙ ap (λ t. encode_all c (log_of kept) ++ t) (torn_first (k - log_size kept) lost short)

  pub take-Cut :
      (k : ℕ) (ws : List Write) (t : Cut k ws)
      → take k (encode_all c (log_of ws))
        ≡ encode_all c (log_of t.kept) ++ torn (k - log_size t.kept) t.lost
  take-Cut k ws t =
      ap (λ l. take k (encode_all c (log_of l))) (sym t.parts)
      ∙ take-encode_all t.kept t.lost k t.inside t.short

  pub ScansLog-Cut :
      (hash : HashMap) (fd : ℕ) (path : Bytes) (kept lost : List Write) (j : ℕ)
      → NoRoom j lost
      → log_size (kept ++ lost) < 2 ^ 32
      → DetectsAll (kept ++ lost)
      → ScansLog c hash fd path kept (torn j lost)
  ScansLog-Cut hash fd path kept [] j short fits detects =
      ScansLog-whole c hash fd path kept
        (omega (arith, fits, length-encode_all c kept, log_size-append kept []))
  ScansLog-Cut hash fd path kept (w ∷ ws) j short fits detects =
      ScansLog-torn c hash fd path kept w.key w.value j
        (omega (arith, fits, length-encode_all c kept, log_size-append kept (w ∷ ws)))
        (omega (arith, short, length-encode c w.key w.value)) (detects_next kept ws w detects)
