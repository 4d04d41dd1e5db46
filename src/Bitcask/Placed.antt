-- ===== src/Bitcask/Placed.antt =====
-- The hints of a batch point to its values in the file that the batch was appended to.
use memkvin_c.Base.{
  Bytes, Value, ◌≡◌, ◌∙◌, subst, refl, ap, sym, true, false, List, [], ◌∷◌, ◌++◌, some,
  append_assoc, ℕ, suc, ◌+◌, ◌≤◌, ◌<◌, ◌^◌, length, length-append, leb, arith,
}
use memkvin_c.Crc.{Crc32c}
use memkvin_c.HashMap.{HashMap}
use memkvin_c.RecordMap.{Hint}
use memkvin_c.Stream.{Stream}
use memkvin_c.Record.{header_bytes, fill_header}
use memkvin_c.Record.RoundTrip.{encode, length-encode}
use memkvin_c.Record.Log.{encode_all, length-encode_all-cons}
use memkvin_c.Bitcask.Engine.{Engine, Write, active_fd, find_stable}
use memkvin_c.Bitcask.View.{InFile}
use memkvin_c.Bitcask.Batch.{log_of, hint_at, hints_at, record_size}
use memkvin_c.Bitcask.Publish.{AllPlaced}

-- Bytes put behind a file leave its values where they are.
pub InFile-append :
    {content : Bytes} {hint : Hint} {v : Value} (more : Bytes)
    → InFile content hint v
    → InFile (content ++ more) hint v
InFile-append {content} {hint} {v} more h = record {
  before = h.before;
  behind = h.behind ++ more;
  bytes =
      ap (λ t. t ++ more) h.bytes
      ∙ append_assoc h.before (v ++ h.behind) more
      ∙ ap (λ t. h.before ++ t) (append_assoc v h.behind more);
  offset = h.offset;
  size = h.size;
}

-- Each value of the batch is where its hint says.
abbrev pub AllIn : Bytes → List Write → List Hint → Type 0
AllIn content [] hints = Unit
AllIn content (w ∷ ws) [] = ⊥
AllIn content (w ∷ ws) (hint ∷ hints) = InFile content hint w.value × AllIn content ws hints

module _ (c : Crc32c) where
  hint_at-InFile :
      (fd : ℕ) (pre tail : Bytes) (w : Write)
      → length w.value < 2 ^ 32
      → InFile (pre ++ (encode c w.key w.value ++ tail)) (hint_at fd (length pre) w) w.value
  unfolding encode
  hint_at-InFile fd pre tail w fits = record {
    before = pre ++ (hdr ++ w.key);
    behind = tail;
    bytes =
        ap (λ t. pre ++ t)
          (append_assoc hdr (w.key ++ w.value) tail
            ∙ ap (λ t. hdr ++ t) (append_assoc w.key w.value tail)
            ∙ sym (append_assoc hdr w.key (w.value ++ tail)))
        ∙ sym (append_assoc pre (hdr ++ w.key) (w.value ++ tail));
    offset = omega (arith, length-append pre (hdr ++ w.key), length-append hdr w.key);
    size = omega arith;
  }
    where
      hdr : Bytes
      hdr = header_bytes (fill_header c w.key w.value).0

  pub hints_at-AllIn :
      (fd : ℕ) (ws : List Write) (pre tail : Bytes) (at : ℕ)
      → at ≡ length pre
      → length pre + length (encode_all c (log_of ws)) < 2 ^ 32
      → AllIn (pre ++ (encode_all c (log_of ws) ++ tail)) ws (hints_at fd at ws)
  unfolding encode_all
  hints_at-AllIn fd [] pre tail at e fits = tt
  hints_at-AllIn fd (w ∷ ws) pre tail at e fits =
      let enc = encode c w.key w.value in
      let rest = encode_all c (log_of ws) in
      let size = length-encode_all-cons c w.key w.value (log_of ws) in
      let next = length-append pre enc in
      let enc-size = length-encode c w.key w.value in
      (
        rw (e, append_assoc enc rest tail) (hint_at-InFile fd pre (rest ++ tail) w (omega arith)),
        subst (λ t. AllIn t ws (hints_at fd (at + record_size w) ws))
            (append_assoc pre enc (rest ++ tail)
              ∙ ap (λ t. pre ++ t) (sym (append_assoc enc rest tail)))
            (hints_at-AllIn fd ws (pre ++ enc) tail (at + record_size w) (omega arith)
              (omega arith)),
      )

pub zero-leb : (i : ℕ) → leb 0 i ≡ true
zero-leb i = ground arith

lt→leb : (a b : ℕ) → b < a → leb a b ≡ false
lt→leb a b h = ground arith

module _ {hash : HashMap} where
  pub AllPlaced-active :
      (e : Engine hash) (active : Stream) (ws : List Write) (at i : ℕ)
      → AllIn active.content ws (hints_at (active_fd e.stable_files) at ws)
      → AllPlaced e active 0 i ws (hints_at (active_fd e.stable_files) at ws)
  AllPlaced-active e active [] at i h = tt
  AllPlaced-active e active (w ∷ ws) at i (p, h) =
      (rw (zero-leb i) (refl, p), AllPlaced-active e active ws (at + record_size w) (suc i) h)

  pub AllPlaced-stable :
      (e : Engine hash) (active stable : Stream) (fd : ℕ) (ws : List Write) (at last i : ℕ)
      → find_stable e.stable_files fd ≡ some (record { file = some stable })
      → i + length ws ≤ last
      → AllIn stable.content ws (hints_at fd at ws)
      → AllPlaced e active last i ws (hints_at fd at ws)
  AllPlaced-stable e active stable fd [] at last i found before h = tt
  AllPlaced-stable e active stable fd (w ∷ ws) at last i found before (p, h) = (
    rw (lt→leb last i (omega arith)) (record { stream = stable; found = found; in_file = p }),
    AllPlaced-stable e active stable fd ws (at + record_size w) last (suc i) found (omega arith) h,
  )
