-- ===== src/Bitcask/Room.antt =====
-- When the active file has room for a batch, and for the batches that it is made of.
use memkvin_c.Base.{◌≡◌, subst, refl, List, [], ◌∷◌, ◌++◌, ℕ, ◌+◌, ◌<◌, ◌^◌, length, arith}
use memkvin_c.Crc.{Crc32c}
use memkvin_c.Record.Log.{encode_all, length-encode_all-cons}
use memkvin_c.Bitcask.Engine.{Write}
use memkvin_c.Bitcask.Batch.{log_of, record_size, StaysBelow}

module _ (c : Crc32c) where
  -- Behind `at` bytes, the writes stay below the size limit and end below 2^32.
  abbrev pub HasRoom : ℕ → ℕ → List Write → Type 0
  HasRoom limit at ws = (at + length (encode_all c (log_of ws)) < 2 ^ 32) × StaysBelow limit at ws

  log_size :
      (w : Write) (ws : List Write)
      → length (encode_all c (log_of (w ∷ ws))) ≡ record_size w + length (encode_all c (log_of ws))
  log_size w ws = length-encode_all-cons c w.key w.value (log_of ws)

  no_bytes : length (encode_all c (log_of [])) ≡ 0
  unfolding encode_all
  no_bytes = refl

  -- Where a batch has room, its first part has, and the rest behind it.
  pub HasRoom-append :
      (limit at : ℕ) (ws more : List Write)
      → HasRoom limit at (ws ++ more)
      → HasRoom limit at ws × HasRoom limit (at + length (encode_all c (log_of ws))) more
  HasRoom-append limit at [] more (fits, below) = (
    (omega (arith, no_bytes), tt),
    subst (λ n. HasRoom limit n more) (omega (arith, no_bytes)) (fits, below),
  )
  HasRoom-append limit at (w ∷ ws) more (fits, (b, below)) =
      let ((f1, b1), behind) =
        HasRoom-append limit (at + record_size w) ws more
          (omega (arith, log_size w (ws ++ more)), below) in
      (
        (omega (arith, log_size w ws), (b, b1)),
        subst (λ n. HasRoom limit n more) (omega (arith, log_size w ws)) behind,
      )
