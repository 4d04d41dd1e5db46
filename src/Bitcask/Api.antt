-- ===== src/Bitcask/Api.antt =====
-- src/Bitcask.cpp and include/bitcask/Bitcask.hpp: the class Bitcask, which forwards each call to
-- BitcaskImpl. A call that waits lets the worker take its turns, at most `patience` of them, while no
-- other thread calls; `none` is a fault or a wait that is longer.
use memkvin_c.Base.{◌≡◌, Key, Value, Bool, true, false, Option, none, some, ℕ}
use memkvin_c.Crc.{Crc32c}
use memkvin_c.HashMap.{HashMap}
use memkvin_c.Setting.{Setting}
use memkvin_c.Disk.{Disk}
use memkvin_c.Bitcask.Engine
use memkvin_c.Bitcask.Engine.{Engine}
use memkvin_c.Bitcask.Restore.{Outcome, done, throws, diverges, make}
use memkvin_c.Bitcask.Worker.{Pc, swapping}
use memkvin_c.Bitcask.Turns.{wait}

-- class Bitcask: the engine behind `_impl`, and where its worker stands.
abbrev pub Database : HashMap → Type 0
Database hash = Engine hash × Pc

abbrev pub patience : ℕ
patience = 5

module _ (c : Crc32c) {hash : HashMap} where
  -- Bitcask::Create; the worker starts with an empty queue.
  unfoldable pub create : Setting ℕ → Disk → Outcome (Database hash)
  create setting disk = elim (make c setting disk) [
    | done e ↦ done (e, swapping)
    | throws x ↦ throws x
    | diverges ↦ diverges
  ]

  pub create-make :
      (setting : Setting ℕ) (disk : Disk) {e : Engine hash}
      → make c setting disk ≡ done e
      → create setting disk ≡ done (e, swapping)
  unfolding create
  create-make setting disk h =
      λ i. elim (h i) [ done e ↦ done (e, swapping) | throws x ↦ throws x | diverges ↦ diverges ]

  -- Bitcask::Put
  unfoldable pub put : Database hash → Key → Value → Option (Database hash)
  put (e, pc) key value =
      let (e', promise) = Engine.put e key value in wait c patience promise (e', pc)

  -- What BitcaskImpl::Delete does with its promise.
  abbrev pub deleted : Pc → Engine hash × Option ℕ → Option (Bool × Database hash)
  deleted pc (e, none) = some (false, (e, pc))
  deleted pc (e, some promise) = elim (wait c patience promise (e, pc)) [
    | none ↦ none
    | some s ↦ some (true, s)
  ]

  -- Bitcask::Delete
  unfoldable pub delete : Database hash → Key → Option (Bool × Database hash)
  delete (e, pc) key = deleted pc (Engine.delete e key)

module _ {hash : HashMap} where
  -- Bitcask::PutAsync
  unfoldable pub put_async : Database hash → Key → Value → Database hash × ℕ
  put_async (e, pc) key value = let (e', promise) = Engine.put e key value in ((e', pc), promise)

  -- Bitcask::Get
  unfoldable pub get : Database hash → Key → Option (Option Value × Database hash)
  get (e, pc) key = elim (Engine.get e key) [ none ↦ none | some (v, e') ↦ some (v, (e', pc)) ]
