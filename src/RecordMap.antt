-- ===== src/RecordMap.antt =====
-- src/RecordMap.cpp and src/Hint.hpp: where the last record of each key stands.
use memkvin_c.Base.{Key, Option, none, some, ℕ, ◌≡◌, bytes_eq, if◌then◌else◌}
use memkvin_c.HashMap.{HashMap}

-- struct Hint: three uint32_t
pub record Hint : Type 0 where
  pub fd : ℕ
  pub offset : ℕ
  pub size : ℕ

-- Hint::Hint
abbrev pub default_hint : Hint
default_hint = record { fd = 0; offset = 0; size = 0 }

-- class RecordMap
pub record RecordMap (hash : HashMap) : Type 0 where
  pub entries : hash.Map Hint

module _ {hash : HashMap} where
  -- RecordMap::RecordMap
  unfoldable pub empty : RecordMap hash
  empty = record { entries = hash.empty Hint }

  -- RecordMap::Get
  unfoldable pub get : RecordMap hash → Key → Option Hint
  get m key = hash.find Hint m.entries key

  -- RecordMap::Put
  unfoldable pub put : RecordMap hash → Key → Hint → RecordMap hash
  put m key hint = record { entries = hash.insert_or_assign Hint m.entries key hint }

  -- RecordMap::Delete
  unfoldable pub delete : RecordMap hash → Key → RecordMap hash
  delete m key = record { entries = hash.erase Hint m.entries key }

  -- RecordMap::Clear
  unfoldable pub clear : RecordMap hash → RecordMap hash
  clear m = record { entries = hash.clear Hint m.entries }

  -- What is found after each operation.
  pub get-put :
      (m : RecordMap hash) (k j : Key) (hint : Hint)
      → get (put m k hint) j ≡ (if bytes_eq k j then some hint else get m j)
  unfolding get put
  get-put m k j hint = hash.find-insert_or_assign Hint m.entries k j hint

  pub get-delete :
      (m : RecordMap hash) (k j : Key)
      → get (delete m k) j ≡ (if bytes_eq k j then none else get m j)
  unfolding get delete
  get-delete m k j = hash.find-erase Hint m.entries k j

  pub get-clear : (m : RecordMap hash) (k : Key) → get (clear m) k ≡ none
  unfolding get clear
  get-clear m k = hash.find-clear Hint m.entries k

pub get-empty : (hash : HashMap) (k : Key) → get (empty {hash = hash}) k ≡ none
unfolding get empty
get-empty hash k = hash.find-empty Hint k
