-- ===== src/ActiveMap.antt =====
-- src/ActiveMap.cpp: the values of the keys that were last written to the active file.
use memkvin_c.Base.{Key, Value, Option, none, some, ◌≡◌, bytes_eq, if◌then◌else◌}
use memkvin_c.HashMap.{HashMap}

-- class ActiveMap
pub record ActiveMap (hash : HashMap) : Type 0 where
  pub entries : hash.Map Value

module _ {hash : HashMap} where
  -- ActiveMap::ActiveMap
  unfoldable pub empty : ActiveMap hash
  empty = record { entries = hash.empty Value }

  -- ActiveMap::Get
  unfoldable pub get : ActiveMap hash → Key → Option Value
  get m key = hash.find Value m.entries key

  -- ActiveMap::Put
  unfoldable pub put : ActiveMap hash → Key → Value → ActiveMap hash
  put m key value = record { entries = hash.insert_or_assign Value m.entries key value }

  -- ActiveMap::Delete
  unfoldable pub delete : ActiveMap hash → Key → ActiveMap hash
  delete m key = record { entries = hash.erase Value m.entries key }

  -- ActiveMap::Clear
  unfoldable pub clear : ActiveMap hash → ActiveMap hash
  clear m = record { entries = hash.clear Value m.entries }

  -- What is found after each operation.
  pub get-put :
      (m : ActiveMap hash) (k j : Key) (value : Value)
      → get (put m k value) j ≡ (if bytes_eq k j then some value else get m j)
  unfolding get put
  get-put m k j value = hash.find-insert_or_assign Value m.entries k j value

  pub get-delete :
      (m : ActiveMap hash) (k j : Key)
      → get (delete m k) j ≡ (if bytes_eq k j then none else get m j)
  unfolding get delete
  get-delete m k j = hash.find-erase Value m.entries k j

  pub get-clear : (m : ActiveMap hash) (k : Key) → get (clear m) k ≡ none
  unfolding get clear
  get-clear m k = hash.find-clear Value m.entries k

pub get-empty : (hash : HashMap) (k : Key) → get (empty {hash = hash}) k ≡ none
unfolding get empty
get-empty hash k = hash.find-empty Value k
