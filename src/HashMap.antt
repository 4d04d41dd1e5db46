-- ===== src/HashMap.antt =====
-- libcuckoo::cuckoohash_map<Key, T>, which belongs to efficient/libcuckoo: the interface that
-- ActiveMap and RecordMap use, with its documented behaviour. `key_eq` is std::equal_to on strings.
use memkvin_c.Base.{Key, ◌≡◌, Option, none, some, bytes_eq, if◌then◌else◌}

pub record HashMap : Type 1 where
  pub Map : Type 0 → Type 0
  pub empty : (V : Type 0) → Map V
  pub find : (V : Type 0) → Map V → Key → Option V
  pub insert_or_assign : (V : Type 0) → Map V → Key → V → Map V
  pub erase : (V : Type 0) → Map V → Key → Map V
  pub clear : (V : Type 0) → Map V → Map V
  pub find-empty : (V : Type 0) (k : Key) → find V (empty V) k ≡ none
  pub find-insert_or_assign :
      (V : Type 0) (m : Map V) (k j : Key) (v : V)
      → find V (insert_or_assign V m k v) j ≡ (if bytes_eq k j then some v else find V m j)
  pub find-erase :
      (V : Type 0) (m : Map V) (k j : Key)
      → find V (erase V m k) j ≡ (if bytes_eq k j then none else find V m j)
  pub find-clear : (V : Type 0) (m : Map V) (k : Key) → find V (clear V m) k ≡ none
