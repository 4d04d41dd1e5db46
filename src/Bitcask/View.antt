-- ===== src/Bitcask/View.antt =====
-- What an engine stores: the abstract map from keys to their last values (a deleted key has the
-- tombstone), and the relation between an engine and the map that it stands for.
use memkvin_c.Base.{
  refl, Bytes, Key, Value, ◌≡◌, ◌⊎◌, true, List, [], ◌∷◌, ◌++◌, Option, none, some, ℕ, ◌≤◌, ◌<◌,
  ◌^◌, length, bytes_eq, if◌then◌else◌,
}
use memkvin_c.HashMap.{HashMap}
use memkvin_c.ActiveMap
use memkvin_c.RecordMap
use memkvin_c.RecordMap.{Hint}
use memkvin_c.Setting.{get_db_path}
use memkvin_c.Stream.{Stream}
use memkvin_c.Record.Write.{IsAppending}
use memkvin_c.Bitcask.Engine.{Engine, Write, active_fd, find_stable, db_file}

abbrev pub View : Type 0
View = Key → Option Value

abbrev pub empty_view : View
empty_view _ = none

abbrev pub update : View → Key → Value → View
update m k v j = if bytes_eq k j then some v else m j

-- The writes, one after the other.
abbrev pub apply_writes : View → List Write → View
apply_writes m [] = m
apply_writes m (w ∷ ws) = apply_writes (update m w.key w.value) ws

pub apply_writes-append :
    (ws more : List Write) (m : View)
    → apply_writes m (ws ++ more) ≡ apply_writes (apply_writes m ws) more
apply_writes-append [] more m = refl
apply_writes-append (w ∷ ws) more m = apply_writes-append ws more (update m w.key w.value)

-- The bytes that a hint points to are the value.
pub record InFile (content : Bytes) (hint : Hint) (v : Value) : Type 0 where
  pub before : Bytes
  pub behind : Bytes
  pub bytes : content ≡ before ++ (v ++ behind)
  pub offset : hint.offset ≡ length before
  pub size : hint.size ≡ length v

module _ {hash : HashMap} where
  -- A value is in the active file and in the active map, or in a stable file.
  pub record InActive (e : Engine hash) (active : Stream) (k : Key) (hint : Hint) (v : Value)
      : Type 0 where
    pub fd : hint.fd ≡ active_fd e.stable_files
    pub cached : ActiveMap.get e.active_map k ≡ some v
    pub in_file : InFile active.content hint v

  pub record InStable (e : Engine hash) (hint : Hint) (v : Value) : Type 0 where
    pub stream : Stream
    pub found : find_stable e.stable_files hint.fd ≡ some (record { file = some stream })
    pub in_file : InFile stream.content hint v

  abbrev pub Located : Engine hash → Stream → Key → Hint → Value → Type 0
  Located e active k hint v = InActive e active k hint v ⊎ InStable e hint v

  abbrev pub Shows : Engine hash → Stream → Key → Option Hint → Option Value → Type 0
  Shows e active k none o = o ≡ none
  Shows e active k (some hint) o = (v : Value) × (o ≡ some v) × Located e active k hint v

  -- The part of the state that the maps point into.
  pub record IsStored (e : Engine hash) (active : Stream) : Type 0 where
    pub file : e.active_file ≡ some (record { file = some active })
    pub appending : IsAppending active
    pub is_open : active.is_open ≡ true
    pub path : active.path ≡ db_file (get_db_path e.setting) (length e.stable_files)
    pub few : length e.stable_files < 2 ^ 32
    pub fresh : (fd : ℕ) → length e.stable_files ≤ fd → find_stable e.stable_files fd ≡ none

  -- The engine stands for the map `m`.
  pub record Represents (e : Engine hash) (m : View) : Type 0 where
    pub active : Stream
    pub stored : IsStored e active
    pub shows : (k : Key) → Shows e active k (RecordMap.get e.record_map k) (m k)
