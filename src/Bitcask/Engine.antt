-- ===== src/Bitcask/Engine.antt =====
-- src/BitcaskImpl.cpp and BitcaskImpl.hpp: the engine's state, and `Put`, `Get`, `Delete`, `CommitWrite`.
-- Each function is the body that one thread runs, its calls in the order of the source, without what
-- other threads do in between. An outer `none` is a fault: the use of a null handler.
use memkvin_c.Base.{
  Bytes, Key, Value, Offset, Bool, true, false, List, [], ◌∷◌, ◌++◌, Option, none, some, ℕ, suc,
  ◌+◌, u32, length, ltb, leb, ◌==◌, bytes_eq, tombstone, codes, if◌then◌else◌,
}
use memkvin_c.Crc.{Crc32c}
use memkvin_c.HashMap.{HashMap}
use memkvin_c.ActiveMap
use memkvin_c.ActiveMap.{ActiveMap}
use memkvin_c.RecordMap
use memkvin_c.RecordMap.{RecordMap, Hint}
use memkvin_c.Setting.{Setting, get_db_path, get_max_file_size}
use memkvin_c.Disk.{Disk, append, open_file}
use memkvin_c.Disk.Numbers.{to_string}
use memkvin_c.ActiveFile
use memkvin_c.ActiveFile.{ActiveFile}
use memkvin_c.StableFile
use memkvin_c.StableFile.{StableFile}

-- struct Write; a promise is a ticket number.
pub record Write : Type 0 where
  pub key : Key
  pub value : Value
  pub promise : ℕ

-- std::map<uint32_t, std::shared_ptr<StableFile>>, each key at most once
abbrev pub StableFiles : Type 0
StableFiles = List (ℕ × StableFile)

-- std::map::find
unfoldable pub find_stable : StableFiles → ℕ → Option StableFile
find_stable [] fd = none
find_stable ((i, f) ∷ files) fd = if i == fd then some f else find_stable files fd

-- `files[fd] = f`
unfoldable pub set_stable : StableFiles → ℕ → StableFile → StableFiles
set_stable [] fd f = (fd, f) ∷ []
set_stable ((i, g) ∷ files) fd f =
    if i == fd then (i, f) ∷ files else (i, g) ∷ set_stable files fd f

-- std::map::insert: an entry that is there stays.
unfoldable pub insert_stable : StableFiles → ℕ → StableFile → StableFiles
insert_stable [] fd f = (fd, f) ∷ []
insert_stable ((i, g) ∷ files) fd f =
    if i == fd then (i, g) ∷ files else (i, g) ∷ insert_stable files fd f

unfoldable pub insert_all : StableFiles → StableFiles → StableFiles
unfolding insert_stable
insert_all files [] = files
insert_all files ((fd, f) ∷ more) = insert_all (insert_stable files fd f) more

-- dbPath + std::to_string(fd) + ".db"
abbrev pub db_file : Bytes → ℕ → Bytes
db_file db_path fd = db_path ++ (to_string fd ++ codes ".db")

-- class BitcaskImpl, and the disk that it works on. `resolved` are the promises that were set.
pub record Engine (hash : HashMap) : Type 0 where
  pub running : Bool
  pub setting : Setting ℕ
  pub active_map : ActiveMap hash
  pub record_map : RecordMap hash
  pub writes : List Write
  pub stable_files : StableFiles
  pub active_file : Option ActiveFile
  pub disk : Disk
  pub next_promise : ℕ
  pub resolved : List ℕ

-- getActiveFD of the stable files
abbrev pub active_fd : StableFiles → ℕ
active_fd files = u32 (length files)

-- The variables of the loop of CommitWrite.
pub record Loop : Type 0 where
  pub disk : Disk
  pub active : Option ActiveFile
  pub new_stable : StableFiles
  pub records : List Hint
  pub idx : ℕ
  pub last_active_write : ℕ

-- `val == BITCASK_TOMBSTONE_VALUE` hides a value.
abbrev pub visible : Value → Option Value
visible v = if bytes_eq v tombstone then none else some v

abbrev pub visible? : Option Value → Option Value
visible? none = none
visible? (some v) = visible v

abbrev pub is_empty : StableFiles → Bool
is_empty [] = true
is_empty (_ ∷ _) = false

module _ {hash : HashMap} where
  -- BitcaskImpl::Put: the promise is returned, and the write waits for the worker.
  unfoldable pub put : Engine hash → Key → Value → Engine hash × ℕ
  put e key value =
      let w : Write = record { key = key; value = value; promise = e.next_promise } in
      (record e { writes = e.writes ++ w ∷ []; next_promise = suc e.next_promise }, e.next_promise)

  -- BitcaskImpl::getActiveFD
  unfoldable pub get_active_fd : Engine hash → ℕ
  get_active_fd e = active_fd e.stable_files

  unfoldable pub get_stable :
      Engine hash → Key → Hint → Option StableFile → Option (Option Value × Engine hash)
  get_stable e key hint none = some (none, e)
  get_stable e key hint (some f) = elim (StableFile.read f key hint.offset hint.size) [
    | none ↦ none
    | some (v, f') ↦
        some (visible v, record e { stable_files = set_stable e.stable_files hint.fd f' })
  ]

  unfoldable pub get_hint : Engine hash → Key → Option Hint → Option (Option Value × Engine hash)
  unfolding get_active_fd get_stable
  get_hint e key none = some (none, e)
  get_hint e key (some hint) =
      if hint.fd == get_active_fd e
      then some (visible? (ActiveMap.get e.active_map key), e)
      else get_stable e key hint (find_stable e.stable_files hint.fd)

  -- BitcaskImpl::Get
  unfoldable pub get : Engine hash → Key → Option (Option Value × Engine hash)
  unfolding get_hint
  get e key = get_hint e key (RecordMap.get e.record_map key)

  abbrev pub delete_hint : Engine hash → Key → Option Hint → Engine hash × Option ℕ
  delete_hint e key none = (e, none)
  delete_hint e key (some hint) =
      let w : Write = record { key = key; value = tombstone; promise = e.next_promise } in
      (
        record e { writes = e.writes ++ w ∷ []; next_promise = suc e.next_promise },
        some e.next_promise,
      )

  -- BitcaskImpl::Delete up to the wait: `none` is `return false`; else it waits for the promise and
  -- returns true.
  unfoldable pub delete : Engine hash → Key → Engine hash × Option ℕ
  delete e key = delete_hint e key (RecordMap.get e.record_map key)

  -- What CommitWrite does where the active file has grown too large: the active file is closed and
  -- opened again as a stable file, and the next file is made.
  unfoldable pub rotate : Engine hash → Loop → ActiveFile → Option Loop
  rotate e l file = elim (ActiveFile.rotate file l.disk) [
    | none ↦ none
    | some (old, disk1) ↦
        let fd = active_fd e.stable_files + length l.new_stable in
        let (disk2, handler) = open_file disk1 (db_file (get_db_path e.setting) fd) append in
        let new_stable = set_stable l.new_stable (u32 fd) (StableFile.create (some handler)) in
        let (disk3, next) =
          ActiveFile.create_path disk2 (db_file (get_db_path e.setting) (fd + 1)) in
        some (record l {
          disk = ActiveFile.destroy old disk3;
          active = next;
          new_stable = new_stable;
          last_active_write = l.idx;
        })
  ]

  unfoldable pub written : Engine hash → Loop → Write → ActiveFile × Offset → Option Loop
  written e l w (file, value_offset) =
      let hint : Hint = record {
        fd = active_fd e.stable_files;
        offset = value_offset;
        size = u32 (length w.value);
      } in
      let l' = record l { active = some file; records = l.records ++ hint ∷ []; idx = suc l.idx } in
      if ltb value_offset (get_max_file_size e.setting) then some l' else rotate e l' file

  -- One round of the last loop: `writes[i]` with `records[i]`.
  unfoldable pub publish_one : Engine hash → Bool → Write → Hint → Engine hash
  publish_one e in_active w hint = record e {
    active_map = if in_active then ActiveMap.put e.active_map w.key w.value else e.active_map;
    record_map = RecordMap.put e.record_map w.key hint;
    resolved = e.resolved ++ w.promise ∷ [];
  }

  unfoldable pub publish : Engine hash → ℕ → ℕ → List Write → List Hint → Engine hash
  publish e last i [] hints = e
  publish e last i (w ∷ ws) [] = e
  publish e last i (w ∷ ws) (hint ∷ hints) =
      publish (publish_one e (leb last i) w hint) last (suc i) ws hints

  -- What CommitWrite does behind its loop.
  unfoldable pub commit_end : Engine hash → Loop → List Write → Engine hash
  commit_end e l ws =
      publish
        (record e {
          disk = l.disk;
          active_file = l.active;
          stable_files = insert_all e.stable_files l.new_stable;
          active_map = if is_empty l.new_stable then e.active_map else ActiveMap.clear e.active_map;
        })
        l.last_active_write 0 ws l.records

  abbrev pub start_loop : Engine hash → Loop
  start_loop e = record {
    disk = e.disk;
    active = e.active_file;
    new_stable = [];
    records = [];
    idx = 0;
    last_active_write = 0;
  }

module _ (c : Crc32c) {hash : HashMap} where
  -- One round of the loop of CommitWrite.
  unfoldable pub commit_one : Engine hash → Loop → Write → Option Loop
  commit_one e l w = elim l.active [
    | none ↦ none
    | some file ↦ elim (ActiveFile.write c file w.key w.value) [
      | none ↦ none
      | some r ↦ written e l w r
    ]
  ]

  unfoldable pub commit_loop : Engine hash → Loop → List Write → Option Loop
  commit_loop e l [] = some l
  commit_loop e l (w ∷ ws) = elim (commit_one e l w) [ none ↦ none | some l' ↦ commit_loop e l' ws ]

  -- BitcaskImpl::CommitWrite
  unfoldable pub commit_write : Engine hash → List Write → Option (Engine hash)
  commit_write e ws = elim (commit_loop e (start_loop e) ws) [
    | none ↦ none
    | some l ↦ some (commit_end e l ws)
  ]
