-- ===== src/Bitcask/Restore.antt =====
-- src/BitcaskImpl.cpp: what the constructor does. The recovery reads the names of
-- the directory's files as numbers. A name that is no number is skipped where the code catches what
-- std::stoul throws; where it does not, the constructor throws. A scan without end is `diverges`.
use mathlib.Core.List.{foldr}
use memkvin_c.Base.{
  Bytes, Bool, true, false, not, ◌&&◌, ◌||◌, List, [], ◌∷◌, Option, none, some, ℕ, suc, ◌^◌, u32,
  length, ltb, ◌==◌, bytes_eq, if◌then◌else◌,
}
use memkvin_c.Crc.{Crc32c}
use memkvin_c.HashMap.{HashMap}
use memkvin_c.ActiveMap
use memkvin_c.ActiveMap.{ActiveMap}
use memkvin_c.RecordMap
use memkvin_c.RecordMap.{RecordMap, Hint}
use memkvin_c.Setting.{Setting, get_db_path}
use memkvin_c.Record.{Found}
use memkvin_c.Disk.{Disk, DirEntry, directory_entries, exists, filename}
use memkvin_c.Disk.Numbers.{Stoul, number, stoul}
use memkvin_c.ActiveFile
use memkvin_c.ActiveFile.{ActiveFile}
use memkvin_c.StableFile
use memkvin_c.StableFile.{StableFile}
use memkvin_c.Bitcask.Engine.{Engine, StableFiles, set_stable, db_file}

-- The outcome of a constructor.
pub data Outcome {ℓ} (A : Type ℓ) : Type ℓ where
  done : A → Outcome A
  throws : Stoul → Outcome A
  diverges : Outcome A

-- `if (fd > maxFD)`, where `fd` is the number converted to int: one that turns negative is not larger.
abbrev pub larger_fd : ℕ → ℕ → ℕ
larger_fd fd max_fd = if ltb (u32 fd) (2 ^ 31) && ltb max_fd (u32 fd) then u32 fd else max_fd

unfoldable pub max_fd : ℕ → List DirEntry → ℕ
max_fd m [] = m
max_fd m (entry ∷ entries) =
    max_fd
      (if entry.file.regular
        then elim (stoul entry.name) [ number n ↦ larger_fd n m | _ ↦ m ]
        else m)
      entries

-- Internal::getActivePathInDir
unfoldable pub get_active_path_in_dir : Disk → Bytes → Bytes
unfolding max_fd
get_active_path_in_dir disk db_dir = db_file db_dir (max_fd 0 (directory_entries disk db_dir))

-- The count of stable files: the other regular files whose names are numbers.
unfoldable pub count_stable : Bytes → List DirEntry → ℕ
count_stable active_name [] = 0
count_stable active_name (entry ∷ entries) =
    let rest = count_stable active_name entries in
    if not entry.file.regular || bytes_eq entry.name active_name
    then rest
    else elim (stoul entry.name) [ number _ ↦ suc rest | _ ↦ rest ]

-- The two maps that the callbacks fill.
pub record Maps (hash : HashMap) : Type 0 where
  pub records : RecordMap hash
  pub active : ActiveMap hash

-- `<` of std::string
unfoldable pub bytes_lt : Bytes → Bytes → Bool
bytes_lt [] [] = false
bytes_lt [] (y ∷ ys) = true
bytes_lt (x ∷ xs) [] = false
bytes_lt (x ∷ xs) (y ∷ ys) = ltb x y || (x == y && bytes_lt xs ys)

-- std::sort by name
unfoldable pub insert_entry : DirEntry → List DirEntry → List DirEntry
insert_entry a [] = a ∷ []
insert_entry a (b ∷ entries) =
    if bytes_lt b.name a.name then b ∷ insert_entry a entries else a ∷ (b ∷ entries)

unfoldable pub sort_entries : List DirEntry → List DirEntry
unfolding insert_entry bytes_lt
sort_entries = foldr insert_entry []

unfoldable pub stable_entries : Bytes → List DirEntry → List DirEntry
stable_entries active_name [] = []
stable_entries active_name (entry ∷ entries) =
    let rest = stable_entries active_name entries in
    if not entry.file.regular || bytes_eq entry.name active_name then rest else entry ∷ rest

module _ (c : Crc32c) {hash : HashMap} where
  -- The callback of RestoreActiveMap.
  unfoldable pub found_active : ℕ → Maps hash → Found → Maps hash
  found_active fd maps r = record {
    records =
        RecordMap.put maps.records r.key
          (record { fd = fd; offset = r.inf.value_offset; size = u32 (length r.value) });
    active = ActiveMap.put maps.active r.key r.value;
  }

  -- The callback of RestoreStableMap.
  unfoldable pub found_stable : ℕ → RecordMap hash → Found → RecordMap hash
  found_stable fd records r =
      RecordMap.put records r.key
        (record { fd = fd; offset = r.inf.value_offset; size = u32 (length r.value) })

  -- BitcaskImpl::RestoreActiveMap: the maps, the disk, `_activeFile` and the result.
  unfoldable pub restore_active_map :
      Bytes → Maps hash → Disk → Outcome (Maps hash × Disk × Option ActiveFile × Bool)
  restore_active_map db_path maps disk =
      let active_path = get_active_path_in_dir disk db_path in
      let stable_count =
        u32 (count_stable (filename active_path) (directory_entries disk db_path)) in
      if exists disk active_path
      then elim (ActiveFile.restore c disk active_path (found_active stable_count) maps) [
        | none ↦ diverges
        | some (maps', disk', handler) ↦ done (maps', disk', some (ActiveFile.create handler), true)
      ]
      else (let (disk', file) = ActiveFile.create_path disk active_path in
          done (maps, disk', file, elim file [ none ↦ false | some _ ↦ true ]))

  -- One round of the last loop of RestoreStableMap, behind `std::stoul`.
  unfoldable pub restore_entry :
      Disk → DirEntry → ℕ → RecordMap hash × StableFiles → Option (RecordMap hash × StableFiles)
  restore_entry disk entry n (records, files) =
      let file_id = u32 n in
      elim (StableFile.restore c disk entry.file.path (found_stable file_id) records) [
        | none ↦ none
        | some (records', handler) ↦
            some (records', set_stable files file_id (StableFile.create handler))
      ]

  unfoldable pub restore_entries :
      Disk → List DirEntry → RecordMap hash × StableFiles → Outcome (RecordMap hash × StableFiles)
  restore_entries disk [] state = done state
  restore_entries disk (entry ∷ entries) state = elim (stoul entry.name) [
    | number n ↦ elim (restore_entry disk entry n state) [
      | none ↦ diverges
      | some state' ↦ restore_entries disk entries state'
    ]
    | other ↦ throws other
  ]

  -- BitcaskImpl::RestoreStableMap
  unfoldable pub restore_stable_map :
      Bytes → Disk → RecordMap hash → Outcome (RecordMap hash × StableFiles)
  restore_stable_map db_path disk records =
      let active_name = filename (get_active_path_in_dir disk db_path) in
      restore_entries disk
        (sort_entries (stable_entries active_name (directory_entries disk db_path))) (records, [])

  -- The engine of the maps and files that were restored.
  unfoldable pub started :
      Setting ℕ
      → StableFiles
      → Outcome (Maps hash × Disk × Option ActiveFile × Bool)
      → Outcome (Engine hash)
  started setting files (done (maps, disk, file, _)) = done (record {
    running = true;
    setting = setting;
    active_map = maps.active;
    record_map = maps.records;
    writes = [];
    stable_files = files;
    active_file = file;
    disk = disk;
    next_promise = 0;
    resolved = [];
  })
  started setting files (throws x) = throws x
  started setting files diverges = diverges

  unfoldable pub start :
      Setting ℕ → Disk → Outcome (RecordMap hash × StableFiles) → Outcome (Engine hash)
  unfolding started
  start setting disk (done (records, files)) = started setting files (
      restore_active_map (get_db_path setting)
        (record { records = records; active = ActiveMap.empty }) disk)
  start setting disk (throws x) = throws x
  start setting disk diverges = diverges

  -- BitcaskImpl::BitcaskImpl; the results of the two are not looked at.
  unfoldable pub make : Setting ℕ → Disk → Outcome (Engine hash)
  unfolding start
  make setting disk =
      start setting disk (restore_stable_map (get_db_path setting) disk RecordMap.empty)
