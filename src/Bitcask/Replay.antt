-- ===== src/Bitcask/Replay.antt =====
-- RestoreStableMap on files that hold logs.
use mathlib.Core.List.{foldl}
use mathlib.Core.Option
use memkvin_c.Base.{
  Bytes, Key, Value, codes, bytes_eq, if◌then◌else◌, bytes_eq_refl, ◌+◌, ◌≡◌, ◌∙◌, refl, ap, sym,
  true, false, List, [], ◌∷◌, append-nil, Option, none, some, ℕ, ◌<◌, ◌^◌, length, u32, map, arith,
}
use memkvin_c.Crc.{Crc32c}
use memkvin_c.HashMap.{HashMap}
use memkvin_c.RecordMap
use memkvin_c.RecordMap.{RecordMap, Hint}
use memkvin_c.Stream.{Stream}
use memkvin_c.Record.{Found, read_all_record_from_file}
use memkvin_c.Record.Log.{Log, encode_all, founds}
use memkvin_c.Record.Kept.{file_of, read_all-file_of}
use memkvin_c.Record.Recovery.{log_recovered}
use memkvin_c.Disk.{Disk, DirEntry, input, exists, find_file, open_file, opened, closed}
use memkvin_c.Disk.Numbers.{number, stoul}
use memkvin_c.StableFile
use memkvin_c.StableFile.{StableFile}
use memkvin_c.Bitcask.Engine.{StableFiles, set_stable}
use memkvin_c.Bitcask.Restore.{
  done, throws, diverges, sort_entries, insert_entry, bytes_lt, found_stable, restore_entry,
  restore_entries,
}

-- A directory's entry whose name is a number, and whose file holds a log.
pub record Stored (c : Crc32c) (disk : Disk) : Type 0 where
  pub entry : DirEntry
  pub fd : ℕ
  pub log : Log
  pub name : stoul entry.name ≡ number fd
  pub bytes : find_file disk.files entry.file.path ≡ some (encode_all c log)
  pub fits : length (encode_all c log) < 2 ^ 32

-- The hint of a key behind the records of a file, which start at `at`.
unfoldable pub last_in : ℕ → ℕ → Log → Key → Option Hint → Option Hint
last_in fd at [] k o = o
last_in fd at ((key, value) ∷ log) k o = last_in fd (at + (12 + length key + length value)) log k (
    if bytes_eq key k
    then some (record { fd = fd; offset = at + 12 + length key; size = u32 (length value) })
    else o)

-- And behind those of several files.
abbrev pub last_hint :
    {c : Crc32c} {disk : Disk} → List (Stored c disk) → Key → Option Hint → Option Hint
last_hint [] k o = o
last_hint (f ∷ files) k o = last_hint files k (last_in (u32 f.fd) 0 f.log k o)

-- The whole result of a scan whose state is known.
scanned-some {ℓ} :
    {A : Type ℓ} (o : Option (A × Stream)) (a : A)
    → Option.map (λ (r : A × Stream). r.0) o ≡ some a
    → (s : Stream) × (o ≡ some (a, s))
scanned-some none a h = absurd (cc h)
scanned-some {A = A} (some (b, s)) a h = (s, ap (λ (t : A). some (t, s)) (inj h))
  where
    inj : some b ≡ some a → b ≡ a
    inj p = cc

sorted_two-ten :
    (two ten : DirEntry)
    → two.name ≡ codes "2.db"
    → ten.name ≡ codes "10.db"
    → sort_entries (two ∷ (ten ∷ [])) ≡ ten ∷ (two ∷ [])
unfolding sort_entries insert_entry bytes_lt
sorted_two-ten two ten n2 n10 = rw (n2, n10) refl

module _ (c : Crc32c) (disk : Disk) {hash : HashMap} where
  -- The index that the logs leave, one file after the other.
  abbrev replayed : RecordMap hash → List (Stored c disk) → RecordMap hash
  replayed records [] = records
  replayed records (f ∷ files) =
      replayed (foldl (found_stable c (u32 f.fd)) records (founds c 0 f.log)) files

  module _ (f : Stored c disk) (records : RecordMap hash) where
    abbrev s : Stream
    s = opened f.entry.file.path (encode_all c f.log) false

    there : exists disk f.entry.file.path ≡ true
    unfolding exists
    there = ap (λ (o : Option Bytes). elim o [ none ↦ false | some _ ↦ true ]) f.bytes

    input-opened : open_file disk f.entry.file.path input ≡ (disk, s)
    unfolding open_file
    input-opened =
        ap
          (λ (o : Option Bytes). elim o [
            | none ↦ (disk, closed f.entry.file.path)
            | some found ↦ (disk, opened f.entry.file.path found false)
          ])
          f.bytes

    callback : RecordMap hash → Found → RecordMap hash
    callback = found_stable c (u32 f.fd)

    scan :
        (s' : Stream) × (read_all_record_from_file c s callback records
          ≡ some (foldl callback records (founds c 0 f.log), s'))
    scan =
        scanned-some _ _ (
          log_recovered c callback f.log s [] records (sym (append-nil _)) refl f.fits
            (omega arith))

    restored :
        StableFile.restore c disk f.entry.file.path callback records
        ≡ some (foldl callback records (founds c 0 f.log), some scan.0)
    unfolding StableFile.restore
    restored =
        rw (there, input-opened)
          (λ i. elim (scan.1 i) [ none ↦ none | some (st, s') ↦ some (st, some s') ])

    scan-file_of : file_of scan.0 ≡ (f.entry.file.path, encode_all c f.log)
    scan-file_of = read_all-file_of c callback s scan.0 records _ scan.1

    -- One file is scanned: the index has its records, and the file is there for reading.
    pub entry-replayed :
        (files : StableFiles)
        → (s' : Stream) × (file_of s' ≡ (f.entry.file.path, encode_all c f.log))
          × (restore_entry c disk f.entry f.fd (records, files)
              ≡ some (
                foldl (found_stable c (u32 f.fd)) records (founds c 0 f.log),
                set_stable files (u32 f.fd) (record { file = some s' }),
              ))
    unfolding restore_entry callback StableFile.create
    entry-replayed files = (
      scan.0,
      scan-file_of,
      λ i. elim (restored i) [
        | none ↦ none
        | some (records', handler) ↦
            some (records', set_stable files (u32 f.fd) (StableFile.create handler))
      ],
    )

  pub restore_entries-cons :
      (entry : DirEntry) (entries : List DirEntry) (fd : ℕ)
      (state state' : RecordMap hash × StableFiles)
      → stoul entry.name ≡ number fd
      → restore_entry c disk entry fd state ≡ some state'
      → restore_entries c disk (entry ∷ entries) state ≡ restore_entries c disk entries state'
  unfolding restore_entries
  restore_entries-cons entry entries fd state state' e p =
      (λ i. elim (e i) [
        | number n ↦ elim (restore_entry c disk entry n state) [
          | none ↦ diverges
          | some next ↦ restore_entries c disk entries next
        ]
        | other ↦ throws other
      ])
      ∙ λ i. elim (p i) [ none ↦ diverges | some next ↦ restore_entries c disk entries next ]

  get-scanned :
      (fd at : ℕ) (log : Log) (records : RecordMap hash) (k : Key)
      → RecordMap.get (foldl (found_stable c fd) records (founds c at log)) k
        ≡ last_in fd at log k (RecordMap.get records k)
  unfolding founds found_stable last_in
  get-scanned fd at [] records k = refl
  get-scanned fd at ((key, value) ∷ log) records k =
      get-scanned fd (at + (12 + length key + length value)) log _ k
      ∙ ap (last_in fd (at + (12 + length key + length value)) log k)
          (RecordMap.get-put records key k _)

  get-replayed :
      (stored : List (Stored c disk)) (records : RecordMap hash) (k : Key)
      → RecordMap.get (replayed records stored) k ≡ last_hint stored k (RecordMap.get records k)
  get-replayed [] records k = refl
  get-replayed (f ∷ stored) records k =
      get-replayed stored _ k ∙ ap (last_hint stored k) (get-scanned (u32 f.fd) 0 f.log records k)

  entries_replayed :
      (stored : List (Stored c disk)) (records : RecordMap hash) (files : StableFiles)
      → (files' : StableFiles) × (restore_entries c disk
            (map (λ (f : Stored c disk). f.entry) stored)
            (records, files)
          ≡ done (replayed records stored, files'))
  unfolding restore_entries callback
  entries_replayed [] records files = (files, refl)
  entries_replayed (f ∷ stored) records files =
      let (_, _, p) = entry-replayed f records files in
      let (files', q) =
        entries_replayed stored (foldl (callback f records) records (founds c 0 f.log)) _ in
      (files', restore_entries-cons f.entry _ f.fd (records, files) _ f.name p ∙ q)

  -- Over entries whose names are numbers and whose files hold logs below 2^32 bytes, the last
  -- loop of RestoreStableMap ends without an exception, and leaves for every key the hint of its
  -- last record, the files taken in the order of the entries: the number of that record's file,
  -- the offset of its value in the file and the value's size; a key that has no record keeps the
  -- hint that it had before.
  pub restore_entries_replays :
      (stored : List (Stored c disk)) (records : RecordMap hash) (files : StableFiles)
      → (r : RecordMap hash) × (files' : StableFiles) × (restore_entries c disk
            (map (λ (f : Stored c disk). f.entry) stored)
            (records, files)
          ≡ done (r, files'))
        × ((k : Key) → RecordMap.get r k ≡ last_hint stored k (RecordMap.get records k))
  restore_entries_replays stored records files =
      let (files', p) = entries_replayed stored records files in
      (replayed records stored, files', p, get-replayed stored records)

  get-replayed_one :
      (f : Stored c disk) (key : Key) (value : Value) (records : RecordMap hash)
      → f.log ≡ (key, value) ∷ []
      → RecordMap.get (replayed records (f ∷ [])) key
        ≡ some (record { fd = u32 f.fd; offset = 12 + length key; size = u32 (length value) })
  unfolding founds found_stable
  get-replayed_one f key value records only =
      ap (λ log. RecordMap.get (foldl (found_stable c (u32 f.fd)) records (founds c 0 log)) key)
        only
      ∙ RecordMap.get-put records key key _
      ∙ rw (bytes_eq_refl key) refl

  -- Where the stable files are 2.db and 10.db and hold logs below 2^32 bytes, the index that
  -- RestoreStableMap leaves for the key of the one record of 2.db names 2.db, whatever the log of
  -- 10.db holds.
  pub older_file_wins :
      (two ten : Stored c disk) (key : Key) (value : Value) (records : RecordMap hash)
      (files : StableFiles)
      → two.entry.name ≡ codes "2.db"
      → ten.entry.name ≡ codes "10.db"
      → two.log ≡ (key, value) ∷ []
      → (r : RecordMap hash) × (files' : StableFiles) × (restore_entries c disk
            (sort_entries (two.entry ∷ (ten.entry ∷ [])))
            (records, files)
          ≡ done (r, files'))
        × (RecordMap.get r key
            ≡ some
                (record { fd = u32 two.fd; offset = 12 + length key; size = u32 (length value) }))
  older_file_wins two ten key value records files n2 n10 only =
      let (files', p) = entries_replayed (ten ∷ (two ∷ [])) records files in
      (
        replayed records (ten ∷ (two ∷ [])),
        files',
        ap (λ es. restore_entries c disk es (records, files))
              (sorted_two-ten two.entry ten.entry n2 n10)
            ∙ p,
        get-replayed_one two key value _ only,
      )
