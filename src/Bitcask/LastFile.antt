-- ===== src/Bitcask/LastFile.antt =====
-- What the constructor makes of the active file, behind the stable files.
use mathlib.Core.List.{foldl}
use mathlib.Core.Option
use memkvin_c.Base.{
  Bytes, Key, ◌≡◌, ◌∙◌, refl, ap, sym, true, false, List, [], ◌∷◌, ◌++◌, Option, none, some, ℕ, suc,
  ◌<◌, ◌^◌, length, arith, u32,
}
use memkvin_c.Crc.{Crc32c}
use memkvin_c.HashMap.{HashMap}
use memkvin_c.ActiveMap
use memkvin_c.RecordMap
use memkvin_c.RecordMap.{Hint}
use memkvin_c.Setting.{Setting, get_db_path}
use memkvin_c.Stream.{Stream}
use memkvin_c.Record.Log.{encode_all, founds}
use memkvin_c.Record.Recovery.{scanned}
use memkvin_c.Disk.{
  Disk, input, append, directory_entries, exists, find_file, filename, open_file, make_file, opened,
  closed,
}
use memkvin_c.ActiveFile
use memkvin_c.ActiveFile.{handler_of}
use memkvin_c.Bitcask.Engine.{StableFiles, active_fd, Engine, Write, publish, publish_one}
use memkvin_c.Bitcask.View.{View, Shows, Represents, IsStored, apply_writes}
use memkvin_c.Bitcask.Batch.{log_of, hints_at, active_of}
use memkvin_c.Bitcask.Publish.{publish-Represents, AllPlaced}
use memkvin_c.Bitcask.Commit.{publish-frame}
use memkvin_c.Bitcask.Frame.{reframe}
use memkvin_c.Bitcask.Placed.{AllPlaced-active, hints_at-AllIn, zero-leb}
use memkvin_c.Bitcask.Scans.{ScansLog}
use memkvin_c.Bitcask.Restore.{
  Maps, done, make, count_stable, start, started, found_active, restore_stable_map,
  restore_active_map, get_active_path_in_dir,
}

module _ {hash : HashMap} where
  abbrev maps_of : Engine hash → Maps hash
  maps_of e = record { records = e.record_map; active = e.active_map }

  -- The callback of the scan does what a round of CommitWrite does for a record in the active file.
  foldl-found_active :
      (c : Crc32c) (fd : ℕ) (ws : List Write) (e : Engine hash) (at i : ℕ)
      → foldl (found_active c fd) (maps_of e) (founds c at (log_of ws))
        ≡ maps_of (publish e 0 i ws (hints_at fd at ws))
  unfolding founds publish found_active publish_one
  foldl-found_active c fd [] e at i = refl
  foldl-found_active c fd (w ∷ ws) e at i = rw (zero-leb i) (foldl-found_active c fd ws _ _ (suc i))

  publish-rest :
      (ws : List Write) (e : Engine hash) (last i : ℕ) (hints : List Hint)
      → publish e last i ws hints ≡ record e {
        active_map = (publish e last i ws hints).active_map;
        record_map = (publish e last i ws hints).record_map;
        resolved = (publish e last i ws hints).resolved;
      }
  unfolding publish publish_one
  publish-rest [] e last i hints = refl
  publish-rest (w ∷ ws) e last i [] = refl
  publish-rest (w ∷ ws) e last i (hint ∷ hints) = publish-rest ws _ last (suc i) hints

  -- An engine that was just made: its worker has done nothing yet.
  pub record IsStarted (e : Engine hash) (setting : Setting ℕ) (disk : Disk) (files : StableFiles)
      (stream : Stream) : Type 0 where
    pub running : e.running ≡ true
    pub setting_same : e.setting ≡ setting
    pub disk_same : e.disk ≡ disk
    pub stable_files : e.stable_files ≡ files
    pub active_file : e.active_file ≡ active_of stream
    pub writes : e.writes ≡ []
    pub next : e.next_promise ≡ 0
    pub resolved : e.resolved ≡ []

  forget : Engine hash → Engine hash
  forget e = record e { resolved = [] }

  forget-Represents : {e : Engine hash} {m : View} → Represents e m → Represents (forget e) m
  unfolding forget
  forget-Represents {e} rep = reframe e e.writes e.next_promise [] rep

-- A scan that leaves a state, and what is done with the state.
scan-done {ℓ ℓ'} :
    {A : Type ℓ} {B : Type ℓ'} (o : Option (A × Stream)) (a : A) (f : A → B)
    → Option.map (λ (r : A × Stream). r.0) o ≡ some a
    → elim o as (λ _. Option B) [ none ↦ none | some (st, _) ↦ some (f st) ] ≡ some (f a)
scan-done none a f h = cc
scan-done (some (st, _)) a f h = ap (Option.map f) h

module _ (c : Crc32c) (hash : HashMap) (setting : Setting ℕ) (disk : Disk)
    (records : RecordMap.RecordMap hash) (files : StableFiles) (path : Bytes) (ws : List Write)
    (tail : Bytes) (active_path : get_active_path_in_dir disk (get_db_path setting) ≡ path)
    (count : u32 (count_stable (filename path) (directory_entries disk (get_db_path setting)))
      ≡ active_fd files)
    (stable : restore_stable_map c (get_db_path setting) disk (RecordMap.empty {hash = hash})
      ≡ done (records, files))
    (bytes : find_file disk.files path ≡ some (encode_all c (log_of ws) ++ tail))
    (fits : length (encode_all c (log_of ws)) < 2 ^ 32)
    (scans : ScansLog c hash (active_fd files) path ws tail) where
  abbrev content : Bytes
  content = encode_all c (log_of ws) ++ tail

  abbrev pub active : Stream
  active = opened path content true

  -- The engine before the scan of the active file, and behind it.
  abbrev pub blank : Engine hash
  blank = record {
    running = true;
    setting = setting;
    active_map = ActiveMap.empty;
    record_map = records;
    writes = [];
    stable_files = files;
    active_file = active_of active;
    disk = disk;
    next_promise = 0;
    resolved = [];
  }

  abbrev fd : ℕ
  fd = active_fd files

  abbrev hints : List Hint
  hints = hints_at fd 0 ws

  filled : Engine hash
  filled = publish blank 0 0 ws hints

  there : exists disk path ≡ true
  unfolding exists
  there = ap (λ (o : Option Bytes). elim o [ none ↦ false | some _ ↦ true ]) bytes

  input-opened : open_file disk path input ≡ (disk, opened path content false)
  unfolding open_file
  input-opened =
      ap
        (λ (o : Option Bytes). elim o [
          | none ↦ (disk, closed path)
          | some found ↦ (disk, opened path found false)
        ])
        bytes

  append-opened : open_file disk path append ≡ (disk, active)
  unfolding open_file
  append-opened =
      ap
        (λ (o : Option Bytes). elim o [
          | none ↦ make_file disk path true
          | some found ↦ (disk, opened path found true)
        ])
        bytes

  recovered :
      scanned c (found_active c fd) (opened path content false) (maps_of blank)
      ≡ some (maps_of filled)
  unfolding filled
  recovered = scans (maps_of blank) ∙ ap some (foldl-found_active c fd ws blank 0 0)

  restored :
      ActiveFile.restore c disk path (found_active c fd) (maps_of blank)
      ≡ some (maps_of filled, disk, some active)
  unfolding ActiveFile.restore
  restored =
      rw (there, input-opened)
        (scan-done _ (maps_of filled)
            (λ st. with_handler st (open_file (open_file disk path input).0 path append)) recovered
          ∙ ap
              (λ (o : Disk × Stream).
                some (with_handler (maps_of filled) (open_file o.0 path append)))
              input-opened
          ∙ ap (λ (o : Disk × Stream). some (with_handler (maps_of filled) o)) append-opened)
    where
      with_handler : Maps hash → Disk × Stream → Maps hash × Disk × Option Stream
      with_handler st o = let (d, h) = handler_of o in (st, d, h)

  restore_active_map-last :
      restore_active_map c (get_db_path setting) (maps_of blank) disk
      ≡ done (maps_of filled, disk, active_of active, true)
  unfolding restore_active_map count_stable ActiveFile.create
  restore_active_map-last = rw (active_path, there, count, restored) refl

  made : make c setting disk ≡ done (forget filled)
  unfolding make start started forget filled publish
  made =
      rw (stable, restore_active_map-last)
        (ap done (sym (ap forget (publish-rest ws blank 0 0 hints))))

  placed : AllPlaced blank active 0 0 ws hints
  placed =
      AllPlaced-active blank active ws 0 0
        (hints_at-AllIn c fd ws [] tail 0 refl (omega (arith, fits)))

  filled-IsStarted : IsStarted (forget filled) setting disk files active
  unfolding filled forget
  filled-IsStarted =
      let (file, running, same, on_disk, stables, writes, next) =
        publish-frame ws blank 0 0 hints in
      record {
        running = running;
        setting_same = same;
        disk_same = on_disk;
        stable_files = stables;
        active_file = file;
        writes = writes;
        next = next;
        resolved = refl;
      }

  -- The constructor, where the stable files have been read: it does not throw, and the records of the
  -- active file come on top of what they hold.
  pub make-last :
      (m : View)
      → IsStored blank active
      → ((k : Key) → Shows blank active k (RecordMap.get records k) (m k))
      → (e : Engine hash) × (make c setting disk ≡ done e)
        × Represents e (apply_writes m ws)
        × IsStarted e setting disk files active
  unfolding filled
  make-last m stored shows = (
    forget filled,
    made,
    forget-Represents ((publish-Represents ws blank active m 0 0 hints stored shows placed).0),
    filled-IsStarted,
  )
