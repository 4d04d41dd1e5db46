-- ===== src/Bitcask/Ends.antt =====
-- The scans of the constructor end, whatever the bytes of the files are.
use memkvin_c.Base.{
  Bytes, ◌≡◌, refl, subst, ap, sym, Bool, true, false, not, ◌||◌, Option, none, some, ℕ, u32, ◌<◌,
  ◌^◌, length, if◌then◌else◌,
}
use memkvin_c.Crc.{Crc32c}
use memkvin_c.HashMap.{HashMap}
use memkvin_c.RecordMap.{RecordMap}
use memkvin_c.Disk.{
  Disk, DirEntry, directory_entries, exists, filename, find_file, open_file, input, append, opened,
  closed,
}
use memkvin_c.Stream.{Stream, good}
use memkvin_c.Record.{Found, read_all_record_from_file}
use memkvin_c.Record.Total.{read_all_total}
use memkvin_c.StableFile
use memkvin_c.ActiveFile
use memkvin_c.ActiveFile.{ActiveFile, handler_of}
use memkvin_c.Bitcask.Engine.{StableFiles, set_stable}
use memkvin_c.Bitcask.Restore.{
  Outcome, done, diverges, Maps, restore_entry, restore_active_map, get_active_path_in_dir,
  found_active, found_stable, count_stable,
}

-- A test that passes over what might not end.
if_some :
    {A : Type 0} (b : Bool) (x : A) (q : Option A)
    → (b ≡ false → (r : A) × (q ≡ some r))
    → (r : A) × ((if b then some x else q) ≡ some r)
if_some true x q h = (x, refl)
if_some false x q h = h refl

if_then :
    {A : Type 0} (b : Bool) (x : A) (q : Option A)
    → (b ≡ true → (r : A) × (q ≡ some r))
    → (r : A) × ((if b then q else some x) ≡ some r)
if_then true x q h = h refl
if_then false x q h = (x, refl)

if_done :
    {A : Type 0} (b : Bool) (x : A) (o : Outcome A)
    → (r : A) × (o ≡ done r)
    → (r : A) × ((if b then o else done x) ≡ done r)
if_done true x o h = h
if_done false x o h = (x, refl)

open_of :
    (there is_open fine : Bool) → not there || (not is_open || not fine) ≡ false → is_open ≡ true
open_of true true fine h = refl
open_of true false fine h = absurd (cc h)
open_of false is_open fine h = absurd (cc h)

module _ (c : Crc32c) (hash : HashMap) (disk : Disk)
    (sizes : (path content : Bytes)
      → find_file disk.files path ≡ some content
      → length content < 2 ^ 32) where
  abbrev State : Type 0
  State = RecordMap hash × StableFiles

  -- A file that was opened is scanned to its end.
  scan_ends :
      {S : Type 0} (callback : S → Found → S) (st : S) (path : Bytes)
      → (open_file disk path input).1.is_open ≡ true
      → (r : S × Stream) × (read_all_record_from_file c (open_file disk path input).1 callback st
          ≡ some r)
  unfolding open_file
  scan_ends {S} callback st path = there (find_file disk.files path) refl
    where
      Ends : Disk × Stream → Type 0
      Ends t =
          t.1.is_open ≡ true
          → (r : S × Stream) × (read_all_record_from_file c t.1 callback st ≡ some r)

      there : (o : Option Bytes) → find_file disk.files path ≡ o → Ends (open_file disk path input)
      there none e =
          subst Ends
            (sym (
              ap
                (λ o. elim o as (λ _. Disk × Stream) [
                  | none ↦ (disk, closed path)
                  | some content ↦ (disk, opened path content false)
                ])
                e))
            (λ h. absurd (cc h))
      there (some content) e =
          subst Ends
            (sym (
              ap
                (λ o. elim o as (λ _. Disk × Stream) [
                  | none ↦ (disk, closed path)
                  | some content ↦ (disk, opened path content false)
                ])
                e))
            (λ h.
              read_all_total c callback (opened path content false) st refl (sizes path content e))

  stable_ends :
      {S : Type 0} (callback : S → Found → S) (st : S) (path : Bytes)
      → (r : S × Option Stream) × (StableFile.restore c disk path callback st ≡ some r)
  unfolding StableFile.restore
  stable_ends callback st path =
      let file = (open_file disk path input).1 in
      if_some (not (exists disk path) || (not file.is_open || not (good file))) (st, none) _
        (λ e.
          let (r, p) =
            scan_ends callback st path (open_of (exists disk path) file.is_open (good file) e) in
          ((r.0, some r.1), λ i. elim (p i) [ none ↦ none | some (st', s) ↦ some (st', some s) ]))

  pub restore_entry_ends :
      (a : DirEntry) (state : State) (n : ℕ)
      → (s : State) × (restore_entry c disk a n state ≡ some s)
  unfolding restore_entry
  restore_entry_ends a (records, files) n =
      let (r, p) = stable_ends (found_stable c (u32 n)) records a.file.path in
      (
        _,
        λ i. elim (p i) [
          | none ↦ none
          | some (records', handler) ↦
              some (records', set_stable files (u32 n) (StableFile.create handler))
        ],
      )

  active_ends :
      (callback : Maps hash → Found → Maps hash) (maps : Maps hash) (path : Bytes)
      → (r : Maps hash × Disk × Option Stream) × (ActiveFile.restore c disk path callback maps
          ≡ some r)
  unfolding ActiveFile.restore
  active_ends callback maps path =
      if_then (exists disk path) (maps, disk, none) _
        (λ there.
          if_then (open_file disk path input).1.is_open (maps, (open_file disk path input).0, none)
            _
            (λ o.
              let (r, p) = scan_ends callback maps path o in
              (
                _,
                λ i. elim (p i) [
                  | none ↦ none
                  | some (st', _) ↦
                      let (disk2, handler) =
                        handler_of (open_file (open_file disk path input).0 path append) in
                      some (st', disk2, handler)
                ],
              )))

  pub restore_active_map_ends :
      (db : Bytes) (maps : Maps hash)
      → (r : Maps hash × Disk × Option ActiveFile × Bool) × (restore_active_map c db maps disk
          ≡ done r)
  unfolding restore_active_map
  restore_active_map_ends db maps =
      let path = get_active_path_in_dir disk db in
      let fd = u32 (count_stable (filename path) (directory_entries disk db)) in
      let (r, p) = active_ends (found_active c fd) maps path in
      if_done (exists disk path) _ _ (
        _,
        λ i. elim (p i) [
          | none ↦ diverges
          | some (maps', disk', handler) ↦
              done (maps', disk', some (ActiveFile.create handler), true)
        ],
      )
