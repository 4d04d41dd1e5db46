-- ===== src/Bitcask/Restart.antt =====
-- The engine that is made over the files 0.db to n.db, for an n below ten.
use mathlib.Core.List.{Perm}
use memkvin_c.Base.{
  Bytes, Key, Value, ◌≡◌, ◌∙◌, inr, refl, ap, sym, true, List, [], ◌∷◌, ◌++◌, append_assoc,
  append-nil, Option, none, some, ℕ, suc, ◌<◌, ◌^◌, length, map, b_slash, u32, arith,
}
use memkvin_c.Crc.{Crc32c}
use memkvin_c.HashMap.{HashMap}
use memkvin_c.RecordMap
use memkvin_c.RecordMap.{RecordMap, Hint}
use memkvin_c.Setting.{Setting, get_db_path}
use memkvin_c.Stream.{Stream}
use memkvin_c.Record.Log.{encode_all}
use memkvin_c.Disk.Laws.{filename-slash}
use memkvin_c.Disk.Names.{file_name, has_slash-file_name}
use memkvin_c.Bitcask.Engine.{Engine, StableFiles, Write, active_fd, db_file}
use memkvin_c.Bitcask.View.{Represents, IsStored, Shows}
use memkvin_c.Bitcask.Batch.{log_of}
use memkvin_c.Bitcask.Numbers.{countdown, upto}
use memkvin_c.Bitcask.Logs.{apply_files}
use memkvin_c.Bitcask.Restored.{HoldsLog, Restores, restore_first, u32-digit}
use memkvin_c.Bitcask.Listed.{entry, max_fd-all, count_stable-all, sort_entries-all}
use memkvin_c.Bitcask.Loaded.{IsLoaded, Shown}
use memkvin_c.Disk.{Disk, File, directory_entries, find_file, filename, opened}
use memkvin_c.Bitcask.Handles.{HoldsFrom}
use memkvin_c.Bitcask.LastFile.{IsStarted, active, blank, make-last}
use memkvin_c.Bitcask.Scans.{ScansLog}
use memkvin_c.Bitcask.Restore.{
  done, make, sort_entries, stable_entries, max_fd, count_stable, restore_entries,
  restore_stable_map, get_active_path_in_dir,
}

module _ (c : Crc32c) (disk : Disk) (files : ℕ → File) (writes : ℕ → List Write) where
  -- The directory holds 0.db to n.db, listed in some order.
  module _ (hash : HashMap) (setting : Setting ℕ) (dir : Bytes)
      (regular : (i : ℕ) → (files i).regular ≡ true) (n : ℕ) (small : n < 10) (ns : List ℕ)
      (order : Perm ns (countdown (suc n))) (ending : get_db_path setting ≡ dir ++ b_slash ∷ [])
      (listed : directory_entries disk (get_db_path setting) ≡ map (entry files regular) ns) where
    abbrev path : Bytes
    path = db_file (get_db_path setting) n

    active_path : get_active_path_in_dir disk (get_db_path setting) ≡ path
    unfolding get_active_path_in_dir
    active_path =
        ap (λ l. db_file (get_db_path setting) (max_fd 0 l)) listed
        ∙ ap (db_file (get_db_path setting)) (max_fd-all files regular n small order)

    name : filename path ≡ file_name n
    name =
        ap filename (ap (λ p. db_file p n) ending ∙ append_assoc dir (b_slash ∷ []) (file_name n))
        ∙ filename-slash dir (file_name n) (has_slash-file_name n small)

    count : u32 (count_stable (filename path) (directory_entries disk (get_db_path setting))) ≡ n
    count =
        ap (λ l. u32 (count_stable (filename path) l)) listed
        ∙ ap (λ b. u32 (count_stable b (map (entry files regular) ns))) name
        ∙ ap u32 (count_stable-all files regular n small order)
        ∙ u32-digit n small

    stables_restored :
        (records : RecordMap hash) (stables : StableFiles)
        → restore_entries c disk (map (entry files regular) (upto n) ++ []) (RecordMap.empty, [])
          ≡ restore_entries c disk [] (records, stables)
        → restore_stable_map c (get_db_path setting) disk RecordMap.empty ≡ done (records, stables)
    unfolding restore_stable_map restore_entries
    stables_restored records stables p =
        ap
          (λ b.
            restore_entries c disk
              (sort_entries
                (stable_entries (filename b) (directory_entries disk (get_db_path setting))))
              (RecordMap.empty, []))
          active_path
        ∙ ap
            (λ b.
              restore_entries c disk
                (sort_entries (stable_entries b (directory_entries disk (get_db_path setting))))
                (RecordMap.empty, []))
            name
        ∙ ap
            (λ l.
              restore_entries c disk (sort_entries (stable_entries (file_name n) l))
                (RecordMap.empty, []))
            listed
        ∙ ap (λ l. restore_entries c disk l (RecordMap.empty, []))
            (sort_entries-all files regular n small order ∙ sym (append-nil _))
        ∙ p

    -- The scan of n.db finds the records of its writes.
    module _ (tail : Bytes) (holds : (i : ℕ) → i < n → HoldsLog c disk files writes i)
        (bytes : find_file disk.files path ≡ some (encode_all c (log_of (writes n)) ++ tail))
        (log_fits : length (encode_all c (log_of (writes n))) < 2 ^ 32)
        (scans : (fd : ℕ) → ScansLog c hash fd path (writes n) tail) where
      module _ (records : RecordMap hash) (stables : StableFiles)
          (loaded : IsLoaded c n records stables (apply_files writes n))
          (restored : restore_stable_map c (get_db_path setting) disk RecordMap.empty
            ≡ done (records, stables)) where
        count_loaded :
            u32 (count_stable (filename path) (directory_entries disk (get_db_path setting)))
            ≡ active_fd stables
        count_loaded = count ∙ sym (u32-digit n small) ∙ ap u32 (sym loaded.count)

        abbrev e0 : Engine hash
        e0 =
            blank c hash setting disk records stables path (writes n) tail active_path count_loaded
              restored bytes log_fits (scans (active_fd stables))

        abbrev s0 : Stream
        s0 =
            active c hash setting disk records stables path (writes n) tail active_path count_loaded
              restored bytes log_fits (scans (active_fd stables))

        blank-IsStored : IsStored e0 s0
        blank-IsStored = record {
          file = refl;
          appending = record { at_end = refl; no_eof = refl; no_fail = refl };
          is_open = refl;
          path = ap (db_file (get_db_path setting)) (sym loaded.count);
          few = omega (arith, loaded.count);
          fresh = λ fd more. loaded.fresh fd (omega (arith, loaded.count));
        }

        blank-Shows :
            (k : Key) (found : Option Hint) (o : Option Value)
            → Shown stables found o
            → Shows e0 s0 k found o
        blank-Shows k none o h = h
        blank-Shows k (some hint) o (v, p, kept) = (
          v,
          p,
          inr (record { stream = kept.stream; found = kept.found; in_file = kept.in_file }),
        )

        made_loaded :
            (e : Engine hash) × (make c setting disk ≡ done e)
            × Represents e (apply_files writes (suc n))
            × IsStarted e setting disk stables s0
        made_loaded =
            make-last c hash setting disk records stables path (writes n) tail active_path
              count_loaded restored bytes log_fits (scans (active_fd stables))
              (apply_files writes n) blank-IsStored
              (λ k. blank-Shows k (RecordMap.get records k) _ (loaded.shown k))

      pub make_scanned :
          (e : Engine hash) × (make c setting disk ≡ done e)
          × Represents e (apply_files writes (suc n))
          × (stables : StableFiles) × IsStarted e setting disk stables
              (opened path (encode_all c (log_of (writes n)) ++ tail) true)
          × HoldsFrom c (λ i. (files i).path) writes 0 stables
          × (length stables ≡ n)
      unfolding Restores
      make_scanned =
          let (records, stables, p, loaded, handles) =
            restore_first c disk files writes regular hash n [] (omega arith) holds in
          let (e, made, rep, started) =
            made_loaded records stables loaded (stables_restored records stables p) in
          (e, made, rep, stables, started, handles, loaded.count)
