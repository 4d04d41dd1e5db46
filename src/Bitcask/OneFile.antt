-- ===== src/Bitcask/OneFile.antt =====
-- The engine that is made where the active file is there, and no other, whose scan finds a log.
use memkvin_c.Base.{
  Bytes, ◌≡◌, ◌∙◌, refl, ap, true, List, [], ◌∷◌, ◌++◌, append_assoc, some, ℕ, ◌<◌, ◌^◌, length,
  codes, b_slash, bytes_eq_refl, u32,
}
use memkvin_c.Crc.{Crc32c}
use memkvin_c.HashMap.{HashMap}
use memkvin_c.RecordMap
use memkvin_c.Setting.{Setting, get_db_path}
use memkvin_c.Record.Log.{encode_all}
use memkvin_c.Disk.{Disk, File, directory_entries, find_file, filename, has_slash}
use memkvin_c.Disk.Laws.{filename-slash}
use memkvin_c.Disk.Numbers.{stoul, to_string}
use memkvin_c.Bitcask.Engine.{Engine, Write, db_file, find_stable}
use memkvin_c.Bitcask.View.{Represents, apply_writes, empty_view}
use memkvin_c.Bitcask.Batch.{log_of}
use memkvin_c.Bitcask.Fresh.{zero-few}
use memkvin_c.Bitcask.LastFile.{make-last}
use memkvin_c.Bitcask.Scans.{ScansLog}
use memkvin_c.Bitcask.Restore.{
  done, make, max_fd, count_stable, restore_entries, sort_entries, stable_entries,
  restore_stable_map, get_active_path_in_dir,
}

module _ (c : Crc32c) (hash : HashMap) (setting : Setting ℕ) (disk : Disk) (dir : Bytes)
    (file : File) (ws : List Write) (tail : Bytes)
    (ending : get_db_path setting ≡ dir ++ b_slash ∷ [])
    (only : directory_entries disk (get_db_path setting)
      ≡ record { name = codes "0.db"; file = file } ∷ [])
    (regular : file.regular ≡ true)
    (bytes : find_file disk.files (db_file (get_db_path setting) 0)
      ≡ some (encode_all c (log_of ws) ++ tail))
    (fits : length (encode_all c (log_of ws)) < 2 ^ 32)
    (scans : ScansLog c hash 0 (db_file (get_db_path setting) 0) ws tail) where
  abbrev path : Bytes
  path = db_file (get_db_path setting) 0

  active_path : get_active_path_in_dir disk (get_db_path setting) ≡ path
  unfolding get_active_path_in_dir max_fd stoul to_string
  active_path = rw (only, regular) refl

  name : filename path ≡ codes "0.db"
  unfolding has_slash to_string
  name =
      ap filename (ap (λ p. db_file p 0) ending ∙ append_assoc dir (b_slash ∷ []) (codes "0.db"))
      ∙ filename-slash dir (codes "0.db") refl

  restore_stable_map-one :
      restore_stable_map c (get_db_path setting) disk (RecordMap.empty {hash = hash})
      ≡ done (RecordMap.empty, [])
  unfolding restore_stable_map restore_entries sort_entries stable_entries
  restore_stable_map-one = rw (active_path, name, only, regular, bytes_eq_refl (codes "0.db")) refl

  count_stable-one :
      ◌≡◌ {A = ℕ}
        (u32 (count_stable (filename path) (directory_entries disk (get_db_path setting))))
        0
  unfolding count_stable
  count_stable-one = rw (name, only, regular, bytes_eq_refl (codes "0.db")) refl

  pub make_one_file :
      (e : Engine hash) × (make c setting disk ≡ done e) × Represents e (apply_writes empty_view ws)
  unfolding find_stable
  make_one_file =
      let (e, p, rep, _) =
        make-last c hash setting disk RecordMap.empty [] path ws tail active_path count_stable-one
          restore_stable_map-one bytes fits scans empty_view
          (record {
            file = refl;
            appending = record { at_end = refl; no_eof = refl; no_fail = refl };
            is_open = refl;
            path = refl;
            few = zero-few;
            fresh = λ fd h. refl;
          })
          (λ k. rw (RecordMap.get-empty hash k) refl) in
      (e, p, rep)
