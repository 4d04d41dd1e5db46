-- ===== src/Bitcask/Fresh.antt =====
-- The engine that is made where there is no database yet.
use memkvin_c.Base.{Bytes, ◌≡◌, refl, ap, false, true, [], some, ℕ, ◌<◌, ◌^◌, arith}
use memkvin_c.Crc.{Crc32c}
use memkvin_c.HashMap.{HashMap}
use memkvin_c.ActiveMap
use memkvin_c.RecordMap
use memkvin_c.Setting.{Setting, get_db_path}
use memkvin_c.Disk.{Disk, directory_entries, exists, opened, put_file}
use memkvin_c.Disk.Laws.{open_file-truncate}
use memkvin_c.ActiveFile
use memkvin_c.Bitcask.Engine.{Engine, db_file, find_stable}
use memkvin_c.Bitcask.View.{Represents, empty_view}
use memkvin_c.Bitcask.Restore.{
  Maps, done, make, max_fd, restore_entries, sort_entries, stable_entries, restore_stable_map,
  restore_active_map, get_active_path_in_dir,
}

abbrev empty_maps : (hash : HashMap) → Maps hash
empty_maps hash = record { records = RecordMap.empty; active = ActiveMap.empty }

pub zero-few : 0 < 2 ^ 32
zero-few = omega arith

module _ (hash : HashMap) (setting : Setting ℕ) (disk : Disk) where
  abbrev first_path : Bytes
  first_path = db_file (get_db_path setting) 0

  -- The engine that the constructor makes.
  abbrev pub fresh : Engine hash
  fresh = record {
    running = true;
    setting = setting;
    active_map = ActiveMap.empty;
    record_map = RecordMap.empty;
    writes = [];
    stable_files = [];
    active_file = some (record { file = some (opened first_path [] false) });
    disk = record disk { files = put_file disk.files first_path [] };
    next_promise = 0;
    resolved = [];
  }

  unfoldable pub fresh-Represents : Represents fresh empty_view
  unfolding find_stable zero-few
  fresh-Represents = record {
    active = opened first_path [] false;
    stored = record {
      file = refl;
      appending = record { at_end = refl; no_eof = refl; no_fail = refl };
      is_open = refl;
      path = refl;
      few = zero-few;
      fresh = λ fd h. refl;
    };
    shows = λ k. rw (RecordMap.get-empty hash k) refl;
  }

module _ (c : Crc32c) (hash : HashMap) (setting : Setting ℕ) (disk : Disk) where
  active_path_empty :
      directory_entries disk (get_db_path setting) ≡ []
      → get_active_path_in_dir disk (get_db_path setting) ≡ db_file (get_db_path setting) 0
  unfolding get_active_path_in_dir
  active_path_empty empty = ap (λ es. db_file (get_db_path setting) (max_fd 0 es)) empty

  restore_stable_map-empty :
      directory_entries disk (get_db_path setting) ≡ []
      → restore_stable_map c (get_db_path setting) disk (RecordMap.empty {hash = hash})
        ≡ done (RecordMap.empty, [])
  unfolding restore_stable_map restore_entries sort_entries stable_entries
  restore_stable_map-empty empty = rw empty

  restore_active_map-empty :
      directory_entries disk (get_db_path setting) ≡ []
      → exists disk (db_file (get_db_path setting) 0) ≡ false
      → disk.creatable (db_file (get_db_path setting) 0) ≡ true
      → restore_active_map c (get_db_path setting) (empty_maps hash) disk
        ≡ done (
          (empty_maps hash),
          (fresh hash setting disk).disk,
          (fresh hash setting disk).active_file,
          true,
        )
  unfolding restore_active_map ActiveFile.create_path
  restore_active_map-empty empty absent made = rw (
    active_path_empty empty,
    absent,
    open_file-truncate disk (db_file (get_db_path setting) 0) made,
  )

  pub make_fresh :
      directory_entries disk (get_db_path setting) ≡ []
      → exists disk (db_file (get_db_path setting) 0) ≡ false
      → disk.creatable (db_file (get_db_path setting) 0) ≡ true
      → make c setting disk ≡ done (fresh hash setting disk)
  unfolding make
  make_fresh empty absent made =
      rw (restore_stable_map-empty empty) (rw (restore_active_map-empty empty absent made) refl)

  -- Where the directory holds no file and the first file can be made, the constructor returns an
  -- engine that stands for the empty map.
  pub make-Represents :
      directory_entries disk (get_db_path setting) ≡ []
      → exists disk (db_file (get_db_path setting) 0) ≡ false
      → disk.creatable (db_file (get_db_path setting) 0) ≡ true
      → (e : Engine hash) × (make c setting disk ≡ done e) × Represents e empty_view
  make-Represents empty absent made =
      (fresh hash setting disk, make_fresh empty absent made, fresh-Represents hash setting disk)
