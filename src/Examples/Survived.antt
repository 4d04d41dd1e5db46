-- ===== src/Examples/Survived.antt =====
-- A Put that rotates the file while the worker holds two writes, and the database closed and opened again
-- behind it.
use memkvin_c.Base.{
  ◌≡◌, refl, [], ◌∷◌, ◌++◌, some, ℕ, zero, suc, ◌<◌, ◌^◌, codes, arith, bytes_eq, false,
}
use memkvin_c.Setting.{get_db_path, get_max_file_size}
use memkvin_c.Record.Log.{encode_all}
use memkvin_c.Disk.{Disk, find_file, put_file, opened}
use memkvin_c.Disk.Numbers.{to_string}
use memkvin_c.Bitcask.Engine.{Engine, visible, db_file}
use memkvin_c.Bitcask.View.{Represents, apply_writes, update}
use memkvin_c.Bitcask.Restore.{done}
use memkvin_c.Bitcask.Worker.{Pc, committing, testing, swapping, held}
use memkvin_c.Bitcask.Logs.{Logs, log_size, add_write, add_writes, view_of}
use memkvin_c.Bitcask.Fitting.{AllFit}
use memkvin_c.Bitcask.Api
use memkvin_c.Bitcask.Api.{Database}
use memkvin_c.Bitcask.Shutdown.{destroy}
use memkvin_c.Bitcask.Durable.{IsDurable}
use memkvin_c.Bitcask.Survives.{put_survives, logs_behind}
use memkvin_c.Examples.Params.{rolling_crc, function_map, small_files}
use memkvin_c.Examples.Calls.{start, not_left}
use memkvin_c.Examples.Closed.{one-IsListed, second, first}

abbrev no_writes : Logs
no_writes = record { last = 0; writes = λ _. [] }

-- The worker holds two writes.
abbrev holding : Engine function_map
holding = record start { next_promise = 2 }

abbrev pc : Pc
pc = committing (first ∷ second ∷ [])

holding-IsDurable : IsDurable rolling_crc holding no_writes
unfolding find_file put_file get_db_path to_string encode_all bytes_eq
holding-IsDurable = record {
  stream = opened (db_file (get_db_path small_files) 0) [] false;
  is_active = refl;
  appending = record { at_end = refl; no_eof = refl; no_fail = refl };
  is_open = refl;
  path = refl;
  content = refl;
  on_disk = record {
    listed = one-IsListed;
    closed = λ i less. absurd (omega arith);
    old = [];
    there = refl;
    creatable = λ i few. refl;
  };
  handles = tt;
  count = refl;
}

rotated-AllFit : AllFit (logs_behind rolling_crc holding pc no_writes (codes "c") (codes "3"))
unfolding add_writes add_write get_max_file_size
rotated-AllFit = record { few = omega arith; sizes = λ i le. sizes i }
  where
    sizes :
        (i : ℕ)
        → log_size ((logs_behind rolling_crc holding pc no_writes (codes "c") (codes "3")).writes i)
          < 2 ^ 32
    sizes zero = omega arith
    sizes (suc i) = ground arith

put_survives_example :
    (e1 : Engine function_map) × (Api.put rolling_crc (holding, pc) (codes "c") (codes "3")
      ≡ some (e1, testing))
    × IsDurable rolling_crc e1
        (logs_behind rolling_crc holding pc no_writes (codes "c") (codes "3"))
    × (d : Disk) × (destroy rolling_crc (e1, testing) ≡ some d)
    × (e2 : Engine function_map) × (Api.create rolling_crc small_files d ≡ done (e2, swapping))
    × Represents e2
        (update (apply_writes (view_of no_writes) (held pc ++ [])) (codes "c") (codes "3"))
    × (s : Database function_map) × (Api.get (e2, swapping) (codes "c")
        ≡ some (visible (codes "3"), s))
unfolding get_db_path
put_survives_example =
    put_survives rolling_crc holding pc no_writes (codes "c") (codes "3") (codes "db")
      (not_left (first ∷ second ∷ [])) refl holding-IsDurable refl refl rotated-AllFit
