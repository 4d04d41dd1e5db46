-- ===== src/Examples/Bounded.antt =====
-- A batch that fills a file and goes on in the next one.
use memkvin_c.Base.{◌≡◌, refl, false, List, [], ◌∷◌, ◌++◌, some, codes, arith}
use memkvin_c.Bitcask.Engine.{Engine, Write, commit_write, db_file}
use memkvin_c.Disk.{opened}
use memkvin_c.Bitcask.Fresh.{fresh}
use memkvin_c.Bitcask.Tickets.{promises}
use memkvin_c.Bitcask.Bounds.{IsBounded, commit_write-IsBounded}
use memkvin_c.Setting.{get_max_file_size, get_db_path}
use memkvin_c.Examples.Params.{rolling_crc, function_map, small_files, empty_disk}

abbrev start : Engine function_map
start = fresh function_map small_files empty_disk

abbrev batch : List Write
batch =
    record { key = codes "a"; value = codes "1"; promise = 0 }
    ∷ record { key = codes "b"; value = codes "2"; promise = 1 }
    ∷ record { key = codes "c"; value = codes "3"; promise = 2 }
    ∷ record { key = codes "a"; value = codes "4"; promise = 3 }
    ∷ []

commit_write-IsBounded_example :
    (e' : Engine function_map) × (commit_write rolling_crc start batch ≡ some e')
    × IsBounded start 14 e'.active_file
    × (e'.resolved ≡ start.resolved ++ promises batch)
unfolding get_max_file_size
commit_write-IsBounded_example =
    commit_write-IsBounded rolling_crc start 14 (omega arith) batch
      (record {
        stream = opened (db_file (get_db_path small_files) 0) [] false;
        active = refl;
        appending = record { at_end = refl; no_eof = refl; no_fail = refl };
        small = omega arith;
      })
      (λ p. refl) (omega arith, (omega arith, (omega arith, (omega arith, tt))))
