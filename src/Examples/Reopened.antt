-- ===== src/Examples/Reopened.antt =====
-- A database of one file whose last record was cut short.
use memkvin_c.Base.{◌≡◌, refl, true, List, bytes_eq, [], ◌∷◌, ◌++◌, take, codes, arith}
use memkvin_c.Record.{get_crc32}
use memkvin_c.Record.RoundTrip.{encode}
use memkvin_c.Record.Log.{encode_all}
use memkvin_c.Record.Recovery.{DetectsTorn}
use memkvin_c.Disk.{Disk, File, directory_entries, find_file, strip_prefix, has_slash}
use memkvin_c.Setting.{get_db_path, ensure_ending_slash}
use memkvin_c.Disk.Numbers.{to_string}
use memkvin_c.Bitcask.Engine.{Engine, Write}
use memkvin_c.Bitcask.View.{Represents, apply_writes, empty_view}
use memkvin_c.Bitcask.Batch.{log_of}
use memkvin_c.Bitcask.Restore.{done, make}
use memkvin_c.Bitcask.Reopen.{make_reopens}
use memkvin_c.Examples.Params.{rolling, rolling_crc, function_map, small_files}

abbrev writes : List Write
writes =
    record { key = codes "a"; value = codes "1"; promise = 0 }
    ∷ record { key = codes "b"; value = codes "2"; promise = 1 }
    ∷ []

abbrev cut_file : File
cut_file = record {
  path = codes "db/0.db";
  content =
      encode_all rolling_crc (log_of writes)
      ++ take 13 (encode rolling_crc (codes "a") (codes "3"));
  regular = true;
}

abbrev cut_disk : Disk
cut_disk = record { files = cut_file ∷ []; creatable = λ _. true }

detects : DetectsTorn rolling_crc (codes "a") (codes "3")
unfolding get_crc32 rolling
detects = record { no_body = λ _. omega arith; no_value = λ _. omega arith }

cut_file_reopens :
    (e : Engine function_map) × (make rolling_crc small_files cut_disk ≡ done e)
    × Represents e (apply_writes empty_view writes)
unfolding directory_entries find_file strip_prefix has_slash get_db_path ensure_ending_slash
    to_string encode_all encode bytes_eq
cut_file_reopens =
    make_reopens rolling_crc function_map small_files cut_disk (codes "db") cut_file writes
      (codes "a") (codes "3") 13 refl refl refl refl (omega arith) (omega arith) detects
