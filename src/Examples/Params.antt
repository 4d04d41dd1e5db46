-- ===== src/Examples/Params.antt =====
-- A checksum, a hash map, a setting and a disk.
use memkvin_c.Base.{
  Bytes, Key, refl, true, [], ◌∷◌, Option, none, some, ℕ, ◌+◌, ◌*◌, ◌%◌, ◌^◌, ◌<◌, bytes_eq, codes,
  if◌then◌else◌, arith,
}
use memkvin_c.Crc.{Crc32c}
use memkvin_c.HashMap.{HashMap}
use memkvin_c.Setting.{Setting}
use memkvin_c.Disk.{Disk}

unfoldable pub rolling : ℕ → Bytes → ℕ
rolling crc [] = crc % 2 ^ 32
rolling crc (b ∷ bytes) = rolling ((crc * 31 + b + 1) % 2 ^ 32) bytes

pub rolling_fits : (crc : ℕ) (bytes : Bytes) → rolling crc bytes < 2 ^ 32
unfolding rolling
rolling_fits crc [] = omega arith
rolling_fits crc (b ∷ bytes) = rolling_fits ((crc * 31 + b + 1) % 2 ^ 32) bytes

abbrev pub rolling_crc : Crc32c
rolling_crc = record { extend = rolling; extend_fits = rolling_fits }

-- A map as the function that finds.
abbrev pub function_map : HashMap
function_map = record {
  Map = λ V. Key → Option V;
  empty = λ V k. none;
  find = λ V m k. m k;
  insert_or_assign = λ V m k v j. if bytes_eq k j then some v else m j;
  erase = λ V m k j. if bytes_eq k j then none else m j;
  clear = λ V m k. none;
  find-empty = λ V k. refl;
  find-insert_or_assign = λ V m k j v. refl;
  find-erase = λ V m k j. refl;
  find-clear = λ V m k. refl;
}

abbrev pub small_files : Setting ℕ
small_files = record {
  db_path = codes "db/";
  max_file_size = 40;
  dead_key_compaction_percentage = 60;
  dead_key_compaction_size = 0;
}

abbrev pub empty_disk : Disk
empty_disk = record { files = []; creatable = λ _. true }
