-- ===== src/Examples/Noted.antt =====
-- A directory with a file that is none of the database's.
use memkvin_c.Base.{
  Bytes, ◌≡◌, sym, true, Bool-cases, inl, inr, some_inj, some, [], ◌∷◌, ◌<◌, ◌^◌, length, codes,
  bytes_eq, arith,
}
use memkvin_c.Setting.{get_db_path, ensure_ending_slash}
use memkvin_c.Disk.{Disk, find_file, directory_entries, strip_prefix, has_slash, filename}
use memkvin_c.Disk.Numbers.{stoul, to_string}
use memkvin_c.Bitcask.Restore.{make, get_active_path_in_dir, max_fd}
use memkvin_c.Bitcask.Foreign.{Tells, has_foreign, make-Tells}
use memkvin_c.Examples.Params.{rolling_crc, function_map, small_files}

abbrev noted : Disk
noted = record {
  files =
      record { path = codes "db/0.db"; content = []; regular = true }
      ∷ record { path = codes "db/notes.txt"; content = []; regular = true }
      ∷ [];
  creatable = λ _. true;
}

noted_sizes :
    (path content : Bytes) → find_file noted.files path ≡ some content → length content < 2 ^ 32
unfolding find_file
noted_sizes path content e = elim (Bool-cases (bytes_eq (codes "db/0.db") path)) [
  | inl same ↦ rw (sym (some_inj (rw same at e))) (omega arith)
  | inr other ↦ elim (Bool-cases (bytes_eq (codes "db/notes.txt") path)) [
    | inl same ↦ rw (sym (some_inj (rw (other, same) at e))) (omega arith)
    | inr none_of ↦ absurd (cc (rw (other, none_of) at e))
  ]
]

make-Tells_example : Tells (make rolling_crc {hash = function_map} small_files noted) true
unfolding has_foreign directory_entries strip_prefix has_slash get_db_path ensure_ending_slash
    to_string stoul filename get_active_path_in_dir max_fd bytes_eq
make-Tells_example = make-Tells rolling_crc function_map noted noted_sizes small_files
