-- ===== src/Examples/Closed.antt =====
-- A database that rotates its file, is closed and is opened again.
use mathlib.Core.List.Perm
use memkvin_c.Base.{
  ◌≡◌, refl, List, [], ◌∷◌, none, some, ℕ, zero, suc, ◌<◌, ◌^◌, codes, bytes_eq, arith, ◌==◌,
  if◌then◌else◌,
}
use memkvin_c.Setting.{get_db_path, get_max_file_size, ensure_ending_slash}
use memkvin_c.Record.RoundTrip.{encode}
use memkvin_c.Record.Log.{encode_all}
use memkvin_c.Disk.{Disk, directory_entries, find_file, put_file, strip_prefix, has_slash}
use memkvin_c.Disk.Names.{below_ten}
use memkvin_c.Disk.Numbers.{to_string}
use memkvin_c.Bitcask.Engine.{Engine, Write, commit_write, db_file}
use memkvin_c.Bitcask.View.{Represents}
use memkvin_c.Bitcask.Restore.{done}
use memkvin_c.Bitcask.Worker.{testing, swapping}
use memkvin_c.Bitcask.Logs.{Logs, add_writes, add_write, view_of, log_size}
use memkvin_c.Bitcask.Fitting.{AllFit}
use memkvin_c.Bitcask.Directory.{IsListed}
use memkvin_c.Bitcask.Durable.{IsDurable}
use memkvin_c.Bitcask.Places.{commit_write-IsDurable}
use memkvin_c.Bitcask.Closing.{destroy_then_create}
use memkvin_c.Bitcask.Api
use memkvin_c.Bitcask.Shutdown.{destroy}
use memkvin_c.Examples.Params.{rolling_crc, function_map, small_files}
use memkvin_c.Examples.Sessions.{one, one_file}

abbrev pub first : Write
first = record { key = codes "a"; value = codes "1"; promise = 0 }

abbrev pub second : Write
second = record { key = codes "b"; value = codes "2"; promise = 1 }

abbrev pub third : Write
third = record { key = codes "c"; value = codes "3"; promise = 2 }

abbrev fourth : Write
fourth = record { key = codes "d"; value = codes "4"; promise = 3 }

-- The third write brings 0.db to its limit.
abbrev batch : List Write
batch = second ∷ third ∷ fourth ∷ []

-- 0.db has the first write.
abbrev pub one_log : Logs
one_log = record { last = 0; writes = λ i. if i == 0 then first ∷ [] else [] }

pub one-IsListed : IsListed (codes "db/") one.disk 0
unfolding directory_entries find_file put_file strip_prefix has_slash get_db_path
    ensure_ending_slash to_string bytes_eq
one-IsListed = record {
  numbers = 0 ∷ [];
  order = Perm.refl (0 ∷ []);
  listed = refl;
  free = λ i more few.
      below_ten (λ j. 0 < j → find_file one.disk.files (db_file (codes "db/") j) ≡ none)
        (λ h. absurd (omega arith)) (λ _. refl) (λ _. refl) (λ _. refl) (λ _. refl) (λ _. refl)
        (λ _. refl) (λ _. refl) (λ _. refl) (λ _. refl) i few more;
}

pub one-IsDurable : IsDurable rolling_crc one one_log
unfolding one-IsListed find_file put_file get_db_path to_string encode_all encode bytes_eq
    ensure_ending_slash
one-IsDurable = record {
  stream = one_file;
  is_active = refl;
  appending = record { at_end = refl; no_eof = refl; no_fail = refl };
  is_open = refl;
  path = refl;
  content = refl;
  on_disk = record {
    listed = one-IsListed;
    closed = λ i less. absurd (omega arith);
    old = [];
    there = refl;
    creatable = λ i few. refl;
  };
  handles = tt;
  count = refl;
}

two_files-AllFit : AllFit (add_writes 40 one_log batch)
unfolding add_writes add_write
two_files-AllFit = record { few = omega arith; sizes = λ i le. sizes i }
  where
    sizes : (i : ℕ) → log_size ((add_writes 40 one_log batch).writes i) < 2 ^ 32
    sizes zero = omega arith
    sizes (suc zero) = omega arith
    sizes (suc (suc i)) = ground arith

commit_write-IsDurable_example :
    (e' : Engine function_map) × (commit_write rolling_crc one batch ≡ some e')
    × (e'.setting ≡ one.setting)
    × (e'.running ≡ one.running)
    × IsDurable rolling_crc e' (add_writes 40 one_log batch)
unfolding get_db_path get_max_file_size
commit_write-IsDurable_example =
    commit_write-IsDurable rolling_crc one (codes "db") refl batch one_log one-IsDurable
      two_files-AllFit

pub one_log-AllFit : AllFit one_log
one_log-AllFit = record { few = omega arith; sizes = λ i le. sizes i }
  where
    sizes : (i : ℕ) → log_size (one_log.writes i) < 2 ^ 32
    sizes zero = omega arith
    sizes (suc i) = ground arith

destroy_then_create_example :
    (d : Disk) × (destroy rolling_crc (one, testing) ≡ some d)
    × (e' : Engine function_map) × (Api.create rolling_crc small_files d ≡ done (e', swapping))
    × Represents e' (view_of one_log)
    × IsDurable rolling_crc e' one_log
unfolding get_db_path
destroy_then_create_example =
    destroy_then_create rolling_crc one one_log (codes "db") one-IsDurable refl one_log-AllFit
