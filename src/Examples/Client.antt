-- ===== src/Examples/Client.antt =====
-- A client whose third Put rotates the file, and that closes the database and opens it again.
use memkvin_c.Base.{
  ◌≡◌, refl, true, false, List, [], ◌∷◌, none, some, ℕ, zero, suc, ◌<◌, ◌^◌, codes, bytes_eq, arith,
}
use memkvin_c.Setting.{get_db_path, get_max_file_size}
use memkvin_c.Disk.{directory_entries}
use memkvin_c.Bitcask.View.{empty_view}
use memkvin_c.Bitcask.Restore.{done}
use memkvin_c.Bitcask.Logs.{log_size, add_write}
use memkvin_c.Bitcask.Fitting.{AllFit}
use memkvin_c.Bitcask.Api
use memkvin_c.Bitcask.Api.{Database}
use memkvin_c.Bitcask.Client.{
  Call, put, delete, get, reopen, returned, deleted, found, calls, answers, tell, tell_all, rests,
}
use memkvin_c.Bitcask.Whole.{no_story, database_is_map}
use memkvin_c.Examples.Params.{rolling_crc, function_map, small_files, empty_disk}

abbrev session : List Call
session =
    put (codes "a") (codes "1")
    ∷ put (codes "b") (codes "2")
    ∷ put (codes "c") (codes "3")
    ∷ get (codes "a")
    ∷ delete (codes "a")
    ∷ put (codes "b") (codes "4")
    ∷ reopen
    ∷ get (codes "a")
    ∷ get (codes "b")
    ∷ get (codes "c")
    ∷ delete (codes "d")
    ∷ put (codes "a") (codes "5")
    ∷ get (codes "a")
    ∷ reopen
    ∷ get (codes "a")
    ∷ []

session-AllFit : AllFit (tell_all 40 no_story session).logs
unfolding tell tell_all add_write bytes_eq
session-AllFit = record { few = omega arith; sizes = λ i le. sizes i }
  where
    sizes : (i : ℕ) → log_size ((tell_all 40 no_story session).logs.writes i) < 2 ^ 32
    sizes zero = omega arith
    sizes (suc zero) = omega arith
    sizes (suc (suc zero)) = omega arith
    sizes (suc (suc (suc i))) = ground arith

replies_of_session :
    answers empty_view session
    ≡ returned
      ∷ returned
      ∷ returned
      ∷ found (some (codes "1"))
      ∷ deleted true
      ∷ returned
      ∷ returned
      ∷ found none
      ∷ found (some (codes "4"))
      ∷ found (some (codes "3"))
      ∷ deleted false
      ∷ returned
      ∷ found (some (codes "5"))
      ∷ returned
      ∷ found (some (codes "5"))
      ∷ []
unfolding answers bytes_eq
replies_of_session = refl

session_settled : rests 40 false no_story session ≡ true
unfolding rests tell add_write bytes_eq
session_settled = refl

database_is_map_example :
    (s : Database function_map) × (Api.create rolling_crc small_files empty_disk ≡ done s)
    × (s' : Database function_map) × (calls rolling_crc s session
        ≡ some (s', answers empty_view session))
unfolding get_db_path get_max_file_size directory_entries
database_is_map_example =
    database_is_map rolling_crc function_map small_files (codes "db") refl empty_disk refl
      (λ i few. refl) session session-AllFit session_settled
