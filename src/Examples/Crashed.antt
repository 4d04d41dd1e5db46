-- ===== src/Examples/Crashed.antt =====
-- Databases that a crash ends, the last record cut short.
use memkvin_c.Base.{
  ◌≡◌, refl, true, false, sym, subst, List, [], ◌∷◌, some, ℕ, zero, suc, ◌<◌, ◌^◌, codes, take,
  arith,
}
use memkvin_c.Setting.{get_db_path, get_max_file_size}
use memkvin_c.Record.{get_crc32}
use memkvin_c.Record.Recovery.{DetectsTorn}
use memkvin_c.Disk.{directory_entries}
use memkvin_c.Bitcask.Engine.{Engine, Write}
use memkvin_c.Bitcask.View.{Represents, apply_writes, empty_view}
use memkvin_c.Bitcask.Restore.{done}
use memkvin_c.Bitcask.Worker.{swapping}
use memkvin_c.Bitcask.Logs.{apply_files, log_size, add_write}
use memkvin_c.Bitcask.Fitting.{AllFit}
use memkvin_c.Bitcask.Api
use memkvin_c.Bitcask.Api.{Database}
use memkvin_c.Bitcask.Client.{Call, put, get, calls, answers, behind_all, tell, tell_all, rests}
use memkvin_c.Bitcask.Whole.{no_story}
use memkvin_c.Bitcask.Cut.{Cut, DetectsAll}
use memkvin_c.Bitcask.Crash.{crashed, crash_keeps_first}
use memkvin_c.Bitcask.Prefixes.{FirstCalls}
use memkvin_c.Bitcask.Recovers.{logs_of, crash_goes_back}
use memkvin_c.Examples.Params.{rolling, rolling_crc, function_map, small_files, empty_disk}
use memkvin_c.Examples.Sessions.{one}
use memkvin_c.Examples.Closed.{first, one_log, one-IsDurable, one_log-AllFit}

first_detects : DetectsTorn rolling_crc first.key first.value
unfolding get_crc32 rolling
first_detects = record { no_body = λ _. omega arith; no_value = λ _. omega arith }

crash_keeps_first_example :
    (t : Cut 13 (one_log.writes one_log.last)) × (e' : Engine function_map) × (Api.create
        rolling_crc one.setting
        (crashed 13 one)
      ≡ done (e', swapping))
    × Represents e' (apply_writes (apply_files one_log.writes one_log.last) t.kept)
unfolding get_db_path
crash_keeps_first_example =
    crash_keeps_first rolling_crc one one_log (codes "db") 13 one-IsDurable refl one_log-AllFit
      (first_detects, tt)

-- The third Put rotates the file.
abbrev session : List Call
session =
    put (codes "a") (codes "1")
    ∷ put (codes "b") (codes "2")
    ∷ put (codes "c") (codes "3")
    ∷ get (codes "a")
    ∷ put (codes "a") (codes "4")
    ∷ []

abbrev last_write : Write
last_write = record { key = codes "a"; value = codes "4"; promise = 3 }

last_detects : DetectsTorn rolling_crc last_write.key last_write.value
unfolding get_crc32 rolling
last_detects = record { no_body = λ _. omega arith; no_value = λ _. omega arith }

session-AllFit : AllFit (tell_all 40 no_story session).logs
unfolding tell tell_all add_write
session-AllFit = record { few = omega arith; sizes = λ i le. sizes i }
  where
    sizes : (i : ℕ) → log_size ((tell_all 40 no_story session).logs.writes i) < 2 ^ 32
    sizes zero = omega arith
    sizes (suc zero) = omega arith
    sizes (suc (suc i)) = ground arith

session_last :
    (logs_of small_files session).writes (logs_of small_files session).last ≡ last_write ∷ []
unfolding tell tell_all add_write get_max_file_size
session_last = refl

session_settled : rests 40 false no_story session ≡ true
unfolding rests tell add_write
session_settled = refl

crash_goes_back_example :
    (s : Database function_map) × (Api.create rolling_crc small_files empty_disk ≡ done s)
    × (s' : Database function_map) × (calls rolling_crc s session
        ≡ some (s', answers empty_view session))
    × (t : Cut 13 ((logs_of small_files session).writes (logs_of small_files session).last))
    × (f : FirstCalls session (logs_of small_files session) t.kept) × (e' : Engine function_map)
    × (Api.create rolling_crc small_files (crashed 13 s'.0) ≡ done (e', swapping))
    × Represents e' (behind_all empty_view (take f.n session))
unfolding get_db_path get_max_file_size directory_entries
crash_goes_back_example =
    crash_goes_back rolling_crc function_map small_files (codes "db") refl empty_disk refl
      (λ i few. refl) session 13 session-AllFit session_settled
      (subst (DetectsAll rolling_crc) (sym session_last) (last_detects, tt))
