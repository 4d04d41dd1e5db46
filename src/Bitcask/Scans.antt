-- ===== src/Bitcask/Scans.antt =====
-- The scan of the active file, whole or cut short.
use mathlib.Core.List.{foldl}
use memkvin_c.Base.{
  Bytes, Key, Value, ◌≡◌, refl, false, List, [], ◌++◌, some, ℕ, ◌<◌, ◌^◌, length, take, arith,
}
use memkvin_c.Crc.{Crc32c}
use memkvin_c.HashMap.{HashMap}
use memkvin_c.Record.RoundTrip.{encode, Fits}
use memkvin_c.Record.Log.{encode_all, founds}
use memkvin_c.Record.Recovery.{scanned, DetectsTorn, torn_write_recovered, log_recovered}
use memkvin_c.Disk.{opened}
use memkvin_c.Bitcask.Engine.{Write}
use memkvin_c.Bitcask.Batch.{log_of}
use memkvin_c.Bitcask.Restore.{Maps, found_active}

-- The scan of a file that holds the records of writes, and some bytes behind them, finds the records.
abbrev pub ScansLog : Crc32c → HashMap → ℕ → Bytes → List Write → Bytes → Type 0
ScansLog c hash fd path ws tail =
    (st : Maps hash)
    → scanned c (found_active c fd) (opened path (encode_all c (log_of ws) ++ tail) false) st
      ≡ some (foldl (found_active c fd) st (founds c 0 (log_of ws)))

-- It does so behind a record that was cut short, and where nothing is behind the log.
pub ScansLog-torn :
    (c : Crc32c) (hash : HashMap) (fd : ℕ) (path : Bytes) (ws : List Write) (key : Key)
    (value : Value) (j : ℕ)
    → Fits c (length (encode_all c (log_of ws))) key value
    → j < length (encode c key value)
    → DetectsTorn c key value
    → ScansLog c hash fd path ws (take j (encode c key value))
ScansLog-torn c hash fd path ws key value j fits short detects st =
    torn_write_recovered c (found_active c fd) (log_of ws) key value j
      (opened path (encode_all c (log_of ws) ++ take j (encode c key value)) false) st refl refl
      fits short detects

pub ScansLog-whole :
    (c : Crc32c) (hash : HashMap) (fd : ℕ) (path : Bytes) (ws : List Write)
    → length (encode_all c (log_of ws)) < 2 ^ 32
    → ScansLog c hash fd path ws []
ScansLog-whole c hash fd path ws fits st =
    log_recovered c (found_active c fd) (log_of ws)
      (opened path (encode_all c (log_of ws) ++ []) false) [] st refl refl fits (omega arith)
