-- ===== src/Bitcask/Reopen.antt =====
-- The engine that is made where the active file is there, and no other, and its last record may be cut
-- short.
use memkvin_c.Base.{
  Bytes, Key, Value, ◌≡◌, true, List, [], ◌∷◌, ◌++◌, some, ℕ, ◌<◌, arith, length, take, codes,
  b_slash,
}
use memkvin_c.Crc.{Crc32c}
use memkvin_c.HashMap.{HashMap}
use memkvin_c.Setting.{Setting, get_db_path}
use memkvin_c.Record.RoundTrip.{encode, Fits}
use memkvin_c.Record.Log.{encode_all}
use memkvin_c.Record.Recovery.{DetectsTorn}
use memkvin_c.Disk.{Disk, File, directory_entries, find_file}
use memkvin_c.Bitcask.Engine.{Engine, Write, db_file}
use memkvin_c.Bitcask.View.{Represents, apply_writes, empty_view}
use memkvin_c.Bitcask.Batch.{log_of}
use memkvin_c.Bitcask.Scans.{ScansLog-torn}
use memkvin_c.Bitcask.Restore.{done, make}
use memkvin_c.Bitcask.OneFile.{make_one_file}

module _ (c : Crc32c) (hash : HashMap) (setting : Setting ℕ) (disk : Disk) (dir : Bytes)
    (file : File) (ws : List Write) (key : Key) (value : Value) (j : ℕ)
    (ending : get_db_path setting ≡ dir ++ b_slash ∷ [])
    (only : directory_entries disk (get_db_path setting)
      ≡ record { name = codes "0.db"; file = file } ∷ [])
    (regular : file.regular ≡ true)
    (bytes : find_file disk.files (db_file (get_db_path setting) 0)
      ≡ some (encode_all c (log_of ws) ++ take j (encode c key value)))
    (fits : Fits c (length (encode_all c (log_of ws))) key value)
    (short : j < length (encode c key value)) (detects : DetectsTorn c key value) where
  -- Where the directory holds the file 0.db alone, with the records of writes and behind them a
  -- proper prefix of one more record, which may be empty, the constructor returns an engine that
  -- stands for the map of these writes, if the file with the whole record stays below 2^32 bytes
  -- and the checksum tells the record without its value, and without its body, from the whole
  -- one.
  pub make_reopens :
      (e : Engine hash) × (make c setting disk ≡ done e) × Represents e (apply_writes empty_view ws)
  make_reopens =
      make_one_file c hash setting disk dir file ws (take j (encode c key value)) ending only
        regular bytes (omega arith)
        (ScansLog-torn c hash 0 (db_file (get_db_path setting) 0) ws key value j fits short detects)
