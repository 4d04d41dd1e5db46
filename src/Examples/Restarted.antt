-- ===== src/Examples/Restarted.antt =====
-- A database of three files, listed as 1.db, 2.db, 0.db, whose last record was cut short.
use mathlib.Core.List.{Perm}
use mathlib.Core.List.Perm
use memkvin_c.Base.{true, List, ℕ, zero, suc, [], ◌∷◌, ◌++◌, take, codes}
use memkvin_c.Record.RoundTrip.{encode}
use memkvin_c.Record.Log.{encode_all}
use memkvin_c.Disk.{Disk, File}
use memkvin_c.Bitcask.Engine.{Engine, Write, db_file}
use memkvin_c.Bitcask.Batch.{log_of}
use memkvin_c.Examples.Params.{rolling_crc}

abbrev writes : ℕ → List Write
writes zero =
    record { key = codes "a"; value = codes "1"; promise = 0 }
    ∷ record { key = codes "b"; value = codes "2"; promise = 1 }
    ∷ []
writes (suc zero) = record { key = codes "a"; value = codes "3"; promise = 2 } ∷ []
writes _ = record { key = codes "b"; value = codes "4"; promise = 3 } ∷ []

-- The bytes behind the records of a file.
abbrev torn : ℕ → List ℕ
torn (suc (suc zero)) = take 13 (encode rolling_crc (codes "a") (codes "5"))
torn _ = []

abbrev files : ℕ → File
files i = record {
  path = db_file (codes "db/") i;
  content = encode_all rolling_crc (log_of (writes i)) ++ torn i;
  regular = true;
}

abbrev disk : Disk
disk = record { files = files 1 ∷ files 2 ∷ files 0 ∷ []; creatable = λ _. true }
