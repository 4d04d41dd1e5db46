-- ===== src/Examples/Replayed.antt =====
-- Two stable files.
use memkvin_c.Base.{
  Key, ◌≡◌, refl, true, [], ◌∷◌, ◌+◌, some, codes, length, u32, map, bytes_eq, arith,
}
use memkvin_c.RecordMap
use memkvin_c.RecordMap.{RecordMap}
use memkvin_c.Record.RoundTrip.{encode}
use memkvin_c.Record.Log.{Log, encode_all}
use memkvin_c.Disk.{Disk, File, find_file}
use memkvin_c.Disk.Numbers.{stoul}
use memkvin_c.Bitcask.Engine.{StableFiles}
use memkvin_c.Bitcask.Restore.{done, restore_entries, sort_entries}
use memkvin_c.Bitcask.Replay.{Stored, last_hint, restore_entries_replays, older_file_wins}
use memkvin_c.Examples.Params.{rolling_crc, function_map}

-- The key of the older file's record is in the newer one too.
abbrev old_log : Log
old_log = (codes "a", codes "old") ∷ []

abbrev new_log : Log
new_log = (codes "a", codes "new") ∷ (codes "b", codes "1") ∷ []

abbrev old_file : File
old_file = record {
  path = codes "db/2.db";
  content = encode_all rolling_crc old_log;
  regular = true;
}

abbrev new_file : File
new_file = record {
  path = codes "db/10.db";
  content = encode_all rolling_crc new_log;
  regular = true;
}

abbrev disk : Disk
disk = record { files = old_file ∷ new_file ∷ []; creatable = λ _. true }

abbrev two : Stored rolling_crc disk
unfolding stoul find_file bytes_eq encode_all encode
two = record {
  entry = record { name = codes "2.db"; file = old_file };
  fd = 2;
  log = old_log;
  name = refl;
  bytes = refl;
  fits = omega arith;
}

abbrev ten : Stored rolling_crc disk
unfolding stoul find_file bytes_eq encode_all encode
ten = record {
  entry = record { name = codes "10.db"; file = new_file };
  fd = 10;
  log = new_log;
  name = refl;
  bytes = refl;
  fits = omega arith;
}

restore_entries_replays_example :
    (r : RecordMap function_map) × (files' : StableFiles) × (restore_entries rolling_crc
        {hash = function_map} disk
        (map (λ (f : Stored rolling_crc disk). f.entry) (two ∷ ten ∷ []))
        (RecordMap.empty, [])
      ≡ done (r, files'))
    × ((k : Key)
        → RecordMap.get r k
          ≡ last_hint (two ∷ ten ∷ []) k (RecordMap.get {hash = function_map} RecordMap.empty k))
restore_entries_replays_example =
    restore_entries_replays rolling_crc disk (two ∷ ten ∷ []) RecordMap.empty []

older_file_wins_example :
    (r : RecordMap function_map) × (files' : StableFiles) × (restore_entries rolling_crc disk
        (sort_entries (two.entry ∷ (ten.entry ∷ [])))
        (RecordMap.empty, [])
      ≡ done (r, files'))
    × (RecordMap.get r (codes "a")
        ≡ some (record {
          fd = u32 two.fd;
          offset = 12 + length (codes "a");
          size = u32 (length (codes "old"));
        }))
unfolding two ten
older_file_wins_example =
    older_file_wins rolling_crc disk two ten (codes "a") (codes "old") RecordMap.empty [] refl refl
      refl
