-- ===== src/Examples/Sessions.antt =====
-- A Put and a Delete, committed.
use memkvin_c.Base.{
  ◌≡◌, refl, true, Bool-cases, inl, inr, [], ◌++◌, none, some, codes, Key, arith, bytes_eq,
}
use memkvin_c.ActiveMap
use memkvin_c.RecordMap
use memkvin_c.RecordMap.{Hint}
use memkvin_c.Stream.{Stream}
use memkvin_c.Setting.{get_max_file_size, get_db_path}
use memkvin_c.Record.{header_bytes, fill_header}
use memkvin_c.Record.RoundTrip.{encode}
use memkvin_c.Record.Log.{encode_all}
use memkvin_c.Disk.{opened}
use memkvin_c.Bitcask.Engine.{Engine, put, delete, get, visible, commit_write, db_file, find_stable}
use memkvin_c.Bitcask.View.{Shows, Represents, empty_view, update}
use memkvin_c.Bitcask.Batch.{active_of}
use memkvin_c.Bitcask.Fresh.{fresh, fresh-Represents, zero-few}
use memkvin_c.Bitcask.Session.{put_then_get, delete_then_get}
use memkvin_c.Examples.Params.{rolling_crc, function_map, small_files, empty_disk}

abbrev start : Engine function_map
start = fresh function_map small_files empty_disk

put_is_read :
    (e' : Engine function_map) × (commit_write rolling_crc
        (record (put start (codes "a") (codes "1")).0 { writes = [] })
        (put start (codes "a") (codes "1")).0.writes
      ≡ some e')
    × (e'' : Engine function_map) × (get e' (codes "a") ≡ some (visible (codes "1"), e''))
unfolding fresh-Represents encode_all encode get_max_file_size put
put_is_read =
    put_then_get rolling_crc (fresh-Represents function_map small_files empty_disk) (codes "a")
      (codes "1") (omega arith) (omega arith)

abbrev pub one_hint : Hint
one_hint = record { fd = 0; offset = 13; size = 1 }

abbrev pub one_file : Stream
one_file =
    opened (db_file (get_db_path small_files) 0) (encode rolling_crc (codes "a") (codes "1")) true

-- An engine with one value.
abbrev pub one : Engine function_map
one = record start {
  active_map = ActiveMap.put ActiveMap.empty (codes "a") (codes "1");
  record_map = RecordMap.put RecordMap.empty (codes "a") one_hint;
  active_file = active_of one_file;
}

pub one-Shows :
    (k : Key)
    → Shows one one_file k
        (RecordMap.get one.record_map k)
        (update empty_view (codes "a") (codes "1") k)
unfolding RecordMap.get RecordMap.put RecordMap.empty ActiveMap.get ActiveMap.put encode
one-Shows k = elim (Bool-cases (bytes_eq (codes "a") k)) [
  | inl same ↦ rw same (
    codes "1",
    refl,
    inl (record {
      fd = refl;
      cached = rw same refl;
      in_file = record {
        before = header_bytes (fill_header rolling_crc (codes "a") (codes "1")).0 ++ codes "a";
        behind = [];
        bytes = refl;
        offset = refl;
        size = refl;
      };
    }),
  )
  | inr other ↦ rw other refl
]

unfoldable pub one-Represents : Represents one (update empty_view (codes "a") (codes "1"))
unfolding find_stable
one-Represents = record {
  active = one_file;
  stored = record {
    file = refl;
    appending = record { at_end = refl; no_eof = refl; no_fail = refl };
    is_open = refl;
    path = refl;
    few = zero-few;
    fresh = λ fd h. refl;
  };
  shows = λ k. one-Shows k;
}

delete_then_get_example :
    (e' : Engine function_map) × (commit_write rolling_crc
        (record (delete one (codes "a")).0 { writes = [] })
        (delete one (codes "a")).0.writes
      ≡ some e')
    × (e'' : Engine function_map) × (get e' (codes "a") ≡ some (none, e''))
unfolding one-Represents encode_all encode get_max_file_size delete RecordMap.get RecordMap.put
    RecordMap.empty bytes_eq
delete_then_get_example =
    delete_then_get rolling_crc one-Represents (codes "a") one_hint refl (omega arith) (omega arith)
