-- ===== src/Examples/Records.antt =====
-- Records and logs.
use memkvin_c.Base.{
  Key, Value, ◌≡◌, refl, sym, append-nil, false, List, [], ◌∷◌, ◌++◌, some, codes, take, arith,
  Option, ap,
}
use memkvin_c.Stream.{Stream, read}
use memkvin_c.Disk.{opened}
use memkvin_c.Record.Sound.{IsSound, read_record-IsSound}
use memkvin_c.Record.{
  header_of, fill_header, header_bytes, Found, write_record, read_record, get_crc32,
  read_all_record_from_file,
}
use memkvin_c.Record.RoundTrip.{encode, inf_at, read_record_exact, after_record}
use memkvin_c.Record.Write.{appended, write_record_lem}
use memkvin_c.Record.Log.{Log, encode_all, founds}
use memkvin_c.Record.Corrupt.{IsCorrupt, corrupt_hides_rest}
use memkvin_c.Record.Recovery.{DetectsTorn, scanned, log_recovered, torn_write_recovered}
use memkvin_c.Record.Total.{read_all_total}
use mathlib.Core.List.{foldl}
use memkvin_c.Examples.Params.{rolling, rolling_crc}

abbrev key : Key
key = codes "k"

abbrev value : Value
value = codes "val"

abbrev one_record : Stream
one_record = opened (codes "db/0.db") (encode rolling_crc key value) false

abbrev no_record : Stream
no_record = opened (codes "db/0.db") [] false

abbrev collect : List Found → Found → List Found
collect found r = r ∷ found

abbrev log : Log
log = (key, value) ∷ (codes "k2", []) ∷ []

read_record_exact_example : read_record rolling_crc one_record ≡ (
  some (record { key = key; value = value; inf = inf_at rolling_crc 0 key value }),
  after_record rolling_crc one_record 0 key value,
)
read_record_exact_example =
    read_record_exact rolling_crc one_record [] [] key value (sym (append-nil _)) refl refl refl
      (omega arith)

read_record-IsSound_example :
    IsSound rolling_crc one_record.content
      (header_of (read 12 one_record).0)
      (record { key = key; value = value; inf = inf_at rolling_crc 0 key value })
read_record-IsSound_example = read_record-IsSound rolling_crc one_record _ (
    ap (λ (t : Option Found × Stream). t.0)
      (read_record_exact rolling_crc one_record [] [] key value (sym (append-nil _)) refl refl refl
        (omega arith)))

write_record_lem_example :
    write_record rolling_crc no_record key value
    ≡ (appended no_record (encode rolling_crc key value), inf_at rolling_crc 0 key value)
write_record_lem_example =
    write_record_lem rolling_crc no_record key value
      (record { at_end = refl; no_eof = refl; no_fail = refl }) (omega arith)

log_recovered_example :
    scanned rolling_crc collect (opened [] (encode_all rolling_crc log ++ codes "torn") false) []
    ≡ some (foldl collect [] (founds rolling_crc 0 log))
unfolding encode_all encode
log_recovered_example =
    log_recovered rolling_crc collect log
      (opened [] (encode_all rolling_crc log ++ codes "torn") false) (codes "torn") [] refl refl
      (omega arith) (omega arith)

rolling-DetectsTorn : DetectsTorn rolling_crc key value
unfolding get_crc32 rolling
rolling-DetectsTorn = record { no_body = λ _. omega arith; no_value = λ _. omega arith }

torn_write_recovered_example :
    scanned rolling_crc collect
      (opened [] (encode_all rolling_crc log ++ take 14 (encode rolling_crc key value)) false)
      []
    ≡ some (foldl collect [] (founds rolling_crc 0 log))
unfolding encode_all encode
torn_write_recovered_example =
    torn_write_recovered rolling_crc collect log key value 14
      (opened [] (encode_all rolling_crc log ++ take 14 (encode rolling_crc key value)) false) []
      refl refl (omega arith) (omega arith) rolling-DetectsTorn

read_all_total_example :
    (r : List Found × Stream) × (read_all_record_from_file rolling_crc
        (opened [] (codes "not a log, but longer than a header") false)
        collect
        []
      ≡ some r)
read_all_total_example =
    read_all_total rolling_crc collect
      (opened [] (codes "not a log, but longer than a header") false) [] refl (omega arith)

-- The header of a record, before another value.
corrupt : IsCorrupt rolling_crc (fill_header rolling_crc key value).0 key (codes "vax")
unfolding fill_header get_crc32 rolling
corrupt = record {
  crc_fits = omega arith;
  key_size = refl;
  value_size = refl;
  differs = omega arith;
}

-- The record behind it is not found.
abbrev corrupt_file : Stream
corrupt_file =
    opened []
      (encode_all rolling_crc log
        ++ (header_bytes (fill_header rolling_crc key value).0
            ++ (key ++ (codes "vax" ++ encode rolling_crc (codes "lost") (codes "1")))))
      false

corrupt_hides_rest_example :
    scanned rolling_crc collect corrupt_file [] ≡ some (foldl collect [] (founds rolling_crc 0 log))
unfolding encode_all encode
corrupt_hides_rest_example =
    corrupt_hides_rest rolling_crc (fill_header rolling_crc key value).0 key (codes "vax") corrupt
      collect log (encode rolling_crc (codes "lost") (codes "1")) corrupt_file [] refl refl
      (omega arith)
