-- ===== src/Examples/Races.antt =====
-- A Get beside a commit.
use memkvin_c.Base.{
  ◌≡◌, refl, true, List, [], ◌∷◌, Option, none, some, codes, Value, bytes_eq, arith,
}
use memkvin_c.ActiveMap
use memkvin_c.RecordMap
use memkvin_c.Setting.{get_max_file_size}
use memkvin_c.Record.RoundTrip.{encode}
use memkvin_c.Record.Log.{encode_all}
use memkvin_c.Bitcask.Engine.{Engine, Write, Loop, start_loop, get, visible, visible?, insert_all}
use memkvin_c.Bitcask.View.{View, empty_view, update}
use memkvin_c.Bitcask.Batch.{all_kept}
use memkvin_c.Bitcask.Commit.{kept_loop, commit_loop-kept_loop}
use memkvin_c.Bitcask.Race.{
  Tail, inserting, looking, hinted, cached, returned, tail_step, commits, gets, Turns, stay, next,
}
use memkvin_c.Bitcask.Alone.{looked, compared, read_cache, get_misses_in_rotation}
use memkvin_c.Bitcask.Between.{WasThere}
use memkvin_c.Bitcask.Linear.{get_linearizes}
use memkvin_c.Examples.Params.{rolling_crc, function_map}
use memkvin_c.Examples.Sessions.{one, one_hint, one_file, one-Represents}

abbrev one_view : View
one_view = update empty_view (codes "a") (codes "1")

abbrev batch : List Write
batch = record { key = codes "a"; value = codes "2"; promise = 0 } ∷ []

abbrev loop : Loop
loop = kept_loop rolling_crc one batch one-Represents

abbrev looped : Engine function_map
looped = record one { disk = loop.disk; active_file = loop.active }

abbrev inserted : Engine function_map × Tail
inserted = tail_step (looped, inserting loop batch)

abbrev cleared : Engine function_map × Tail
cleared = tail_step inserted

-- The write is in the cache, and not yet in the index.
abbrev half : Engine function_map × Tail
half = tail_step cleared

abbrev seen : Option Value
seen = visible? (ActiveMap.get half.0.active_map (codes "a"))

between : Turns (codes "a") (looped, inserting loop batch, looking) (half.0, half.1, returned seen)
unfolding tail_step insert_all RecordMap.get RecordMap.put RecordMap.empty bytes_eq all_kept
between =
    next _ _ _
      (next _ _ _
        (next _ _ _
          (next _ _ _
            (next _ _ _
              (next _ _ _ (stay _) (
                gets looped looped (inserting loop batch) looking (hinted one_hint)
                  (looked (codes "a") looped one_hint refl)))
              (commits looped (inserting loop batch) (hinted one_hint)))
            (commits inserted.0 inserted.1 (hinted one_hint)))
          (commits cleared.0 cleared.1 (hinted one_hint)))
        (gets half.0 half.0 half.1 (hinted one_hint) cached
          (compared (codes "a") half.0 one_hint true refl)))
      (gets half.0 half.0 half.1 cached (returned seen) (read_cache (codes "a") half.0))

get_linearizes_example :
    (x : Option Value) × (seen ≡ visible? x) × WasThere (codes "a") one_view batch x
unfolding one-Represents encode_all encode get_max_file_size
get_linearizes_example =
    get_linearizes rolling_crc one one_view batch one-Represents (codes "a") (omega arith)
      (omega arith) loop
      (commit_loop-kept_loop rolling_crc one batch one-Represents (omega arith) (omega arith))
      half.0 half.1 seen between

-- The loop that has rotated the file.
abbrev rotated : Loop
rotated = record (start_loop one) {
  new_stable = (0, record { file = some one_file }) ∷ [];
  last_active_write = 1;
}

get_misses_in_rotation_example :
    (get one (codes "a") ≡ some (visible (codes "1"), one))
    × (e' : Engine function_map) × (t : Tail) × Turns
        (codes "a")
        (one, inserting rotated [], looking)
        (e', t, returned none)
    × (RecordMap.get e'.record_map (codes "a") ≡ some one_hint)
unfolding RecordMap.get RecordMap.put RecordMap.empty ActiveMap.get ActiveMap.put ActiveMap.empty
    bytes_eq
get_misses_in_rotation_example =
    get_misses_in_rotation (codes "a") one rotated [] one_hint (codes "1") refl refl refl refl
