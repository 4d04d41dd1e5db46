-- ===== src/Examples/Calls.antt =====
-- Calls of the class Bitcask while its worker holds a write.
use memkvin_c.Base.{
  ◌≡◌, refl, true, false, List, [], ◌∷◌, ◌++◌, ◌≤◌, none, some, codes, tombstone, bytes_eq, arith,
}
use memkvin_c.RecordMap
use memkvin_c.Setting.{get_max_file_size}
use memkvin_c.Record.RoundTrip.{encode}
use memkvin_c.Record.Log.{encode_all}
use memkvin_c.Bitcask.Engine
use memkvin_c.Bitcask.Engine.{Engine, Write, visible}
use memkvin_c.Bitcask.View.{Represents, apply_writes, empty_view, update}
use memkvin_c.Bitcask.Fresh.{fresh, fresh-Represents}
use memkvin_c.Bitcask.Worker.{committing, testing, swapping, finished, held, from_zero, InOrder}
use memkvin_c.Bitcask.Turns.{run}
use memkvin_c.Bitcask.Serving.{turns}
use memkvin_c.Bitcask.Served.{IsReady, IsReady-framed, worker_serves}
use memkvin_c.Bitcask.Api
use memkvin_c.Bitcask.Api.{Database}
use memkvin_c.Bitcask.Calls.{put_returns, delete_returns, delete_misses_queued}
use memkvin_c.Examples.Params.{rolling_crc, function_map, small_files, empty_disk}
use memkvin_c.Examples.Sessions.{one, one_hint, one-Represents}

abbrev pub start : Engine function_map
start = fresh function_map small_files empty_disk

abbrev pub first : Write
first = record { key = codes "a"; value = codes "1"; promise = 0 }

abbrev pub second : Write
second = record { key = codes "b"; value = codes "2"; promise = 1 }

-- The worker holds the first write, and nothing is queued.
abbrev pub holding : Engine function_map
holding = record start { next_promise = 1 }

pub start-IsReady : IsReady rolling_crc start empty_view (first ∷ second ∷ [])
unfolding fresh-Represents encode_all encode get_max_file_size
start-IsReady = record {
  rep = fresh-Represents function_map small_files empty_disk;
  room = (omega arith, (omega arith, (omega arith, tt)));
  running = refl;
}

first-IsReady : IsReady rolling_crc start empty_view (first ∷ [])
unfolding fresh-Represents encode_all encode get_max_file_size
first-IsReady = record {
  rep = fresh-Represents function_map small_files empty_disk;
  room = (omega arith, (omega arith, tt));
  running = refl;
}

pub not_left : (ws : List Write) → ¬ (committing ws ≡ finished)
not_left ws e = cc

put_returns_example :
    (e' : Engine function_map) × (Api.put rolling_crc
        (holding, committing (first ∷ []))
        (codes "b")
        (codes "2")
      ≡ some (e', testing))
    × Represents e' (
        update
          (apply_writes empty_view (held (committing (first ∷ [])) ++ []))
          (codes "b")
          (codes "2"))
    × InOrder (e', testing)
    × (e'.writes ≡ [])
    × (s : Database function_map) × (Api.get (e', testing) (codes "b")
        ≡ some (visible (codes "2"), s))
unfolding Engine.put
put_returns_example =
    put_returns rolling_crc holding (committing (first ∷ [])) empty_view (codes "b") (codes "2")
      (not_left (first ∷ []))
      (IsReady-framed rolling_crc start empty_view (first ∷ second ∷ []) (second ∷ []) 2 []
        start-IsReady)
      refl

worker_serves_example :
    (e' : Engine function_map) × (run rolling_crc
        (turns (committing (first ∷ [])))
        (record holding { writes = second ∷ []; next_promise = 2 }, committing (first ∷ []))
      ≡ some (e', testing))
    × (turns (committing (first ∷ [])) ≤ 4)
    × Represents e' (apply_writes empty_view (first ∷ second ∷ []))
    × (e'.resolved ≡ from_zero 2)
    × (e'.writes ≡ [])
worker_serves_example =
    worker_serves rolling_crc (record holding { writes = second ∷ []; next_promise = 2 })
      (committing (first ∷ [])) empty_view (not_left (first ∷ []))
      (IsReady-framed rolling_crc start empty_view (first ∷ second ∷ []) (second ∷ []) 2 []
        start-IsReady)
      refl

one-IsReady :
    IsReady rolling_crc one
      (update empty_view (codes "a") (codes "1"))
      (record { key = codes "a"; value = tombstone; promise = 0 } ∷ [])
unfolding one-Represents encode_all encode get_max_file_size
one-IsReady = record {
  rep = one-Represents;
  room = (omega arith, (omega arith, tt));
  running = refl;
}

swapping_on : ¬ (swapping ≡ finished)
swapping_on e = cc

delete_returns_example :
    (e' : Engine function_map) × (Api.delete rolling_crc (one, swapping) (codes "a")
      ≡ some (true, (e', testing)))
    × Represents e'
        (update (apply_writes (update empty_view (codes "a") (codes "1")) []) (codes "a") tombstone)
    × InOrder (e', testing)
    × (e'.writes ≡ [])
    × (s : Database function_map) × (Api.get (e', testing) (codes "a") ≡ some (none, s))
unfolding Engine.put RecordMap.get RecordMap.put RecordMap.empty bytes_eq
delete_returns_example =
    delete_returns rolling_crc one swapping (update empty_view (codes "a") (codes "1")) (codes "a")
      one_hint swapping_on refl
      (IsReady-framed rolling_crc one (update empty_view (codes "a") (codes "1"))
        (record { key = codes "a"; value = tombstone; promise = 0 } ∷ [])
        (record { key = codes "a"; value = tombstone; promise = 0 } ∷ []) 1 [] one-IsReady)
      refl

delete_misses_queued_example :
    (Api.delete rolling_crc (Api.put_async (start, swapping) (codes "a") (codes "1")).0 (codes "a")
      ≡ some (false, (Api.put_async (start, swapping) (codes "a") (codes "1")).0))
    × (e' : Engine function_map) × (run rolling_crc
          (turns swapping)
          (Api.put_async (start, swapping) (codes "a") (codes "1")).0
        ≡ some (e', testing))
    × (s : Database function_map) × (Api.get (e', testing) (codes "a")
        ≡ some (visible (codes "1"), s))
unfolding Engine.put RecordMap.get RecordMap.empty
delete_misses_queued_example =
    delete_misses_queued rolling_crc start swapping empty_view (codes "a") (codes "1") swapping_on
      refl
      (IsReady-framed rolling_crc start empty_view (first ∷ []) (first ∷ []) 1 [] first-IsReady)
