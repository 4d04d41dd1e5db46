-- ===== src/Examples/Workers.antt =====
-- A run of the worker.
use memkvin_c.Base.{◌≡◌, refl, [], codes}
use memkvin_c.Bitcask.Engine.{Engine, put}
use memkvin_c.Bitcask.Fresh.{fresh}
use memkvin_c.Bitcask.Worker.{
  swapping, committing, testing, finished, Steps, here, then, call_put, swap, InOrder,
  Steps-InOrder, shutdown_loses,
}
use memkvin_c.Examples.Params.{rolling_crc, function_map, small_files, empty_disk}

abbrev start : Engine function_map
start = fresh function_map small_files empty_disk

-- The engine with one write queued, and with another queued behind the swap.
abbrev one_queued : Engine function_map
one_queued = (put start (codes "a") (codes "1")).0

abbrev one_held : Engine function_map
one_held = record one_queued { writes = [] }

abbrev one_more : Engine function_map
one_more = (put one_held (codes "b") (codes "2")).0

run : Steps rolling_crc (start, swapping) (one_more, committing one_queued.writes)
unfolding put
run =
    then _ (one_held, committing one_queued.writes) _
      (then _ (one_queued, swapping) _
        (then _ (start, swapping) _ (here _) (call_put start swapping (codes "a") (codes "1") refl))
        (swap one_queued))
      (call_put one_held (committing one_queued.writes) (codes "b") (codes "2") refl)

Steps-InOrder_example : InOrder (one_more, committing one_queued.writes)
Steps-InOrder_example =
    Steps-InOrder rolling_crc (start, swapping) (one_more, committing one_queued.writes) run refl

shutdown_loses_example :
    (e' : Engine function_map) × Steps rolling_crc (start, testing) (e', finished)
    × (e'.writes ≡ (put start (codes "a") (codes "1")).0.writes)
    × (e'.resolved ≡ start.resolved)
shutdown_loses_example = shutdown_loses rolling_crc start (codes "a") (codes "1") refl
