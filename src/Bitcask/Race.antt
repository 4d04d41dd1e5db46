-- ===== src/Bitcask/Race.antt =====
-- src/BitcaskImpl.cpp: a Get beside the last part of CommitWrite, each in the order of its reads and
-- writes. Get holds the mutex shared for its whole length, and CommitWrite takes it shared, for the
-- insertion alone, so every interleaving of the two is possible. The loop of CommitWrite, which comes
-- before, changes nothing that Get reads.
use memkvin_c.Base.{
  Key, Value, List, [], ◌∷◌, ◌++◌, Option, none, some, ℕ, suc, ◌==◌, leb, ◌≡◌, if◌then◌else◌,
}
use memkvin_c.HashMap.{HashMap}
use memkvin_c.ActiveMap
use memkvin_c.RecordMap
use memkvin_c.RecordMap.{Hint}
use memkvin_c.Bitcask.Engine.{
  Engine, Write, Loop, get_active_fd, find_stable, get_stable, insert_all, is_empty, visible?,
}

-- Where CommitWrite stands: before the insertion of the new stable files, before the clearing of the
-- cache, before the cache is given a write, before the index is given it, behind the last write.
pub data Tail : Type 0 where
  inserting : Loop → List Write → Tail
  clearing : Loop → List Write → Tail
  caching : ℕ → ℕ → List Write → List Hint → Tail
  indexing : ℕ → ℕ → Write → Hint → List Write → List Hint → Tail
  ended : Tail

-- Where Get stands: before it looks into the index, with a hint, before it reads the cache, before it
-- reads a stable file, behind its return.
pub data Getting : Type 0 where
  looking : Getting
  hinted : Hint → Getting
  cached : Getting
  filed : Hint → Getting
  returned : Option Value → Getting

module _ {hash : HashMap} where
  -- One step of CommitWrite.
  unfoldable pub tail_step : Engine hash × Tail → Engine hash × Tail
  tail_step (e, inserting l ws) =
      (record e { stable_files = insert_all e.stable_files l.new_stable }, clearing l ws)
  tail_step (e, clearing l ws) = (
    record e {
      active_map = if is_empty l.new_stable then e.active_map else ActiveMap.clear e.active_map;
    },
    caching l.last_active_write 0 ws l.records,
  )
  tail_step (e, caching last i [] hints) = (e, ended)
  tail_step (e, caching last i (w ∷ ws) []) = (e, ended)
  tail_step (e, caching last i (w ∷ ws) (hint ∷ hints)) = (
    record e {
      active_map = if leb last i then ActiveMap.put e.active_map w.key w.value else e.active_map;
    },
    indexing last i w hint ws hints,
  )
  tail_step (e, indexing last i w hint ws hints) = (
    record e {
      record_map = RecordMap.put e.record_map w.key hint;
      resolved = e.resolved ++ w.promise ∷ [];
    },
    caching last (suc i) ws hints,
  )
  tail_step (e, ended) = (e, ended)

  abbrev pub filed_result : Option (Option Value × Engine hash) → Option (Engine hash × Getting)
  filed_result none = none
  filed_result (some (v, e)) = some (e, returned v)

  -- One step of a Get of a key; `none` is a fault.
  unfoldable pub get_step : Key → Engine hash × Getting → Option (Engine hash × Getting)
  get_step key (e, looking) = elim (RecordMap.get e.record_map key) [
    | none ↦ some (e, returned none)
    | some hint ↦ some (e, hinted hint)
  ]
  get_step key (e, hinted hint) =
      some (e, if hint.fd == get_active_fd e then cached else filed hint)
  get_step key (e, cached) = some (e, returned (visible? (ActiveMap.get e.active_map key)))
  get_step key (e, filed hint) =
      filed_result (get_stable e key hint (find_stable e.stable_files hint.fd))
  get_step key (e, returned v) = some (e, returned v)

  -- A step of the one or of the other.
  pub data Turn (key : Key)
      : Engine hash × Tail × Getting → Engine hash × Tail × Getting → Type 0 where
    commits :
        (e : Engine hash) (t : Tail) (g : Getting)
        → Turn key (e, t, g) ((tail_step (e, t)).0, (tail_step (e, t)).1, g)
    gets :
        (e e' : Engine hash) (t : Tail) (g g' : Getting)
        → get_step key (e, g) ≡ some (e', g')
        → Turn key (e, t, g) (e', t, g')

  pub data Turns (key : Key)
      : Engine hash × Tail × Getting → Engine hash × Tail × Getting → Type 0 where
    stay : (s : Engine hash × Tail × Getting) → Turns key s s
    next : (s t u : Engine hash × Tail × Getting) → Turns key s t → Turn key t u → Turns key s u
