-- ===== src/Bitcask/Calls.antt =====
-- What the calls of the class Bitcask return, whatever the worker is doing when they are made.
use memkvin_c.Base.{
  Key, Value, ◌≡◌, ◌∙◌, subst, refl, ap, sym, true, false, List, [], ◌∷◌, ◌++◌, append_assoc, none,
  some, tombstone, bytes_eq, bytes_eq_refl,
}
use memkvin_c.Crc.{Crc32c}
use memkvin_c.HashMap.{HashMap}
use memkvin_c.RecordMap
use memkvin_c.RecordMap.{Hint}
use memkvin_c.Bitcask.Engine
use memkvin_c.Bitcask.Engine.{Engine, Write, visible, visible?, delete_hint}
use memkvin_c.Bitcask.View.{View, Represents, apply_writes, apply_writes-append, update}
use memkvin_c.Bitcask.Reads.{get_represents}
use memkvin_c.Bitcask.Worker.{Pc, testing, finished, held, InOrder}
use memkvin_c.Bitcask.Turns.{run}
use memkvin_c.Bitcask.Serving.{served, put-served, turns}
use memkvin_c.Bitcask.Served.{IsReady, ready_keeping}
use memkvin_c.Bitcask.Api
use memkvin_c.Bitcask.Api.{Database, patience}

pub last_write :
    (m : View) (ws more : List Write) (w : Write)
    → apply_writes m (ws ++ (more ++ w ∷ [])) ≡ update (apply_writes m (ws ++ more)) w.key w.value
last_write m ws more w =
    ap (apply_writes m) (sym (append_assoc ws more (w ∷ [])))
    ∙ apply_writes-append (ws ++ more) (w ∷ []) m

-- A Get of the key that was written last.
pub got :
    {hash : HashMap} (e : Engine hash) (pc : Pc) (key : Key) (value : Value) (m : View)
    → Represents e (update m key value)
    → (s : Database hash) × (Api.get (e, pc) key ≡ some (visible value, s))
unfolding Api.get
got e pc key value m rep =
    let (e', p, _) = get_represents rep key in
    (
      (e', pc),
      λ i. elim ((p ∙ ap (λ o. some (visible? o, e')) last) i) [
        | none ↦ none
        | some (v, e1) ↦ some (v, (e1, pc))
      ],
    )
  where
    last : update m key value key ≡ some value
    last = rw (bytes_eq_refl key) refl

module _ (c : Crc32c) {hash : HashMap} where
  -- Where a running engine stands for a map, the promises are in order, the worker has not left
  -- its loop and the active file has room below its limits for the writes that are held and
  -- queued and for this one, Put returns, whatever the worker is doing when it is called: the
  -- engine then stands for the map with all of them applied, this one last, nothing is queued,
  -- the promises are in order, and a Get of the key returns the value, or none where it is the
  -- tombstone.
  pub put_returns :
      (e : Engine hash) (pc : Pc) (m : View) (key : Key) (value : Value)
      → ¬ (pc ≡ finished)
      → IsReady c (Engine.put e key value).0 m (held pc ++ (Engine.put e key value).0.writes)
      → InOrder (e, pc)
      → (e' : Engine hash) × (Api.put c (e, pc) key value ≡ some (e', testing))
        × Represents e' (update (apply_writes m (held pc ++ e.writes)) key value)
        × InOrder (e', testing)
        × (e'.writes ≡ [])
        × (s : Database hash) × (Api.get (e', testing) key ≡ some (visible value, s))
  unfolding Api.put Engine.put ready_keeping
  put_returns e pc m key value on ready order =
      let w : Write = record { key = key; value = value; promise = e.next_promise } in
      let goal = apply_writes m (held pc ++ (e.writes ++ w ∷ [])) in
      let (e', p, holds, order', empty, _) =
        put-served c (ready_keeping c goal) e pc key value on (m, ready, refl) order in
      let rep : Represents e' (update (apply_writes m (held pc ++ e.writes)) key value) =
        subst (Represents e') (holds.2 ∙ last_write m (held pc) e.writes w) holds.1.rep in
      let (s, q) = got e' testing key value (apply_writes m (held pc ++ e.writes)) rep in
      (e', p, rep, order', empty, s, q)

  -- Where a running engine stands for a map, the promises are in order, the worker has not left
  -- its loop, the key is in the index and the active file has room below its limits for the
  -- writes that are held and queued and for the tombstone, Delete of the key returns true,
  -- whatever the worker is doing when it is called: the engine then stands for the map with all
  -- of them applied, the tombstone last, nothing is queued, the promises are in order, and a Get
  -- of the key returns none.
  pub delete_returns :
      (e : Engine hash) (pc : Pc) (m : View) (key : Key) (hint : Hint)
      → ¬ (pc ≡ finished)
      → RecordMap.get e.record_map key ≡ some hint
      → IsReady c
          (Engine.put e key tombstone).0
          m
          (held pc ++ (Engine.put e key tombstone).0.writes)
      → InOrder (e, pc)
      → (e' : Engine hash) × (Api.delete c (e, pc) key ≡ some (true, (e', testing)))
        × Represents e' (update (apply_writes m (held pc ++ e.writes)) key tombstone)
        × InOrder (e', testing)
        × (e'.writes ≡ [])
        × (s : Database hash) × (Api.get (e', testing) key ≡ some (none, s))
  unfolding Api.delete Engine.delete Engine.put Api.put bytes_eq
  delete_returns e pc m key hint on there ready order =
      let (e', p, rep, order', empty, s, q) = put_returns e pc m key tombstone on ready order in
      (
        e',
        ap (λ o. Api.deleted c pc (delete_hint e key o)) there ∙ λ i. elim (p i) [
          | none ↦ none
          | some s ↦ some (true, s)
        ],
        rep,
        order',
        empty,
        s,
        q,
      )

  -- Where a running engine stands for a map, the worker has not left its loop, the key is not in
  -- the index and the active file has room below its limits for the writes that are held and
  -- queued and for this one, PutAsync of the key and then Delete of it returns false at once and
  -- changes nothing, and the write stays: some turns of the worker later a Get of the key returns
  -- the value, or none where it is the tombstone.
  pub delete_misses_queued :
      (e : Engine hash) (pc : Pc) (m : View) (key : Key) (value : Value)
      → ¬ (pc ≡ finished)
      → RecordMap.get e.record_map key ≡ none
      → IsReady c (Engine.put e key value).0 m (held pc ++ (Engine.put e key value).0.writes)
      → (Api.delete c (Api.put_async (e, pc) key value).0 key
          ≡ some (false, (Api.put_async (e, pc) key value).0))
        × (e' : Engine hash) × (run c (turns pc) (Api.put_async (e, pc) key value).0
            ≡ some (e', testing))
        × (s : Database hash) × (Api.get (e', testing) key ≡ some (visible value, s))
  unfolding Api.delete Engine.delete Engine.put Api.put_async ready_keeping
  delete_misses_queued e pc m key value on missing ready =
      let e1 = (Engine.put e key value).0 in
      let w : Write = record { key = key; value = value; promise = e.next_promise } in
      let (e', q) =
        served c (ready_keeping c (apply_writes m (held pc ++ e1.writes))) e1 pc on
          (m, ready, refl) in
      let (s, p) =
        got e' testing key value (apply_writes m (held pc ++ e.writes))
          (subst (Represents e') (q.holds.2 ∙ last_write m (held pc) e.writes w) q.holds.1.rep) in
      (ap (λ o. Api.deleted c pc (delete_hint e1 key o)) missing, e', q.runs, s, p)
