-- ===== src/Bitcask/Worker.antt =====
-- src/BitcaskImpl.cpp: the loop of CommitWorker beside the calls of Put, Delete and Get and the destructor,
-- as steps. What a step does is done at once: the queue and the running flag are all that the worker
-- shares with Put and Delete, and a commit touches neither; a Get inside a commit is in Bitcask/Race.
use memkvin_c.Base.{
  Key, Value, ◌≡◌, ◌∙◌, refl, ap, sym, true, false, List, [], ◌∷◌, ◌++◌, append_assoc, append-nil,
  Option, none, some, ℕ, zero, suc, tombstone,
}
use memkvin_c.Crc.{Crc32c}
use memkvin_c.HashMap.{HashMap}
use memkvin_c.RecordMap
use memkvin_c.RecordMap.{Hint}
use memkvin_c.Bitcask.Engine.{Engine, Write, put, delete, delete_hint, commit_write}
use memkvin_c.Bitcask.Tickets.{promises, commit_write-promises}

-- Where the worker stands: before the swap, before the commit of what it took, before the test of
-- `_running`, behind the loop.
pub data Pc : Type 0 where
  swapping : Pc
  committing : List Write → Pc
  testing : Pc
  finished : Pc

-- What the worker has taken and not yet committed.
abbrev pub held : Pc → List Write
held (committing ws) = ws
held _ = []

abbrev pub from_zero : ℕ → List ℕ
from_zero zero = []
from_zero (suc n) = from_zero n ++ n ∷ []

promises-snoc :
    (ws : List Write) (w : Write) → promises (ws ++ w ∷ []) ≡ promises ws ++ w.promise ∷ []
promises-snoc [] w = refl
promises-snoc (v ∷ ws) w = ap (λ t. v.promise ∷ t) (promises-snoc ws w)

module _ {hash : HashMap} where
  -- The promises that were given out and are set, held or queued, in this order.
  abbrev pub tickets : Engine hash × Pc → List ℕ
  tickets (e, pc) = e.resolved ++ (promises (held pc) ++ promises e.writes)

  -- Each promise is in one place, and they are set in the order in which they were given out.
  abbrev pub InOrder : Engine hash × Pc → Type 0
  InOrder s = tickets s ≡ from_zero s.0.next_promise

  queued : Engine hash → Key → Value → Engine hash
  queued e key value = record e {
    writes = e.writes ++ record { key = key; value = value; promise = e.next_promise } ∷ [];
    next_promise = suc e.next_promise;
  }

  queued-InOrder :
      (e : Engine hash) (pc : Pc) (key : Key) (value : Value)
      → InOrder (e, pc)
      → InOrder (queued e key value, pc)
  unfolding queued
  queued-InOrder e pc key value h =
      ap (λ t. e.resolved ++ (promises (held pc) ++ t)) (promises-snoc e.writes _)
      ∙ ap (λ t. e.resolved ++ t) (sym (append_assoc (promises (held pc)) (promises e.writes) _))
      ∙ sym (append_assoc e.resolved _ _)
      ∙ ap (λ t. t ++ e.next_promise ∷ []) h

  delete_hint-InOrder :
      (e : Engine hash) (pc : Pc) (key : Key) (o : Option Hint)
      → InOrder (e, pc)
      → InOrder ((delete_hint e key o).0, pc)
  unfolding queued
  delete_hint-InOrder e pc key none h = h
  delete_hint-InOrder e pc key (some hint) h = queued-InOrder e pc key tombstone h

module _ (c : Crc32c) {hash : HashMap} where
  -- `_running` is true until the destructor runs, and no call comes after it.
  pub data Step : Engine hash × Pc → Engine hash × Pc → Type 0 where
    call_put :
        (e : Engine hash) (pc : Pc) (key : Key) (value : Value)
        → e.running ≡ true
        → Step (e, pc) ((put e key value).0, pc)
    call_delete :
        (e : Engine hash) (pc : Pc) (key : Key)
        → e.running ≡ true
        → Step (e, pc) ((delete e key).0, pc)
    destruct : (e : Engine hash) (pc : Pc) → Step (e, pc) (record e { running = false }, pc)
    swap : (e : Engine hash) → Step (e, swapping) (record e { writes = [] }, committing e.writes)
    commit :
        (e e' : Engine hash) (ws : List Write)
        → commit_write c e ws ≡ some e'
        → Step (e, committing ws) (e', testing)
    go_on : (e : Engine hash) → e.running ≡ true → Step (e, testing) (e, swapping)
    leave : (e : Engine hash) → e.running ≡ false → Step (e, testing) (e, finished)

  pub data Steps : Engine hash × Pc → Engine hash × Pc → Type 0 where
    here : (s : Engine hash × Pc) → Steps s s
    then : (s t u : Engine hash × Pc) → Steps s t → Step t u → Steps s u

  commit-InOrder :
      (e e' : Engine hash) (ws : List Write)
      → InOrder (e, committing ws)
      → commit_write c e ws ≡ some e'
      → InOrder (e', testing)
  commit-InOrder e e' ws h p =
      let (r, q, n) = commit_write-promises c e ws e' p in
      ap (λ t. t ++ promises e'.writes) r
      ∙ append_assoc e.resolved (promises ws) _
      ∙ ap (λ t. e.resolved ++ (promises ws ++ promises t)) q
      ∙ h
      ∙ ap from_zero (sym n)

  Step-InOrder : (s t : Engine hash × Pc) → InOrder s → Step s t → InOrder t
  unfolding put delete queued
  Step-InOrder _ _ h (call_put e pc key value r) = queued-InOrder e pc key value h
  Step-InOrder _ _ h (call_delete e pc key r) =
      delete_hint-InOrder e pc key (RecordMap.get e.record_map key) h
  Step-InOrder _ _ h (destruct e pc) = h
  Step-InOrder _ _ h (swap e) = ap (λ t. e.resolved ++ t) (append-nil (promises e.writes)) ∙ h
  Step-InOrder _ _ h (commit e e' ws p) = commit-InOrder e e' ws h p
  Step-InOrder _ _ h (go_on e r) = h
  Step-InOrder _ _ h (leave e r) = h

  -- On every run of the worker, with Put, Delete and the destructor in between, the promises that
  -- are set, held by the worker and queued stay those that were given out, each once and in that
  -- order, if they are so at the start.
  pub Steps-InOrder : (s t : Engine hash × Pc) → Steps s t → InOrder s → InOrder t
  Steps-InOrder s t (here _) h = h
  Steps-InOrder s t (then _ u _ run step) h = Step-InOrder u t (Steps-InOrder s u run h) step

  -- From a running engine whose worker stands behind a commit there is a run in which a write is
  -- put, the destructor runs and the worker leaves its loop while the write is still queued and
  -- no further promise is set.
  pub shutdown_loses :
      (e : Engine hash) (key : Key) (value : Value)
      → e.running ≡ true
      → (e' : Engine hash) × Steps (e, testing) (e', finished)
        × (e'.writes ≡ (put e key value).0.writes)
        × (e'.resolved ≡ e.resolved)
  unfolding put
  shutdown_loses e key value r =
      let e1 = (put e key value).0 in
      let e2 : Engine hash = record e1 { running = false } in
      (
        e2,
        then _ (e2, testing) _
            (then _ (e1, testing) _
              (then _ (e, testing) _ (here _) (call_put e testing key value r))
              (destruct e1 testing))
            (leave e2 refl),
        refl,
        refl,
      )
