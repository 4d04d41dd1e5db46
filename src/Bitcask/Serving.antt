-- ===== src/Bitcask/Serving.antt =====
-- What the worker does with the writes that it holds and those that are queued, where every commit on the
-- way keeps an invariant of the engine and what is still to be written.
use memkvin_c.Base.{
  Key, Value, ◌≡◌, ◌∙◌, subst, refl, ap, ap₂, sym, Bool, true, false, ◌||◌, List, [], ◌∷◌, ◌++◌,
  append_assoc, append-nil, Option, some, ℕ, suc, if◌then◌else◌, arith,
}
use memkvin_c.Crc.{Crc32c}
use memkvin_c.HashMap.{HashMap}
use memkvin_c.Bitcask.Engine
use memkvin_c.Bitcask.Engine.{Engine, Write, commit_write}
use memkvin_c.Bitcask.Tickets.{promises, commit_write-promises}
use memkvin_c.Bitcask.Worker.{
  Pc, swapping, committing, testing, finished, held, from_zero, InOrder, call_put, here, then,
  Steps-InOrder,
}
use memkvin_c.Bitcask.Turns.{
  work, run, wait, is_set, is_set-append, is_set-from_zero, wait-work, wait-done, run-work,
  work-committing,
}
use memkvin_c.Bitcask.Api.{Database, patience}

-- The turns until the worker has committed what it holds and what is queued.
abbrev pub turns : Pc → ℕ
turns swapping = 2
turns testing = 3
turns (committing _) = 4
turns finished = 0

-- The fuel of a wait, which is more than the turns.
abbrev pub enough : Pc → ℕ → ℕ
enough swapping f = suc (suc (suc f))
enough testing f = suc (suc (suc (suc f)))
enough (committing _) f = suc (suc (suc (suc (suc f))))
enough finished f = f

pub promises-append : (ws more : List Write) → promises (ws ++ more) ≡ promises ws ++ promises more
promises-append [] more = refl
promises-append (w ∷ ws) more = ap (λ t. w.promise ∷ t) (promises-append ws more)

or_false : (a b : Bool) → a || b ≡ false → (a ≡ false) × (b ≡ false)
or_false true b h = cc
or_false false b h = (refl, h)

-- An invariant of an engine and the writes that it has still to commit: it does not hang on the
-- queue and the promises, the engine runs, and a commit of the first of the writes keeps it.
pub record Keeping (c : Crc32c) (hash : HashMap) : Type 1 where
  pub Holds : Engine hash → List Write → Type 0
  pub framed :
      (e : Engine hash) (ws vs : List Write) (n : ℕ) (tickets : List ℕ)
      → Holds e ws
      → Holds (record e { writes = vs; next_promise = n; resolved = tickets }) ws
  pub running : (e : Engine hash) (ws : List Write) → Holds e ws → e.running ≡ true
  pub commits :
      (e : Engine hash) (ws more : List Write)
      → Holds e (ws ++ more)
      → (e' : Engine hash) × (commit_write c e ws ≡ some e') × Holds e' more

module _ (c : Crc32c) {hash : HashMap} (k : Keeping c hash) where
  open k use {Holds, framed, running, commits}

  -- Some turns later the worker has committed the writes, and nothing is queued.
  pub record IsServed (n : ℕ) (e e' : Engine hash) (pc : Pc) (ws : List Write) : Type 0 where
    pub runs : run c n (e, pc) ≡ some (e', testing)
    pub waits :
        (f t : ℕ)
        → is_set t e.resolved ≡ false
        → is_set t (promises (held pc)) ≡ false
        → is_set t e'.resolved ≡ true
        → wait c (enough pc f) t (e, pc) ≡ some (e', testing)
    pub holds : Holds e' []
    pub resolved : e'.resolved ≡ e.resolved ++ promises ws
    pub writes : e'.writes ≡ []
    pub next : e'.next_promise ≡ e.next_promise

  Served : Engine hash → Pc → List Write → Type 0
  Served e pc ws = (e' : Engine hash) × IsServed (turns pc) e e' pc ws

  Served-swapping : (e : Engine hash) → Holds e e.writes → Served e swapping e.writes
  unfolding work run Served is_set
  Served-swapping e h =
      let e1 : Engine hash = record e { writes = [] } in
      let h1 =
        framed e (e.writes ++ []) [] e.next_promise e.resolved
          (subst (Holds e) (sym (append-nil e.writes)) h) in
      let (e', p, h') = commits e1 e.writes [] h1 in
      let (resolved, writes, next) = commit_write-promises c e1 e.writes e' p in
      (
        e',
        record {
          runs = run-work c 0 (e1, committing e.writes) _ (work-committing c e1 e' e.writes p);
          waits = λ f t unset none_held set.
              wait-work c (suc (suc f)) t (e, swapping) (e1, committing e.writes) unset refl
              ∙ wait-work c (suc f) t (e1, committing e.writes) (e', testing) unset
                  (work-committing c e1 e' e.writes p)
              ∙ wait-done c f t (e', testing) set;
          holds = h';
          resolved = resolved;
          writes = writes;
          next = next;
        },
      )

  Served-testing : (e : Engine hash) → Holds e e.writes → Served e testing e.writes
  unfolding work run Served is_set
  Served-testing e h =
      let (e', q) = Served-swapping e h in
      let turn = ap (λ b. some (e, if b then swapping else finished)) (running e e.writes h) in
      (
        e',
        record {
          runs = run-work c 2 (e, testing) (e, swapping) turn ∙ q.runs;
          waits = λ f t unset none_held set.
              wait-work c (enough swapping f) t (e, testing) (e, swapping) unset turn
              ∙ q.waits f t unset refl set;
          holds = q.holds;
          resolved = q.resolved;
          writes = q.writes;
          next = q.next;
        },
      )

  Served-committing :
      (e : Engine hash) (ws : List Write)
      → Holds e (ws ++ e.writes)
      → Served e (committing ws) (ws ++ e.writes)
  unfolding Served is_set
  Served-committing e ws h =
      let (e1, p, h1) = commits e ws e.writes h in
      let (resolved, writes, next) = commit_write-promises c e ws e1 p in
      let (e', q) = Served-testing e1 (subst (Holds e1) (sym writes) h1) in
      let turn = work-committing c e e1 ws p in
      (
        e',
        record {
          runs = run-work c 3 (e, committing ws) (e1, testing) turn ∙ q.runs;
          waits = λ f t unset none_held set.
              wait-work c (enough testing f) t (e, committing ws) (e1, testing) unset turn
              ∙ q.waits f t
                  (ap (is_set t) resolved
                    ∙ is_set-append t e.resolved (promises ws)
                    ∙ ap₂ (λ a b. a || b) unset none_held)
                  refl set;
          holds = q.holds;
          resolved =
              q.resolved
              ∙ ap₂ (λ r t. r ++ promises t) resolved writes
              ∙ append_assoc e.resolved (promises ws) (promises e.writes)
              ∙ ap (λ t. e.resolved ++ t) (sym (promises-append ws e.writes));
          writes = q.writes;
          next = q.next ∙ next;
        },
      )

  pub served :
      (e : Engine hash) (pc : Pc)
      → ¬ (pc ≡ finished)
      → Holds e (held pc ++ e.writes)
      → (e' : Engine hash) × IsServed (turns pc) e e' pc (held pc ++ e.writes)
  unfolding Served
  served e swapping on h = Served-swapping e h
  served e testing on h = Served-testing e h
  served e (committing ws) on h = Served-committing e ws h
  served e finished on h = absurd (on refl)

  -- Where the promises are in order, all that were given out are set then.
  pub served-resolved :
      (e e' : Engine hash) (pc : Pc)
      → IsServed (turns pc) e e' pc (held pc ++ e.writes)
      → InOrder (e, pc)
      → e'.resolved ≡ from_zero e.next_promise
  served-resolved e e' pc q order =
      q.resolved ∙ ap (λ t. e.resolved ++ t) (promises-append (held pc) e.writes) ∙ order

  -- The next promise is not set, and the worker does not hold it.
  next-unset :
      (e : Engine hash) (pc : Pc)
      → InOrder (e, pc)
      → (is_set e.next_promise e.resolved ≡ false)
        × (is_set e.next_promise (promises (held pc)) ≡ false)
  next-unset e pc order =
      let t = e.next_promise in
      let rest = promises (held pc) ++ promises e.writes in
      let all : is_set t (e.resolved ++ rest) ≡ false =
        ap (is_set t) order ∙ is_set-from_zero t t ∙ ground arith in
      let (a, b) = or_false _ _ (sym (is_set-append t e.resolved rest) ∙ all) in
      (a, (or_false _ _ (sym (is_set-append t (promises (held pc)) (promises e.writes)) ∙ b)).0)

  patient :
      (pc : Pc) (t : ℕ) (s : Database hash) (r : Option (Database hash))
      → ¬ (pc ≡ finished)
      → ((f : ℕ) → wait c (enough pc f) t s ≡ r)
      → wait c patience t s ≡ r
  patient swapping t s r on h = h 2
  patient testing t s r on h = h 1
  patient (committing _) t s r on h = h 0
  patient finished t s r on h = absurd (on refl)

  -- A Put that waits for its promise: the wait ends, with the promises in order and nothing queued.
  pub put-served :
      (e : Engine hash) (pc : Pc) (key : Key) (value : Value)
      → ¬ (pc ≡ finished)
      → Holds (Engine.put e key value).0 (held pc ++ (Engine.put e key value).0.writes)
      → InOrder (e, pc)
      → (e' : Engine hash) × (wait c patience e.next_promise ((Engine.put e key value).0, pc)
          ≡ some (e', testing))
        × Holds e' []
        × InOrder (e', testing)
        × (e'.writes ≡ [])
        × (e'.next_promise ≡ suc e.next_promise)
  unfolding Engine.put
  put-served e pc key value on h order =
      let t = e.next_promise in
      let e1 = (Engine.put e key value).0 in
      let (e', q) = served e1 pc on h in
      let (unset, none_held) = next-unset e pc order in
      let order1 : InOrder (e1, pc) =
        Steps-InOrder c (e, pc) (e1, pc)
          ((then) _ _ _ (here (e, pc)) (call_put e pc key value (running e1 _ h))) order in
      let all = served-resolved e1 e' pc q order1 in
      (
        e',
        patient pc t (e1, pc) _ on
            (λ f.
              q.waits f t unset none_held
                (ap (is_set t) all ∙ is_set-from_zero (suc t) t ∙ ground arith)),
        q.holds,
        ap (λ l. e'.resolved ++ promises l) q.writes
            ∙ append-nil _
            ∙ all
            ∙ ap from_zero (sym q.next),
        q.writes,
        q.next,
      )
