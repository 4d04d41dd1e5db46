-- ===== src/Bitcask/Served.antt =====
-- The worker, where an engine stands for a map and its active file has room for the writes.
use memkvin_c.Base.{
  ◌≡◌, ◌∙◌, subst, refl, ap, sym, true, List, [], ◌++◌, some, ℕ, ◌≤◌, length, length-append, arith,
}
use memkvin_c.Crc.{Crc32c}
use memkvin_c.HashMap.{HashMap}
use memkvin_c.Setting.{get_max_file_size}
use memkvin_c.Record.Log.{encode_all}
use memkvin_c.Bitcask.Engine.{Engine, Write, commit_write}
use memkvin_c.Bitcask.View.{View, Represents, apply_writes, apply_writes-append}
use memkvin_c.Bitcask.Batch.{log_of}
use memkvin_c.Bitcask.Frame.{reframe}
use memkvin_c.Bitcask.Commit.{
  committed, committed-frame, committed-content, committed-Represents, commit_write-committed,
}
use memkvin_c.Bitcask.Room.{HasRoom, HasRoom-append}
use memkvin_c.Bitcask.Worker.{Pc, swapping, committing, testing, finished, held, from_zero, InOrder}
use memkvin_c.Bitcask.Turns.{run}
use memkvin_c.Bitcask.Serving.{Keeping, turns, served, served-resolved}

few : (pc : Pc) → turns pc ≤ 4
few swapping = omega arith
few testing = omega arith
few (committing ws) = omega arith
few finished = omega arith

module _ (c : Crc32c) {hash : HashMap} where
  -- The engine stands for a map, and its active file has room for the writes.
  pub record IsReady (e : Engine hash) (m : View) (ws : List Write) : Type 0 where
    pub rep : Represents e m
    pub room : HasRoom c (get_max_file_size e.setting) (length rep.active.content) ws
    pub running : e.running ≡ true

  pub commits :
      (e : Engine hash) (m : View) (ws more : List Write)
      → IsReady e m (ws ++ more)
      → (e' : Engine hash) × (commit_write c e ws ≡ some e') × IsReady e' (apply_writes m ws) more
  commits e m ws more ready =
      let limit = get_max_file_size e.setting in
      let (now, later) =
        HasRoom-append c limit (length ready.rep.active.content) ws more ready.room in
      let (fits, below) = now in
      let (rep', res) = committed-Represents c e ws ready.rep fits below in
      let (_, running, setting, _, _, _, _) = committed-frame c e ws ready.rep in
      (
        committed c e ws ready.rep,
        commit_write-committed c e ws ready.rep fits below,
        record {
          rep = rep';
          room =
              subst (λ l. HasRoom c l (length rep'.active.content) more)
                (ap get_max_file_size (sym setting))
                (subst (λ n. HasRoom c limit n more)
                  (sym (
                    ap (λ t. length t) (committed-content c e ws ready.rep rep')
                    ∙ length-append ready.rep.active.content (encode_all c (log_of ws))))
                  later);
          running = running ∙ ready.running;
        },
      )

  pub IsReady-framed :
      (e : Engine hash) (m : View) (ws vs : List Write) (n : ℕ) (tickets : List ℕ)
      → IsReady e m ws
      → IsReady (record e { writes = vs; next_promise = n; resolved = tickets }) m ws
  unfolding reframe
  IsReady-framed e m ws vs n tickets h = record {
    rep = reframe e vs n tickets h.rep;
    room = h.room;
    running = h.running;
  }

  -- The engine is ready for the writes, and they lead to the map `goal`.
  abbrev pub ReadyFor : View → Engine hash → List Write → Type 0
  ReadyFor goal e ws = (m : View) × IsReady e m ws × (apply_writes m ws ≡ goal)

  unfoldable pub ready_keeping : View → Keeping c hash
  ready_keeping goal = record {
    Holds = ReadyFor goal;
    framed = λ e ws vs n tickets h. (h.0, IsReady-framed e h.0 ws vs n tickets h.1, h.2);
    running = λ e ws h. h.1.running;
    commits = λ e ws more h.
        let (e', p, ready) = commits e h.0 ws more h.1 in
        (e', p, (apply_writes h.0 ws, ready, sym (apply_writes-append ws more h.0) ∙ h.2));
  }

  -- From every state in which the worker has not left its loop, the promises are in order, and a
  -- running engine stands for a map and has room in its active file, below its limits, for the
  -- writes that are held and queued, at most four turns of the worker set all promises that were
  -- given out, and leave no write queued and an engine that stands for the map with these writes
  -- applied.
  pub worker_serves :
      (e : Engine hash) (pc : Pc) (m : View)
      → ¬ (pc ≡ finished)
      → IsReady e m (held pc ++ e.writes)
      → InOrder (e, pc)
      → (e' : Engine hash) × (run c (turns pc) (e, pc) ≡ some (e', testing))
        × (turns pc ≤ 4)
        × Represents e' (apply_writes m (held pc ++ e.writes))
        × (e'.resolved ≡ from_zero e.next_promise)
        × (e'.writes ≡ [])
  unfolding ready_keeping
  worker_serves e pc m on h order =
      let k = ready_keeping (apply_writes m (held pc ++ e.writes)) in
      let (e', q) = served c k e pc on (m, h, refl) in
      (
        e',
        q.runs,
        few pc,
        subst (Represents e') q.holds.2 q.holds.1.rep,
        served-resolved c k e e' pc q order,
        q.writes,
      )
