-- ===== src/Bitcask/Sound.antt =====
-- A client that makes one call after the other sees a map, wherever the files rotate and whenever the
-- database is closed and opened again.
use memkvin_c.Base.{
  Bytes, Key, ◌≡◌, ◌∙◌, refl, ap, ap₂, subst, sym, false, [], ◌∷◌, ◌++◌, inl, inr, none, some, ℕ,
  b_slash, arith, if◌then◌else◌,
}
use memkvin_c.Crc.{Crc32c}
use memkvin_c.HashMap.{HashMap}
use memkvin_c.Setting.{Setting, get_db_path}
use memkvin_c.Disk.{Disk}
use memkvin_c.Bitcask.Engine
use memkvin_c.Bitcask.Engine.{Engine, Write, visible?, db_file, set_stable}
use memkvin_c.Bitcask.Stables.{length-set_stable}
use memkvin_c.Bitcask.Reads.{MovesOnly, get_moves}
use memkvin_c.Bitcask.Restore.{done}
use memkvin_c.Bitcask.Worker.{Pc, swapping, committing, testing, finished}
use memkvin_c.Bitcask.Turns.{run, work, run-work, work-committing}
use memkvin_c.Bitcask.Logs.{add_writes, view_of}
use memkvin_c.Bitcask.Fitting.{AllFit}
use memkvin_c.Bitcask.Handles.{moved-HoldsFrom}
use memkvin_c.Bitcask.Durable.{IsDurable}
use memkvin_c.Bitcask.Places.{commit_write-IsDurable}
use memkvin_c.Bitcask.Shutdown.{destroy, close_files, joined}
use memkvin_c.Bitcask.Closing.{close_files-closed, stopped, reopened}
use memkvin_c.Bitcask.Api
use memkvin_c.Bitcask.Api.{Database, patience}
use memkvin_c.Bitcask.Client.{Story}
use memkvin_c.Bitcask.Idle.{IsKept, IsSound}

module _ (c : Crc32c) {hash : HashMap} (setting : Setting ℕ) (dir : Bytes)
    (ending : get_db_path setting ≡ dir ++ b_slash ∷ []) where
  abbrev Kept : Engine hash → Pc → Story → Type 0
  Kept = IsKept c setting dir ending

  moved-Kept :
      (e e' : Engine hash) (pc : Pc) (story : Story)
      → MovesOnly e e'
      → Kept e pc story
      → Kept e' pc story
  moved-Kept e e' pc story (inl p) k = subst (λ t. Kept t pc story) (sym p) k
  moved-Kept e e' pc story (inr mv) k =
      subst (λ t. Kept t pc story) (sym mv.result)
        (record {
          durable = record {
            stream = k.durable.stream;
            is_active = k.durable.is_active;
            appending = k.durable.appending;
            is_open = k.durable.is_open;
            path = k.durable.path;
            content = k.durable.content;
            on_disk = k.durable.on_disk;
            handles =
                moved-HoldsFrom c (db_file (get_db_path e.setting)) story.logs.writes e.stable_files
                  0 mv.fd mv.before mv.behind mv.found mv.same k.durable.handles;
            count = omega (
              arith,
              k.durable.count,
              length-set_stable e.stable_files mv.fd _ (record { file = some mv.behind }) mv.found,
            );
          };
          same = k.same;
          running = k.running;
          writes = k.writes;
          order = k.order;
          next = k.next;
          idle = k.idle;
        })

  -- A Get returns what the map holds.
  pub get-IsSound :
      (e : Engine hash) (pc : Pc) (story : Story) (key : Key)
      → IsSound c setting dir ending (e, pc) story
      → (s : Database hash) × (Api.get (e, pc) key ≡ some (visible? (view_of story.logs key), s))
        × IsSound c setting dir ending s story
  unfolding Api.get
  get-IsSound e pc story key h =
      let (e', p, rep, moves) = get_moves h.rep key in
      (
        (e', pc),
        λ i. elim (p i) [ none ↦ none | some (v, e1) ↦ some (v, (e1, pc)) ],
        record { rep = rep; kept = moved-Kept e e' pc story moves h.kept },
      )

  -- The worker that is told to stop before its swap commits an empty batch.
  stops_swapping :
      (e e1 : Engine hash)
      → e.writes ≡ []
      → Engine.commit_write c (record e { running = false; writes = [] }) [] ≡ some e1
      → e1.running ≡ false
      → destroy c (e, swapping) ≡ some (close_files e1)
  unfolding destroy run work
  stops_swapping e e1 empty p stop =
      let e0 : Engine hash = record e { running = false; writes = [] } in
      let done : run c patience (record e { running = false }, swapping) ≡ some (e1, finished) =
        run-work c 4 (record e { running = false }, swapping) (e0, committing e.writes) refl
        ∙ run-work c 3 (e0, committing e.writes) (e1, testing)
            (work-committing c e0 e1 e.writes (ap (Engine.commit_write c e0) empty ∙ p))
        ∙ run-work c 2 (e1, testing) (e1, finished)
            (ap (λ b. some (e1, if b then swapping else finished)) stop) in
      λ i. elim (done i) [ none ↦ none | some s ↦ joined s ]

  -- The destructor closes files that hold the logs.
  destroys :
      (e : Engine hash) (pc : Pc) (story : Story)
      → Kept e pc story
      → AllFit story.logs
      → (e1 : Engine hash) × (destroy c (e, pc) ≡ some (close_files e1))
        × IsDurable c e1 story.logs
        × (e1.setting ≡ setting)
  unfolding add_writes
  destroys e swapping story k fit =
      let e0 : Engine hash = record e { running = false; writes = [] } in
      let (e1, p, same, runs, durable) =
        commit_write-IsDurable c e0 dir (ap get_db_path k.same ∙ ending) [] story.logs k.durable
          fit in
      (e1, stops_swapping e e1 k.writes p runs, durable, same ∙ k.same)
  destroys e testing story k fit =
      let end = ap get_db_path k.same ∙ ending in
      (
        e,
        stopped c e story.logs dir k.durable end fit
            ∙ ap some (sym (close_files-closed c e story.logs dir k.durable end fit)),
        k.durable,
        k.same,
      )
  destroys e (committing ws) story k fit = absurd k.idle
  destroys e finished story k fit = absurd k.idle

  -- The database is closed and opened again.
  pub reopen-IsSound :
      (e : Engine hash) (pc : Pc) (story : Story)
      → IsSound c setting dir ending (e, pc) story
      → AllFit story.logs
      → (d : Disk) × (destroy c (e, pc) ≡ some d)
        × (s : Database hash) × (Api.create c e.setting d ≡ done s)
        × IsSound c setting dir ending s (record story { next = 0 })
  reopen-IsSound e pc story h fit =
      let (e1, p, durable, same) = destroys e pc story h.kept fit in
      let end = ap get_db_path same ∙ ending in
      let (e2, q, r) = reopened c e1 story.logs dir durable end fit in
      (
        close_files e1,
        p,
        (e2, swapping),
        ap₂ (λ t d. Api.create c t d) (h.kept.same ∙ sym same)
              (close_files-closed c e1 story.logs dir durable end fit)
            ∙ q,
        record {
          rep = r.rep;
          kept = record {
            durable = r.durable;
            same = r.same ∙ same;
            running = r.running;
            writes = r.writes;
            order = r.order;
            next = r.next;
            idle = tt;
          };
        },
      )
