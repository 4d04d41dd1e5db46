-- ===== src/Bitcask/Idle.antt =====
-- A database between two calls of a client that makes one after the other: what Put and Delete leave.
use memkvin_c.Stream.{Stream}
use memkvin_c.Bitcask.Frame.{reframe}
use memkvin_c.Base.{
  Bytes, Key, Value, ◌≡◌, ◌∙◌, refl, ap, ap₂, subst, sym, true, false, List, [], ◌∷◌, ◌++◌, Option,
  none, some, ℕ, suc, ◌≤◌, length, length-append, b_slash, tombstone, arith,
}
use memkvin_c.Crc.{Crc32c}
use memkvin_c.HashMap.{HashMap}
use memkvin_c.RecordMap
use memkvin_c.RecordMap.{Hint}
use memkvin_c.Setting.{Setting, get_db_path, get_max_file_size}
use memkvin_c.Bitcask.Engine
use memkvin_c.Bitcask.Engine.{Engine, Write, delete_hint}
use memkvin_c.Bitcask.View.{Represents, Shows}
use memkvin_c.Bitcask.Worker.{Pc, swapping, committing, testing, finished, held, InOrder}
use memkvin_c.Bitcask.Logs.{Logs, add_writes, add_writes-append, view_of}
use memkvin_c.Bitcask.Fitting.{AllFit, AllFit-front}
use memkvin_c.Bitcask.Durable.{IsDurable}
use memkvin_c.Bitcask.Single.{commit_short}
use memkvin_c.Bitcask.Serving.{Keeping, put-served}
use memkvin_c.Bitcask.Api
use memkvin_c.Bitcask.Api.{Database}
use memkvin_c.Bitcask.Client.{Story, write_of, told, told_delete, is_there}

-- The worker holds no write and has not left its loop.
abbrev pub Idle : Pc → Type 0
Idle swapping = Unit
Idle testing = Unit
Idle (committing _) = ⊥
Idle finished = ⊥

holds_none : (pc : Pc) → Idle pc → held pc ≡ []
holds_none swapping h = refl
holds_none testing h = refl
holds_none (committing ws) h = absurd h
holds_none finished h = absurd h

not_finished : (pc : Pc) → Idle pc → ¬ (pc ≡ finished)
not_finished swapping h e = cc
not_finished testing h e = cc
not_finished (committing ws) h e = absurd h
not_finished finished h e = absurd h

module _ (c : Crc32c) {hash : HashMap} (setting : Setting ℕ) (dir : Bytes)
    (ending : get_db_path setting ≡ dir ++ b_slash ∷ []) where
  -- The files hold the logs, the promises are in order, and nothing is queued or held.
  pub record IsKept (e : Engine hash) (pc : Pc) (story : Story) : Type 0 where
    pub durable : IsDurable c e story.logs
    pub same : e.setting ≡ setting
    pub running : e.running ≡ true
    pub writes : e.writes ≡ []
    pub order : InOrder (e, pc)
    pub next : e.next_promise ≡ story.next
    pub idle : Idle pc

  -- And the engine stands for the map of the logs.
  pub record IsSound (s : Database hash) (story : Story) : Type 0 where
    pub rep : Represents s.0 (view_of story.logs)
    pub kept : IsKept s.0 s.1 story

  -- One write at most leads to the logs `goal`.
  record ShortTo (goal : Logs) (e : Engine hash) (ws : List Write) : Type 0 where
    logs : Logs
    rep : Represents e (view_of logs)
    durable : IsDurable c e logs
    short : length ws ≤ 1
    placed : add_writes (get_max_file_size setting) logs ws ≡ goal
    same : e.setting ≡ setting
    runs : e.running ≡ true

  module _ (goal : Logs) (fit : AllFit goal) where
    ShortTo-commit :
        (e : Engine hash) (ws more : List Write)
        → ShortTo goal e (ws ++ more)
        → (e' : Engine hash) × (Engine.commit_write c e ws ≡ some e') × ShortTo goal e' more
    ShortTo-commit e ws more h =
        let fits : AllFit (add_writes (get_max_file_size setting) h.logs ws) =
          AllFit-front (get_max_file_size setting) ws more h.logs
            (subst AllFit (sym h.placed) fit) in
        let now = ap (λ t. add_writes (get_max_file_size t) h.logs ws) h.same in
        let (e', p, rep, durable, same, runs) =
          commit_short c e h.logs h.rep h.durable dir (ap get_db_path h.same ∙ ending) ws
            (omega (arith, h.short, length-append ws more)) (subst AllFit (sym now) fits) in
        (
          e',
          p,
          record {
            logs = add_writes (get_max_file_size setting) h.logs ws;
            rep = subst (λ l. Represents e' (view_of l)) now rep;
            durable = subst (IsDurable c e') now durable;
            short = omega (arith, h.short, length-append ws more);
            placed = sym (add_writes-append (get_max_file_size setting) ws more h.logs) ∙ h.placed;
            same = same ∙ h.same;
            runs = runs ∙ h.runs;
          },
        )

    short_keeping : Keeping c hash
    short_keeping = record {
      Holds = ShortTo goal;
      framed = λ e ws vs n tickets h. record {
        logs = h.logs;
        rep = reframe e vs n tickets h.rep;
        durable = h.durable;
        short = h.short;
        placed = h.placed;
        same = h.same;
        runs = h.runs;
      };
      running = λ e ws h. h.runs;
      commits = ShortTo-commit;
    }

  -- A Put returns, and the files have the write.
  pub put-IsSound :
      (e : Engine hash) (pc : Pc) (story : Story) (key : Key) (value : Value)
      → IsSound (e, pc) story
      → AllFit (told (get_max_file_size setting) story key value).logs
      → (e' : Engine hash) × (Api.put c (e, pc) key value ≡ some (e', testing))
        × IsSound (e', testing) (told (get_max_file_size setting) story key value)
  unfolding Engine.put Api.put short_keeping reframe add_writes
  put-IsSound e pc story key value h fit =
      let k = h.kept in
      let goal = (told (get_max_file_size setting) story key value).logs in
      let queue : held pc ++ (e.writes ++ write_of key value e.next_promise ∷ [])
          ≡ write_of key value story.next ∷ [] =
        ap₂ (λ a b. a ++ (b ++ write_of key value e.next_promise ∷ [])) (holds_none pc k.idle)
          k.writes
        ∙ ap (λ n. write_of key value n ∷ []) k.next in
      let (e', p, holds, order, empty, next) =
        put-served c (short_keeping goal fit) e pc key value (not_finished pc k.idle)
          (record {
            logs = story.logs;
            rep =
                reframe e (e.writes ++ write_of key value e.next_promise ∷ []) (suc e.next_promise)
                  e.resolved h.rep;
            durable = k.durable;
            short = omega (arith, ap (λ l. length l) queue);
            placed = ap (add_writes (get_max_file_size setting) story.logs) queue;
            same = k.same;
            runs = k.running;
          })
          k.order in
      (
        e',
        p,
        record {
          rep = subst (λ l. Represents e' (view_of l)) holds.placed holds.rep;
          kept = record {
            durable = subst (IsDurable c e') holds.placed holds.durable;
            same = holds.same;
            running = holds.runs;
            writes = empty;
            order = order;
            next = next ∙ ap suc k.next;
            idle = tt;
          };
        },
      )

  -- A Delete of a key that is in the index is a Put of the tombstone.
  delete-put :
      (e : Engine hash) (pc : Pc) (key : Key) (hint : Hint) (s : Database hash)
      → RecordMap.get e.record_map key ≡ some hint
      → Api.put c (e, pc) key tombstone ≡ some s
      → Api.delete c (e, pc) key ≡ some (true, s)
  unfolding Api.delete Engine.delete Engine.put Api.put
  delete-put e pc key hint s there p = ap (λ o. Api.deleted c pc (delete_hint e key o)) there ∙ λ i.
      elim (p i) [ none ↦ none | some s ↦ some (true, s) ]

  delete-missing :
      (e : Engine hash) (pc : Pc) (key : Key)
      → RecordMap.get e.record_map key ≡ none
      → Api.delete c (e, pc) key ≡ some (false, (e, pc))
  unfolding Api.delete Engine.delete
  delete-missing e pc key missing = ap (λ o. Api.deleted c pc (delete_hint e key o)) missing

  delete_hint-IsSound :
      (e : Engine hash) (pc : Pc) (story : Story) (key : Key) (o : Option Hint) (x : Option Value)
      → IsSound (e, pc) story
      → RecordMap.get e.record_map key ≡ o
      → (stream : Stream) → Shows e stream key o x
      → AllFit (told_delete (get_max_file_size setting) story key x).logs
      → (s : Database hash) × (Api.delete c (e, pc) key ≡ some (is_there x, s))
        × IsSound s (told_delete (get_max_file_size setting) story key x)
  delete_hint-IsSound e pc story key none none h there stream shows fit =
      ((e, pc), delete-missing e pc key there, h)
  delete_hint-IsSound e pc story key none (some v) h there stream shows fit = absurd (cc shows)
  delete_hint-IsSound e pc story key (some hint) none h there stream (v, p, _) fit = absurd (cc p)
  delete_hint-IsSound e pc story key (some hint) (some v) h there stream shows fit =
      let (e', p, h') = put-IsSound e pc story key tombstone h fit in
      ((e', testing), delete-put e pc key hint (e', testing) there p, h')

  -- A Delete tells whether the key is there.
  pub delete-IsSound :
      (e : Engine hash) (pc : Pc) (story : Story) (key : Key)
      → IsSound (e, pc) story
      → AllFit (told_delete (get_max_file_size setting) story key (view_of story.logs key)).logs
      → (s : Database hash) × (Api.delete c (e, pc) key
          ≡ some (is_there (view_of story.logs key), s))
        × IsSound s (told_delete (get_max_file_size setting) story key (view_of story.logs key))
  delete-IsSound e pc story key h fit =
      delete_hint-IsSound e pc story key (RecordMap.get e.record_map key) (view_of story.logs key) h
        refl h.rep.active (h.rep.shows key) fit
