-- ===== src/Bitcask/Survives.antt =====
-- A value that Put returned for, wherever CommitWrite rotates, over the destructor and Create.
use memkvin_c.Base.{
  Bytes, Key, Value, ◌≡◌, ◌∙◌, subst, refl, sym, ap, true, List, [], ◌∷◌, ◌++◌, some, ℕ, b_slash,
}
use memkvin_c.Crc.{Crc32c}
use memkvin_c.HashMap.{HashMap}
use memkvin_c.Disk.{Disk}
use memkvin_c.Setting.{Setting, get_db_path, get_max_file_size}
use memkvin_c.Bitcask.Engine
use memkvin_c.Bitcask.Engine.{Engine, Write, visible}
use memkvin_c.Bitcask.View.{Represents, apply_writes, update}
use memkvin_c.Bitcask.Restore.{done}
use memkvin_c.Bitcask.Worker.{Pc, swapping, testing, finished, held, InOrder}
use memkvin_c.Bitcask.Logs.{Logs, view_of, view_of-add_writes, add_writes, add_writes-append}
use memkvin_c.Bitcask.Fitting.{AllFit, AllFit-front}
use memkvin_c.Bitcask.Durable.{IsDurable}
use memkvin_c.Bitcask.Places.{commit_write-IsDurable}
use memkvin_c.Bitcask.Closing.{destroy_then_create}
use memkvin_c.Bitcask.Serving.{Keeping, put-served}
use memkvin_c.Bitcask.Api
use memkvin_c.Bitcask.Api.{Database}
use memkvin_c.Bitcask.Calls.{got, last_write}
use memkvin_c.Bitcask.Shutdown.{destroy}

module _ (c : Crc32c) {hash : HashMap} (setting : Setting ℕ) (goal : Logs) where
  -- The files hold some logs, and the writes lead to the logs `goal`.
  pub record LeadsTo (e : Engine hash) (ws : List Write) : Type 0 where
    pub logs : Logs
    pub durable : IsDurable c e logs
    pub placed : add_writes (get_max_file_size setting) logs ws ≡ goal
    pub same : e.setting ≡ setting
    pub runs : e.running ≡ true

  module _ (dir : Bytes) (ending : get_db_path setting ≡ dir ++ b_slash ∷ [])
      (fit : AllFit goal) where
    LeadsTo-commit :
        (e : Engine hash) (ws more : List Write)
        → LeadsTo e (ws ++ more)
        → (e' : Engine hash) × (Engine.commit_write c e ws ≡ some e') × LeadsTo e' more
    LeadsTo-commit e ws more h =
        let limit = get_max_file_size setting in
        let fits : AllFit (add_writes limit h.logs ws) =
          AllFit-front limit ws more h.logs (subst AllFit (sym h.placed) fit) in
        let now = ap (λ t. add_writes (get_max_file_size t) h.logs ws) h.same in
        let (e', p, same, runs, durable) =
          commit_write-IsDurable c e dir (ap get_db_path h.same ∙ ending) ws h.logs h.durable
            (subst AllFit (sym now) fits) in
        (
          e',
          p,
          record {
            logs = add_writes limit h.logs ws;
            durable = subst (IsDurable c e') now durable;
            placed = sym (add_writes-append limit ws more h.logs) ∙ h.placed;
            same = same ∙ h.same;
            runs = runs ∙ h.runs;
          },
        )

    unfoldable pub durable_keeping : Keeping c hash
    unfolding LeadsTo-commit
    durable_keeping = record {
      Holds = LeadsTo;
      framed = λ e ws vs n tickets h. record {
        logs = h.logs;
        durable = h.durable;
        placed = h.placed;
        same = h.same;
        runs = h.runs;
      };
      running = λ e ws h. h.runs;
      commits = LeadsTo-commit;
    }

module _ (c : Crc32c) {hash : HashMap} where
  -- The logs behind the writes that are held and queued, and one more.
  abbrev pub logs_behind : Engine hash → Pc → Logs → Key → Value → Logs
  logs_behind e pc logs key value =
      add_writes (get_max_file_size e.setting) logs (
        held pc ++ (e.writes ++ record { key = key; value = value; promise = e.next_promise } ∷ []))

  -- Where a database runs, its files hold the logs of some writes, the bytes of the active file
  -- those of its stream, the promises are in order, the worker has not left its loop and the path
  -- of the setting ends in a slash, Put returns, whatever the worker is doing when it is called
  -- and wherever its commits rotate, with files that hold the logs with the held and queued
  -- writes and this one; the destructor behind it returns, and Create with the same setting on
  -- the disk that it leaves returns a database that stands for the map of all these writes, this
  -- one last, and whose Get of the key returns the value, or none where it is the tombstone, if
  -- there are then ten files at most, each below 2^32 bytes.
  pub put_survives :
      (e : Engine hash) (pc : Pc) (logs : Logs) (key : Key) (value : Value) (dir : Bytes)
      → ¬ (pc ≡ finished)
      → e.running ≡ true
      → IsDurable c e logs
      → InOrder (e, pc)
      → get_db_path e.setting ≡ dir ++ b_slash ∷ []
      → AllFit (logs_behind e pc logs key value)
      → (e1 : Engine hash) × (Api.put c (e, pc) key value ≡ some (e1, testing))
        × IsDurable c e1 (logs_behind e pc logs key value)
        × (d : Disk) × (destroy c (e1, testing) ≡ some d)
        × (e2 : Engine hash) × (Api.create c e.setting d ≡ done (e2, swapping))
        × Represents e2 (update (apply_writes (view_of logs) (held pc ++ e.writes)) key value)
        × (s : Database hash) × (Api.get (e2, swapping) key ≡ some (visible value, s))
  unfolding Engine.put Api.put durable_keeping add_writes
  put_survives e pc logs key value dir on runs durable order ending fit =
      let w : Write = record { key = key; value = value; promise = e.next_promise } in
      let ws = held pc ++ (e.writes ++ w ∷ []) in
      let goal = logs_behind e pc logs key value in
      let limit = get_max_file_size e.setting in
      let (e1, p, holds, _, _, _) =
        put-served c (durable_keeping c e.setting goal dir ending fit) e pc key value on
          (record { logs = logs; durable = durable; placed = refl; same = refl; runs = runs })
          order in
      let durable1 : IsDurable c e1 goal = subst (IsDurable c e1) holds.placed holds.durable in
      let (d, stopped, e2, made, rep, _) =
        destroy_then_create c e1 goal dir durable1 (ap get_db_path holds.same ∙ ending) fit in
      let rep' : Represents e2
          (update (apply_writes (view_of logs) (held pc ++ e.writes)) key value) =
        subst (Represents e2)
          (view_of-add_writes limit ws logs ∙ last_write (view_of logs) (held pc) e.writes w) rep in
      let (s, q) =
        got e2 swapping key value (apply_writes (view_of logs) (held pc ++ e.writes)) rep' in
      (
        e1,
        p,
        durable1,
        d,
        stopped,
        e2,
        ap (λ t. Api.create c t d) (sym holds.same) ∙ made,
        rep',
        s,
        q,
      )
