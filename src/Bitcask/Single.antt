-- ===== src/Bitcask/Single.antt =====
-- CommitWrite of at most one write: the maps stay right, whether it rotates or not.
use memkvin_c.Base.{
  ◌≡◌, ◌∙◌, ap, subst, sym, Bool-cases, inl, inr, some_inj, List, [], ◌∷◌, ◌++◌, some, ℕ, suc, ◌+◌,
  ◌≤◌, ◌<◌, ◌^◌, length, ltb, ltb→lt, ltb→le, b_slash, arith, Bytes,
}
use memkvin_c.Crc.{Crc32c}
use memkvin_c.HashMap.{HashMap}
use memkvin_c.Setting.{get_db_path, get_max_file_size}
use memkvin_c.Stream.{Stream}
use memkvin_c.Record.Log.{encode_all}
use memkvin_c.Bitcask.Engine.{Engine, Write, commit_write, db_file, active_fd}
use memkvin_c.Bitcask.View.{Represents, apply_writes}
use memkvin_c.Bitcask.Batch.{log_of, active_of, record_size}
use memkvin_c.Bitcask.Commit.{commit_write_represents}
use memkvin_c.Bitcask.Rollover.{commit_write_rotates}
use memkvin_c.Bitcask.Logs.{
  Logs, add_write, add_writes, add_write-past, value_at, log_size, length-encode_all, view_of,
  view_of-add_writes,
}
use memkvin_c.Bitcask.Fitting.{AllFit, AllFit-next}
use memkvin_c.Bitcask.Durable.{IsDurable}
use memkvin_c.Bitcask.Places.{commit_write-IsDurable}

active_inj : {s t : Stream} → active_of s ≡ active_of t → s ≡ t
active_inj h = cc

module _ (c : Crc32c) {hash : HashMap} (e : Engine hash) (logs : Logs)
    (rep : Represents e (view_of logs)) (h : IsDurable c e logs) where
  abbrev limit : ℕ
  limit = get_max_file_size e.setting

  size : length rep.active.content ≡ log_size (logs.writes logs.last)
  size =
      ap (λ t. length t.content) (active_inj (sym rep.stored.file ∙ h.is_active))
      ∙ ap (λ t. length t) h.content
      ∙ length-encode_all c (logs.writes logs.last)

  abbrev Commits : List Write → Type 0
  Commits ws =
      (e' : Engine hash) × (commit_write c e ws ≡ some e')
      × Represents e' (apply_writes (view_of logs) ws)

  Commits-none : AllFit logs → Commits []
  unfolding encode_all
  Commits-none fit =
      let (e', p, rep', _) =
        commit_write_represents c e [] rep (omega (arith, size, fit.sizes logs.last (omega arith)))
          tt in
      (e', p, rep')

  Commits-one : (w : Write) → AllFit (add_write limit logs w) → Commits (w ∷ [])
  unfolding encode_all add_writes
  Commits-one w fit = elim (Bool-cases (ltb (value_at logs w) limit)) [
    | inl below ↦
        let (e', p, rep', _) =
          commit_write_represents c e (w ∷ []) rep (omega (arith, size, one, next))
            (omega (arith, size, ltb→lt (value_at logs w) limit below), tt) in
        (e', p, rep')
    | inr past ↦
        let behind : suc logs.last < 10 =
          subst (λ (t : Logs). t.last < 10) (add_write-past logs w limit past) fit.few in
        let (e', p, rep', _, _) =
          commit_write_rotates c e [] w rep (omega (arith, size, one, next)) tt
            (omega (arith, size, ltb→le (value_at logs w) limit past)) (omega (arith, h.count))
            (ap (λ n. e.disk.creatable (db_file (get_db_path e.setting) n)) (number behind)
              ∙ h.on_disk.creatable (suc logs.last) behind) in
        (e', p, rep')
  ]
    where
      one : length (encode_all c (log_of (w ∷ []))) ≡ record_size w
      one = length-encode_all c (w ∷ []) ∙ omega arith

      next : log_size (logs.writes logs.last) + record_size w < 2 ^ 32
      next = AllFit-next limit w [] logs fit

      number : suc logs.last < 10 → active_fd e.stable_files + 1 ≡ suc logs.last
      number few = omega (arith, h.count)

  -- At most one write is committed: the engine stands for the map of the logs, and the files hold them.
  pub commit_short :
      (dir : Bytes)
      → get_db_path e.setting ≡ dir ++ b_slash ∷ []
      → (ws : List Write) → length ws ≤ 1
      → AllFit (add_writes limit logs ws)
      → (e' : Engine hash) × (commit_write c e ws ≡ some e')
        × Represents e' (view_of (add_writes limit logs ws))
        × IsDurable c e' (add_writes limit logs ws)
        × (e'.setting ≡ e.setting)
        × (e'.running ≡ e.running)
  unfolding add_writes
  commit_short dir ending ws short fit =
      let (e', p, same, runs, durable) = commit_write-IsDurable c e dir ending ws logs h fit in
      let (e1, q, rep1) = commits ws short fit in
      (
        e',
        p,
        subst (Represents e') (sym (view_of-add_writes limit ws logs)) (
            subst (λ t. Represents t (apply_writes (view_of logs) ws)) (some_inj (sym q ∙ p)) rep1),
        durable,
        same,
        runs,
      )
    where
      commits : (ws : List Write) → length ws ≤ 1 → AllFit (add_writes limit logs ws) → Commits ws
      commits [] short fit = Commits-none fit
      commits (w ∷ []) short fit = Commits-one w fit
      commits (w ∷ (v ∷ ws)) short fit = absurd (omega arith)
