-- ===== src/Bitcask/Places.antt =====
-- CommitWrite of any batch, wherever it rotates: the files hold what `add_write` says.
use memkvin_c.Base.{
  Bytes, ◌≡◌, ◌∙◌, refl, ap, subst, sym, Bool-cases, inl, inr, List, [], ◌∷◌, ◌++◌, Option, some, ℕ,
  ◌+◌, ◌<◌, ◌^◌, length, length-append, ltb, b_slash, arith,
}
use memkvin_c.Crc.{Crc32c}
use memkvin_c.HashMap.{HashMap}
use memkvin_c.Setting.{get_db_path, get_max_file_size}
use memkvin_c.Record.RoundTrip.{encode}
use memkvin_c.Record.Write.{appended}
use memkvin_c.Disk.{Disk}
use memkvin_c.ActiveFile.{ActiveFile}
use memkvin_c.Bitcask.Engine.{
  db_file, Engine, Write, Loop, StableFiles, written, commit_one, commit_loop, commit_end,
  commit_write, start_loop, insert_all,
}
use memkvin_c.Bitcask.Batch.{record_size, commit_one-written, commit_loop-cons, kept}
use memkvin_c.Bitcask.Rotation.{rotated_at}
use memkvin_c.Bitcask.Commit.{commit_loop-nil, commit_write-loop, publish-frame}
use memkvin_c.Bitcask.Logs.{
  Logs, add_write, add_writes, add_write-below, add_write-past, appended_to, log_size,
  length-encode_all, value_at,
}
use memkvin_c.Bitcask.Fitting.{AllFit, AllFit-next, last-le-add_writes, writes-add_writes}
use memkvin_c.Bitcask.Handles.{HoldsFrom, HoldsFrom-congr, HoldsFrom-append, insert_all-last}
use memkvin_c.Bitcask.Durable.{IsPlaced, IsDurable}
use memkvin_c.Bitcask.Placing.{LoopHolds, kept-LoopHolds, rotated-LoopHolds}

-- The same files under other names of the same things.
pub same_files :
    {c : Crc32c} {db db' : Bytes} {disk disk' : Disk} {active active' : Option ActiveFile}
    {files files' : StableFiles} {logs : Logs}
    → db' ≡ db
    → disk' ≡ disk
    → active' ≡ active
    → files' ≡ files
    → IsPlaced c db 0 disk active files logs
    → IsPlaced c db' 0 disk' active' files' logs
same_files p q r s h = rw (p, q, r, s) h

module _ (c : Crc32c) {hash : HashMap} (e : Engine hash) (dir : Bytes)
    (ending : get_db_path e.setting ≡ dir ++ b_slash ∷ []) where
  abbrev limit : ℕ
  limit = get_max_file_size e.setting

  commit_one-LoopHolds :
      (l : Loop) (logs : Logs) (w : Write)
      → LoopHolds c e l logs
      → log_size (logs.writes logs.last) + record_size w < 2 ^ 32
      → (add_write limit logs w).last < 10
      → (l' : Loop) × (commit_one c e l w ≡ some l') × LoopHolds c e l' (add_write limit logs w)
  unfolding written kept-LoopHolds
  commit_one-LoopHolds l logs w h fits few = elim (Bool-cases (ltb (value_at logs w) limit)) [
    | inl below ↦ (
      kept c e l h.stream w,
      one ∙ rw (test ∙ below) refl,
      subst (LoopHolds c e (kept c e l h.stream w)) (sym (add_write-below logs w limit below))
          kept_holds,
    )
    | inr past ↦
        let placed = add_write-past logs w limit past in
        let (p, holds) =
          rotated-LoopHolds c e dir ending (kept c e l h.stream w)
            (record { last = logs.last; writes = appended_to logs w }) kept_holds
            (subst (λ (t : Logs). t.last < 10) placed few) in
        (after, one ∙ rw (test ∙ past) p, subst (LoopHolds c e after) (sym placed) holds)
  ]
    where
      after : Loop
      after =
          rotated_at e logs.last (kept c e l h.stream w)
            (appended h.stream (encode c w.key w.value))

      size : length h.stream.content ≡ log_size (logs.writes logs.last)
      size = ap (λ t. length t) h.content ∙ length-encode_all c (logs.writes logs.last)

      kept_holds :
          LoopHolds c e
            (kept c e l h.stream w)
            (record { last = logs.last; writes = appended_to logs w })
      kept_holds = kept-LoopHolds c e l logs w h

      test : ltb (length h.stream.content + 12 + length w.key) limit ≡ ltb (value_at logs w) limit
      test = ap (λ n. ltb (n + 12 + length w.key) limit) size

      one :
          commit_one c e l w
          ≡ written e l w (
            record { file = some (appended h.stream (encode c w.key w.value)) },
            length h.stream.content + 12 + length w.key,
          )
      one = commit_one-written c e l h.stream w h.is_active h.appending (omega (arith, size))

  commit_loop-LoopHolds :
      (ws : List Write) (l : Loop) (logs : Logs)
      → LoopHolds c e l logs
      → AllFit (add_writes limit logs ws)
      → (l' : Loop) × (commit_loop c e l ws ≡ some l') × LoopHolds c e l' (add_writes limit logs ws)
  unfolding add_writes
  commit_loop-LoopHolds [] l logs h fit = (l, commit_loop-nil c e l, h)
  commit_loop-LoopHolds (w ∷ ws) l logs h fit =
      let (l1, p, h1) =
        commit_one-LoopHolds l logs w h (AllFit-next limit w ws logs fit)
          (omega (arith, fit.few, last-le-add_writes limit ws (add_write limit logs w))) in
      let (l2, q, h2) = commit_loop-LoopHolds ws l1 (add_write limit logs w) h1 fit in
      (l2, commit_loop-cons c e l l1 w ws p ∙ q, h2)

  -- The stable files of the loop come behind those of the engine.
  joined-IsPlaced :
      (ws : List Write) (l : Loop) (logs : Logs)
      → IsDurable c e logs
      → LoopHolds c e l (add_writes limit logs ws)
      → IsPlaced c
          (get_db_path e.setting)
          0
          l.disk
          l.active
          (insert_all e.stable_files l.new_stable)
          (add_writes limit logs ws)
  joined-IsPlaced ws l logs h k = record {
    stream = k.stream;
    is_active = k.is_active;
    appending = k.appending;
    is_open = k.is_open;
    path = k.path;
    content = k.content;
    on_disk = k.on_disk;
    handles =
        subst (λ f. HoldsFrom c (db_file (get_db_path e.setting)) behind.writes 0 f) (sym joined)
          (HoldsFrom-append c (db_file (get_db_path e.setting)) behind.writes e.stable_files
            l.new_stable 0 (length e.stable_files) (omega arith) before k.handles);
    count =
        omega
          (arith, ap (λ t. length t) joined, length-append e.stable_files l.new_stable, k.count);
  }
    where
      behind : Logs
      behind = add_writes limit logs ws

      before : HoldsFrom c (db_file (get_db_path e.setting)) behind.writes 0 e.stable_files
      before =
          HoldsFrom-congr c (db_file (get_db_path e.setting)) logs.writes behind.writes logs.last
            e.stable_files 0 (λ i less. sym (writes-add_writes limit ws logs i less))
            (omega (arith, h.count)) h.handles

      joined : insert_all e.stable_files l.new_stable ≡ e.stable_files ++ l.new_stable
      joined =
          insert_all-last c (db_file (get_db_path e.setting)) behind.writes l.new_stable
            e.stable_files 0 (length e.stable_files) (omega arith) before k.handles

  -- Where the files of a database hold the logs of some writes, the bytes of the active file
  -- those of its stream, and the path of the setting ends in a slash, CommitWrite of any batch,
  -- wherever and however often it rotates, does not fault, leaves the setting and the running
  -- flag alone, and leaves files that hold the logs with each write of the batch, in order, at
  -- the end of the active file, which is closed and followed by an empty one behind a write whose
  -- value starts at the size limit or past it, if there are then ten files at most, each below
  -- 2^32 bytes.
  pub commit_write-IsDurable :
      (ws : List Write) (logs : Logs)
      → IsDurable c e logs
      → AllFit (add_writes limit logs ws)
      → (e' : Engine hash) × (commit_write c e ws ≡ some e')
        × (e'.setting ≡ e.setting)
        × (e'.running ≡ e.running)
        × IsDurable c e' (add_writes limit logs ws)
  unfolding commit_end
  commit_write-IsDurable ws logs h fit =
      let (l, p, k) =
        commit_loop-LoopHolds ws (start_loop e) logs
          (record {
            stream = h.stream;
            is_active = h.is_active;
            appending = h.appending;
            is_open = h.is_open;
            path = h.path;
            content = h.content;
            on_disk = h.on_disk;
            handles = tt;
            count = omega (arith, h.count);
          })
          fit in
      let frame = publish-frame ws _ l.last_active_write 0 l.records in
      (
        commit_end e l ws,
        commit_write-loop c e ws l p,
        frame.2,
        frame.1,
        same_files (ap get_db_path frame.2) frame.3 frame.0 frame.4 (joined-IsPlaced ws l logs h k),
      )
