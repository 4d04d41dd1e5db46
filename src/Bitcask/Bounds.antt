-- ===== src/Bitcask/Bounds.antt =====
-- CommitWrite of any batch, wherever it rotates: it does not fault, and the active file stays small.
use memkvin_c.Base.{
  Bytes, ◌≡◌, ◌∙◌, subst, refl, sym, Bool-cases, inl, inr, true, false, List, [], ◌∷◌, ◌++◌, Option,
  some, ℕ, ◌+◌, ◌≤◌, ◌<◌, ◌^◌, length, length-append, ltb, arith,
}
use memkvin_c.Crc.{Crc32c}
use memkvin_c.HashMap.{HashMap}
use memkvin_c.Setting.{get_max_file_size, get_db_path}
use memkvin_c.Stream.{Stream}
use memkvin_c.Record.RoundTrip.{encode, length-encode}
use memkvin_c.Record.Write.{IsAppending, appended, appended-IsAppending}
use memkvin_c.Disk.{Disk, append, open_file, close_file, make_file, opened}
use memkvin_c.Disk.Laws.{open_file-truncate}
use memkvin_c.ActiveFile
use memkvin_c.Bitcask.Engine.{
  Engine, Write, Loop, active_fd, db_file, rotate, written, commit_one, commit_loop, commit_end,
  commit_write, start_loop,
}
use memkvin_c.Bitcask.Batch.{active_of, record_size, commit_one-written, commit_loop-cons}
use memkvin_c.Bitcask.Tickets.{promises, commit_write-promises}
use memkvin_c.Bitcask.Commit.{commit_loop-nil, commit_write-loop, publish-frame}

-- Every file can be made.
abbrev pub AllCreatable : Disk → Type 0
AllCreatable disk = (path : Bytes) → disk.creatable path ≡ true

-- No record is larger than `size`.
abbrev pub AllSmall : ℕ → List Write → Type 0
AllSmall size [] = Unit
AllSmall size (w ∷ ws) = (record_size w ≤ size) × AllSmall size ws

open_file-AllCreatable :
    (d : Disk) (path : Bytes) → AllCreatable d → AllCreatable (open_file d path append).0
unfolding open_file make_file
open_file-AllCreatable d path h p = ground (arith, h p)

close_file-AllCreatable : (d : Disk) (s : Stream) → AllCreatable d → AllCreatable (close_file d s)
unfolding close_file
close_file-AllCreatable d s h p = ground (arith, h p)

module _ {hash : HashMap} (e : Engine hash) (size : ℕ) where
  -- The active file is open at its end and no larger than the size limit and one record.
  pub record IsBounded (file : Option ActiveFile.ActiveFile) : Type 0 where
    pub stream : Stream
    pub active : file ≡ active_of stream
    pub appending : IsAppending stream
    pub small : length stream.content ≤ get_max_file_size e.setting + size

  record LoopOk (l : Loop) : Type 0 where
    bounded : IsBounded l.active
    creatable : AllCreatable l.disk

  rotate-LoopOk :
      (l : Loop) (s : Stream)
      → AllCreatable l.disk
      → (l' : Loop) × (rotate e l (record { file = some s }) ≡ some l') × LoopOk l'
  unfolding rotate ActiveFile.rotate ActiveFile.create_path ActiveFile.destroy close_file
  rotate-LoopOk l s h = (
    _,
    refl,
    record {
      bounded = record {
        stream = opened path [] false;
        active = rw (open_file-truncate disk path (h2 path)) refl;
        appending = record { at_end = refl; no_eof = refl; no_fail = refl };
        small = omega arith;
      };
      creatable = λ p. rw (open_file-truncate disk path (h2 path)) (h2 p);
    },
  )
    where
      fd : ℕ
      fd = active_fd e.stable_files + length l.new_stable

      path : Bytes
      path = db_file (get_db_path e.setting) (fd + 1)

      disk : Disk
      disk = (open_file (close_file l.disk s) (db_file (get_db_path e.setting) fd) append).0

      h2 : AllCreatable disk
      h2 =
          open_file-AllCreatable (close_file l.disk s) (db_file (get_db_path e.setting) fd)
            (close_file-AllCreatable l.disk s h)

  written-LoopOk :
      (l : Loop) (w : Write) (s : Stream) (at : ℕ)
      → AllCreatable l.disk
      → IsAppending s
      → length s.content ≤ at + length w.value
      → record_size w ≤ size
      → (l' : Loop) × (written e l w (record { file = some s }, at) ≡ some l') × LoopOk l'
  unfolding written
  written-LoopOk l w s at h appending len fits =
      elim (Bool-cases (ltb at (get_max_file_size e.setting))) [
        | inl below ↦ rw below (
          _,
          refl,
          record {
            bounded = record {
              stream = s;
              active = refl;
              appending = appending;
              small = ground (arith, below);
            };
            creatable = h;
          },
        )
        | inr large ↦ rw large (rotate-LoopOk _ s h)
      ]

module _ (c : Crc32c) {hash : HashMap} (e : Engine hash) (size : ℕ)
    (fits : get_max_file_size e.setting + size + size < 2 ^ 32) where
  commit_one-LoopOk :
      (l : Loop) (w : Write)
      → LoopOk e size l
      → record_size w ≤ size
      → (l' : Loop) × (commit_one c e l w ≡ some l') × LoopOk e size l'
  commit_one-LoopOk l w ok small =
      let b = ok.bounded in
      let s = b.stream in
      let (l', p, ok') =
        written-LoopOk e size l w (appended s (encode c w.key w.value))
          (length s.content + 12 + length w.key) ok.creatable (appended-IsAppending _ b.appending)
          (omega (
            arith,
            length-append s.content (encode c w.key w.value),
            length-encode c w.key w.value,
          ))
          small in
      (l', commit_one-written c e l s w b.active b.appending (omega (arith, b.small)) ∙ p, ok')

  commit_loop-LoopOk :
      (ws : List Write) (l : Loop)
      → LoopOk e size l
      → AllSmall size ws
      → (l' : Loop) × (commit_loop c e l ws ≡ some l') × LoopOk e size l'
  commit_loop-LoopOk [] l ok small = (l, commit_loop-nil c e l, ok)
  commit_loop-LoopOk (w ∷ ws) l ok (small, rest) =
      let (l1, p, ok1) = commit_one-LoopOk l w ok small in
      let (l2, q, ok2) = commit_loop-LoopOk ws l1 ok1 rest in
      (l2, commit_loop-cons c e l l1 w ws p ∙ q, ok2)

  -- Where the active file is open at its end and no larger than the size limit and one record,
  -- every file can be made, and the size limit and two records are below 2^32 bytes, CommitWrite
  -- of any batch of such records, wherever it rotates, does not fault, sets exactly the promises
  -- of the batch in order, and leaves the active file open at its end and no larger than the size
  -- limit and one record.
  pub commit_write-IsBounded :
      (ws : List Write)
      → IsBounded e size e.active_file
      → AllCreatable e.disk
      → AllSmall size ws
      → (e' : Engine hash) × (commit_write c e ws ≡ some e')
        × IsBounded e size e'.active_file
        × (e'.resolved ≡ e.resolved ++ promises ws)
  unfolding commit_end
  commit_write-IsBounded ws bounded creatable small =
      let (l, p, ok) =
        commit_loop-LoopOk ws (start_loop e) (record { bounded = bounded; creatable = creatable })
          small in
      let frame = publish-frame ws _ l.last_active_write 0 l.records in
      (
        commit_end e l ws,
        commit_write-loop c e ws l p,
        subst (IsBounded e size) (sym frame.0) ok.bounded,
        (commit_write-promises c e ws (commit_end e l ws) (commit_write-loop c e ws l p)).0,
      )
