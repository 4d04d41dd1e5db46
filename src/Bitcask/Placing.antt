-- ===== src/Bitcask/Placing.antt =====
-- CommitWrite puts each write where `add_write` says, wherever it rotates.
use memkvin_c.Base.{
  Bytes, ◌≡◌, ◌∙◌, refl, ap, ap₂, subst, sym, true, false, [], ◌∷◌, ◌++◌, some, ℕ, suc, ◌+◌, ◌<◌,
  length, length-append, u32, b_slash, ==_refl, arith,
}
use memkvin_c.Crc.{Crc32c}
use memkvin_c.HashMap.{HashMap}
use memkvin_c.Setting.{get_db_path, get_max_file_size}
use memkvin_c.Record.RoundTrip.{encode}
use memkvin_c.Record.Log.{encode_all}
use memkvin_c.Record.Write.{appended, appended-IsAppending}
use memkvin_c.Disk.{Disk, find_file, put_file, opened}
use memkvin_c.Bitcask.Engine.{Engine, Write, Loop, db_file, rotate, set_stable}
use memkvin_c.Bitcask.Batch.{log_of, kept}
use memkvin_c.Bitcask.Rotation.{rotate_at, rotated_at, stable_of}
use memkvin_c.Bitcask.Logs.{Logs, appended_to, set_log, set_log_self, set_log_other}
use memkvin_c.Bitcask.Directory.{find_file-db_file}
use memkvin_c.Bitcask.Handles.{
  IsHandle, HoldsFrom, HoldsFrom-congr, HoldsFrom-append, set_stable-last,
}
use memkvin_c.Bitcask.Durable.{
  DiskHolds, IsPlaced, content-appended, HoldsFrom-appended, DiskHolds-appended,
}
use memkvin_c.Bitcask.Written.{put_at-DiskHolds, put_next-DiskHolds}

module _ (c : Crc32c) {hash : HashMap} (e : Engine hash) where
  abbrev pub db : Bytes
  db = get_db_path e.setting

  abbrev limit : ℕ
  limit = get_max_file_size e.setting

  -- The variables of the loop hold the logs.
  abbrev pub LoopHolds : Loop → Logs → Type 0
  LoopHolds l logs = IsPlaced c db (length e.stable_files) l.disk l.active l.new_stable logs

  -- The write stays in the active file.
  unfoldable pub kept-LoopHolds :
      (l : Loop) (logs : Logs) (w : Write) (h : LoopHolds l logs)
      → LoopHolds (kept c e l h.stream w) (record { last = logs.last; writes = appended_to logs w })
  kept-LoopHolds l logs w h = record {
    stream = appended h.stream (encode c w.key w.value);
    is_active = refl;
    appending = appended-IsAppending _ h.appending;
    is_open = h.is_open;
    path = h.path;
    content = content-appended c db logs w h.stream h.content;
    on_disk = DiskHolds-appended c db logs w l.disk h.on_disk;
    handles = HoldsFrom-appended c db logs w (length e.stable_files) l.new_stable h.count h.handles;
    count = h.count;
  }

  -- The active file is closed, and the next one is made.
  pub rotated-LoopHolds :
      (dir : Bytes)
      → db ≡ dir ++ b_slash ∷ []
      → (l : Loop) (logs : Logs) (h : LoopHolds l logs) → suc logs.last < 10
      → (rotate e l (record { file = some h.stream }) ≡ some (rotated_at e logs.last l h.stream))
        × LoopHolds
            (rotated_at e logs.last l h.stream)
            (record { last = suc logs.last; writes = set_log logs.writes (suc logs.last) [] })
  unfolding encode_all
  rotated-LoopHolds dir ending l logs h few = (
    rotate_at e logs.last l h.stream (omega (arith, h.count)) h.is_open h.path
        (ap (λ n. l.disk.creatable (db_file db n)) next ∙ h.on_disk.creatable (suc logs.last) few),
    record {
      stream = opened (db_file db (logs.last + 1)) [] false;
      is_active = refl;
      appending = record { at_end = refl; no_eof = refl; no_fail = refl };
      is_open = refl;
      path = ap (db_file db) next;
      content =
          ap (λ ws. encode_all c (log_of ws)) (sym (set_log_self logs.writes (suc logs.last) []));
      on_disk =
          subst (λ d. DiskHolds c db d behind) disks
            (put_next-DiskHolds c db disk1 logs flushed small dir ending few full);
      handles = subst (HoldsFrom c (db_file db) behind.writes (length e.stable_files)) (sym files) (
          HoldsFrom-congr c (db_file db) logs.writes behind.writes (suc logs.last) _
            (length e.stable_files)
            (λ i less.
              sym (set_log_other logs.writes (suc logs.last) i [] (λ p. absurd (omega arith))))
            (omega
              (arith, length-append l.new_stable ((logs.last, stable_of h.stream) ∷ []), h.count))
            (HoldsFrom-append c (db_file db) logs.writes l.new_stable
              ((logs.last, stable_of h.stream) ∷ []) (length e.stable_files) logs.last h.count
              h.handles (refl, handle, tt)));
      count = omega (
        arith,
        ap (λ t. length t) files,
        length-append l.new_stable ((logs.last, stable_of h.stream) ∷ []),
        h.count,
      );
    },
  )
    where
      next : logs.last + 1 ≡ suc logs.last
      next = omega arith

      small : logs.last < 10
      small = omega arith

      behind : Logs
      behind = record { last = suc logs.last; writes = set_log logs.writes (suc logs.last) [] }

      disk1 : Disk
      disk1 = record l.disk {
        files = put_file l.disk.files (db_file db logs.last) h.stream.content;
      }

      flushed : DiskHolds c db disk1 logs
      flushed =
          put_at-DiskHolds c db l.disk logs h.on_disk small logs.last h.stream.content (omega arith)
            (λ less. absurd (omega arith))

      full :
          find_file disk1.files (db_file db logs.last)
          ≡ some (encode_all c (log_of (logs.writes logs.last)))
      full =
          find_file-db_file db l.disk logs.last h.on_disk.listed logs.last logs.last
            h.stream.content small small
          ∙ rw (==_refl logs.last) (ap some h.content)

      disks :
          record disk1 { files = put_file disk1.files (db_file db (suc logs.last)) [] }
          ≡ (rotated_at e logs.last l h.stream).disk
      disks =
          ap₂
            (λ p q. record l.disk {
              files = put_file (put_file l.disk.files p h.stream.content) q [];
            })
            (sym h.path) (ap (db_file db) (sym next))

      number : u32 logs.last ≡ logs.last
      number = omega arith

      files :
          set_stable l.new_stable (u32 logs.last) (stable_of h.stream)
          ≡ l.new_stable ++ (logs.last, stable_of h.stream) ∷ []
      files =
          ap (λ n. set_stable l.new_stable n (stable_of h.stream)) number
          ∙ set_stable-last c (db_file db) logs.writes l.new_stable (length e.stable_files)
              logs.last (stable_of h.stream) h.handles (omega (arith, h.count))

      handle : IsHandle c (db_file db) logs.last (logs.writes logs.last) (stable_of h.stream)
      handle = record {
        stream = opened h.stream.path h.stream.content true;
        file = refl;
        path = h.path;
        content = h.content;
      }
