-- ===== src/Bitcask/Closing.antt =====
-- What the destructor leaves on the disk, and what Create finds there.
use memkvin_c.Bitcask.Api.{create-make}
use memkvin_c.Bitcask.Places.{same_files}
use memkvin_c.Bitcask.Tickets.{promises}
use memkvin_c.Base.{
  refl, ap₂, true, Bytes, ◌≡◌, ◌∙◌, ap, subst, sym, Bool-cases, inl, inr, [], ◌∷◌, ◌++◌, append-nil,
  some, ℕ, suc, ◌+◌, ◌≤◌, ◌<◌, ◌^◌, length, b_slash, ==_refl, ne→==, if◌then◌else◌, arith,
}
use memkvin_c.Crc.{Crc32c}
use memkvin_c.HashMap.{HashMap}
use memkvin_c.Setting.{Setting, get_db_path}
use memkvin_c.Record.Log.{encode_all}
use memkvin_c.Disk.{opened, Disk, find_file, put_file, close_file}
use memkvin_c.ActiveFile
use memkvin_c.StableFile
use memkvin_c.StableFile.{StableFile}
use memkvin_c.Bitcask.Engine.{Engine, StableFiles, db_file}
use memkvin_c.Bitcask.View.{Represents}
use memkvin_c.Bitcask.Batch.{log_of}
use memkvin_c.Bitcask.Restore.{done}
use memkvin_c.Bitcask.Worker.{InOrder, from_zero, testing, swapping}
use memkvin_c.Bitcask.Turns.{run, work}
use memkvin_c.Bitcask.Api
use memkvin_c.Bitcask.Shutdown.{close_files, destroy, close_active, close_stables}
use memkvin_c.Bitcask.Logs.{Logs, view_of, length-encode_all}
use memkvin_c.Bitcask.Fitting.{AllFit}
use memkvin_c.Bitcask.Directory.{find_file-db_file, IsListed-ByNumber}
use memkvin_c.Bitcask.Handles.{HoldsFrom-paths, IsHandle, HoldsFrom}
use memkvin_c.Bitcask.Durable.{DiskHolds, IsDurable}
use memkvin_c.Bitcask.Written.{put_at-DiskHolds}
use memkvin_c.Bitcask.Scans.{ScansLog-whole}
use memkvin_c.Bitcask.Restart.{make_scanned}

module _ (c : Crc32c) (db : Bytes) (logs : Logs) (small : logs.last < 10) where
  -- Every file has the records of its writes.
  pub record IsClosed (disk : Disk) : Type 0 where
    pub holds : DiskHolds c db disk logs
    pub full :
        find_file disk.files (db_file db logs.last)
        ≡ some (encode_all c (log_of (logs.writes logs.last)))

  put_at-IsClosed :
      (disk : Disk) (i : ℕ) (content : Bytes)
      → IsClosed disk
      → i < logs.last
      → content ≡ encode_all c (log_of (logs.writes i))
      → IsClosed (record disk { files = put_file disk.files (db_file db i) content })
  put_at-IsClosed disk i content h less same = record {
    holds = put_at-DiskHolds c db disk logs h.holds small i content (omega arith) (λ _. same);
    full =
        find_file-db_file db disk logs.last h.holds.listed i logs.last content (omega arith) small
        ∙ rw (ne→== i logs.last (λ e. absurd (omega arith))) h.full;
  }

  -- A stable file is closed.
  destroy-IsClosed :
      (disk : Disk) (i : ℕ) (f : StableFile)
      → IsClosed disk
      → i < logs.last
      → IsHandle c (db_file db) i (logs.writes i) f
      → IsClosed (StableFile.destroy f disk)
  unfolding StableFile.destroy close_file
  destroy-IsClosed disk i f h less k = rw k.file (elim (Bool-cases k.stream.is_open) [
    | inl e ↦ rw (e, k.path) (put_at-IsClosed disk i k.stream.content h less k.content)
    | inr e ↦ rw e h
  ])

  close_stables-IsClosed :
      (files : StableFiles) (a : ℕ) (disk : Disk)
      → a + length files ≤ logs.last
      → HoldsFrom c (db_file db) logs.writes a files
      → IsClosed disk
      → IsClosed (close_stables files disk)
  close_stables-IsClosed [] a disk le k h = h
  close_stables-IsClosed ((i, f) ∷ files) a disk le (n, p, k) h =
      close_stables-IsClosed files (suc a) _ (omega arith) k (
        destroy-IsClosed disk i f h (omega arith)
          (subst (λ j. IsHandle c (db_file db) i (logs.writes j) f) (sym n) p))

module _ (c : Crc32c) {hash : HashMap} (e : Engine hash) (logs : Logs) (dir : Bytes)
    (h : IsDurable c e logs) (ending : get_db_path e.setting ≡ dir ++ b_slash ∷ [])
    (fit : AllFit logs) where
  -- The disk when the active file is closed.
  abbrev flushed : Disk
  flushed = record e.disk {
    files = put_file e.disk.files (db_file (get_db_path e.setting) logs.last) h.stream.content;
  }

  flushed-IsClosed : IsClosed c (get_db_path e.setting) logs fit.few flushed
  flushed-IsClosed = record {
    holds =
        put_at-DiskHolds c (get_db_path e.setting) e.disk logs h.on_disk fit.few logs.last
          h.stream.content (omega arith) (λ less. absurd (omega arith));
    full =
        find_file-db_file (get_db_path e.setting) e.disk logs.last h.on_disk.listed logs.last
          logs.last h.stream.content fit.few fit.few
        ∙ rw (==_refl logs.last) (ap some h.content);
  }

  active_closed : close_active e.active_file e.disk ≡ flushed
  unfolding ActiveFile.destroy close_file
  active_closed =
      ap (λ file. close_active file e.disk) h.is_active
      ∙ ap
          (λ b.
            if b
            then record e.disk { files = put_file e.disk.files h.stream.path h.stream.content }
            else e.disk)
          h.is_open
      ∙ ap (λ p. record e.disk { files = put_file e.disk.files p h.stream.content }) h.path

  -- The disk that the destructor leaves.
  abbrev pub closed_disk : Disk
  closed_disk = close_stables e.stable_files flushed

  pub closed_disk-IsClosed : IsClosed c (get_db_path e.setting) logs fit.few closed_disk
  closed_disk-IsClosed =
      close_stables-IsClosed c (get_db_path e.setting) logs fit.few e.stable_files 0 flushed
        (omega (arith, h.count)) h.handles flushed-IsClosed

  pub close_files-closed : close_files e ≡ closed_disk
  unfolding close_files
  close_files-closed = ap (λ d. close_stables e.stable_files d) active_closed

  pub stopped : destroy c (e, testing) ≡ some closed_disk
  unfolding destroy run work close_files
  stopped = ap some close_files-closed

  -- A database that was just created from a disk, and whose files hold the logs.
  pub record IsReopened (e' : Engine hash) (setting : Setting ℕ) (logs' : Logs) : Type 0 where
    pub rep : Represents e' (view_of logs')
    pub durable : IsDurable c e' logs'
    pub same : e'.setting ≡ setting
    pub running : e'.running ≡ true
    pub writes : e'.writes ≡ []
    pub order : InOrder (e', swapping)
    pub next : e'.next_promise ≡ 0

  pub reopened :
      (e' : Engine hash) × (Api.create c e.setting closed_disk ≡ done (e', swapping))
      × IsReopened e' e.setting logs
  reopened =
      let k = closed_disk-IsClosed in
      let named = IsListed-ByNumber (get_db_path e.setting) closed_disk logs.last k.holds.listed in
      let fits : (i : ℕ) → i ≤ logs.last → length (encode_all c (log_of (logs.writes i))) < 2 ^ 32 =
        λ i le. omega (arith, length-encode_all c (logs.writes i), fit.sizes i le) in
      let (e', p, rep, stables, started, handles, count) =
        make_scanned c closed_disk named.files logs.writes hash e.setting dir named.regular
          logs.last fit.few k.holds.listed.numbers k.holds.listed.order ending named.listed []
          (λ i less. (
            ap (find_file closed_disk.files) (named.path i) ∙ k.holds.closed i less,
            fits i (omega arith),
          ))
          (k.full ∙ ap some (sym (append-nil _))) (fits logs.last (omega arith))
          (λ fd.
            ScansLog-whole c hash fd (db_file (get_db_path e.setting) logs.last)
              (logs.writes logs.last) (fits logs.last (omega arith))) in
      (
        e',
        create-make c e.setting closed_disk p,
        record {
          rep = rep;
          durable =
              same_files (ap get_db_path started.setting_same) started.disk_same started.active_file
                started.stable_files
                (record {
                  stream =
                      opened (db_file (get_db_path e.setting) logs.last)
                        (encode_all c (log_of (logs.writes logs.last)) ++ []) true;
                  is_active = refl;
                  appending = record { at_end = refl; no_eof = refl; no_fail = refl };
                  is_open = refl;
                  path = refl;
                  content = append-nil _;
                  on_disk = k.holds;
                  handles =
                      HoldsFrom-paths c (λ i. (named.files i).path)
                        (db_file (get_db_path e.setting)) logs.writes stables 0 named.path handles;
                  count = omega (arith, count);
                });
          same = started.setting_same;
          running = started.running;
          writes = started.writes;
          next = started.next;
          order =
              ap₂ (λ r w. r ++ promises w) started.resolved started.writes
              ∙ ap from_zero (sym started.next);
        },
      )

  -- Where the files 0.db to n.db of a database hold the logs of some writes, the bytes of the
  -- active file those of its stream, the worker stands behind a commit, the path of the setting
  -- ends in a slash, and there are ten files at most, each below 2^32 bytes, the destructor
  -- returns, and Create with the same setting on the disk that it leaves returns a database that
  -- stands for the map of all these writes, file after file, and whose files hold the logs again.
  pub destroy_then_create :
      (d : Disk) × (destroy c (e, testing) ≡ some d)
      × (e' : Engine hash) × (Api.create c e.setting d ≡ done (e', swapping))
      × Represents e' (view_of logs)
      × IsDurable c e' logs
  destroy_then_create = let (e', p, q) = reopened in (closed_disk, stopped, e', p, q.rep, q.durable)
