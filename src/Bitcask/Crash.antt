-- ===== src/Bitcask/Crash.antt =====
-- What Create makes of the disk that a crash leaves while a database is open.
use memkvin_c.Base.{
  Bytes, ◌≡◌, ◌∙◌, ap, ap₂, subst, sym, List, [], ◌∷◌, ◌++◌, Option, none, some, ℕ, ◌-◌, ◌<◌, ◌^◌,
  length, take, b_slash, ==_refl, arith,
}
use memkvin_c.Crc.{Crc32c}
use memkvin_c.HashMap.{HashMap}
use memkvin_c.Setting.{get_db_path}
use memkvin_c.Record.Log.{encode_all}
use memkvin_c.Disk.{Disk, find_file, put_file}
use memkvin_c.ActiveFile.{ActiveFile}
use memkvin_c.Bitcask.Engine.{Engine, Write, db_file}
use memkvin_c.Bitcask.View.{Represents, apply_writes}
use memkvin_c.Bitcask.Batch.{log_of}
use memkvin_c.Bitcask.Restore.{done}
use memkvin_c.Bitcask.Worker.{swapping}
use memkvin_c.Bitcask.Logs.{
  Logs, apply_files, apply_files_congr, set_log, set_log_self, set_log_other, log_size,
  log_size-append, length-encode_all,
}
use memkvin_c.Bitcask.Fitting.{AllFit}
use memkvin_c.Bitcask.Directory.{find_file-db_file, IsListed-ByNumber}
use memkvin_c.Bitcask.Durable.{DiskHolds, IsDurable}
use memkvin_c.Bitcask.Written.{put_at-DiskHolds}
use memkvin_c.Bitcask.Restart.{make_scanned}
use memkvin_c.Bitcask.Cut.{Cut, DetectsAll, cut, torn, take-Cut, ScansLog-Cut}
use memkvin_c.Bitcask.Scans.{ScansLog}
use memkvin_c.Bitcask.Api
use memkvin_c.Bitcask.Api.{create-make}

-- The stream of the active file has given its first k bytes to the disk.
abbrev pub part_of : ℕ → Option ActiveFile → Disk → Disk
part_of k none disk = disk
part_of k (some file) disk = elim file.file [
  | none ↦ disk
  | some s ↦ record disk { files = put_file disk.files s.path (take k s.content) }
]

-- The disk that a crash leaves: no destructor runs, and the active file ends behind k bytes.
unfoldable pub crashed : {hash : HashMap} → ℕ → Engine hash → Disk
crashed k e = part_of k e.active_file e.disk

module _ (c : Crc32c) {hash : HashMap} (e : Engine hash) (logs : Logs) (dir : Bytes) (k : ℕ)
    (h : IsDurable c e logs) (ending : get_db_path e.setting ≡ dir ++ b_slash ∷ [])
    (fit : AllFit logs) (detects : DetectsAll c (logs.writes logs.last)) where
  abbrev db : Bytes
  db = get_db_path e.setting

  abbrev last : List Write
  last = logs.writes logs.last

  abbrev left : Disk
  left = record e.disk {
    files = put_file e.disk.files (db_file db logs.last) (take k h.stream.content);
  }

  crashed-left : crashed k e ≡ left
  unfolding crashed
  crashed-left =
      ap (λ file. part_of k file e.disk) h.is_active
      ∙ ap (λ p. record e.disk { files = put_file e.disk.files p (take k h.stream.content) }) h.path

  left-DiskHolds : DiskHolds c db left logs
  left-DiskHolds =
      put_at-DiskHolds c db e.disk logs h.on_disk fit.few logs.last (take k h.stream.content)
        (omega arith) (λ less. absurd (omega arith))

  module _ (t : Cut k last) where
    abbrev rest : Bytes
    rest = torn c (k - log_size t.kept) t.lost

    abbrev now : ℕ → List Write
    now = set_log logs.writes logs.last t.kept

    -- The writes of the file, as the scan finds them.
    now_last : now logs.last ≡ t.kept
    now_last = set_log_self logs.writes logs.last t.kept

    now_below : (i : ℕ) → i < logs.last → now i ≡ logs.writes i
    now_below i less = set_log_other logs.writes logs.last i t.kept (λ p. absurd (omega arith))

    fits : log_size (t.kept ++ t.lost) < 2 ^ 32
    fits = subst (λ l. log_size l < 2 ^ 32) (sym t.parts) (fit.sizes logs.last (omega arith))

    abbrev Small : List Write → Type 0
    Small l = length (encode_all c (log_of l)) < 2 ^ 32

    left-cut :
        find_file left.files (db_file db logs.last)
        ≡ some (encode_all c (log_of (now logs.last)) ++ rest)
    left-cut =
        find_file-db_file db e.disk logs.last h.on_disk.listed logs.last logs.last
          (take k h.stream.content) fit.few fit.few
        ∙ rw (==_refl logs.last) (ap some (ap (take k) h.content ∙ take-Cut c k last t))
        ∙ ap (λ l. some (encode_all c (log_of l) ++ rest)) (sym now_last)

    reopened_cut :
        (e' : Engine hash) × (Api.create c e.setting left ≡ done (e', swapping))
        × Represents e' (apply_writes (apply_files logs.writes logs.last) t.kept)
    reopened_cut =
        let named = IsListed-ByNumber db left logs.last left-DiskHolds.listed in
        let (e', p, rep, _, _, _, _) =
          make_scanned c left named.files now hash e.setting dir named.regular logs.last fit.few
            left-DiskHolds.listed.numbers left-DiskHolds.listed.order ending named.listed rest
            (λ i less. (
              ap (find_file left.files) (named.path i)
                  ∙ left-DiskHolds.closed i less
                  ∙ ap (λ l. some (encode_all c (log_of l))) (sym (now_below i less)),
              subst Small (sym (now_below i less)) (
                  omega (
                    arith,
                    length-encode_all c (logs.writes i),
                    fit.sizes i (omega (arith, less)),
                  )),
            ))
            left-cut
            (subst Small (sym now_last)
              (omega (arith, length-encode_all c t.kept, log_size-append t.kept t.lost, fits)))
            (λ fd.
              subst (λ l. ScansLog c hash fd (db_file db logs.last) l rest) (sym now_last)
                (ScansLog-Cut c hash fd (db_file db logs.last) t.kept t.lost (k - log_size t.kept)
                  t.short fits (subst (DetectsAll c) (sym t.parts) detects))) in
        (
          e',
          create-make c e.setting left p,
          subst (Represents e')
              (ap₂ apply_writes (apply_files_congr now logs.writes logs.last now_below) now_last)
              rep,
        )

  -- Where the files 0.db to n.db of a database hold the logs of some writes, the bytes of the
  -- active file those of its stream, the path of the setting ends in a slash, and a crash leaves
  -- the closed files and the first k bytes of the active file, for any k, Create with the same
  -- setting returns a database that stands for the map of the closed files and, behind them, of
  -- the writes whose records are whole within the k bytes; if there are ten files at most, each
  -- below 2^32 bytes, and the checksum tells each record of the active file without its value,
  -- and without its body, from the whole one.
  pub crash_keeps_first :
      (t : Cut k (logs.writes logs.last)) × (e' : Engine hash) × (Api.create c e.setting
          (crashed k e)
        ≡ done (e', swapping))
      × Represents e' (apply_writes (apply_files logs.writes logs.last) t.kept)
  crash_keeps_first =
      let t = cut k last in
      let (e', p, rep) = reopened_cut t in
      (t, e', ap (Api.create c e.setting) crashed-left ∙ p, rep)
