-- ===== src/Bitcask/Durable.antt =====
-- What is in the files of a database while CommitWrite appends to them and rotates them.
use memkvin_c.Base.{
  Bytes, ◌≡◌, ◌∙◌, refl, ap, ap₂, sym, true, List, [], ◌∷◌, ◌++◌, append_assoc, append-nil, Option,
  some, ℕ, ◌+◌, ◌<◌, length, arith,
}
use memkvin_c.Crc.{Crc32c}
use memkvin_c.HashMap.{HashMap}
use memkvin_c.Setting.{get_db_path}
use memkvin_c.Stream.{Stream}
use memkvin_c.Record.RoundTrip.{encode}
use memkvin_c.Record.Log.{encode_all}
use memkvin_c.Record.Write.{IsAppending, appended}
use memkvin_c.Disk.{Disk, find_file}
use memkvin_c.ActiveFile.{ActiveFile}
use memkvin_c.Bitcask.Engine.{Engine, StableFiles, Write, db_file}
use memkvin_c.Bitcask.Batch.{log_of, active_of}
use memkvin_c.Bitcask.Logs.{Logs, appended_to, set_log_self, set_log_other}
use memkvin_c.Bitcask.Directory.{IsListed}
use memkvin_c.Bitcask.Handles.{HoldsFrom, HoldsFrom-congr}

module _ (c : Crc32c) (db : Bytes) where
  -- The directory holds the files of the logs and no other: the closed ones have the records of their
  -- writes, the active one is there, and the next ones can be made.
  pub record DiskHolds (disk : Disk) (logs : Logs) : Type 0 where
    pub listed : IsListed db disk logs.last
    pub closed :
        (i : ℕ)
        → i < logs.last
        → find_file disk.files (db_file db i) ≡ some (encode_all c (log_of (logs.writes i)))
    pub old : Bytes
    pub there : find_file disk.files (db_file db logs.last) ≡ some old
    pub creatable : (i : ℕ) → i < 10 → disk.creatable (db_file db i) ≡ true

  -- The directory, the active file and the stable files from the number `base` on hold the logs.
  pub record IsPlaced (base : ℕ) (disk : Disk) (active : Option ActiveFile) (files : StableFiles)
      (logs : Logs) : Type 0 where
    pub stream : Stream
    pub is_active : active ≡ active_of stream
    pub appending : IsAppending stream
    pub is_open : stream.is_open ≡ true
    pub path : stream.path ≡ db_file db logs.last
    pub content : stream.content ≡ encode_all c (log_of (logs.writes logs.last))
    pub on_disk : DiskHolds disk logs
    pub handles : HoldsFrom c (db_file db) logs.writes base files
    pub count : base + length files ≡ logs.last

-- The files of a database hold the logs, the bytes of the active file those of its stream.
abbrev pub IsDurable : {hash : HashMap} → Crc32c → Engine hash → Logs → Type 0
IsDurable c e logs = IsPlaced c (get_db_path e.setting) 0 e.disk e.active_file e.stable_files logs

pub encode_all-append :
    (c : Crc32c) (ws more : List Write)
    → encode_all c (log_of (ws ++ more)) ≡ encode_all c (log_of ws) ++ encode_all c (log_of more)
unfolding encode_all
encode_all-append c [] more = refl
encode_all-append c (w ∷ ws) more =
    ap (λ t. encode c w.key w.value ++ t) (encode_all-append c ws more)
    ∙ sym (append_assoc (encode c w.key w.value) _ _)

module _ (c : Crc32c) (db : Bytes) (logs : Logs) (w : Write) where
  -- Behind a write the active file has its record at the end.
  pub content-appended :
      (s : Stream)
      → s.content ≡ encode_all c (log_of (logs.writes logs.last))
      → (appended s (encode c w.key w.value)).content
        ≡ encode_all c (log_of (appended_to logs w logs.last))
  unfolding encode_all
  content-appended s h =
      ap₂ (λ a b. a ++ b) h (sym (append-nil (encode c w.key w.value)))
      ∙ sym (encode_all-append c (logs.writes logs.last) (w ∷ []))
      ∙ ap (λ ws. encode_all c (log_of ws)) (sym (set_log_self logs.writes logs.last _))

  appended-below : (i : ℕ) → i < logs.last → logs.writes i ≡ appended_to logs w i
  appended-below i h = sym (set_log_other logs.writes logs.last i _ (λ e. absurd (omega arith)))

  pub HoldsFrom-appended :
      (base : ℕ) (files : StableFiles)
      → base + length files ≡ logs.last
      → HoldsFrom c (db_file db) logs.writes base files
      → HoldsFrom c (db_file db) (appended_to logs w) base files
  HoldsFrom-appended base files e h =
      HoldsFrom-congr c (db_file db) logs.writes (appended_to logs w) logs.last files base
        appended-below (omega arith) h

  pub DiskHolds-appended :
      (disk : Disk)
      → DiskHolds c db disk logs
      → DiskHolds c db disk (record { last = logs.last; writes = appended_to logs w })
  DiskHolds-appended disk h = record {
    listed = h.listed;
    closed = λ i less.
        h.closed i less ∙ ap (λ ws. some (encode_all c (log_of ws))) (appended-below i less);
    old = h.old;
    there = h.there;
    creatable = h.creatable;
  }
