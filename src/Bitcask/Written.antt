-- ===== src/Bitcask/Written.antt =====
-- The disk of a database when one of its files is written, and when the next one is made.
use memkvin_c.Base.{
  Bytes, ◌≡◌, ◌∙◌, refl, ap, sym, Bool-cases, inl, inr, [], ◌∷◌, ◌++◌, some, ℕ, suc, ◌≤◌, ◌<◌, ◌==◌,
  ==→≡, ==_refl, ne→==, b_slash, if◌then◌else◌, arith,
}
use memkvin_c.Crc.{Crc32c}
use memkvin_c.Record.Log.{encode_all}
use memkvin_c.Disk.{Disk, find_file, put_file}
use memkvin_c.Bitcask.Engine.{db_file}
use memkvin_c.Bitcask.Batch.{log_of}
use memkvin_c.Bitcask.Logs.{Logs, set_log, set_log_other}
use memkvin_c.Bitcask.Directory.{find_file-db_file, put_at-IsListed, put_next-IsListed}
use memkvin_c.Bitcask.Durable.{DiskHolds}

module _ (c : Crc32c) (db : Bytes) (disk : Disk) (logs : Logs) (h : DiskHolds c db disk logs)
    (small : logs.last < 10) where
  abbrev put_at : ℕ → Bytes → Disk
  put_at i content = record disk { files = put_file disk.files (db_file db i) content }

  found :
      (i j : ℕ) (content : Bytes)
      → i < 10
      → j < 10
      → find_file (put_at i content).files (db_file db j)
        ≡ (if i == j then some content else find_file disk.files (db_file db j))
  found = find_file-db_file db disk logs.last h.listed

  was_there :
      (i : ℕ) → i ≤ logs.last → (old : Bytes) × (find_file disk.files (db_file db i) ≡ some old)
  was_there i le = elim (Bool-cases (i == logs.last)) [
    | inl e ↦ (h.old, ap (λ j. find_file disk.files (db_file db j)) (==→≡ i logs.last e) ∙ h.there)
    | inr e ↦ (encode_all c (log_of (logs.writes i)), h.closed i (ground (arith, e)))
  ]

  -- One of the files is written, a closed one with its own bytes.
  pub put_at-DiskHolds :
      (i : ℕ) (content : Bytes)
      → i ≤ logs.last
      → (i < logs.last → content ≡ encode_all c (log_of (logs.writes i)))
      → DiskHolds c db (put_at i content) logs
  put_at-DiskHolds i content le same = record {
    listed =
        let (old, there) = was_there i le in
        put_at-IsListed db disk logs.last h.listed i content old small le there;
    closed = λ j less. found i j content (omega arith) (omega arith) ∙ elim (Bool-cases (i == j)) [
      | inl e ↦ rw e (
          let e' : i ≡ j = ==→≡ i j e in
          ap some (same (omega arith)) ∙ ap (λ k. some (encode_all c (log_of (logs.writes k)))) e')
      | inr e ↦ rw e (h.closed j less)
    ];
    old = if i == logs.last then content else h.old;
    there =
        found i logs.last content (omega arith) small
        ∙ elim (Bool-cases (i == logs.last)) [ inl e ↦ rw e refl | inr e ↦ rw e h.there ];
    creatable = h.creatable;
  }

  -- The active file is closed with the records of its writes, and the next one is made.
  pub put_next-DiskHolds :
      (dir : Bytes)
      → db ≡ dir ++ b_slash ∷ []
      → suc logs.last < 10
      → find_file disk.files (db_file db logs.last)
        ≡ some (encode_all c (log_of (logs.writes logs.last)))
      → DiskHolds c db
          (put_at (suc logs.last) [])
          (record { last = suc logs.last; writes = set_log logs.writes (suc logs.last) [] })
  put_next-DiskHolds dir ending few full = record {
    listed = put_next-IsListed db disk logs.last h.listed dir [] ending few;
    closed = λ j less.
        found (suc logs.last) j [] few (omega arith)
        ∙ rw (ne→== (suc logs.last) j (λ e. absurd (omega arith))) (was_closed j less)
        ∙ ap (λ ws. some (encode_all c (log_of ws)))
            (sym (set_log_other logs.writes (suc logs.last) j [] (λ e. absurd (omega arith))));
    old = [];
    there = found (suc logs.last) (suc logs.last) [] few few ∙ rw (==_refl (suc logs.last)) refl;
    creatable = h.creatable;
  }
    where
      was_closed :
          (j : ℕ)
          → j < suc logs.last
          → find_file disk.files (db_file db j) ≡ some (encode_all c (log_of (logs.writes j)))
      was_closed j less = elim (Bool-cases (j == logs.last)) [
        | inl e ↦
            let e' : logs.last ≡ j = sym (==→≡ j logs.last e) in
            ap (λ k. find_file disk.files (db_file db k)) (sym e')
            ∙ full
            ∙ ap (λ k. some (encode_all c (log_of (logs.writes k)))) e'
        | inr e ↦ h.closed j (ground (arith, e))
      ]
