-- ===== src/Bitcask/Rotation.antt =====
-- What the rotation of CommitWrite does.
use memkvin_c.Base.{
  Bytes, ◌≡◌, ◌∙◌, refl, ap, length, true, false, [], ◌∷◌, some, ℕ, ◌+◌, u32, arith,
}
use memkvin_c.HashMap.{HashMap}
use memkvin_c.Setting.{get_db_path}
use memkvin_c.Stream.{Stream}
use memkvin_c.Disk.{Disk, put_file, opened, close_file}
use memkvin_c.Disk.Laws.{open_file-close_file, open_file-truncate}
use memkvin_c.ActiveFile
use memkvin_c.StableFile
use memkvin_c.StableFile.{StableFile}
use memkvin_c.Bitcask.Engine.{Engine, Loop, active_fd, db_file, set_stable, rotate}
use memkvin_c.Bitcask.Batch.{active_of}

-- The handle that the bytes of a closed active file are read by.
abbrev pub stable_of : Stream → StableFile
stable_of s = record { file = some (opened s.path s.content true) }

module _ {hash : HashMap} (e : Engine hash) where
  abbrev pub fd : ℕ
  fd = active_fd e.stable_files

  abbrev pub next_path : Bytes
  next_path = db_file (get_db_path e.setting) (fd + 1)

  abbrev flushed : Disk → Stream → Disk
  flushed d s = record d { files = put_file d.files s.path s.content }

  -- The loop behind the rotation of the file with a number.
  abbrev pub rotated_at : ℕ → Loop → Stream → Loop
  rotated_at n l s = record l {
    disk = record l.disk {
      files =
          put_file (put_file l.disk.files s.path s.content)
            (db_file (get_db_path e.setting) (n + 1)) [];
    };
    active = active_of (opened (db_file (get_db_path e.setting) (n + 1)) [] false);
    new_stable = set_stable l.new_stable (u32 n) (stable_of s);
    last_active_write = l.idx;
  }

  pub rotate_at :
      (n : ℕ) (l : Loop) (s : Stream)
      → fd + length l.new_stable ≡ n
      → s.is_open ≡ true
      → s.path ≡ db_file (get_db_path e.setting) n
      → l.disk.creatable (db_file (get_db_path e.setting) (n + 1)) ≡ true
      → rotate e l (record { file = some s }) ≡ some (rotated_at n l s)
  unfolding rotate ActiveFile.rotate ActiveFile.create_path ActiveFile.destroy StableFile.create
  rotate_at n l s count is_open p made = rw count (
      rw
        (
          ← p,
          open_file-close_file l.disk s is_open,
          open_file-truncate (flushed l.disk s) (db_file (get_db_path e.setting) (n + 1)) made,
        )
        (unfold close_file ActiveFile.create in refl))

  -- The loop behind the first rotation.
  abbrev pub rotated : Loop → Stream → Loop
  rotated l s = record l {
    disk = record l.disk { files = put_file (put_file l.disk.files s.path s.content) next_path [] };
    active = active_of (opened next_path [] false);
    new_stable = (u32 fd, stable_of s) ∷ [];
    last_active_write = l.idx;
  }

  pub rotate_lem :
      (l : Loop) (s : Stream)
      → l.new_stable ≡ []
      → s.is_open ≡ true
      → s.path ≡ db_file (get_db_path e.setting) fd
      → l.disk.creatable next_path ≡ true
      → rotate e l (record { file = some s }) ≡ some (rotated l s)
  unfolding set_stable
  rotate_lem l s n is_open p made =
      rotate_at fd l s (ap (λ files. fd + length files) n ∙ zero) is_open p made
      ∙ ap
          (λ files.
            some (record (rotated l s) { new_stable = set_stable files (u32 fd) (stable_of s) }))
          n
    where
      zero : fd + 0 ≡ fd
      zero = omega arith
