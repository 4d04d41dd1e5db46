-- ===== src/Bitcask/Rolled.antt =====
-- The engine behind a rotation: what stood in the active file stands in a stable file.
use memkvin_c.Base.{
  Bytes, Key, Value, ◌≡◌, ◌≢◌, ◌==◌, inl, inr, ◌∙◌, subst, refl, ap, sym, true, false, [], ◌++◌,
  Option, none, some, ℕ, suc, ◌+◌, ◌<◌, ◌^◌, length, if◌then◌else◌, arith, ==_refl, ne→==,
}
use memkvin_c.HashMap.{HashMap}
use memkvin_c.ActiveMap
use memkvin_c.RecordMap.{Hint}
use memkvin_c.Setting.{get_db_path}
use memkvin_c.Stream.{Stream}
use memkvin_c.Disk.{opened}
use memkvin_c.Bitcask.Engine.{Engine, Loop, active_fd, insert_stable, find_stable, db_file}
use memkvin_c.Bitcask.Stables.{find_stable-insert_stable, length-insert_stable}
use memkvin_c.Bitcask.View.{InFile, Shows, IsStored}
use memkvin_c.Bitcask.Reads.{active_fd-length, found-lt}
use memkvin_c.Bitcask.Batch.{active_of}
use memkvin_c.Bitcask.Placed.{InFile-append}
use memkvin_c.Bitcask.Rotation.{rotated, next_path, stable_of}

module _ {hash : HashMap} (e : Engine hash) where
  -- The engine behind a rotation of the file `s`, before the batch is published.
  abbrev pub rolled : Loop → Stream → Engine hash
  rolled l s = record e {
    disk = (rotated e l s).disk;
    active_file = active_of (opened (next_path e) [] false);
    stable_files = insert_stable e.stable_files (active_fd e.stable_files) (stable_of s);
    active_map = ActiveMap.clear e.active_map;
  }

  module _ {old : Stream} (stored : IsStored e old) (l : Loop) (s : Stream) (more : Bytes)
      (content : s.content ≡ old.content ++ more) (few : length e.stable_files + 1 < 2 ^ 32) where
    fd-length : active_fd e.stable_files ≡ length e.stable_files
    fd-length = active_fd-length stored

    no_entry : find_stable e.stable_files (active_fd e.stable_files) ≡ none
    no_entry = stored.fresh _ (omega (arith, fd-length))

    pub length-rolled :
        length (insert_stable e.stable_files (active_fd e.stable_files) (stable_of s))
        ≡ suc (length e.stable_files)
    length-rolled = length-insert_stable e.stable_files _ (stable_of s) no_entry

    find-rolled :
        (j : ℕ)
        → find_stable (insert_stable e.stable_files (active_fd e.stable_files) (stable_of s)) j ≡ (
            if active_fd e.stable_files == j
            then some (stable_of s)
            else find_stable e.stable_files j)
    find-rolled j = find_stable-insert_stable e.stable_files _ j (stable_of s) no_entry

    pub find-rolled_self :
        find_stable
          (insert_stable e.stable_files (active_fd e.stable_files) (stable_of s))
          (active_fd e.stable_files)
        ≡ some (stable_of s)
    find-rolled_self = find-rolled _ ∙ rw (==_refl (active_fd e.stable_files))

    find-rolled_ne :
        (j : ℕ)
        → active_fd e.stable_files ≢ j
        → find_stable (insert_stable e.stable_files (active_fd e.stable_files) (stable_of s)) j
          ≡ find_stable e.stable_files j
    find-rolled_ne j h = find-rolled j ∙ rw (ne→== (active_fd e.stable_files) j h)

    pub rolled-IsStored : IsStored (rolled l s) (opened (next_path e) [] false)
    rolled-IsStored = record {
      file = refl;
      appending = record { at_end = refl; no_eof = refl; no_fail = refl };
      is_open = refl;
      path = ap (db_file (get_db_path e.setting)) (omega (arith, fd-length, length-rolled));
      few = omega (arith, length-rolled);
      fresh = λ j h.
          find-rolled_ne j (λ eq. absurd (omega (arith, fd-length, length-rolled)))
          ∙ stored.fresh j (omega (arith, length-rolled));
    }

    -- What stood in the active file stands in the stable file that it became.
    pub rolled-Shows :
        (active : Stream) (k : Key) (o : Option Hint) (x : Option Value)
        → Shows e old k o x
        → Shows (rolled l s) active k o x
    rolled-Shows active k none x h = h
    rolled-Shows active k (some hint) x (v, q, inl a) = (
      v,
      q,
      inr (record {
        stream = opened s.path s.content true;
        found = ap (find_stable (rolled l s).stable_files) a.fd ∙ find-rolled_self;
        in_file = subst (λ t. InFile t hint v) (sym content) (InFile-append more a.in_file);
      }),
    )
    rolled-Shows active k (some hint) x (v, q, inr st) = (
      v,
      q,
      inr (record {
        stream = st.stream;
        found =
            find-rolled_ne hint.fd
              (λ eq. absurd (omega (arith, fd-length, found-lt stored hint.fd st.found)))
            ∙ st.found;
        in_file = st.in_file;
      }),
    )
