-- ===== src/Bitcask/Whole.antt =====
-- A database from an empty directory on, as a client that makes one call after the other sees it.
use mathlib.Core.List.Perm
use memkvin_c.Base.{
  map, Bytes, ◌≡◌, ◌∙◌, refl, ap, true, false, List, [], ◌∷◌, ◌++◌, Option, none, some, ℕ, ◌<◌,
  b_slash, bytes_eq, ne→==, arith, if◌then◌else◌,
}
use memkvin_c.Crc.{Crc32c}
use memkvin_c.HashMap.{HashMap}
use memkvin_c.Setting.{Setting, get_db_path, get_max_file_size}
use memkvin_c.Record.Log.{encode_all}
use memkvin_c.Disk.{Disk, directory_entries, exists, find_file, opened}
use memkvin_c.Disk.Laws.{find_file-put_file}
use memkvin_c.Disk.Names.{file_name, file_name-digit, has_slash-file_name}
use memkvin_c.Disk.Listing.{shape, directory_entries-new, directory_entries-empty}
use memkvin_c.Bitcask.Engine.{Engine, db_file}
use memkvin_c.Bitcask.View.{empty_view}
use memkvin_c.Bitcask.Restore.{done}
use memkvin_c.Bitcask.Worker.{swapping}
use memkvin_c.Bitcask.Logs.{Logs}
use memkvin_c.Bitcask.Fitting.{AllFit}
use memkvin_c.Bitcask.Directory.{IsListed, bytes_eq-db_file}
use memkvin_c.Bitcask.Durable.{IsDurable}
use memkvin_c.Bitcask.Fresh.{fresh, fresh-Represents, make_fresh}
use memkvin_c.Bitcask.Api
use memkvin_c.Bitcask.Api.{Database}
use memkvin_c.Bitcask.Client.{Call, calls, answers, Story, tell_all, rests}
use memkvin_c.Bitcask.Idle.{IsSound}
use memkvin_c.Bitcask.Sees.{client_sees_map}

abbrev pub no_logs : Logs
no_logs = record { last = 0; writes = λ _. [] }

abbrev pub no_story : Story
no_story = record { logs = no_logs; next = 0 }

module _ (c : Crc32c) (hash : HashMap) (setting : Setting ℕ) (dir : Bytes)
    (ending : get_db_path setting ≡ dir ++ b_slash ∷ []) (disk : Disk)
    (empty : directory_entries disk (get_db_path setting) ≡ [])
    (creatable : (i : ℕ) → i < 10 → disk.creatable (db_file (get_db_path setting) i) ≡ true) where
  abbrev db : Bytes
  db = get_db_path setting

  some_name : (i : ℕ) → i < 10 → bytes_eq (file_name i) [] ≡ false
  unfolding bytes_eq
  some_name i few = ap (λ t. bytes_eq t []) (file_name-digit i few)

  free : (i : ℕ) → i < 10 → find_file disk.files (db_file db i) ≡ none
  free i few =
      directory_entries-empty disk db dir (file_name i) ending (has_slash-file_name i few)
        (some_name i few) empty

  few0 : 0 < 10
  few0 = omega arith

  abbrev e : Engine hash
  e = fresh hash setting disk

  fresh-IsListed : IsListed db e.disk 0
  fresh-IsListed = record {
    numbers = 0 ∷ [];
    order = Perm.refl (0 ∷ []);
    listed =
        directory_entries-new disk db dir (file_name 0) [] ending (has_slash-file_name 0 few0)
          (some_name 0 few0) (free 0 few0)
        ∙ ap (λ l. map shape l ++ (file_name 0, db_file db 0, true) ∷ []) empty;
    free = λ i more few.
        find_file-put_file disk.files (db_file db 0) (db_file db i) []
        ∙ ap (λ b. if b then some [] else find_file disk.files (db_file db i))
            (bytes_eq-db_file db 0 i few0 few ∙ ne→== 0 i (λ p. absurd (omega arith)))
        ∙ free i few;
  }

  fresh-IsDurable : IsDurable c e no_logs
  unfolding encode_all
  fresh-IsDurable = record {
    stream = opened (db_file db 0) [] false;
    is_active = refl;
    appending = record { at_end = refl; no_eof = refl; no_fail = refl };
    is_open = refl;
    path = refl;
    content = refl;
    on_disk = record {
      listed = fresh-IsListed;
      closed = λ i less. absurd (omega arith);
      old = [];
      there =
          find_file-put_file disk.files (db_file db 0) (db_file db 0) []
          ∙ ap (λ b. if b then some [] else find_file disk.files (db_file db 0))
              (bytes_eq-db_file db 0 0 few0 few0);
      creatable = creatable;
    };
    handles = tt;
    count = refl;
  }

  fresh-IsSound : IsSound c setting dir ending (e, swapping) no_story
  fresh-IsSound = record {
    rep = fresh-Represents hash setting disk;
    kept = record {
      durable = fresh-IsDurable;
      same = refl;
      running = refl;
      writes = refl;
      order = refl;
      next = refl;
      idle = tt;
    };
  }

  absent : exists disk (db_file db 0) ≡ false
  unfolding exists
  absent = ap (λ (o : Option Bytes). elim o [ none ↦ false | some _ ↦ true ]) (free 0 few0)

  created : Api.create c setting disk ≡ done (e, swapping)
  created =
      Api.create-make c setting disk
        (make_fresh c hash setting disk empty absent (creatable 0 few0))

  pub starts :
      (s : Database hash) × (Api.create c setting disk ≡ done s)
      × IsSound c setting dir ending s no_story
  starts = ((e, swapping), created, fresh-IsSound)

  -- From a directory that lists no file, where the files 0.db to 9.db can be made and the path of
  -- the setting ends in a slash, Create returns a database, and any sequence of calls of Put,
  -- Delete and Get, one after the other, the database closed and opened again with the same
  -- setting wherever the sequence says so, returns from every call what a map answers: a Get the
  -- last value that was put, or none where there is none or it is the tombstone, and a Delete
  -- whether the key was ever put; if the files that the calls fill, one after the other, are ten
  -- at most and each below 2^32 bytes, and no call behind the first reopening rotates the active
  -- file.
  pub database_is_map :
      (xs : List Call)
      → AllFit (tell_all (get_max_file_size setting) no_story xs).logs
      → rests (get_max_file_size setting) false no_story xs ≡ true
      → (s : Database hash) × (Api.create c setting disk ≡ done s)
        × (s' : Database hash) × (calls c s xs ≡ some (s', answers empty_view xs))
  database_is_map xs fit settled =
      let (s, p, sound) = starts in
      let (s', q, _, _) = client_sees_map c setting dir ending xs s no_story sound fit in
      (s, p, s', q)
