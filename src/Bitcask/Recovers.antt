-- ===== src/Bitcask/Recovers.antt =====
-- A crash while a client has the database open, and what Create finds behind it.
use memkvin_c.Base.{
  Bytes, true, false, ◌≡◌, ◌∙◌, refl, ap, subst, sym, List, [], ◌∷◌, ◌++◌, ℕ, ◌<◌, take, b_slash,
  some, arith,
}
use memkvin_c.Crc.{Crc32c}
use memkvin_c.HashMap.{HashMap}
use memkvin_c.Setting.{Setting, get_db_path, get_max_file_size}
use memkvin_c.Disk.{Disk, directory_entries}
use memkvin_c.Bitcask.Engine.{Engine, db_file}
use memkvin_c.Bitcask.View.{Represents, empty_view, apply_writes}
use memkvin_c.Bitcask.Restore.{done}
use memkvin_c.Bitcask.Worker.{swapping}
use memkvin_c.Bitcask.Logs.{Logs}
use memkvin_c.Bitcask.Fitting.{AllFit}
use memkvin_c.Bitcask.Api
use memkvin_c.Bitcask.Api.{Database}
use memkvin_c.Bitcask.Client.{Call, calls, answers, behind_all, tell_all, rests}
use memkvin_c.Bitcask.Sees.{client_sees_map}
use memkvin_c.Bitcask.Whole.{no_logs, no_story, starts}
use memkvin_c.Bitcask.Cut.{Cut, DetectsAll}
use memkvin_c.Bitcask.Crash.{crashed, crash_keeps_first}
use memkvin_c.Bitcask.Prefixes.{FirstCalls, CutsToCalls, cuts-tell_all, nothing_before}

-- The files that a sequence of calls leads to.
abbrev pub logs_of : Setting ℕ → List Call → Logs
logs_of setting xs = (tell_all (get_max_file_size setting) no_story xs).logs

no_cuts : CutsToCalls [] no_logs
unfolding behind_all
no_cuts kept lost h = record {
  n = 0;
  few = omega arith;
  same = ap (apply_writes empty_view) (nothing_before kept lost h);
}

module _ (c : Crc32c) (hash : HashMap) (setting : Setting ℕ) (dir : Bytes)
    (ending : get_db_path setting ≡ dir ++ b_slash ∷ []) (disk : Disk)
    (empty : directory_entries disk (get_db_path setting) ≡ [])
    (creatable : (i : ℕ) → i < 10 → disk.creatable (db_file (get_db_path setting) i) ≡ true)
    (xs : List Call) (k : ℕ) (fit : AllFit (logs_of setting xs))
    (settled : rests (get_max_file_size setting) false no_story xs ≡ true)
    (detects : DetectsAll c ((logs_of setting xs).writes (logs_of setting xs).last)) where
  abbrev goal : Logs
  goal = logs_of setting xs

  -- From a directory that lists no file, where the files 0.db to 9.db can be made and the path of
  -- the setting ends in a slash, Create returns a database, any sequence of calls of Put, Delete
  -- and Get, the database closed and opened again wherever the sequence says so, returns what a
  -- map answers, and where a crash then leaves the closed files and the first k bytes of the
  -- active file, for any k, Create returns a database that stands for the map behind some first
  -- calls of the sequence: the map of the closed files and, behind them, of the writes whose
  -- records are whole within the k bytes; if the files that the calls fill are ten at most and
  -- each below 2^32 bytes, no call behind the first reopening rotates the active file, and the
  -- checksum tells each record of the active file without its value, and without its body, from
  -- the whole one.
  pub crash_goes_back :
      (s : Database hash) × (Api.create c setting disk ≡ done s)
      × (s' : Database hash) × (calls c s xs ≡ some (s', answers empty_view xs))
      × (t : Cut k (goal.writes goal.last)) × (f : FirstCalls xs goal t.kept) × (e' : Engine hash)
      × (Api.create c setting (crashed k s'.0) ≡ done (e', swapping))
      × Represents e' (behind_all empty_view (take f.n xs))
  unfolding behind_all
  crash_goes_back =
      let (s, made, start) = starts c hash setting dir ending disk empty creatable in
      let (s', p, sound, _) = client_sees_map c setting dir ending xs s no_story start fit in
      let same = sound.kept.same in
      let (t, e', q, rep) =
        crash_keeps_first c s'.0 goal dir k sound.kept.durable (ap get_db_path same ∙ ending) fit
          detects in
      let f =
        cuts-tell_all (get_max_file_size setting) xs [] no_story refl no_cuts t.kept t.lost
          t.parts in
      (
        s,
        made,
        s',
        p,
        t,
        f,
        e',
        ap (λ z. Api.create c z (crashed k s'.0)) (sym same) ∙ q,
        subst (Represents e') f.same rep,
      )
