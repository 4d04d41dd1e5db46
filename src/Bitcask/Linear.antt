-- ===== src/Bitcask/Linear.antt =====
-- A Get in the middle of a commit that rotates nothing.
use memkvin_c.Base.{
  some_inj, Key, Value, ◌≡◌, ◌∙◌, subst, refl, sym, inr, List, [], ◌∷◌, Option, some, ℕ, ◌+◌, ◌<◌,
  ◌^◌, length, arith,
}
use memkvin_c.HashMap.{HashMap}
use memkvin_c.Bitcask.Race.{Tail, inserting, looking, returned, Turns}
use memkvin_c.Bitcask.Between.{WasThere, AllActive}
use memkvin_c.Bitcask.Engine.{Engine, Write, Loop, active_fd, visible?, start_loop, commit_loop}
use memkvin_c.Bitcask.View.{View, Represents}
use memkvin_c.Bitcask.Reads.{active_fd-length}
use memkvin_c.Bitcask.Batch.{log_of, hints_at, record_size, StaysBelow}
use memkvin_c.Bitcask.Commit.{kept_loop, commit_loop-kept_loop, rest, records}
use memkvin_c.Bitcask.Interleaved.{all_turned, answered, start-IndexOk}
use memkvin_c.Crc.{Crc32c}
use memkvin_c.Setting.{get_max_file_size}
use memkvin_c.Record.Log.{encode_all}

hints_at-AllActive : (fd at : ℕ) (ws : List Write) → AllActive fd (hints_at fd at ws)
hints_at-AllActive fd at [] = tt
hints_at-AllActive fd at (w ∷ ws) = (refl, hints_at-AllActive fd (at + record_size w) ws)

module _ (c : Crc32c) {hash : HashMap} where
  Linearizes : Engine hash → View → List Write → Key → Loop → Type 0
  Linearizes e m ws key l =
      (e' : Engine hash) (t : Tail) (o : Option Value)
      → Turns key (record e { disk = l.disk; active_file = l.active }, inserting l ws, looking)
          (e', t, returned o)
      → (x : Option Value) × (o ≡ visible? x) × WasThere key m ws x

  kept-Linearizes :
      (e : Engine hash) (m : View) (ws : List Write) (rep : Represents e m) (key : Key)
      → length rep.active.content + length (encode_all c (log_of ws)) < 2 ^ 32
      → StaysBelow (get_max_file_size e.setting) (length rep.active.content) ws
      → Linearizes e m ws key (kept_loop c e ws rep)
  unfolding Linearizes
  kept-Linearizes e m ws rep key fits below e' t o run =
      let l = kept_loop c e ws rep in
      let (_, new, last, _) = rest c e ws rep fits below in
      answered key m ws e' t o (
        all_turned key m ws _ _ run (
          inr (record {
            fresh =
                rep.stored.fresh (active_fd e.stable_files)
                  (omega (arith, active_fd-length rep.stored));
            index = start-IndexOk key m ws e l.disk l.active rep.active _ (rep.shows key);
            tail = (
              new,
              last,
              refl,
              subst (AllActive (active_fd e.stable_files)) (sym (records c e ws rep fits below))
                  (hints_at-AllActive _ _ ws),
            );
            getting = tt;
          })))

  -- Where an engine stands for a map and the loop of CommitWrite has appended a batch that stays
  -- below the size limit to an active file that stays below 2^32 bytes, a Get of a key that runs
  -- beside what CommitWrite does behind the loop, however their steps are interleaved, returns
  -- what the key has behind some first writes of the batch, none or all of them included, or none
  -- where that is the tombstone.
  pub get_linearizes :
      (e : Engine hash) (m : View) (ws : List Write) (rep : Represents e m) (key : Key)
      → length rep.active.content + length (encode_all c (log_of ws)) < 2 ^ 32
      → StaysBelow (get_max_file_size e.setting) (length rep.active.content) ws
      → (l : Loop) → commit_loop c e (start_loop e) ws ≡ some l
      → (e' : Engine hash) (t : Tail) (o : Option Value)
      → Turns key
          (record e { disk = l.disk; active_file = l.active }, inserting l ws, looking)
          (e', t, returned o)
      → (x : Option Value) × (o ≡ visible? x) × WasThere key m ws x
  unfolding Linearizes
  get_linearizes e m ws rep key fits below l looped =
      subst (Linearizes e m ws key)
        (some_inj (sym (commit_loop-kept_loop c e ws rep fits below) ∙ looped))
        (kept-Linearizes e m ws rep key fits below)
