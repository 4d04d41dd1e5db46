-- ===== src/Bitcask/Alone.antt =====
-- A Get and the end of CommitWrite, each with nothing in between, and a Get in the middle of a rotation.
use memkvin_c.Base.{
  Key, Value, ◌≡◌, ◌∙◌, refl, ap, Bool, true, false, List, Option, none, some, ◌==◌, ==_refl,
  if◌then◌else◌,
}
use memkvin_c.HashMap.{HashMap}
use memkvin_c.ActiveMap
use memkvin_c.RecordMap
use memkvin_c.RecordMap.{Hint}
use memkvin_c.Bitcask.Engine.{
  Engine, Write, Loop, active_fd, get, get_hint, get_active_fd, get_stable, find_stable, is_empty,
  visible, visible?,
}
use memkvin_c.Bitcask.Race.{
  Tail, inserting, Getting, looking, hinted, cached, filed, returned, tail_step, get_step,
  filed_result, commits, gets, Turns, stay, next,
}

module _ {hash : HashMap} (key : Key) where
  Turns-trans :
      (s t u : Engine hash × Tail × Getting) → Turns key s t → Turns key t u → Turns key s u
  Turns-trans s t u run (stay _) = run
  Turns-trans s t u run (next _ v _ more step) = next s v u (Turns-trans s t v run more) step

  pub looked :
      (e : Engine hash) (hint : Hint)
      → RecordMap.get e.record_map key ≡ some hint
      → get_step key (e, looking) ≡ some (e, hinted hint)
  unfolding get_step
  looked e hint h =
      λ i. elim (h i) [ none ↦ some (e, returned none) | some hint ↦ some (e, hinted hint) ]

  pub missed :
      (e : Engine hash)
      → RecordMap.get e.record_map key ≡ none
      → get_step key (e, looking) ≡ some (e, returned none)
  unfolding get_step
  missed e h =
      λ i. elim (h i) [ none ↦ some (e, returned none) | some hint ↦ some (e, hinted hint) ]

  get_hint-near :
      (e : Engine hash) (hint : Hint)
      → (hint.fd == active_fd e.stable_files) ≡ true
      → get_hint e key (some hint) ≡ some (visible? (ActiveMap.get e.active_map key), e)
  unfolding get_hint get_active_fd
  get_hint-near e hint h = rw h refl

  get_hint-far :
      (e : Engine hash) (hint : Hint)
      → (hint.fd == active_fd e.stable_files) ≡ false
      → get_hint e key (some hint) ≡ get_stable e key hint (find_stable e.stable_files hint.fd)
  unfolding get_hint get_active_fd
  get_hint-far e hint h = rw h refl

  pub read_cache :
      (e : Engine hash)
      → get_step key (e, cached) ≡ some (e, returned (visible? (ActiveMap.get e.active_map key)))
  unfolding get_step
  read_cache e = refl

  pub read_file :
      (e e' : Engine hash) (hint : Hint) (v : Option Value)
      → get_stable e key hint (find_stable e.stable_files hint.fd) ≡ some (v, e')
      → get_step key (e, filed hint) ≡ some (e', returned v)
  unfolding get_step
  read_file e e' hint v h = ap filed_result h

  pub compared :
      (e : Engine hash) (hint : Hint) (b : Bool)
      → (hint.fd == active_fd e.stable_files) ≡ b
      → get_step key (e, hinted hint) ≡ some (e, if b then cached else filed hint)
  unfolding get_step get_active_fd
  compared e hint b h = ap (λ b. some (e, if b then cached else filed hint)) h

  -- Where the value of a key is in the active file and in the cache, and the loop of CommitWrite
  -- has rotated that file, a Get that stands alone returns the value, or none where it is the
  -- tombstone, and there is a run in which Get compares the file's number before CommitWrite
  -- inserts the new stable files and reads the cache after CommitWrite has cleared it: it returns
  -- none, while the hint of the key has not changed.
  pub get_misses_in_rotation :
      (e : Engine hash) (l : Loop) (ws : List Write) (hint : Hint) (v : Value)
      → RecordMap.get e.record_map key ≡ some hint
      → hint.fd ≡ active_fd e.stable_files
      → ActiveMap.get e.active_map key ≡ some v
      → is_empty l.new_stable ≡ false
      → (get e key ≡ some (visible v, e))
        × (e' : Engine hash) × (t : Tail) × Turns key
            (e, inserting l ws, looking)
            (e', t, returned none)
        × (RecordMap.get e'.record_map key ≡ some hint)
  unfolding get tail_step
  get_misses_in_rotation e l ws hint v there active_file value rotated =
      let near : (hint.fd == active_fd e.stable_files) ≡ true =
        ap (λ n. n == active_fd e.stable_files) active_file ∙ ==_refl (active_fd e.stable_files) in
      let s1 = tail_step (e, inserting l ws) in
      let s2 = tail_step s1 in
      (
        ap (get_hint e key) there
            ∙ get_hint-near e hint near
            ∙ ap (λ o. some (visible? o, e)) value,
        s2.0,
        s2.1,
        next _ _ _
            (next _ _ _
              (next _ _ _
                (next _ _ _
                  (next _ _ _ (stay _)
                    (gets e e (inserting l ws) looking (hinted hint) (looked e hint there)))
                  (gets e e (inserting l ws) (hinted hint) cached (compared e hint true near)))
                (commits e (inserting l ws) cached))
              (commits s1.0 s1.1 cached))
            (gets s2.0 s2.0 s2.1 cached (returned none) (
              read_cache s2.0
              ∙ ap (λ o. some (s2.0, returned (visible? o)))
                  (ap
                      (λ b.
                        ActiveMap.get (if b then e.active_map else ActiveMap.clear e.active_map)
                          key)
                      rotated
                    ∙ ActiveMap.get-clear e.active_map key))),
        there,
      )
