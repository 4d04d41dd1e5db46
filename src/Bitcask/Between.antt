-- ===== src/Bitcask/Between.antt =====
-- What holds of a Get and of the end of a commit that rotates nothing while both are under way, and what
-- the steps of the Get make of it.
use memkvin_c.Base.{
  none-ne, ==→≡, some_inj, Key, Value, ◌≡◌, ◌⊎◌, ◌∙◌, subst, refl, ap, sym, Bool-cases, inl, inr,
  true, false, List, [], ◌∷◌, ◌++◌, append_assoc, Option, Option-cases, none, some, ℕ, ◌==◌,
  ==_refl, bytes_eq,
}
use memkvin_c.HashMap.{HashMap}
use memkvin_c.ActiveMap
use memkvin_c.RecordMap
use memkvin_c.RecordMap.{Hint}
use memkvin_c.Bitcask.Engine.{Engine, Write, get_stable, active_fd, find_stable, visible, visible?}
use memkvin_c.Bitcask.Reads.{read-InFile, get_stable_lem}
use memkvin_c.Bitcask.View.{View, apply_writes, apply_writes-append}
use memkvin_c.Bitcask.Loaded.{IsKept}
use memkvin_c.Bitcask.Alone.{looked, missed, compared, read_cache, read_file}
use memkvin_c.Bitcask.Race.{
  Tail, inserting, clearing, caching, indexing, ended, Getting, looking, hinted, cached, filed,
  returned, get_step,
}

true-ne : true ≡ false → ⊥
true-ne e = cc

-- What a key has behind some of the writes of a batch, from the first on: before all, between two, or
-- behind all of them.
pub record WasThere (key : Key) (m : View) (ws : List Write) (o : Option Value) : Type 0 where
  pub before : List Write
  pub rest : List Write
  pub whole : before ++ rest ≡ ws
  pub value : apply_writes m before key ≡ o

-- The hints name the active file.
abbrev pub AllActive : ℕ → List Hint → Type 0
AllActive fd [] = Unit
AllActive fd (hint ∷ hints) = (hint.fd ≡ fd) × AllActive fd hints

module _ (key : Key) (m : View) (ws : List Write) where
  module _ {hash : HashMap} (e : Engine hash) where
    -- The cache has a value that the key had.
    abbrev pub CacheOk : Type 0
    CacheOk = (v : Value) × (ActiveMap.get e.active_map key ≡ some v) × WasThere key m ws (some v)

    -- A stable file has one.
    abbrev pub FileOk : Hint → Type 0
    FileOk hint = (v : Value) × IsKept e.stable_files hint v × WasThere key m ws (some v)

    abbrev pub HintOk : Hint → Type 0
    HintOk hint = ((hint.fd ≡ active_fd e.stable_files) × CacheOk) ⊎ FileOk hint

    abbrev pub IndexOk : Option Hint → Type 0
    IndexOk none = WasThere key m ws none
    IndexOk (some hint) = HintOk hint

    -- The writes that are still to be published, behind those that are.
    abbrev pub TailOk : Tail → Type 0
    TailOk (inserting l more) =
        (l.new_stable ≡ [])
        × (l.last_active_write ≡ 0)
        × (more ≡ ws)
        × AllActive (active_fd e.stable_files) l.records
    TailOk (clearing l more) =
        (l.new_stable ≡ [])
        × (l.last_active_write ≡ 0)
        × (more ≡ ws)
        × AllActive (active_fd e.stable_files) l.records
    TailOk (caching last i more hints) =
        (last ≡ 0)
        × (done : List Write) × (done ++ more ≡ ws)
        × AllActive (active_fd e.stable_files) hints
    TailOk (indexing last i w hint more hints) =
        (last ≡ 0)
        × (done : List Write) × (done ++ more ≡ ws)
        × (hint.fd ≡ active_fd e.stable_files)
        × AllActive (active_fd e.stable_files) hints
        × (bytes_eq w.key key ≡ true → CacheOk)
    TailOk ended = Unit

    abbrev pub GetOk : Getting → Type 0
    GetOk looking = Unit
    GetOk (hinted hint) = HintOk hint
    GetOk cached = CacheOk
    GetOk (filed hint) = FileOk hint
    GetOk (returned o) = ⊥

  abbrev pub Answered : Getting → Type 0
  Answered (returned o) = (x : Option Value) × (o ≡ visible? x) × WasThere key m ws x
  Answered _ = ⊥

  -- The Get has not returned yet.
  pub record Going {hash : HashMap} (e : Engine hash) (t : Tail) (g : Getting) : Type 0 where
    pub fresh : find_stable e.stable_files (active_fd e.stable_files) ≡ none
    pub index : IndexOk e (RecordMap.get e.record_map key)
    pub tail : TailOk e t
    pub getting : GetOk e g

  module _ {hash : HashMap} where
    abbrev pub Inv : Engine hash × Tail × Getting → Type 0
    Inv (e, t, g) = Answered g ⊎ Going e t g

    pub got_step :
        (e e' : Engine hash) (t : Tail) (g g' : Getting)
        → Going e t g
        → get_step key (e, g) ≡ some (e', g')
        → Inv (e', t, g')
    got_step e e' t looking g' h p = elim (Option-cases (RecordMap.get e.record_map key)) [
      | inl n ↦
          subst R (some_inj (sym (missed key e n) ∙ p))
            (inl (none, refl, subst (IndexOk e) n h.index))
      | inr (hint, n) ↦ subst R (some_inj (sym (looked key e hint n) ∙ p)) (
          inr (record {
            fresh = h.fresh;
            index = h.index;
            tail = h.tail;
            getting = subst (IndexOk e) n h.index;
          }))
    ]
      where
        R : Engine hash × Getting → Type 0
        R s = Inv (s.0, t, s.1)
    got_step e e' t (hinted hint) g' h p = elim (Bool-cases (hint.fd == active_fd e.stable_files)) [
      | inl near ↦ subst R (some_inj (sym (compared key e hint true near) ∙ p)) (
          inr (record {
            fresh = h.fresh;
            index = h.index;
            tail = h.tail;
            getting = in_cache near h.getting;
          }))
      | inr far ↦ subst R (some_inj (sym (compared key e hint false far) ∙ p)) (
          inr (record {
            fresh = h.fresh;
            index = h.index;
            tail = h.tail;
            getting = in_file far h.getting;
          }))
    ]
      where
        R : Engine hash × Getting → Type 0
        R s = Inv (s.0, t, s.1)

        in_cache : (hint.fd == active_fd e.stable_files) ≡ true → HintOk e hint → CacheOk e
        in_cache near (inl (_, ok)) = ok
        in_cache near (inr (v, kept, was)) = absurd (
            none-ne
              (sym h.fresh ∙ ap (find_stable e.stable_files) (sym (==→≡ _ _ near)) ∙ kept.found))

        in_file : (hint.fd == active_fd e.stable_files) ≡ false → HintOk e hint → FileOk e hint
        in_file far (inr ok) = ok
        in_file far (inl (fd, _)) = absurd (
            true-ne (
              sym (ap (λ n. n == active_fd e.stable_files) fd ∙ ==_refl (active_fd e.stable_files))
              ∙ far))
    got_step e e' t cached g' h p =
        let (v, value, was) = h.getting in
        subst R (some_inj (sym (read_cache key e) ∙ p)) (inl (some v, ap visible? value, was))
      where
        R : Engine hash × Getting → Type 0
        R s = Inv (s.0, t, s.1)
    got_step e e' t (filed hint) g' h p =
        let (v, kept, was) = h.getting in
        let (s', _, r) = read-InFile kept.stream key hint v kept.in_file in
        subst R
          (some_inj (
            sym (
              read_file key e _ hint (visible v)
                (ap (get_stable e key hint) kept.found ∙ get_stable_lem e key hint _ _ v r))
            ∙ p))
          (inl (some v, refl, was))
      where
        R : Engine hash × Getting → Type 0
        R s = Inv (s.0, t, s.1)
    got_step e e' t (returned o) g' h p = absurd h.getting

    -- A write is given to the cache.
    module _ (e : Engine hash) (done : List Write) (w : Write) (more : List Write)
        (whole : done ++ w ∷ more ≡ ws) where
      abbrev e1 : Engine hash
      e1 = record e { active_map = ActiveMap.put e.active_map w.key w.value }

      pub next_whole : (done ++ w ∷ []) ++ more ≡ ws
      next_whole = append_assoc done (w ∷ []) more ∙ whole

      pub fresh-CacheOk : bytes_eq w.key key ≡ true → CacheOk e1
      fresh-CacheOk same = (
        w.value,
        ActiveMap.get-put e.active_map w.key key w.value ∙ rw same refl,
        record {
          before = done ++ w ∷ [];
          rest = more;
          whole = next_whole;
          value = ap (λ (f : View). f key) (apply_writes-append done (w ∷ []) m) ∙ rw same refl;
        },
      )

      CacheOk-put : CacheOk e → CacheOk e1
      CacheOk-put (v, value, was) = elim (Bool-cases (bytes_eq w.key key)) [
        | inl same ↦ fresh-CacheOk same
        | inr other ↦ (v, ActiveMap.get-put e.active_map w.key key w.value ∙ rw other value, was)
      ]

      HintOk-put : (hint : Hint) → HintOk e hint → HintOk e1 hint
      HintOk-put hint (inl (fd, ok)) = inl (fd, CacheOk-put ok)
      HintOk-put hint (inr ok) = inr ok

      pub IndexOk-put : (o : Option Hint) → IndexOk e o → IndexOk e1 o
      IndexOk-put none ok = ok
      IndexOk-put (some hint) ok = HintOk-put hint ok

      pub GetOk-put : (g : Getting) → GetOk e g → GetOk e1 g
      GetOk-put looking ok = ok
      GetOk-put (hinted hint) ok = HintOk-put hint ok
      GetOk-put cached ok = CacheOk-put ok
      GetOk-put (filed hint) ok = ok
      GetOk-put (returned o) ok = ok
