-- ===== src/Bitcask/Reads.antt =====
-- `Get` returns what the abstract map holds, and keeps it.
use memkvin_c.Base.{
  Bytes, Key, Value, ◌≡◌, inl, inr, ◌⊎◌, ◌∙◌, refl, ap, sym, true, false, Option, none, some, ℕ,
  ◌+◌, ◌<◌, length, ◌==◌, arith, ne→==, Bool-cases, ==_refl,
}
use native.Mathlib.Decide.{dec_lt}
use memkvin_c.HashMap.{HashMap}
use memkvin_c.RecordMap
use memkvin_c.RecordMap.{Hint}
use memkvin_c.Stream.{Stream}
use memkvin_c.Record.Kept.{file_of}
use memkvin_c.Stream.Laws.{read_stable_exact}
use memkvin_c.StableFile
use memkvin_c.StableFile.{StableFile}
use memkvin_c.Bitcask.Engine.{
  Engine, active_fd, find_stable, set_stable, get, get_hint, get_stable, visible, visible?,
}
use memkvin_c.Bitcask.Stables.{find_stable-set_stable, length-set_stable}
use memkvin_c.Bitcask.View.{View, InFile, Located, Shows, IsStored, Represents}

-- A stable file gives the bytes that a hint points to; its bytes stay.
pub read-InFile :
    (s : Stream) (key : Key) (hint : Hint) (v : Value)
    → InFile s.content hint v
    → (s' : Stream) × (file_of s' ≡ file_of s)
      × (StableFile.read (record { file = some s }) key hint.offset hint.size
          ≡ some (v, record { file = some s' }))
unfolding StableFile.read
read-InFile s key hint v h = (
  record s { pos = hint.offset + hint.size; gcount = hint.size; eofbit = false; failbit = false },
  refl,
  ap (λ (r : Value × Stream). some (r.0, record { file = some r.1 }))
      (read_stable_exact s h.before v h.behind hint.offset hint.size h.bytes h.offset h.size),
)

InFile-subst : {a b : Bytes} {hint : Hint} {v : Value} → a ≡ b → InFile a hint v → InFile b hint v
InFile-subst p h = record {
  before = h.before;
  behind = h.behind;
  bytes = sym p ∙ h.bytes;
  offset = h.offset;
  size = h.size;
}

pub get_stable_lem :
    {hash : HashMap} (e : Engine hash) (k : Key) (hint : Hint) (f f' : StableFile) (v : Value)
    → StableFile.read f k hint.offset hint.size ≡ some (v, f')
    → get_stable e k hint (some f)
      ≡ some (visible v, record e { stable_files = set_stable e.stable_files hint.fd f' })
unfolding get_stable
get_stable_lem e k hint f f' v h = λ i. elim (h i) [
  | none ↦ none
  | some (v, f') ↦
      some (visible v, record e { stable_files = set_stable e.stable_files hint.fd f' })
]

module _ {hash : HashMap} where
  -- A Get moved the stream of one stable file at most.
  pub record Moved (e e' : Engine hash) : Type 0 where
    pub fd : ℕ
    pub before : Stream
    pub behind : Stream
    pub found : find_stable e.stable_files fd ≡ some (record { file = some before })
    pub same : file_of behind ≡ file_of before
    pub result :
        e'
        ≡ record e { stable_files = set_stable e.stable_files fd (record { file = some behind }) }

  abbrev pub MovesOnly : Engine hash → Engine hash → Type 0
  MovesOnly e e' = (e' ≡ e) ⊎ Moved e e'

-- `Get` of a key whose hint names a stable file returns the bytes that the hint points to.
pub get-stable :
    {hash : HashMap} (e : Engine hash) (k : Key) (hint : Hint) (s : Stream) (v : Value)
    → RecordMap.get e.record_map k ≡ some hint
    → (hint.fd == active_fd e.stable_files) ≡ false
    → find_stable e.stable_files hint.fd ≡ some (record { file = some s })
    → InFile s.content hint v
    → (e' : Engine hash) × (get e k ≡ some (visible v, e'))
unfolding get get_hint
get-stable e k hint s v p away found h =
    let (s', same, e-read) = read-InFile s k hint v h in
    let f' : StableFile = record { file = some s' } in
    (
      record e { stable_files = set_stable e.stable_files hint.fd f' },
      rw (p, away, found) (get_stable_lem e k hint _ _ v e-read),
    )

module _ {hash : HashMap} {e : Engine hash} {active : Stream} (stored : IsStored e active) where
  pub active_fd-length : active_fd e.stable_files ≡ length e.stable_files
  active_fd-length = omega (arith, stored.few)

  -- A file that is found is not the active one.
  pub found-lt :
      (fd : ℕ) {f : StableFile}
      → find_stable e.stable_files fd ≡ some f
      → fd < length e.stable_files
  found-lt fd h = elim (dec_lt fd (length e.stable_files)) [
    | yes lt ↦ lt
    | no ge ↦ cc (stored.fresh fd (omega arith))
  ]

  -- A read that moved the stream of a stable file changes nothing that is stored.
  module _ (fd : ℕ) (s s' : Stream) (same : file_of s' ≡ file_of s)
      (found : find_stable e.stable_files fd ≡ some (record { file = some s })) where
    moved : Engine hash
    moved = record e { stable_files = set_stable e.stable_files fd (record { file = some s' }) }

    length-moved :
        length (set_stable e.stable_files fd (record { file = some s' })) ≡ length e.stable_files
    length-moved = length-set_stable e.stable_files fd _ _ found

    moved-IsStored : IsStored moved active
    unfolding moved
    moved-IsStored = record {
      file = stored.file;
      appending = stored.appending;
      is_open = stored.is_open;
      path = rw length-moved stored.path;
      few = rw length-moved stored.few;
      fresh = λ j h.
          rw
            (
              find_stable-set_stable e.stable_files fd j (record { file = some s' }),
              ne→== fd j (λ eq. absurd (omega (arith, found-lt fd found, length-moved))),
            )
            (stored.fresh j (omega (arith, length-moved)));
    }

    one_stream :
        (j : ℕ) {t : Stream}
        → find_stable e.stable_files j ≡ some (record { file = some t })
        → (fd == j) ≡ true
        → s.content ≡ t.content
    one_stream j {t} h eq = ground arith

    moved-Located :
        (k : Key) (hint : Hint) (v : Value)
        → Located e active k hint v
        → Located moved active k hint v
    unfolding moved
    moved-Located k hint v (inl a) =
        inl (record { fd = rw length-moved a.fd; cached = a.cached; in_file = a.in_file })
    moved-Located k hint v (inr st) = elim (Bool-cases (fd == hint.fd)) [
      | inl eq ↦ inr (record {
        stream = s';
        found =
            rw (find_stable-set_stable e.stable_files fd hint.fd (record { file = some s' }), eq)
              refl;
        in_file =
            InFile-subst (sym (ap (λ t. t.1) same ∙ one_stream hint.fd st.found eq)) st.in_file;
      })
      | inr ne ↦ inr (record {
        stream = st.stream;
        found =
            rw (find_stable-set_stable e.stable_files fd hint.fd (record { file = some s' }), ne)
              st.found;
        in_file = st.in_file;
      })
    ]

    moved-Represents :
        {m : View}
        → ((k : Key) → Shows e active k (RecordMap.get e.record_map k) (m k))
        → Represents moved m
    unfolding moved
    moved-Represents {m} shows = record {
      active = active;
      stored = moved-IsStored;
      shows = λ k. moved-Shows k (RecordMap.get e.record_map k) (m k) (shows k);
    }
      where
        moved-Shows :
            (k : Key) (o : Option Hint) (x : Option Value)
            → Shows e active k o x
            → Shows moved active k o x
        moved-Shows k none x h = h
        moved-Shows k (some hint) x (v, p, located) = (v, p, moved-Located k hint v located)

module _ {hash : HashMap} {e : Engine hash} {m : View} (rep : Represents e m) where
  open rep use {active, stored, shows}

  get_hint_lem :
      (k : Key) (o : Option Hint) (x : Option Value)
      → Shows e active k o x
      → (e' : Engine hash) × (get_hint e k o ≡ some (visible? x, e'))
        × Represents e' m
        × MovesOnly e e'
  unfolding get_hint moved
  get_hint_lem k none x h = (e, rw h, rep, inl refl)
  get_hint_lem k (some hint) x (v, p, inl a) =
      (e, rw (p, a.fd, ==_refl (active_fd e.stable_files), a.cached), rep, inl refl)
  get_hint_lem k (some hint) x (v, p, inr st) =
      let (s', same, e-read) = read-InFile st.stream k hint v st.in_file in
      let away : (hint.fd == active_fd e.stable_files) ≡ false =
        ne→== _ _ (λ eq.
          absurd (omega (arith, found-lt stored hint.fd st.found, active_fd-length stored))) in
      (
        moved stored hint.fd st.stream s' same st.found,
        rw (away, p, st.found) (get_stable_lem e k hint _ _ v e-read),
        moved-Represents stored hint.fd st.stream s' same st.found shows,
        inr (record {
          fd = hint.fd;
          before = st.stream;
          behind = s';
          found = st.found;
          same = same;
          result = refl;
        }),
      )

  -- It moves the stream of one stable file at most.
  pub get_moves :
      (k : Key)
      → (e' : Engine hash) × (get e k ≡ some (visible? (m k), e'))
        × Represents e' m
        × MovesOnly e e'
  unfolding get
  get_moves k = get_hint_lem k (RecordMap.get e.record_map k) (m k) (shows k)

  -- Get of an engine that stands for a map does not fault, returns the value of the key if there
  -- is one other than the tombstone, and leaves an engine that stands for the same map.
  pub get_represents :
      (k : Key) → (e' : Engine hash) × (get e k ≡ some (visible? (m k), e')) × Represents e' m
  get_represents k = let (e', p, rep', _) = get_moves k in (e', p, rep')
