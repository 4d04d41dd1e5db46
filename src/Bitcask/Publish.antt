-- ===== src/Bitcask/Publish.antt =====
-- The last loop of CommitWrite: what it does to the abstract map.
use memkvin_c.Base.{
  Key, Value, ◌≡◌, inl, inr, ◌∙◌, refl, sym, Bool, true, false, Bool-cases, List, [], ◌∷◌, ◌++◌,
  append_assoc, append-nil, Option, none, some, ℕ, suc, leb, map, bytes_eq, bytes_eq→≡,
  bytes_eq_refl, ◌+◌, length, arith, if◌then◌else◌,
}
use memkvin_c.HashMap.{HashMap}
use memkvin_c.ActiveMap
use memkvin_c.RecordMap
use memkvin_c.RecordMap.{Hint}
use memkvin_c.Stream.{Stream}
use memkvin_c.Bitcask.Engine.{Engine, Write, active_fd, publish_one, publish}
use memkvin_c.Bitcask.View.{
  View, update, apply_writes, InFile, InStable, Located, Shows, IsStored, Represents,
}

add_zero : (i : ℕ) → i + 0 ≡ i
add_zero i = omega arith

shift : (i n : ℕ) → i + suc n ≡ suc i + n
shift i n = omega arith

module _ {hash : HashMap} where
  -- Where a published record must stand: in the active file if its value goes to the active map, else
  -- in a stable file.
  abbrev pub Placed : Engine hash → Stream → Bool → Hint → Value → Type 0
  Placed e active true hint v = (hint.fd ≡ active_fd e.stable_files) × InFile active.content hint v
  Placed e active false hint v = InStable e hint v

  module _ (e : Engine hash) (active : Stream) (w : Write) (hint : Hint) where
    new_Located :
        (b : Bool)
        → Placed e active b hint w.value
        → Located (publish_one e b w hint) active w.key hint w.value
    unfolding publish_one
    new_Located true (fd, h) = inl (record {
      fd = fd;
      cached = rw (ActiveMap.get-put e.active_map w.key w.key w.value, bytes_eq_refl w.key);
      in_file = h;
    })
    new_Located false h = inr (record { stream = h.stream; found = h.found; in_file = h.in_file })

    old_Located :
        (b : Bool) (k : Key) (old : Hint) (v : Value)
        → bytes_eq w.key k ≡ false
        → Located e active k old v
        → Located (publish_one e b w hint) active k old v
    unfolding publish_one
    old_Located true k old v ne (inl a) = inl (record {
      fd = a.fd;
      cached = rw (ActiveMap.get-put e.active_map w.key k w.value, ne) a.cached;
      in_file = a.in_file;
    })
    old_Located false k old v ne (inl a) =
        inl (record { fd = a.fd; cached = a.cached; in_file = a.in_file })
    old_Located b k old v ne (inr st) =
        inr (record { stream = st.stream; found = st.found; in_file = st.in_file })

    old_Shows :
        (b : Bool) (k : Key) (o : Option Hint) (x : Option Value)
        → bytes_eq w.key k ≡ false
        → Shows e active k o x
        → Shows (publish_one e b w hint) active k o x
    old_Shows b k none x ne h = h
    old_Shows b k (some old) x ne (v, p, located) = (v, p, old_Located b k old v ne located)

    record_map-publish_one :
        (b : Bool) (k : Key)
        → RecordMap.get (publish_one e b w hint).record_map k
          ≡ (if bytes_eq w.key k then some hint else RecordMap.get e.record_map k)
    unfolding publish_one
    record_map-publish_one b k = RecordMap.get-put e.record_map w.key k hint

    publish_one-IsStored : (b : Bool) → IsStored e active → IsStored (publish_one e b w hint) active
    unfolding publish_one
    publish_one-IsStored b h = record {
      file = h.file;
      appending = h.appending;
      is_open = h.is_open;
      path = h.path;
      few = h.few;
      fresh = h.fresh;
    }

  -- Each round stores one write.
  module _ (e : Engine hash) (active : Stream) (m : View) (b : Bool) (w : Write) (hint : Hint)
      (shows : (k : Key) → Shows e active k (RecordMap.get e.record_map k) (m k))
      (placed : Placed e active b hint w.value) where
    publish_one-Shows :
        (k : Key)
        → Shows
            (publish_one e b w hint)
            active
            k
            (RecordMap.get (publish_one e b w hint).record_map k)
            (update m w.key w.value k)
    publish_one-Shows k = elim (Bool-cases (bytes_eq w.key k)) [
      | inl same ↦
          rw (record_map-publish_one e active w hint b k, same)
            (w.value, refl, rw (← bytes_eq→≡ w.key k same) (new_Located e active w hint b placed))
      | inr other ↦
          rw (record_map-publish_one e active w hint b k, other)
            (old_Shows e active w hint b k _ _ other (shows k))
    ]

  resolved_assoc :
      (e : Engine hash) (b : Bool) (w : Write) (hint : Hint) (ws : List Write)
      → (publish_one e b w hint).resolved ++ map (λ (v : Write). v.promise) ws
        ≡ e.resolved ++ map (λ (v : Write). v.promise) (w ∷ ws)
  unfolding publish_one
  resolved_assoc e b w hint ws = append_assoc e.resolved (w.promise ∷ []) _

  -- Where the records of a batch must stand, by the place of each write in it.
  abbrev pub AllPlaced : Engine hash → Stream → ℕ → ℕ → List Write → List Hint → Type 0
  AllPlaced e active last i [] hints = Unit
  AllPlaced e active last i (w ∷ ws) [] = ⊥
  AllPlaced e active last i (w ∷ ws) (hint ∷ hints) =
      Placed e active (leb last i) hint w.value × AllPlaced e active last (suc i) ws hints

  publish_one-Placed :
      (e : Engine hash) (active : Stream) (b : Bool) (w : Write) (hint : Hint) (b' : Bool)
      (hint' : Hint) (v : Value)
      → Placed e active b' hint' v
      → Placed (publish_one e b w hint) active b' hint' v
  unfolding publish_one
  publish_one-Placed e active b w hint true hint' v h = h
  publish_one-Placed e active b w hint false hint' v h = record {
    stream = h.stream;
    found = h.found;
    in_file = h.in_file;
  }

  publish_one-AllPlaced :
      (e : Engine hash) (active : Stream) (b : Bool) (w : Write) (hint : Hint) (last i : ℕ)
      (ws : List Write) (hints : List Hint)
      → AllPlaced e active last i ws hints
      → AllPlaced (publish_one e b w hint) active last i ws hints
  publish_one-AllPlaced e active b w hint last i [] hints h = h
  publish_one-AllPlaced e active b w hint last i (w' ∷ ws) [] h = absurd h
  publish_one-AllPlaced e active b w hint last i (w' ∷ ws) (hint' ∷ hints) (p, h) = (
    publish_one-Placed e active b w hint (leb last i) hint' w'.value p,
    publish_one-AllPlaced e active b w hint last (suc i) ws hints h,
  )

  pub publish-stable_files :
      (ws : List Write) (e : Engine hash) (last i : ℕ) (hints : List Hint)
      → (publish e last i ws hints).stable_files ≡ e.stable_files
  unfolding publish publish_one
  publish-stable_files [] e last i hints = refl
  publish-stable_files (w ∷ ws) e last i [] = refl
  publish-stable_files (w ∷ ws) e last i (hint ∷ hints) =
      publish-stable_files ws _ last (suc i) hints

  -- The last round.
  pub publish-snoc :
      (ws : List Write) (w : Write) (e : Engine hash) (last i : ℕ) (hints : List Hint) (hint : Hint)
      → length hints ≡ length ws
      → publish e last i (ws ++ w ∷ []) (hints ++ hint ∷ [])
        ≡ publish_one (publish e last i ws hints) (leb last (i + length ws)) w hint
  unfolding publish
  publish-snoc [] w e last i [] hint h = rw (add_zero i) refl
  publish-snoc [] w e last i (_ ∷ _) hint h = absurd (omega (arith, h))
  publish-snoc (w' ∷ ws) w e last i [] hint h = absurd (omega (arith, h))
  publish-snoc (w' ∷ ws) w e last i (hint' ∷ hints) hint h =
      publish-snoc ws w _ last (suc i) hints hint (omega arith) ∙ rw (shift i (length ws)) refl

  -- The loop stores the whole batch, and sets each promise.
  pub publish-Represents :
      (ws : List Write) (e : Engine hash) (active : Stream) (m : View) (last i : ℕ)
      (hints : List Hint)
      → IsStored e active
      → ((k : Key) → Shows e active k (RecordMap.get e.record_map k) (m k))
      → AllPlaced e active last i ws hints
      → Represents (publish e last i ws hints) (apply_writes m ws)
        × ((publish e last i ws hints).resolved ≡ e.resolved ++ map (λ (w : Write). w.promise) ws)
  unfolding publish
  publish-Represents [] e active m last i hints stored shows placed =
      (record { active = active; stored = stored; shows = shows }, sym (append-nil e.resolved))
  publish-Represents (w ∷ ws) e active m last i [] stored shows placed = absurd placed
  publish-Represents (w ∷ ws) e active m last i (hint ∷ hints) stored shows (p, placed) =
      let b = leb last i in
      let (rep, res) =
        publish-Represents ws (publish_one e b w hint) active (update m w.key w.value) last (suc i)
          hints (publish_one-IsStored e active w hint b stored)
          (publish_one-Shows e active m b w hint shows p)
          (publish_one-AllPlaced e active b w hint last (suc i) ws hints placed) in
      (rep, res ∙ resolved_assoc e b w hint ws)
