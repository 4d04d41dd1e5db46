-- ===== src/Bitcask/Interleaved.antt =====
-- What each step of a Get and of a commit that rotates nothing keeps, in whatever order they come.
use memkvin_c.Base.{
  some_inj, Key, Value, ◌≡◌, ◌∙◌, subst, refl, ap, sym, Bool-cases, inl, inr, true, List, [], ◌∷◌,
  ◌++◌, Option, none, some, leb, if◌then◌else◌, bytes_eq,
}
use memkvin_c.HashMap.{HashMap}
use memkvin_c.ActiveMap
use memkvin_c.RecordMap
use memkvin_c.RecordMap.{Hint}
use memkvin_c.Bitcask.Placed.{zero-leb}
use memkvin_c.Bitcask.Race.{
  Tail, inserting, clearing, caching, indexing, ended, Getting, looking, hinted, cached, filed,
  returned, tail_step, get_step, Turn, commits, gets, Turns, next, stay,
}
use memkvin_c.Bitcask.Between.{
  CacheOk, IndexOk, GetOk, Answered, Going, Inv, got_step, next_whole, fresh-CacheOk, IndexOk-put,
  GetOk-put,
}
use memkvin_c.Bitcask.Engine.{Engine, Write, active_fd, insert_all, is_empty}
use memkvin_c.Bitcask.View.{View, Shows}
use memkvin_c.Stream.{Stream}
use memkvin_c.Disk.{Disk}
use memkvin_c.ActiveFile.{ActiveFile}

module _ (key : Key) (m : View) (ws : List Write) where
  module _ {hash : HashMap} where
    IndexOk-found :
        (e : Engine hash) (w : Write) (hint : Hint)
        → hint.fd ≡ active_fd e.stable_files
        → (bytes_eq w.key key ≡ true → CacheOk key m ws e)
        → IndexOk key m ws e (RecordMap.get e.record_map key)
        → IndexOk key m ws e
            (if bytes_eq w.key key then some hint else RecordMap.get e.record_map key)
    IndexOk-found e w hint fd ok index = elim (Bool-cases (bytes_eq w.key key)) [
      | inl same ↦ rw same (inl (fd, ok same))
      | inr other ↦ rw other index
    ]

    Going-ended :
        (e : Engine hash) (t : Tail) (g : Getting) → Going key m ws e t g → Going key m ws e ended g
    Going-ended e t g h = record {
      fresh = h.fresh;
      index = h.index;
      tail = tt;
      getting = h.getting;
    }

    -- A step of CommitWrite.
    tailed :
        (e : Engine hash) (t : Tail) (g : Getting)
        → Going key m ws e t g
        → Going key m ws (tail_step (e, t)).0 (tail_step (e, t)).1 g
    unfolding tail_step insert_all
    tailed e (inserting l more) g h =
        subst (λ x. Going key m ws x (clearing l more) g)
          (sym (ap (λ ns. record e { stable_files = insert_all e.stable_files ns }) h.tail.0))
          (record { fresh = h.fresh; index = h.index; tail = h.tail; getting = h.getting })
    tailed e (clearing l more) g h =
        let (none_new, first, all, fds) = h.tail in
        subst (λ x. Going key m ws x (caching l.last_active_write 0 more l.records) g)
          (sym (
            ap
              (λ ns. record e {
                active_map = if is_empty ns then e.active_map else ActiveMap.clear e.active_map;
              })
              none_new))
          (record {
            fresh = h.fresh;
            index = h.index;
            tail = (first, [], all, fds);
            getting = h.getting;
          })
    tailed e (caching last i [] hints) g h = Going-ended e _ g h
    tailed e (caching last i (w ∷ more) []) g h = Going-ended e _ g h
    tailed e (caching last i (w ∷ more) (hint ∷ hints)) g h =
        let (first, done, whole, (fd, fds)) = h.tail in
        subst (λ x. Going key m ws x (indexing last i w hint more hints) g)
          (sym (
            ap
              (λ b. record e {
                active_map = if b then ActiveMap.put e.active_map w.key w.value else e.active_map;
              })
              (ap (λ n. leb n i) first ∙ zero-leb i)))
          (record {
            fresh = h.fresh;
            index = IndexOk-put key m ws e done w more whole _ h.index;
            tail = (
              first,
              done ++ w ∷ [],
              next_whole key m ws e done w more whole,
              fd,
              fds,
              fresh-CacheOk key m ws e done w more whole,
            );
            getting = GetOk-put key m ws e done w more whole g h.getting;
          })
    tailed e (indexing last i w hint more hints) g h =
        let (first, done, whole, fd, fds, ok) = h.tail in
        record {
          fresh = h.fresh;
          index =
              subst (IndexOk key m ws e) (sym (RecordMap.get-put e.record_map w.key key hint))
                (IndexOk-found e w hint fd ok h.index);
          tail = (first, done, whole, fds);
          getting = GetOk-indexed g h.getting;
        }
      where
        e' : Engine hash
        e' = record e {
          record_map = RecordMap.put e.record_map w.key hint;
          resolved = e.resolved ++ w.promise ∷ [];
        }

        GetOk-indexed : (g : Getting) → GetOk key m ws e g → GetOk key m ws e' g
        GetOk-indexed looking ok = ok
        GetOk-indexed (hinted hint) ok = ok
        GetOk-indexed cached ok = ok
        GetOk-indexed (filed hint) ok = ok
        GetOk-indexed (returned o) ok = ok
    tailed e ended g h = Going-ended e _ g h

    asked :
        (e e' : Engine hash) (t : Tail) (g g' : Getting)
        → Answered key m ws g
        → get_step key (e, g) ≡ some (e', g')
        → Inv key m ws (e', t, g')
    unfolding get_step
    asked e e' t looking g' a p = absurd a
    asked e e' t (hinted hint) g' a p = absurd a
    asked e e' t cached g' a p = absurd a
    asked e e' t (filed hint) g' a p = absurd a
    asked e e' t (returned o) g' a p =
        subst (λ (s : Engine hash × Getting). Inv key m ws (s.0, t, s.1)) (some_inj p) (inl a)

    turned : (s u : Engine hash × Tail × Getting) → Turn key s u → Inv key m ws s → Inv key m ws u
    turned _ _ (commits e t g) (inl a) = inl a
    turned _ _ (commits e t g) (inr h) = inr (tailed e t g h)
    turned _ _ (gets e e' t g g' p) (inl a) = asked e e' t g g' a p
    turned _ _ (gets e e' t g g' p) (inr h) = got_step key m ws e e' t g g' h p

    pub all_turned :
        (s u : Engine hash × Tail × Getting) → Turns key s u → Inv key m ws s → Inv key m ws u
    all_turned s u (stay _) h = h
    all_turned s u (next _ v _ run step) h = turned v u step (all_turned s v run h)

    pub answered :
        (e : Engine hash) (t : Tail) (o : Option Value)
        → Inv key m ws (e, t, returned o)
        → Answered key m ws (returned o)
    answered e t o (inl a) = a
    answered e t o (inr h) = absurd h.getting

    pub start-IndexOk :
        (e : Engine hash) (disk : Disk) (file : Option ActiveFile) (active : Stream)
        (found : Option Hint)
        → Shows e active key found (m key)
        → IndexOk key m ws (record e { disk = disk; active_file = file }) found
    start-IndexOk e disk file active none h = record {
      before = [];
      rest = ws;
      whole = refl;
      value = h;
    }
    start-IndexOk e disk file active (some hint) (v, q, inl a) =
        inl (a.fd, (v, a.cached, record { before = []; rest = ws; whole = refl; value = q }))
    start-IndexOk e disk file active (some hint) (v, q, inr st) = inr (
      v,
      record { stream = st.stream; found = st.found; in_file = st.in_file },
      record { before = []; rest = ws; whole = refl; value = q },
    )
