-- ===== src/Bitcask/Tickets.antt =====
-- CommitWrite sets exactly the promises of its batch, whatever the state of the files.
use memkvin_c.Base.{
  some_inj, ◌≡◌, ◌∙◌, refl, ap, subst, sym, Bool-cases, inl, inr, List, [], ◌∷◌, ◌++◌, append_assoc,
  append-nil, Option, none, some, ℕ, suc, ◌+◌, length, length-append, ltb, map, arith,
}
use memkvin_c.Crc.{Crc32c}
use memkvin_c.HashMap.{HashMap}
use memkvin_c.RecordMap.{Hint}
use memkvin_c.Setting.{get_max_file_size}
use memkvin_c.ActiveFile
use memkvin_c.ActiveFile.{ActiveFile}
use memkvin_c.Bitcask.Engine.{
  Engine, Write, Loop, rotate, written, commit_one, commit_loop, commit_end, commit_write, publish,
  publish_one, start_loop,
}

abbrev pub promises : List Write → List ℕ
promises = map (λ (w : Write). w.promise)

-- A chain that gives a result went through its first part.
bind-some {ℓ ℓ'} :
    {A : Type ℓ} {B : Type ℓ'} (o : Option A) (f : A → Option B) (b : B)
    → elim o as (λ _. Option B) [ none ↦ none | some a ↦ f a ] ≡ some b
    → (a : A) × (o ≡ some a) × (f a ≡ some b)
bind-some none f b h = absurd (cc h)
bind-some (some a) f b h = (a, refl, h)

abbrev count : Option Loop → ℕ
count none = 0
count (some l) = length l.records

added : (hints : List Hint) (hint : Hint) → length (hints ++ hint ∷ []) ≡ suc (length hints)
added hints hint = omega (arith, length-append hints (hint ∷ []))

module _ {hash : HashMap} (e : Engine hash) where
  records-rotate :
      (l l' : Loop) (file : ActiveFile)
      → rotate e l file ≡ some l'
      → length l'.records ≡ length l.records
  unfolding rotate
  records-rotate l l' file h =
      let (_, _, p) = bind-some (ActiveFile.rotate file l.disk) _ l' h in ap count (sym p)

  records-written :
      (l l' : Loop) (w : Write) (r : ActiveFile × ℕ)
      → written e l w r ≡ some l'
      → length l'.records ≡ suc (length l.records)
  unfolding written
  records-written l l' w (file, offset) h =
      elim (Bool-cases (ltb offset (get_max_file_size e.setting))) [
        | inl small ↦ ap count (sym (rw small at h)) ∙ added l.records _
        | inr large ↦ records-rotate _ l' _ (rw large at h) ∙ added l.records _
      ]

  publish-promises :
      (ws : List Write) (x : Engine hash) (last i : ℕ) (hints : List Hint)
      → length hints ≡ length ws
      → ((publish x last i ws hints).resolved ≡ x.resolved ++ promises ws)
        × ((publish x last i ws hints).writes ≡ x.writes)
        × ((publish x last i ws hints).next_promise ≡ x.next_promise)
  unfolding publish publish_one
  publish-promises [] x last i hints h = (sym (append-nil _), refl, refl)
  publish-promises (w ∷ ws) x last i [] h = absurd (omega (arith, h))
  publish-promises (w ∷ ws) x last i (hint ∷ hints) h =
      let (r, q, n) = publish-promises ws _ last (suc i) hints (omega (arith, h)) in
      (r ∙ append_assoc x.resolved (w.promise ∷ []) (promises ws), q, n)

module _ (c : Crc32c) {hash : HashMap} (e : Engine hash) where
  records-commit_one :
      (l l' : Loop) (w : Write)
      → commit_one c e l w ≡ some l'
      → length l'.records ≡ suc (length l.records)
  unfolding commit_one
  records-commit_one l l' w h =
      let (file, _, h1) = bind-some l.active _ l' h in
      let (r, _, h2) = bind-some (ActiveFile.write c file w.key w.value) _ l' h1 in
      records-written e l l' w r h2

  records-commit_loop :
      (ws : List Write) (l l' : Loop)
      → commit_loop c e l ws ≡ some l'
      → length l'.records ≡ length l.records + length ws
  unfolding commit_loop
  records-commit_loop [] l l' h = omega (arith, ap count h)
  records-commit_loop (w ∷ ws) l l' h =
      let (l1, h1, h2) = bind-some (commit_one c e l w) _ l' h in
      omega (arith, records-commit_one l l1 w h1, records-commit_loop ws l1 l' h2)

  commit_end-promises :
      (l : Loop) (ws : List Write)
      → length l.records ≡ length ws
      → ((commit_end e l ws).resolved ≡ e.resolved ++ promises ws)
        × ((commit_end e l ws).writes ≡ e.writes)
        × ((commit_end e l ws).next_promise ≡ e.next_promise)
  unfolding commit_end
  commit_end-promises l ws h = publish-promises e ws _ _ 0 l.records h

  -- A commit that does not fault sets the promises of its batch in order, and leaves the queue and
  -- the count of promises alone, whatever the files hold.
  pub commit_write-promises :
      (ws : List Write) (e' : Engine hash)
      → commit_write c e ws ≡ some e'
      → (e'.resolved ≡ e.resolved ++ promises ws)
        × (e'.writes ≡ e.writes)
        × (e'.next_promise ≡ e.next_promise)
  unfolding commit_write
  commit_write-promises ws e' h =
      let (l, h1, h2) = bind-some (commit_loop c e (start_loop e) ws) _ e' h in
      subst
        (λ (x : Engine hash).
          (x.resolved ≡ e.resolved ++ promises ws)
          × (x.writes ≡ e.writes)
          × (x.next_promise ≡ e.next_promise))
        (some_inj h2)
        (commit_end-promises l ws (omega (arith, records-commit_loop ws (start_loop e) l h1)))
