-- ===== src/Bitcask/Turns.antt =====
-- src/BitcaskImpl.cpp: CommitWorker as a function, one turn of its thread at a time, and a caller that
-- waits for a promise.
use memkvin_c.Base.{
  Bool, true, false, ◌||◌, ◌≡◌, ◌∙◌, refl, ap, sym, List, [], ◌∷◌, ◌++◌, Option, none, some, ℕ,
  zero, suc, ◌==◌, ltb, arith, if◌then◌else◌,
}
use memkvin_c.Crc.{Crc32c}
use memkvin_c.HashMap.{HashMap}
use memkvin_c.Bitcask.Engine.{Engine, Write, commit_write}
use memkvin_c.Bitcask.Worker.{Pc, from_zero, swapping, committing, testing, finished}

-- The promise was set.
unfoldable pub is_set : ℕ → List ℕ → Bool
is_set t [] = false
is_set t (i ∷ tickets) = (i == t) || is_set t tickets

pub is_set-append : (t : ℕ) (a b : List ℕ) → is_set t (a ++ b) ≡ is_set t a || is_set t b
unfolding is_set
is_set-append t [] b = refl
is_set-append t (i ∷ a) b =
    ap (λ x. (i == t) || x) (is_set-append t a b)
    ∙ sym (or_assoc (i == t) (is_set t a) (is_set t b))
  where
    or_assoc : (x y z : Bool) → (x || y) || z ≡ x || (y || z)
    or_assoc true y z = refl
    or_assoc false y z = refl

-- The tickets below a number do not hold it, and those up to it do.
pub is_set-from_zero : (n t : ℕ) → is_set t (from_zero n) ≡ ltb t n
unfolding is_set
is_set-from_zero zero t = ground arith
is_set-from_zero (suc n) t =
    is_set-append t (from_zero n) (n ∷ []) ∙ ground (arith, is_set-from_zero n t)

module _ (c : Crc32c) {hash : HashMap} where
  -- One turn of the loop of CommitWorker; `none` is a fault in CommitWrite, whose result is always
  -- true.
  unfoldable pub work : Engine hash × Pc → Option (Engine hash × Pc)
  work (e, swapping) = some (record e { writes = [] }, committing e.writes)
  work (e, committing ws) = elim (commit_write c e ws) [
    | none ↦ none
    | some e' ↦ some (e', testing)
  ]
  work (e, testing) = some (e, if e.running then swapping else finished)
  work (e, finished) = some (e, finished)

  -- Some turns, one after the other.
  unfoldable pub run : ℕ → Engine hash × Pc → Option (Engine hash × Pc)
  run zero s = some s
  run (suc n) s = elim (work s) [ none ↦ none | some s' ↦ run n s' ]

  -- std::future::get beside the worker; `none` where the promise is not set within the turns.
  unfoldable pub wait : ℕ → ℕ → Engine hash × Pc → Option (Engine hash × Pc)
  wait zero t s = none
  wait (suc fuel) t s =
      let later : Option (Engine hash × Pc) = elim (work s) [
        | none ↦ none
        | some s' ↦ wait fuel t s'
      ] in
      if is_set t s.0.resolved then some s else later

  pub run-work : (n : ℕ) (s s' : Engine hash × Pc) → work s ≡ some s' → run (suc n) s ≡ run n s'
  unfolding run
  run-work n s s' e = λ i. elim (e i) [ none ↦ none | some s' ↦ run n s' ]

  pub wait-done :
      (fuel t : ℕ) (s : Engine hash × Pc)
      → is_set t s.0.resolved ≡ true
      → wait (suc fuel) t s ≡ some s
  unfolding wait
  wait-done fuel t s h = rw h refl

  pub wait-work :
      (fuel t : ℕ) (s s' : Engine hash × Pc)
      → is_set t s.0.resolved ≡ false
      → work s ≡ some s'
      → wait (suc fuel) t s ≡ wait fuel t s'
  unfolding wait
  wait-work fuel t s s' h e = rw h (λ i. elim (e i) [ none ↦ none | some s' ↦ wait fuel t s' ])

  pub work-committing :
      (e e' : Engine hash) (ws : List Write)
      → commit_write c e ws ≡ some e'
      → work (e, committing ws) ≡ some (e', testing)
  unfolding work
  work-committing e e' ws h = λ i. elim (h i) [ none ↦ none | some e' ↦ some (e', testing) ]
