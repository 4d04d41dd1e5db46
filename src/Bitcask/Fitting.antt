-- ===== src/Bitcask/Fitting.antt =====
-- Ten files at most, each below 2^32 bytes: what is in a file stays there.
use memkvin_c.Base.{
  ◌≡◌, ◌∙◌, refl, ap, subst, Bool-cases, inl, inr, List, [], ◌∷◌, ◌++◌, ℕ, suc, ◌+◌, ◌≤◌, ◌<◌, ltb,
  ◌^◌, ◌==◌, ==→≡, arith,
}
use memkvin_c.Bitcask.Engine.{Write}
use memkvin_c.Bitcask.Batch.{record_size}
use memkvin_c.Bitcask.Logs.{
  Logs, add_write, add_write-below, add_write-past, add_writes, add_writes-append, appended_to,
  log_size, log_size-append, set_log_other, set_log_self, value_at,
}

-- No file reaches 2^32 bytes, and there are ten files at most.
pub record AllFit (logs : Logs) : Type 0 where
  pub few : logs.last < 10
  pub sizes : (i : ℕ) → i ≤ logs.last → log_size (logs.writes i) < 2 ^ 32

-- What is in a file stays there.
module _ (limit : ℕ) where
  pub last-le-add_write : (logs : Logs) (w : Write) → logs.last ≤ (add_write limit logs w).last
  unfolding add_write
  last-le-add_write logs w = ground arith

  size-le-appended :
      (logs : Logs) (w : Write) (i : ℕ) → log_size (logs.writes i) ≤ log_size (appended_to logs w i)
  size-le-appended logs w i = elim (Bool-cases (logs.last == i)) [
    | inl e ↦
        rw e (rw (==→≡ logs.last i e) (omega (arith, log_size-append (logs.writes i) (w ∷ []))))
    | inr e ↦ rw e (omega arith)
  ]

  size-add_write :
      (logs : Logs) (w : Write) (i : ℕ)
      → i ≤ logs.last
      → log_size ((add_write limit logs w).writes i) ≡ log_size (appended_to logs w i)
  size-add_write logs w i h = elim (Bool-cases (ltb (value_at logs w) limit)) [
    | inl below ↦ ap (λ (l : Logs). log_size (l.writes i)) (add_write-below logs w limit below)
    | inr past ↦
        ap (λ (l : Logs). log_size (l.writes i)) (add_write-past logs w limit past)
        ∙ ap log_size
            (set_log_other (appended_to logs w) (suc logs.last) i [] (λ e. absurd (omega arith)))
  ]

  pub last-le-add_writes :
      (ws : List Write) (logs : Logs) → logs.last ≤ (add_writes limit logs ws).last
  unfolding add_writes
  last-le-add_writes [] logs = omega arith
  last-le-add_writes (w ∷ ws) logs =
      omega (arith, last-le-add_write logs w, last-le-add_writes ws (add_write limit logs w))

  pub size-le-add_writes :
      (ws : List Write) (logs : Logs) (i : ℕ)
      → i ≤ logs.last
      → log_size (logs.writes i) ≤ log_size ((add_writes limit logs ws).writes i)
  unfolding add_writes
  size-le-add_writes [] logs i h = omega arith
  size-le-add_writes (w ∷ ws) logs i h = omega (
    arith,
    size-le-appended logs w i,
    size-add_write logs w i h,
    size-le-add_writes ws (add_write limit logs w) i (omega (arith, last-le-add_write logs w)),
  )

  -- A closed file does not change.
  writes-add_write :
      (logs : Logs) (w : Write) (i : ℕ)
      → i < logs.last
      → (add_write limit logs w).writes i ≡ logs.writes i
  writes-add_write logs w i h = elim (Bool-cases (ltb (value_at logs w) limit)) [
    | inl below ↦
        ap (λ (l : Logs). l.writes i) (add_write-below logs w limit below)
        ∙ set_log_other logs.writes logs.last i _ (λ e. absurd (omega arith))
    | inr past ↦
        ap (λ (l : Logs). l.writes i) (add_write-past logs w limit past)
        ∙ set_log_other (appended_to logs w) (suc logs.last) i [] (λ e. absurd (omega arith))
        ∙ set_log_other logs.writes logs.last i _ (λ e. absurd (omega arith))
  ]

  pub writes-add_writes :
      (ws : List Write) (logs : Logs) (i : ℕ)
      → i < logs.last
      → (add_writes limit logs ws).writes i ≡ logs.writes i
  unfolding add_writes
  writes-add_writes [] logs i h = refl
  writes-add_writes (w ∷ ws) logs i h =
      writes-add_writes ws (add_write limit logs w) i (omega (arith, last-le-add_write logs w))
      ∙ writes-add_write logs w i h

  -- The next write fits the active file.
  pub AllFit-next :
      (w : Write) (ws : List Write) (logs : Logs)
      → AllFit (add_writes limit logs (w ∷ ws))
      → log_size (logs.writes logs.last) + record_size w < 2 ^ 32
  unfolding add_writes
  AllFit-next w ws logs h = omega (
    arith,
    h.sizes logs.last (last-le-add_writes (w ∷ ws) logs),
    size-le-add_writes ws (add_write limit logs w) logs.last (last-le-add_write logs w),
    size-add_write logs w logs.last (omega arith),
    ap log_size (set_log_self logs.writes logs.last (logs.writes logs.last ++ w ∷ [])),
    log_size-append (logs.writes logs.last) (w ∷ []),
  )

  -- What fits at the end did so before.
  pub AllFit-front :
      (ws more : List Write) (logs : Logs)
      → AllFit (add_writes limit logs (ws ++ more))
      → AllFit (add_writes limit logs ws)
  AllFit-front ws more logs h =
      let front = add_writes limit logs ws in
      let h' = subst AllFit (add_writes-append limit ws more logs) h in
      record {
        few = omega (arith, h'.few, last-le-add_writes more front);
        sizes = λ i le. omega (
          arith,
          h'.sizes i (omega (arith, last-le-add_writes more front)),
          size-le-add_writes more front i le,
        );
      }
