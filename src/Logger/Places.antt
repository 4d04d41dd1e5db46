-- ===== src/Logger/Places.antt =====
-- include/bitcask/Logger.hpp: what the macros write.
use memkvin_c.Base.{
  Bytes, Bool, Bool-cases, ◌≡◌, ◌∙◌, refl, ap, inl, inr, true, false, ◌&&◌, List, [], ◌∷◌, ◌++◌,
  some, ℕ, suc, ◌≤◌, length, leb, ◌==◌, if◌then◌else◌, arith,
}
use memkvin_c.Logger.{Statics, allowed, log_impl, stop_logging}
use memkvin_c.Logger.Fill.{fill, format_msg-fill}
use memkvin_c.Logger.Macros.{
  Kind, debug, info, warn, error, fatal, verbose, level_of, prefix_of, place, Emitted, log, log_as,
  allowed_as, logger, logger_debug, logger_write,
}

-- The braces of a format that `fill` replaces.
unfoldable pub braces : Bytes → ℕ
braces [] = 0
braces (x ∷ []) = 0
braces (x ∷ (y ∷ s)) =
    let behind = braces s in
    let rest = braces (y ∷ s) in if x == b'{' && y == b'}' then suc behind else rest

-- Arguments behind those that the braces take are not looked at.
pub fill_extra :
    (s : Bytes) (args extra : List Bytes)
    → braces s ≤ length args
    → fill s (args ++ extra) ≡ fill s args
unfolding fill braces
fill_extra [] args extra h = refl
fill_extra (x ∷ []) args extra h = refl
fill_extra (x ∷ (y ∷ s)) [] extra h = elim (Bool-cases (x == b'{' && y == b'}')) [
  | inl e ↦ absurd (omega (arith, taken e))
  | inr e ↦ rw e (ap (λ t. x ∷ t) (fill_extra (y ∷ s) [] extra (omega (arith, left e))))
]
  where
    taken : (x == b'{' && y == b'}') ≡ true → braces (x ∷ (y ∷ s)) ≡ suc (braces s)
    taken e = rw e refl

    left : (x == b'{' && y == b'}') ≡ false → braces (x ∷ (y ∷ s)) ≡ braces (y ∷ s)
    left e = rw e refl
fill_extra (x ∷ (y ∷ s)) (a ∷ args) extra h = elim (Bool-cases (x == b'{' && y == b'}')) [
  | inl e ↦ rw e (ap (λ t. a ++ t) (fill_extra s args extra (omega (arith, taken e))))
  | inr e ↦ rw e (ap (λ t. x ∷ t) (fill_extra (y ∷ s) (a ∷ args) extra (omega (arith, left e))))
]
  where
    taken : (x == b'{' && y == b'}') ≡ true → braces (x ∷ (y ∷ s)) ≡ suc (braces s)
    taken e = rw e refl

    left : (x == b'{' && y == b'}') ≡ false → braces (x ∷ (y ∷ s)) ≡ braces (y ∷ s)
    left e = rw e refl

module _ {Sink : Type 0} (s : Statics Sink) where
  -- What is written where a level is let through: one message, to the function for the level.
  log_as_lem :
      (kind : Kind) (format : Bytes) (args : List Bytes)
      → allowed_as s kind ≡ true
      → log_as s kind (format ∷ args)
        ≡ some ((log_impl s (level_of kind), prefix_of kind ++ fill format args) ∷ [])
  unfolding log_as log
  log_as_lem kind format args e = rw (e, format_msg-fill (prefix_of kind) format args) refl

  chosen :
      (b d : Bool) {with_place without r : Emitted s}
      → (b ≡ true → with_place ≡ r)
      → (b ≡ true → without ≡ r)
      → (if b then (if d then with_place else without) else some []) ≡ (if b then r else some [])
  chosen true true p q = p refl
  chosen true false p q = q refl
  chosen false d p q = refl

  -- BITCASK_LOGGER_WRITE of a format that has no more braces than there are arguments writes the
  -- same message whether debug messages are let through or not: the level's prefix and the format
  -- with the arguments in place of its braces, to the function for the level, and nothing where
  -- the level is not let through. The place of the call is not in it.
  pub logger_write_placeless :
      (kind : Kind) (file : Bytes) (line : ℕ) (format : Bytes) (args : List Bytes)
      → braces format ≤ length args
      → logger_write s kind file line (format ∷ args) ≡ (
          if allowed_as s kind
          then some ((log_impl s (level_of kind), prefix_of kind ++ fill format args) ∷ [])
          else some [])
  unfolding logger_write
  logger_write_placeless kind file line format args h =
      chosen (allowed_as s kind) (allowed_as s debug)
        (λ e.
          log_as_lem kind format (args ++ place file line) e
          ∙ ap (λ t. some ((log_impl s (level_of kind), prefix_of kind ++ t) ∷ []))
              (fill_extra format args (place file line) h))
        (λ e. log_as_lem kind format args e)

  not_written :
      (kind : Kind) (file : Bytes) (line : ℕ) (msg : List Bytes)
      → allowed_as s kind ≡ false
      → logger_write s kind file line msg ≡ some []
  unfolding logger_write
  not_written kind file line msg e = rw e refl

  gated : (b : Bool) {o : Emitted s} → o ≡ some [] → (if b then o else some []) ≡ some []
  gated true h = h
  gated false h = refl

  silent_debug :
      (file : Bytes) (line : ℕ) (msg : List Bytes)
      → allowed_as s debug ≡ false
      → logger_debug s file line msg ≡ some []
  unfolding logger_debug
  silent_debug file line msg e = rw e refl

  -- A macro writes nothing where the level of its message is not let through, whatever the level of
  -- the build is.
  silent :
      (min : ℕ) (kind : Kind) (file : Bytes) (line : ℕ) (msg : List Bytes)
      → allowed_as s kind ≡ false
      → logger s min kind file line msg ≡ some []
  unfolding logger
  silent min debug file line msg e = silent_debug file line msg e
  silent min info file line msg e = gated (leb min 2) (not_written info file line msg e)
  silent min warn file line msg e = gated (leb min 4) (not_written warn file line msg e)
  silent min error file line msg e = gated (leb min 8) (not_written error file line msg e)
  silent min fatal file line msg e = gated (leb min 16) (not_written fatal file line msg e)
  silent min verbose file line msg e = gated (leb min 32) (not_written verbose file line msg e)

stopped :
    {Sink : Type 0} (s : Statics Sink) (kind : Kind) → allowed_as (stop_logging s) kind ≡ false
unfolding allowed stop_logging
stopped s debug = refl
stopped s info = refl
stopped s warn = refl
stopped s error = refl
stopped s fatal = refl
stopped s verbose = refl

-- Behind stopLogging no macro writes anything, whatever the level of the build is.
pub stop_logging_silences :
    {Sink : Type 0} (s : Statics Sink) (min : ℕ) (kind : Kind) (file : Bytes) (line : ℕ)
    (msg : List Bytes)
    → logger (stop_logging s) min kind file line msg ≡ some []
stop_logging_silences s min kind file line msg =
    silent (stop_logging s) min kind file line msg (stopped s kind)
