-- ===== src/Logger/Levels.antt =====
-- src/Logger.cpp: what `enable` and `disable` let through. They use the names of their parent module.
use Prim.Native.Nat.{bit_and}
use memkvin_c.Base.{
  ◌≡◌, ap, false, not, ◌<◌, ◌^◌, arith, ◌==◌, bit_and-masked, complement_clears, complement_keeps,
}
use memkvin_c.Logger.{Statics, Level, allowed, enable, disable}

module _ {Sink : Type 0} (s : Statics Sink) where
  not_allowed : (level : Level) → allowed s level ≡ false → bit_and s.allowed_levels level ≡ 0
  unfolding allowed
  not_allowed level h = ground arith

  -- A level that is not let through is not let through behind enable either, whichever level is
  -- enabled.
  pub enable_grants_nothing :
      (level other : Level) → allowed s other ≡ false → allowed (enable s level) other ≡ false
  unfolding allowed enable
  enable_grants_nothing level other h =
      ap (λ n. not (n == 0))
        (bit_and-masked s.allowed_levels s.allowed_levels level other (omega arith)
          (not_allowed other h))

  -- Behind disable of a level, the level is not let through, and a level that shares no bit with
  -- it is let through as before, for levels of eight bits.
  pub disable_lem :
      (level other : Level)
      → level < 2 ^ 8
      → other < 2 ^ 8
      → bit_and level other ≡ 0
      → (allowed (disable s level) level ≡ false)
        × (allowed (disable s level) other ≡ allowed s other)
  unfolding allowed disable
  disable_lem level other h h' disjoint = (
    ap (λ n. not (n == 0)) (complement_clears 8 s.allowed_levels level h),
    ap (λ n. not (n == 0)) (complement_keeps 8 s.allowed_levels level other h h' disjoint),
  )
