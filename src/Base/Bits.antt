-- ===== src/Base/Bits.antt =====
-- `bit_and` by the digits of its arguments, and masks.
use Prim.Native.Nat.{
  ℕ, zero, suc, ◌+◌, ◌-◌, ◌*◌, ◌/◌, ◌%◌, ◌^◌, ◌≤◌, ◌<◌, min, bit_and, digits, bit_and-bitwise,
}
use mathlib.Core.Path.{◌≡◌, refl, sym, ◌∙◌, ap, ap₂}
use native.Mathlib.Nat.{pow-suc}
use native.Mathlib.Omega.{arith}

-- The count of digits does not matter when there are enough.
enough_digits :
    (n k a b : ℕ) → a ≤ n → a ≤ k → digits (λ b. zero) min n a b ≡ digits (λ b. zero) min k a b
enough_digits zero zero a b _ _ = refl
enough_digits zero (suc k) zero b _ _ = refl
enough_digits (suc n) zero zero b _ _ = refl
enough_digits (suc n) (suc k) zero b _ _ = refl
enough_digits zero (suc k) (suc a) b h _ = absurd (omega arith)
enough_digits (suc n) zero (suc a) b _ h = absurd (omega arith)
enough_digits (suc n) (suc k) (suc a) b h h' =
    rw (enough_digits n k (suc a / 2) (b / 2) (omega arith) (omega arith)) refl

zero-bit_and : (b : ℕ) → bit_and 0 b ≡ 0
zero-bit_and b = bit_and-bitwise 0 b

lowest_digit : (a b : ℕ) → bit_and a b ≡ bit_and (a / 2) (b / 2) * 2 + min (a % 2) (b % 2)
lowest_digit zero b = omega (arith, zero-bit_and b, zero-bit_and (b / 2))
lowest_digit (suc a) b = omega (
  arith,
  bit_and-bitwise (suc a) b,
  bit_and-bitwise (suc a / 2) (b / 2),
  enough_digits a (suc a / 2) (suc a / 2) (b / 2) (omega arith) (omega arith),
)

bit_and-half : (a b : ℕ) → bit_and a b / 2 ≡ bit_and (a / 2) (b / 2)
bit_and-half a b = omega (arith, lowest_digit a b)

bit_and-parity : (a b : ℕ) → bit_and a b % 2 ≡ min (a % 2) (b % 2)
bit_and-parity a b = omega (arith, lowest_digit a b)

-- The lowest digit of three numbers.
lowest_digits :
    (a b k : ℕ)
    → bit_and (bit_and a b) k
      ≡ bit_and (bit_and (a / 2) (b / 2)) (k / 2) * 2 + min (min (a % 2) (b % 2)) (k % 2)
lowest_digits a b k =
    lowest_digit (bit_and a b) k
    ∙ ap₂ (λ x y. bit_and x (k / 2) * 2 + min y (k % 2)) (bit_and-half a b) (bit_and-parity a b)

-- A mask grants no bit.
pub bit_and-masked : (n a b k : ℕ) → a ≤ n → bit_and a k ≡ 0 → bit_and (bit_and a b) k ≡ 0
bit_and-masked n zero b k _ h = ap (λ x. bit_and x k) (zero-bit_and b) ∙ h
bit_and-masked zero (suc a) b k h _ = absurd (omega arith)
bit_and-masked (suc n) (suc a) b k h none_left = omega (
  arith,
  lowest_digits (suc a) b k,
  lowest_digit (suc a) k,
  bit_and-masked n (suc a / 2) (b / 2) (k / 2) (omega arith)
      (omega (arith, lowest_digit (suc a) k)),
)

-- The complement of `b` in `w` bits.
complement_half :
    (w b : ℕ)
    → b < 2 ^ suc w
    → ((2 ^ suc w - 1 - b) / 2 ≡ 2 ^ w - 1 - b / 2) × ((2 ^ suc w - 1 - b) % 2 ≡ 1 - b % 2)
complement_half w b h = (omega (arith, pow-suc 2 w), omega (arith, pow-suc 2 w))

no_bits : (n a : ℕ) → a ≤ n → bit_and a 0 ≡ 0
no_bits n zero _ = refl
no_bits zero (suc a) h = absurd (omega arith)
no_bits (suc n) (suc a) h =
    omega (arith, lowest_digit (suc a) 0, no_bits n (suc a / 2) (omega arith))

no_bit : (a : ℕ) → bit_and a 0 ≡ 0
no_bit a = no_bits a a (omega arith)

complement_digit :
    (w a b k : ℕ)
    → b < 2 ^ suc w
    → bit_and (bit_and a (2 ^ suc w - 1 - b)) k
      ≡ bit_and (bit_and (a / 2) (2 ^ w - 1 - b / 2)) (k / 2) * 2
        + min (min (a % 2) (1 - b % 2)) (k % 2)
complement_digit w a b k h =
    let (half, parity) = complement_half w b h in
    lowest_digits a (2 ^ suc w - 1 - b) k
    ∙ ap₂ (λ x y. bit_and (bit_and (a / 2) x) (k / 2) * 2 + min (min (a % 2) y) (k % 2)) half parity

-- It takes the bits of `b` away.
pub complement_clears : (w a b : ℕ) → b < 2 ^ w → bit_and (bit_and a (2 ^ w - 1 - b)) b ≡ 0
complement_clears zero a zero h = no_bit (bit_and a 0)
complement_clears zero a (suc b) h = absurd (omega arith)
complement_clears (suc w) a b h = omega (
  arith,
  complement_digit w a b b h,
  complement_clears w (a / 2) (b / 2) (omega (arith, pow-suc 2 w)),
)

-- It leaves the other bits.
pub complement_keeps :
    (w a b k : ℕ)
    → b < 2 ^ w
    → k < 2 ^ w
    → bit_and b k ≡ 0
    → bit_and (bit_and a (2 ^ w - 1 - b)) k ≡ bit_and a k
complement_keeps zero a b zero h h' disjoint = no_bit (bit_and a (0 - b)) ∙ sym (no_bit a)
complement_keeps zero a b (suc k) h h' disjoint = absurd (omega arith)
complement_keeps (suc w) a b k h h' disjoint = omega (
  arith,
  complement_digit w a b k h,
  lowest_digit a k,
  lowest_digit b k,
  complement_keeps w (a / 2) (b / 2) (k / 2) (omega (arith, pow-suc 2 w))
      (omega (arith, pow-suc 2 w)) (omega (arith, lowest_digit b k)),
)
