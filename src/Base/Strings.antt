-- ===== src/Base/Strings.antt =====
-- Byte strings: the `Key`, `Value` and `Offset` of Define.hpp. A string is the list of its bytes; an
-- `Offset` is a uint32_t, kept a plain number with its wrap-around written out.
use Prim.Native.Nat.{ℕ, ◌%◌, ◌^◌}
use Prim.Native.Char.{code}
use Prim.Native.String.{String}
use mathlib.Core.Path.{◌≡◌, refl}
use mathlib.Core.Logic.{◌↔◌}
use mathlib.Core.Bool.{Bool, true, false, ◌&&◌}
use mathlib.Core.List.{List, [], ◌∷◌, ◌++◌}
use native.Mathlib.Omega.{arith}
use memkvin_c.Base.Tests.{◌==◌, ==_refl}

abbrev pub Bytes : Type 0
Bytes = List ℕ

abbrev pub Key : Type 0
Key = Bytes

abbrev pub Value : Type 0
Value = Bytes

abbrev pub Offset : Type 0
Offset = ℕ

abbrev pub u32 : ℕ → ℕ
u32 n = n % 2 ^ 32

-- The bytes of an ASCII text.
abbrev pub codes : String → Bytes
codes String.[] = []
codes (String.◌∷◌ c s) = code c ∷ codes s

-- BITCASK_TOMBSTONE_VALUE
abbrev pub tombstone : Value
tombstone = codes "__BITCASK_TOMBSTONE__"

-- `==` of std::string
unfoldable pub bytes_eq : Bytes → Bytes → Bool
bytes_eq [] [] = true
bytes_eq (x ∷ xs) (y ∷ ys) = (x == y) && bytes_eq xs ys
bytes_eq _ _ = false

pub bytes_eq→≡ : (xs ys : Bytes) → bytes_eq xs ys ≡ true → xs ≡ ys
unfolding bytes_eq
bytes_eq→≡ [] [] h = refl
bytes_eq→≡ (x ∷ xs) (y ∷ ys) h = ground (arith, bytes_eq→≡ xs ys)
bytes_eq→≡ [] (y ∷ ys) h = cc
bytes_eq→≡ (x ∷ xs) [] h = cc

pub bytes_eq_refl : (xs : Bytes) → bytes_eq xs xs ≡ true
unfolding bytes_eq
bytes_eq_refl [] = refl
bytes_eq_refl (x ∷ xs) = ground (arith, bytes_eq_refl xs)

pub bytes_eq_iff : (xs ys : Bytes) → (bytes_eq xs ys ≡ true) ↔ (xs ≡ ys)
bytes_eq_iff xs ys = (bytes_eq→≡ xs ys, λ e. rw (← e) (bytes_eq_refl xs))

-- The separator of directories.
pub bytes_eq-prefix : (p a b : Bytes) → bytes_eq (p ++ a) (p ++ b) ≡ bytes_eq a b
unfolding bytes_eq
bytes_eq-prefix [] a b = refl
bytes_eq-prefix (x ∷ p) a b = rw (==_refl x) (bytes_eq-prefix p a b)

abbrev pub b_slash : ℕ
b_slash = b'/'
