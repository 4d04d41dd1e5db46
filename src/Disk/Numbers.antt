-- ===== src/Disk/Numbers.antt =====
-- std::to_string and std::stoul.
use memkvin_c.Base.{
  Bytes, Bool, true, false, ◌&&◌, ◌||◌, [], ◌∷◌, ℕ, zero, suc, ◌+◌, ◌-◌, ◌*◌, ◌/◌, ◌%◌, ◌^◌, ltb,
  leb, ◌==◌, if◌then◌else◌,
}

-- Each round puts the last digit before the digits that were put.
unfoldable pub emit : ℕ → ℕ → Bytes → Bytes
emit zero n out = out
emit (suc fuel) n out =
    let digit : ℕ = b'0' + n % 10 in
    let rest = emit fuel (n / 10) (digit ∷ out) in if n / 10 == 0 then digit ∷ out else rest

unfoldable pub to_string : ℕ → Bytes
unfolding emit
to_string n = emit (suc n) n []

-- What std::stoul returns or throws.
pub data Stoul : Type 0 where
  number : ℕ → Stoul
  invalid_argument out_of_range : Stoul

abbrev pub is_digit : ℕ → Bool
is_digit b = leb b'0' b && leb b b'9'

abbrev is_space : ℕ → Bool
is_space b = b == 32 || (leb 9 b && leb b 13)

-- The number that the leading digits spell behind `n`.
unfoldable pub scan_digits : ℕ → Bytes → ℕ
scan_digits n [] = n
scan_digits n (b ∷ s) =
    let rest = scan_digits (n * 10 + (b - b'0')) s in if is_digit b then rest else n

-- A number of digits at least; one above 2^64 - 1 is out of range. A minus sign negates modulo 2^64.
unfoldable pub parse_digits : Bool → Bytes → Stoul
unfolding scan_digits
parse_digits negative [] = invalid_argument
parse_digits negative (b ∷ s) =
    if is_digit b
    then (let n = scan_digits 0 (b ∷ s) in
        if ltb n (2 ^ 64)
        then number (if negative then (2 ^ 64 - n) % 2 ^ 64 else n)
        else out_of_range)
    else invalid_argument

unfoldable pub parse_sign : Bytes → Stoul
unfolding parse_digits
parse_sign [] = invalid_argument
parse_sign (b ∷ s) =
    if b == b'-'
    then parse_digits true s
    else if b == b'+'
    then parse_digits false s
    else parse_digits false (b ∷ s)

unfoldable pub stoul : Bytes → Stoul
unfolding parse_sign
stoul [] = invalid_argument
stoul (b ∷ s) = if is_space b then stoul s else parse_sign (b ∷ s)
