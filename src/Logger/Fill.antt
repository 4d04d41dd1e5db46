-- ===== src/Logger/Fill.antt =====
-- include/bitcask/Logger.hpp: `formatMsg` against a description of its result.
use memkvin_c.Base.{
  Bytes, ◌≡◌, ◌∙◌, refl, ap, ap₂, sym, true, Bool-cases, inl, inr, ◌⊎◌, ◌&&◌, List, [], ◌∷◌, ◌++◌,
  append_assoc, Option, none, some, ℕ, zero, suc, ◌+◌, ◌<◌, length, length-append,
  drop-length_append, take-length_append, take, drop, ◌==◌, ltb, lt→ltb, if◌then◌else◌, arith,
}
use memkvin_c.Logger.Format.{brace, find_brace, find_from, next_arg, format_loop, format_msg}

-- A text with the arguments in place of its braces, from the left; arguments are not looked into,
-- braces without an argument stay.
unfoldable pub fill : Bytes → List Bytes → Bytes
fill [] args = []
fill (x ∷ []) args = x ∷ []
fill (x ∷ (y ∷ s)) args =
    let filled = fill s (next_arg args).1 in
    let kept = fill (y ∷ s) args in
    if x == b'{' && y == b'}' then (next_arg args).0 ++ filled else x ∷ kept

-- What find says of a text.
record Split (s : Bytes) : Type 0 where
  before : Bytes
  behind : Bytes
  text : s ≡ before ++ (brace ++ behind)
  found : find_brace s ≡ some (length before)
  filled :
      (args : List Bytes)
      → fill s args ≡ before ++ ((next_arg args).0 ++ fill behind (next_arg args).1)

record NoBrace (s : Bytes) : Type 0 where
  found : find_brace s ≡ none
  filled : (args : List Bytes) → fill s args ≡ s

is_brace : (x y : ℕ) → (x == b'{' && y == b'}') ≡ true → x ∷ (y ∷ []) ≡ brace
is_brace x y h = ap₂ (λ a b. a ∷ (b ∷ [])) x_is y_is
  where
    x_is : x ≡ b'{'
    x_is = ground arith

    y_is : y ≡ b'}'
    y_is = ground arith

find-cases : (s : Bytes) → NoBrace s ⊎ Split s
unfolding find_brace fill
find-cases [] = inl (record { found = refl; filled = λ args. refl })
find-cases (x ∷ []) = inl (record { found = refl; filled = λ args. refl })
find-cases (x ∷ (y ∷ s)) = elim (Bool-cases (x == b'{' && y == b'}')) [
  | inl h ↦ inr (record {
    before = [];
    behind = s;
    text = ap (λ t. t ++ s) (is_brace x y h);
    found = rw h refl;
    filled = λ args. rw h refl;
  })
  | inr h ↦ elim (find-cases (y ∷ s)) [
    | inl n ↦
        inl (record { found = rw (h, n.found) refl; filled = λ args. rw (h, n.filled args) refl })
    | inr n ↦ inr (record {
      before = x ∷ n.before;
      behind = n.behind;
      text = ap (λ t. x ∷ t) n.text;
      found = rw (h, n.found) refl;
      filled = λ args. rw (h, n.filled args) refl;
    })
  ]
]

module _ (pre s : Bytes) where
  find_from-behind :
      (o : Option ℕ)
      → find_brace s ≡ o
      → find_from (pre ++ s) (length pre) ≡ elim o [ none ↦ none | some i ↦ some (length pre + i) ]
  unfolding find_from
  find_from-behind o h =
      ap (λ t. elim (find_brace t) [ none ↦ none | some i ↦ some (length pre + i) ])
        (drop-length_append pre s)
      ∙ ap (λ (o : Option ℕ). elim o [ none ↦ none | some i ↦ some (length pre + i) ]) h

  -- A round that finds no brace, and one that finds one.
  last_round :
      (fuel : ℕ) (args : List Bytes)
      → find_brace s ≡ none
      → format_loop (suc fuel) (pre ++ s) (length pre) args ≡ some (pre ++ s)
  unfolding format_loop
  last_round fuel args h = elim (Bool-cases (ltb (length pre) (length (pre ++ s)))) [
    | inl inside ↦ rw (inside, find_from-behind none h) refl
    | inr outside ↦ rw outside refl
  ]

module _ (pre before behind : Bytes) (args : List Bytes) where
  abbrev s : Bytes
  s = before ++ (brace ++ behind)

  next_round :
      (fuel : ℕ)
      → find_brace s ≡ some (length before)
      → format_loop (suc fuel) (pre ++ s) (length pre) args
        ≡ format_loop fuel
            (((pre ++ before) ++ (next_arg args).0) ++ behind)
            (length ((pre ++ before) ++ (next_arg args).0))
            (next_arg args).1
  unfolding format_loop
  next_round fuel h =
      rw (inside, find_from-behind pre s (some (length before)) h, taken, dropped, sym reassoc, idx)
        refl
    where
      inside : ltb (length pre) (length (pre ++ s)) ≡ true
      inside =
          lt→ltb _ _ (omega (arith, length-append pre s, length-append before (brace ++ behind)))

      taken : take (length pre + length before) (pre ++ s) ≡ pre ++ before
      taken =
          ap₂ take (sym (length-append pre before)) (sym (append_assoc pre before _))
          ∙ take-length_append (pre ++ before) _

      dropped : drop (length pre + length before + 2) (pre ++ s) ≡ behind
      dropped =
          ap₂ drop (omega (arith, length-append (pre ++ before) brace, length-append pre before))
            (sym (append_assoc (pre ++ before) brace behind ∙ append_assoc pre before _))
          ∙ drop-length_append ((pre ++ before) ++ brace) behind

      reassoc :
          ((pre ++ before) ++ (next_arg args).0) ++ behind
          ≡ (pre ++ before) ++ ((next_arg args).0 ++ behind)
      reassoc = append_assoc (pre ++ before) _ behind

      idx :
          length pre + length before + length (next_arg args).0
          ≡ length ((pre ++ before) ++ (next_arg args).0)
      idx = omega (arith, length-append (pre ++ before) (next_arg args).0, length-append pre before)

format_loop-fill :
    (fuel : ℕ) (pre s : Bytes) (args : List Bytes)
    → length s < fuel
    → format_loop fuel (pre ++ s) (length pre) args ≡ some (pre ++ fill s args)
format_loop-fill zero pre s args h = absurd (omega arith)
format_loop-fill (suc fuel) pre s args h = elim (find-cases s) [
  | inl n ↦ last_round pre s fuel args n.found ∙ ap (λ t. some (pre ++ t)) (sym (n.filled args))
  | inr n ↦
      ap (λ t. format_loop (suc fuel) (pre ++ t) (length pre) args) n.text
      ∙ next_round pre n.before n.behind args fuel (ap find_brace (sym n.text) ∙ n.found)
      ∙ format_loop-fill fuel ((pre ++ n.before) ++ (next_arg args).0) n.behind (next_arg args).1
          (omega (arith, ap (λ t. length t) n.text, length-append n.before (brace ++ n.behind)))
      ∙ ap some (
          append_assoc (pre ++ n.before) _ _
          ∙ append_assoc pre n.before _
          ∙ ap (λ t. pre ++ t) (sym (n.filled args)))
]

-- formatMsg ends, and returns the prefix and the format in which each brace pair, from the left,
-- is replaced by the next argument as long as there is one; arguments are not looked into.
pub format_msg-fill :
    (prefix format : Bytes) (args : List Bytes)
    → format_msg (prefix ∷ (format ∷ args)) ≡ some (prefix ++ fill format args)
unfolding format_msg
format_msg-fill prefix format args =
    ap (λ (o : Option Bytes). elim o [ none ↦ none | some text ↦ some (prefix ++ text) ])
      (format_loop-fill (suc (length format)) [] format args (omega arith))
