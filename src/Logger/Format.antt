-- ===== src/Logger/Format.antt =====
-- include/bitcask/Logger.hpp: `formatMsg` and `constexprPastLastSlash`. The arguments are the texts that
-- `to_string` made of them.
use memkvin_c.Base.{
  Bytes, ◌&&◌, List, [], ◌∷◌, ◌++◌, Option, none, some, ℕ, zero, suc, ◌+◌, length, take, drop,
  b_slash, ◌==◌, ltb, if◌then◌else◌,
}

abbrev pub brace : Bytes
brace = b'{' ∷ b'}' ∷ []

-- std::string::find("{}", 0) of a text; `none` is npos.
unfoldable pub find_brace : Bytes → Option ℕ
find_brace [] = none
find_brace (x ∷ []) = none
find_brace (x ∷ (y ∷ s)) =
    let rest = find_brace (y ∷ s) in
    if x == b'{' && y == b'}' then some 0 else elim rest [ none ↦ none | some i ↦ some (suc i) ]

-- find("{}", idx)
unfoldable pub find_from : Bytes → ℕ → Option ℕ
unfolding find_brace
find_from s idx = elim (find_brace (drop idx s)) [ none ↦ none | some i ↦ some (idx + i) ]

-- The argument for the next brace, and those behind it; a brace stays where none is left.
abbrev pub next_arg : List Bytes → Bytes × List Bytes
next_arg [] = (brace, [])
next_arg (a ∷ args) = (a, args)

-- The `while` loop of `formatMsg` on fuel; `none` means that the fuel ran out. `arg_strings` from
-- `arg_idx` on are the arguments that are left.
unfoldable pub format_loop : ℕ → Bytes → ℕ → List Bytes → Option Bytes
unfolding find_from
format_loop zero format idx args = none
format_loop (suc fuel) format idx args =
    if ltb idx (length format)
    then elim (find_from format idx) [
      | none ↦ some format
      | some found ↦
          let (replacement, args') = next_arg args in
          format_loop fuel (take found format ++ (replacement ++ drop (found + 2) format))
            (found + length replacement) args'
    ]
    else some format

-- formatMsg; each round passes two bytes of the format, so its length bounds the rounds.
unfoldable pub format_msg : List Bytes → Option Bytes
unfolding format_loop
format_msg [] = some []
format_msg (prefix ∷ []) = some []
format_msg (prefix ∷ (format ∷ args)) = elim (format_loop (suc (length format)) format 0 args) [
  | none ↦ none
  | some text ↦ some (prefix ++ text)
]

-- constexprPastLastSlash, where the slash is '/': what stands behind the last slash that was seen.
unfoldable pub past_last_slash_from : Bytes → Bytes → Bytes
past_last_slash_from [] last = last
past_last_slash_from (x ∷ s) last = past_last_slash_from s (if x == b_slash then s else last)

unfoldable pub past_last_slash : Bytes → Bytes
unfolding past_last_slash_from
past_last_slash s = past_last_slash_from s s
