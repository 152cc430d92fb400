-- ===== src/Prelude/Text.antt =====
-- What the code uses of Python's `str`: stripping, case, splitting, and decimal numbers.
-- Outside ASCII, case and digits are the interpreter's Unicode tables, which are a parameter.
pub mod Decimal
use Prim.Native.Nat.{ℕ, zero, suc, ◌+◌, ◌-◌, ◌*◌, ◌/◌, ◌%◌}
use Prim.Native.Char.{Char, code}
use Prim.Native.String.{String, [], ◌∷◌, ◌++◌}
use mathlib.Core.Bool.{Bool, ◌&&◌, ◌||◌}
use mathlib.Core.Option.{Option, none, some}
use mathlib.Core.List.{List, [], ◌∷◌}
use ketabdan_ms.Prelude.Tests.{ltb, leb, if◌then◌else◌}
use ketabdan_ms.Prelude.Equality.{◌==◌, nat_eq, string_eq}

-- `str.isspace` of one character, by its code point.
unfoldable pub is_space : ℕ → Bool
is_space c =
    (leb 9 c && leb c 13)
    || (leb 28 c && leb c 32)
    || c == 133
    || c == 160
    || c == 5760
    || (leb 8192 c && leb c 8202)
    || c == 8232
    || c == 8233
    || c == 8239
    || c == 8287
    || c == 12288

-- `s.lstrip()`, `s.rstrip()` and `s.strip()`
unfoldable pub lstrip : String → String
lstrip [] = []
lstrip (c ∷ s) = if is_space (code c) then lstrip s else c ∷ s

unfoldable pub rstrip : String → String
rstrip [] = []
rstrip (c ∷ s) = let r = rstrip s in if is_space (code c) && r == "" then [] else c ∷ r

unfoldable pub strip : String → String
unfolding lstrip rstrip is_space
strip s = rstrip (lstrip s)

-- `not s.strip()`
unfoldable pub is_blank : String → Bool
unfolding strip
is_blank s = strip s == ""

-- The interpreter's tables for the code points from 128 on. The lower case of a letter may depend
-- on the text before and after it (the Greek final sigma).
pub record Unicode : Type 0 where
  pub lower_char : String → Char → String → String
  pub upper_char : Char → String
  pub fold_char : Char → String
  pub decimal : ℕ → Option ℕ

-- The character of `to` at the place where `from` has `c`; `c` itself where it has none.
abbrev pub translate : String → String → Char → Char
translate (a ∷ from) (b ∷ to) c = if code a == code c then b else translate from to c
translate _ _ c = c

abbrev pub capitals : String
capitals = "ABCDEFGHIJKLMNOPQRSTUVWXYZ"

abbrev pub small_letters : String
small_letters = "abcdefghijklmnopqrstuvwxyz"

abbrev one : Char → String
one c = c ∷ []

module _ (u : Unicode) where
  lower_from : String → String → String
  lower_from before [] = []
  lower_from before (c ∷ s) =
      let rest = lower_from (before ++ one c) s in
      (if ltb (code c) 128
        then one (translate capitals small_letters c)
        else u.lower_char before c s)
      ++ rest

  -- `s.lower()`
  unfoldable pub lower : String → String
  unfolding lower_from
  lower s = lower_from "" s

  -- `s.upper()`
  unfoldable pub upper : String → String
  upper [] = []
  upper (c ∷ s) =
      (if ltb (code c) 128 then one (translate small_letters capitals c) else u.upper_char c)
      ++ upper s

  -- `s.casefold()`
  unfoldable pub casefold : String → String
  casefold [] = []
  casefold (c ∷ s) =
      (if ltb (code c) 128 then one (translate capitals small_letters c) else u.fold_char c)
      ++ casefold s

-- The loop of `s.split(sep)` for a separator of one character; `cur` is the part being read.
split_from : ℕ → String → String → List String
split_from sep cur [] = cur ∷ []
split_from sep cur (c ∷ s) =
    let closed : List String = cur ∷ split_from sep "" s in
    let longer : List String = split_from sep (cur ++ one c) s in
    if code c == sep then closed else longer

unfoldable pub split : ℕ → String → List String
unfolding split_from
split sep s = split_from sep "" s

-- `sep.join(parts)`
unfoldable pub join : String → List String → String
join sep [] = ""
join sep (p ∷ []) = p
join sep (p ∷ q ∷ rest) = p ++ (sep ++ join sep (q ∷ rest))

-- `str(n)` for a natural number, by its digits from the last one on.
unfoldable pub digit_char : ℕ → Char
digit_char zero = "0"
digit_char (suc zero) = "1"
digit_char (suc (suc zero)) = "2"
digit_char (suc (suc (suc zero))) = "3"
digit_char (suc (suc (suc (suc zero)))) = "4"
digit_char (suc (suc (suc (suc (suc zero))))) = "5"
digit_char (suc (suc (suc (suc (suc (suc zero)))))) = "6"
digit_char (suc (suc (suc (suc (suc (suc (suc zero))))))) = "7"
digit_char (suc (suc (suc (suc (suc (suc (suc (suc zero)))))))) = "8"
digit_char _ = "9"

unfoldable pub show_from : ℕ → ℕ → String → String
show_from zero n out = out
show_from (suc fuel) n out =
    let out' : String = digit_char (n % 10) ∷ out in
    let more = show_from fuel (n / 10) out' in if ltb n 10 then out' else more

unfoldable pub show : ℕ → String
unfolding show_from digit_char
show n = show_from (suc n) n ""

module _ (u : Unicode) where
  -- The value of a character that `\d` matches.
  unfoldable pub digit : ℕ → Option ℕ
  digit c =
      if ltb c 128
      then (if leb b'0' c && leb c b'9' then some (c - b'0') else none)
      else u.decimal c

  -- The longest run of digits at the head of a text: its value after `n`, and the rest.
  unfoldable pub take_digits : ℕ → String → ℕ × String
  take_digits n [] = (n, [])
  take_digits n (c ∷ s) = elim (digit (code c)) [
    | none ↦ (n, c ∷ s)
    | some d ↦ take_digits (n * 10 + d) s
  ]

-- The text after the prefix `p`, if `s` has it.
unfoldable pub after_prefix : String → String → Option String
after_prefix [] s = some s
after_prefix (p ∷ ps) [] = none
after_prefix (p ∷ ps) (c ∷ s) =
    let rest = after_prefix ps s in if code p == code c then rest else none
