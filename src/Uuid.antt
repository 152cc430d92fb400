-- ===== src/Uuid.antt =====
-- What the code uses of Python's `uuid.UUID`: the hexadecimal form, `str(value)` and `UUID(text)`. A
-- UUID is its number, below 2 ^ 128.
mod Digits
pub mod RoundTrip
use ketabdan_ms.Prelude.{
  ℕ, zero, suc, ◌+◌, ◌-◌, ◌*◌, ◌/◌, ◌%◌, ◌^◌, ◌≤◌, ◌<◌, String, ◌≡◌, refl, sym, ap, ◌∙◌, ◌≢◌, ◌↔◌,
  ◌⊎◌, inl, inr, Bool, true, false, not, ◌&&◌, ◌||◌, Option, none, some, List, [], ◌∷◌, map, arith,
  eq_iff, ltb, leb, eqb, if◌then◌else◌, Bool-cases, Option-cases, ltb→lt, lt→ltb, leb→le, Eq, ◌==◌,
  nat_eq, string_eq, ==_refl, ==→≡, Result, ok, err, ◌>>=◌, >>=-eq-ok, length, length-append, find,
  keep, any, All, Any, elem,
}
use Prim.Native.Char.{Char, code}
use ketabdan_ms.Prelude.Text.{Unicode, is_space}

-- `uuid4().hex` of a number below 2 ^ 128: its 32 hexadecimal digits
unfoldable pub hex_digit : ℕ → Char
hex_digit zero = "0"
hex_digit (suc zero) = "1"
hex_digit (suc (suc zero)) = "2"
hex_digit (suc (suc (suc zero))) = "3"
hex_digit (suc (suc (suc (suc zero)))) = "4"
hex_digit (suc (suc (suc (suc (suc zero))))) = "5"
hex_digit (suc (suc (suc (suc (suc (suc zero)))))) = "6"
hex_digit (suc (suc (suc (suc (suc (suc (suc zero))))))) = "7"
hex_digit (suc (suc (suc (suc (suc (suc (suc (suc zero)))))))) = "8"
hex_digit (suc (suc (suc (suc (suc (suc (suc (suc (suc zero))))))))) = "9"
hex_digit (suc (suc (suc (suc (suc (suc (suc (suc (suc (suc zero)))))))))) = "a"
hex_digit (suc (suc (suc (suc (suc (suc (suc (suc (suc (suc (suc zero))))))))))) = "b"
hex_digit (suc (suc (suc (suc (suc (suc (suc (suc (suc (suc (suc (suc zero)))))))))))) = "c"
hex_digit (suc (suc (suc (suc (suc (suc (suc (suc (suc (suc (suc (suc (suc zero))))))))))))) = "d"
hex_digit (suc (suc (suc (suc (suc (suc (suc (suc (suc (suc (suc (suc (suc (suc zero)))))))))))))) =
    "e"
hex_digit _ = "f"

unfoldable pub hex_from : ℕ → ℕ → String → String
hex_from zero n out = out
hex_from (suc k) n out = hex_from k (n / 16) (Prim.Native.String.◌∷◌ (hex_digit (n % 16)) out)

unfoldable pub uuid_hex : ℕ → String
unfolding hex_from hex_digit
uuid_hex n = hex_from 32 n ""

-- The hyphens of `str(value)`, before the digits 8, 12, 16 and 20
unfoldable pub hyphenate : ℕ → String → String
hyphenate i Prim.Native.String.[] = ""
hyphenate i (Prim.Native.String.◌∷◌ c s) =
    let rest : String = Prim.Native.String.◌∷◌ c (hyphenate (suc i) s) in
    if elem i (8 ∷ 12 ∷ 16 ∷ 20 ∷ []) then Prim.Native.String.◌∷◌ "-" rest else rest

unfoldable pub uuid_text : ℕ → String
unfolding hyphenate uuid_hex
uuid_text n = hyphenate 0 (uuid_hex n)

unfoldable pub codes : String → List ℕ
codes Prim.Native.String.[] = []
codes (Prim.Native.String.◌∷◌ c s) = code c ∷ codes s

abbrev starts_with : List ℕ → List ℕ → Bool
starts_with [] cs = true
starts_with (p ∷ ps) [] = false
starts_with (p ∷ ps) (c ∷ cs) = (p == c) && starts_with ps cs

-- `text.replace(word, "")`; `skip` characters of an occurrence are still to go.
unfoldable pub remove : List ℕ → ℕ → List ℕ → List ℕ
remove word skip [] = []
remove word (suc skip) (c ∷ cs) = remove word skip cs
remove word zero (c ∷ cs) =
    let kept = c ∷ remove word zero cs in
    let dropped = remove word (length word - 1) cs in
    if starts_with word (c ∷ cs) then dropped else kept

is_brace : ℕ → Bool
is_brace c = (c == 123) || (c == 125)

-- `text.strip("{}")`
unfoldable pub strip_left : List ℕ → List ℕ
unfolding is_brace
strip_left [] = []
strip_left (c ∷ cs) = if is_brace c then strip_left cs else c ∷ cs

unfoldable pub strip_right : List ℕ → List ℕ
unfolding is_brace
strip_right [] = []
strip_right (c ∷ cs) =
    let rest = strip_right cs in if is_brace c && (length rest == 0) then [] else c ∷ rest

unfoldable pub hex_value : ℕ → Option ℕ
hex_value c =
    if leb 48 c && leb c 57
    then some (c - 48)
    else if leb 97 c && leb c 102
    then some (c - 87)
    else if leb 65 c && leb c 70
    then some (c - 55)
    else none

is_ascii_space : ℕ → Bool
is_ascii_space c = (leb 9 c && leb c 13) || (c == 32)

-- The digits after the first one. An underscore may stand between two digits, spaces at the end.
unfoldable pub hex_digits : Bool → ℕ → List ℕ → Option ℕ
unfolding is_ascii_space
hex_digits underscore n [] = if underscore then none else some n
hex_digits underscore n (c ∷ cs) = elim (hex_value c) [
  | some d ↦ hex_digits false (n * 16 + d) cs
  | none ↦
      let after = hex_digits true n cs in
      if underscore
      then none
      else (if c == 95
          then after
          else (if any (λ x. not (is_ascii_space x)) (c ∷ cs) then none else some n))
]

unfoldable pub hex_start : List ℕ → Option ℕ
hex_start [] = none
hex_start (c ∷ cs) = elim (hex_value c) [ some d ↦ hex_digits false d cs | none ↦ none ]

-- The prefix 0x, and one underscore after it
unfoldable pub after_0x : List ℕ → List ℕ
after_0x (a ∷ b ∷ c ∷ cs) =
    if (a == 48) && ((b == 120) || (b == 88))
    then (if c == 95 then cs else c ∷ cs)
    else a ∷ b ∷ c ∷ cs
after_0x cs = cs

unfoldable pub after_plus : List ℕ → List ℕ
after_plus [] = []
after_plus (c ∷ cs) = if c == 43 then cs else c ∷ cs

unfoldable pub drop_spaces : List ℕ → List ℕ
unfolding is_ascii_space
drop_spaces [] = []
drop_spaces (c ∷ cs) = if is_ascii_space c then drop_spaces cs else c ∷ cs

module _ (u : Unicode) where
  -- Outside ASCII a space reads as a space and a decimal digit as that digit.
  unfoldable pub to_ascii : ℕ → ℕ
  to_ascii c =
      if ltb c 128
      then c
      else (if is_space c then 32 else elim (u.decimal c) [ some d ↦ 48 + d | none ↦ 63 ])

  -- `int(text, 16)` of a text with no minus sign
  unfoldable pub int_16 : List ℕ → Option ℕ
  unfolding hex_start after_0x after_plus drop_spaces to_ascii
  int_16 cs = hex_start (after_0x (after_plus (drop_spaces (map (to_ascii) cs))))

  unfoldable pub uuid_digits : String → List ℕ
  unfolding strip_left strip_right remove codes
  uuid_digits text =
      keep (λ c. not (c == 45))
        (strip_right (strip_left (remove (codes "uuid:") 0 (remove (codes "urn:") 0 (codes text)))))

  abbrev below_2_128 : Option ℕ → Option ℕ
  below_2_128 none = none
  below_2_128 (some n) = if ltb n (2 ^ 128) then some n else none

  -- `UUID(text)`; `none` is its ValueError.
  unfoldable pub uuid_of : String → Option ℕ
  unfolding uuid_digits int_16
  uuid_of text =
      let digits = uuid_digits text in
      if length digits == 32 then below_2_128 (int_16 digits) else none
