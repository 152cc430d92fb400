-- ===== src/Uuid/RoundTrip.antt =====
-- `UUID(str(value))` is the value.
use ketabdan_ms.Prelude.{
  ℕ, suc, ◌^◌, ◌<◌, String, ◌≡◌, refl, ap, ◌∙◌, ◌≢◌, inl, inr, true, false, not, ◌||◌, none, some,
  List, [], ◌∷◌, map, arith, ltb, Bool-cases, Option-cases, lt→ltb, ◌==◌, nat_eq, string_eq, length,
  keep, All, elem,
}
use Prim.Native.Char.{code}
use ketabdan_ms.Prelude.Text.{Unicode}
use ketabdan_ms.Uuid.Digits.{is_hex, IsHex, length-uuid_hex, uuid_hex-IsHex, hex_digits-uuid_hex}
use ketabdan_ms.Uuid.{
  uuid_hex, hyphenate, uuid_text, codes, remove, is_brace, strip_left, strip_right, hex_value,
  is_ascii_space, hex_digits, hex_start, after_0x, after_plus, drop_spaces, to_ascii, int_16,
  uuid_digits, uuid_of,
}

abbrev IsText : ℕ → Type 0
IsText c = (is_hex c || (c == 45)) ≡ true

hex-value : (c : ℕ) → IsHex c → hex_value c ≢ none
unfolding is_hex hex_value
hex-value c h e = ground arith

hex_start-digits : (cs : List ℕ) → All IsHex cs → cs ≢ [] → hex_start cs ≡ hex_digits false 0 cs
unfolding hex_start hex_digits
hex_start-digits [] h n = absurd (n refl)
hex_start-digits (c ∷ cs) h n = elim (Option-cases (hex_value c)) [
  | inl e ↦ absurd (hex-value c h.0 e)
  | inr (d, e) ↦ rw (e, hex_start, hex_digits) (ap (λ m. hex_digits false m cs) (omega arith))
]

-- What the parser leaves as it is
not_u : (c : ℕ) → IsText c → (117 == c) ≡ false
unfolding is_hex
not_u c h = ground arith

remove-text : (ps cs : List ℕ) → All IsText cs → remove (117 ∷ ps) 0 cs ≡ cs
unfolding remove
remove-text ps [] h = refl
remove-text ps (c ∷ cs) (h, hs) = rw (not_u c h) (ap (λ x. c ∷ x) (remove-text ps cs hs))

not_brace : (c : ℕ) → IsText c → is_brace c ≡ false
unfolding is_hex is_brace
not_brace c h = ground arith

strip_left-text : (cs : List ℕ) → All IsText cs → strip_left cs ≡ cs
unfolding strip_left
strip_left-text [] h = refl
strip_left-text (c ∷ cs) (h, hs) = rw (not_brace c h) refl

strip_right-text : (cs : List ℕ) → All IsText cs → strip_right cs ≡ cs
unfolding strip_right
strip_right-text [] h = refl
strip_right-text (c ∷ cs) (h, hs) = rw (not_brace c h) (ap (λ x. c ∷ x) (strip_right-text cs hs))

hex-IsText : (c : ℕ) → IsHex c → IsText c
hex-IsText c h = ground arith

hex-no_hyphen : (c : ℕ) → IsHex c → (c == 45) ≡ false
unfolding is_hex
hex-no_hyphen c h = ground arith

hyphenate-IsText : (i : ℕ) (s : String) → All IsHex (codes s) → All IsText (codes (hyphenate i s))
unfolding hyphenate codes is_hex
hyphenate-IsText i Prim.Native.String.[] h = h
hyphenate-IsText i (Prim.Native.String.◌∷◌ c s) h =
    let first : IsText (code c) = hex-IsText (code c) h.0 in
    let rest = hyphenate-IsText (suc i) s h.1 in
    elim (Bool-cases (elem i (8 ∷ 12 ∷ 16 ∷ 20 ∷ []))) [
      | inl e ↦ rw e (refl, (first, rest))
      | inr e ↦ rw e (first, rest)
    ]

keep-hyphenate :
    (i : ℕ) (s : String)
    → All IsHex (codes s)
    → keep (λ c. not (c == 45)) (codes (hyphenate i s)) ≡ codes s
unfolding hyphenate codes
keep-hyphenate i Prim.Native.String.[] h = refl
keep-hyphenate i (Prim.Native.String.◌∷◌ c s) h =
    let rest = ap (λ x. code c ∷ x) (keep-hyphenate (suc i) s h.1) in
    let no = hex-no_hyphen (code c) h.0 in
    elim (Bool-cases (elem i (8 ∷ 12 ∷ 16 ∷ 20 ∷ []))) [
      | inl e ↦ rw (e, no) rest
      | inr e ↦ rw (e, no) rest
    ]

not_space : (c : ℕ) → IsHex c → is_ascii_space c ≡ false
unfolding is_hex is_ascii_space
not_space c h = ground arith

drop_spaces-hex : (cs : List ℕ) → All IsHex cs → drop_spaces cs ≡ cs
unfolding drop_spaces
drop_spaces-hex [] h = refl
drop_spaces-hex (c ∷ cs) (h, hs) = rw (not_space c h) refl

after_plus-hex : (cs : List ℕ) → All IsHex cs → after_plus cs ≡ cs
unfolding after_plus is_hex
after_plus-hex [] h = refl
after_plus-hex (c ∷ cs) (h, hs) = ground arith

after_0x-hex : (cs : List ℕ) → All IsHex cs → after_0x cs ≡ cs
unfolding after_0x is_hex
after_0x-hex (a ∷ b ∷ c ∷ cs) (h, (h', hs)) = ground arith
after_0x-hex cs h = refl

codes-urn : codes "urn:" ≡ 117 ∷ 114 ∷ 110 ∷ 58 ∷ []
unfolding codes
codes-urn = refl

codes-uuid : codes "uuid:" ≡ 117 ∷ 117 ∷ 105 ∷ 100 ∷ 58 ∷ []
unfolding codes
codes-uuid = refl

module _ (u : Unicode) where
  to_ascii-hex : (cs : List ℕ) → All IsHex cs → map (to_ascii u) cs ≡ cs
  unfolding to_ascii is_hex
  to_ascii-hex [] h = refl
  to_ascii-hex (c ∷ cs) (h, hs) =
      let ih = to_ascii-hex cs hs in
      let e : (ltb c 128 ≡ true) = ground arith in rw e (ap (λ x. c ∷ x) ih)

  int_16-digits : (cs : List ℕ) → All IsHex cs → cs ≢ [] → int_16 u cs ≡ hex_digits false 0 cs
  unfolding int_16
  int_16-digits cs v n =
      rw (to_ascii-hex cs v, drop_spaces-hex cs v, after_plus-hex cs v, after_0x-hex cs v)
        (hex_start-digits cs v n)

  int_16-hex : (n : ℕ) → n < 16 ^ 32 → int_16 u (codes (uuid_hex n)) ≡ some n
  int_16-hex n h =
      int_16-digits (codes (uuid_hex n)) (uuid_hex-IsHex n)
        (λ e. absurd (omega (arith, length-uuid_hex n, ap length e)))
      ∙ hex_digits-uuid_hex n h

  uuid_digits-hyphenate :
      (s : String) → All IsHex (codes s) → uuid_digits u (hyphenate 0 s) ≡ codes s
  unfolding uuid_digits
  uuid_digits-hyphenate s v =
      let w = hyphenate-IsText 0 s v in
      let text = codes (hyphenate 0 s) in
      rw
        (
          codes-urn,
          codes-uuid,
          remove-text (114 ∷ 110 ∷ 58 ∷ []) text w,
          remove-text (117 ∷ 105 ∷ 100 ∷ 58 ∷ []) text w,
          strip_left-text text w,
          strip_right-text text w,
        )
        (keep-hyphenate 0 s v)

  uuid_digits-text : (n : ℕ) → uuid_digits u (uuid_text n) ≡ codes (uuid_hex n)
  unfolding uuid_text
  uuid_digits-text n = uuid_digits-hyphenate (uuid_hex n) (uuid_hex-IsHex n)

  -- The text of a UUID reads back as that UUID.
  pub uuid_of-uuid_text : (n : ℕ) → n < 2 ^ 128 → uuid_of u (uuid_text n) ≡ some n
  unfolding uuid_of
  uuid_of-uuid_text n h =
      rw (uuid_digits-text n, length-uuid_hex n, int_16-hex n h, lt→ltb n (2 ^ 128) h) refl
