-- ===== src/Uuid/Digits.antt =====
-- The digits that a UUID is printed with, and their value.
use ketabdan_ms.Prelude.{
  ℕ, zero, suc, ◌+◌, ◌*◌, ◌/◌, ◌%◌, ◌^◌, ◌<◌, String, ◌≡◌, refl, ap, ◌∙◌, Bool, true, false, ◌&&◌,
  ◌||◌, some, List, ◌∷◌, arith, leb, nat_eq, string_eq, length, All,
}
use Prim.Native.Char.{code}
use native.Mathlib.Nat.{pow-suc}
use ketabdan_ms.Uuid.{hex_digit, hex_from, uuid_hex, codes, hex_value, hex_digits}

unfoldable pub is_hex : ℕ → Bool
is_hex c = (leb 48 c && leb c 57) || (leb 97 c && leb c 102)

abbrev pub IsHex : ℕ → Type 0
IsHex c = is_hex c ≡ true

hex_digit-hex : (d : ℕ) → is_hex (code (hex_digit d)) ≡ true
unfolding hex_digit is_hex
hex_digit-hex zero = refl
hex_digit-hex (suc zero) = refl
hex_digit-hex (suc (suc zero)) = refl
hex_digit-hex (suc (suc (suc zero))) = refl
hex_digit-hex (suc (suc (suc (suc zero)))) = refl
hex_digit-hex (suc (suc (suc (suc (suc zero))))) = refl
hex_digit-hex (suc (suc (suc (suc (suc (suc zero)))))) = refl
hex_digit-hex (suc (suc (suc (suc (suc (suc (suc zero))))))) = refl
hex_digit-hex (suc (suc (suc (suc (suc (suc (suc (suc zero)))))))) = refl
hex_digit-hex (suc (suc (suc (suc (suc (suc (suc (suc (suc zero))))))))) = refl
hex_digit-hex (suc (suc (suc (suc (suc (suc (suc (suc (suc (suc zero)))))))))) = refl
hex_digit-hex (suc (suc (suc (suc (suc (suc (suc (suc (suc (suc (suc zero))))))))))) = refl
hex_digit-hex (suc (suc (suc (suc (suc (suc (suc (suc (suc (suc (suc (suc zero)))))))))))) = refl
hex_digit-hex (suc (suc (suc (suc (suc (suc (suc (suc (suc (suc (suc (suc (suc zero))))))))))))) =
    refl
hex_digit-hex
      (suc (suc (suc (suc (suc (suc (suc (suc (suc (suc (suc (suc (suc (suc zero)))))))))))))) =
    refl
hex_digit-hex
      (suc (suc (suc (suc (suc (suc (suc (suc (suc (suc (suc (suc (suc (suc (suc n))))))))))))))) =
    refl

hex_value-hex_digit : (d : ℕ) → d < 16 → hex_value (code (hex_digit d)) ≡ some d
unfolding hex_digit hex_value
hex_value-hex_digit zero h = refl
hex_value-hex_digit (suc zero) h = refl
hex_value-hex_digit (suc (suc zero)) h = refl
hex_value-hex_digit (suc (suc (suc zero))) h = refl
hex_value-hex_digit (suc (suc (suc (suc zero)))) h = refl
hex_value-hex_digit (suc (suc (suc (suc (suc zero))))) h = refl
hex_value-hex_digit (suc (suc (suc (suc (suc (suc zero)))))) h = refl
hex_value-hex_digit (suc (suc (suc (suc (suc (suc (suc zero))))))) h = refl
hex_value-hex_digit (suc (suc (suc (suc (suc (suc (suc (suc zero)))))))) h = refl
hex_value-hex_digit (suc (suc (suc (suc (suc (suc (suc (suc (suc zero))))))))) h = refl
hex_value-hex_digit (suc (suc (suc (suc (suc (suc (suc (suc (suc (suc zero)))))))))) h = refl
hex_value-hex_digit (suc (suc (suc (suc (suc (suc (suc (suc (suc (suc (suc zero))))))))))) h = refl
hex_value-hex_digit (suc (suc (suc (suc (suc (suc (suc (suc (suc (suc (suc (suc zero)))))))))))) h =
    refl
hex_value-hex_digit
      (suc (suc (suc (suc (suc (suc (suc (suc (suc (suc (suc (suc (suc zero))))))))))))) h =
    refl
hex_value-hex_digit
      (suc (suc (suc (suc (suc (suc (suc (suc (suc (suc (suc (suc (suc (suc zero)))))))))))))) h =
    refl
hex_value-hex_digit
      (suc (suc (suc (suc (suc (suc (suc (suc (suc (suc (suc (suc (suc (suc (suc zero)))))))))))))))
      h =
    refl
hex_value-hex_digit
      (suc
        (suc (suc (suc (suc (suc (suc (suc (suc (suc (suc (suc (suc (suc (suc (suc n))))))))))))))))
      h =
    absurd (omega arith)

-- The digits that are printed
hex_from-IsHex :
    (k n : ℕ) (out : String) → All IsHex (codes out) → All IsHex (codes (hex_from k n out))
unfolding hex_from codes
hex_from-IsHex zero n out h = h
hex_from-IsHex (suc k) n out h = hex_from-IsHex k (n / 16) _ (hex_digit-hex (n % 16), h)

length-hex_from :
    (k n : ℕ) (out : String) → length (codes (hex_from k n out)) ≡ k + length (codes out)
unfolding hex_from codes
length-hex_from zero n out = omega arith
length-hex_from (suc k) n out = omega (arith, length-hex_from k (n / 16) _)

pub length-uuid_hex : (n : ℕ) → length (codes (uuid_hex n)) ≡ 32
unfolding uuid_hex codes
length-uuid_hex n = length-hex_from 32 n ""

hex_digits-next :
    (m d : ℕ) (cs : List ℕ)
    → d < 16
    → hex_digits false m (code (hex_digit d) ∷ cs) ≡ hex_digits false (m * 16 + d) cs
unfolding hex_digits
hex_digits-next m d cs h = rw (hex_value-hex_digit d h, hex_digits) refl

hex_digits-hex_from :
    (k n : ℕ) (out : String)
    → n < 16 ^ k
    → hex_digits false 0 (codes (hex_from k n out)) ≡ hex_digits false n (codes out)
unfolding hex_from codes hex_digits
hex_digits-hex_from zero n out h = ap (λ m. hex_digits false m (codes out)) (omega arith)
hex_digits-hex_from (suc k) n out h =
    let bound : (16 ^ suc k ≡ 16 ^ k * 16) = pow-suc 16 k in
    hex_digits-hex_from k (n / 16) _ (omega arith)
    ∙ hex_digits-next (n / 16) (n % 16) (codes out) (omega arith)
    ∙ ap (λ m. hex_digits false m (codes out)) (omega arith)

pub uuid_hex-IsHex : (n : ℕ) → All IsHex (codes (uuid_hex n))
unfolding uuid_hex codes
uuid_hex-IsHex n = hex_from-IsHex 32 n "" tt

pub hex_digits-uuid_hex : (n : ℕ) → n < 16 ^ 32 → hex_digits false 0 (codes (uuid_hex n)) ≡ some n
unfolding uuid_hex codes hex_digits
hex_digits-uuid_hex n h = hex_digits-hex_from 32 n "" h
