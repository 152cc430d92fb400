-- ===== src/Prelude/Text/Decimal.antt =====
-- Printing a number and reading its digits back.
use Prim.Native.Nat.{ℕ, zero, suc, ◌+◌, ◌*◌, ◌/◌, ◌%◌, ◌<◌}
use Prim.Native.Char.{code}
use Prim.Native.String.{String, ◌∷◌, ◌++◌}
use mathlib.Core.Path.{◌≡◌, refl, ◌∙◌, ap}
use mathlib.Core.Logic.{inl, inr}
use mathlib.Core.Option.{some}
use native.Mathlib.Omega.{arith}
use text.Mathlib.TextLemmas.{nil-append, cons-append}
use ketabdan_ms.Prelude.Tests.{ltb, ltb→lt, Bool-cases}
use ketabdan_ms.Prelude.Text.{Unicode, digit, digit_char, take_digits, show, show_from}

pub show_from-append :
    (fuel n : ℕ) (out rest : String) → show_from fuel n out ++ rest ≡ show_from fuel n (out ++ rest)
unfolding show_from
show_from-append zero n out rest = refl
show_from-append (suc fuel) n out rest = elim (Bool-cases (ltb n 10)) [
  | inl small ↦ rw small (cons-append _ out rest)
  | inr large ↦ rw large (
      show_from-append fuel (n / 10) (digit_char (n % 10) ∷ out) rest
      ∙ ap (show_from fuel (n / 10)) (cons-append _ out rest))
]

module _ (u : Unicode) where
  pub digit-digit_char : (d : ℕ) → d < 10 → digit u (code (digit_char d)) ≡ some d
  unfolding digit digit_char
  digit-digit_char zero h = refl
  digit-digit_char (suc zero) h = refl
  digit-digit_char (suc (suc zero)) h = refl
  digit-digit_char (suc (suc (suc zero))) h = refl
  digit-digit_char (suc (suc (suc (suc zero)))) h = refl
  digit-digit_char (suc (suc (suc (suc (suc zero))))) h = refl
  digit-digit_char (suc (suc (suc (suc (suc (suc zero)))))) h = refl
  digit-digit_char (suc (suc (suc (suc (suc (suc (suc zero))))))) h = refl
  digit-digit_char (suc (suc (suc (suc (suc (suc (suc (suc zero)))))))) h = refl
  digit-digit_char (suc (suc (suc (suc (suc (suc (suc (suc (suc zero))))))))) h = refl
  digit-digit_char (suc (suc (suc (suc (suc (suc (suc (suc (suc (suc n)))))))))) h =
      absurd (omega arith)

  take_digits-digit :
      (m d : ℕ) (s : String)
      → d < 10
      → take_digits u m (digit_char d ∷ s) ≡ take_digits u (m * 10 + d) s
  unfolding take_digits
  take_digits-digit m d s h = rw (digit-digit_char d h, take_digits)

  pub take_digits-show_from :
      (fuel n : ℕ) (out : String)
      → n < fuel
      → take_digits u 0 (show_from fuel n out) ≡ take_digits u n out
  unfolding show_from
  take_digits-show_from zero n out h = absurd (omega arith)
  take_digits-show_from (suc fuel) n out h = elim (Bool-cases (ltb n 10)) [
    | inl small ↦
        let n<10 = ltb→lt n 10 small in
        rw small (
          take_digits-digit 0 (n % 10) out (omega arith)
          ∙ ap (λ k. take_digits u k out) (omega arith))
    | inr large ↦
        let ten : (10 < n + 1) = ground arith in
        rw large (
          take_digits-show_from fuel (n / 10) (digit_char (n % 10) ∷ out) (omega arith)
          ∙ take_digits-digit (n / 10) (n % 10) out (omega arith)
          ∙ ap (λ k. take_digits u k out) (omega arith))
  ]

  -- The digits of a printed number read back as the number, up to the text behind it.
  pub take_digits-show :
      (n : ℕ) (rest : String) → take_digits u 0 (show n ++ rest) ≡ take_digits u n rest
  unfolding show
  take_digits-show n rest =
      rw show_from-append (rw nil-append (take_digits-show_from (suc n) n rest (omega arith)))
