-- ===== src/Logging/Levels.antt =====
-- The level names that the settings admit are levels of the standard library.
use ketabdan_ms.Prelude.{
  ℕ, String, ◌≡◌, refl, inl, inr, true, [], ◌∷◌, arith, Bool-cases, ◌==◌, nat_eq, string_eq, ==→≡,
  ok, elem,
}
use mathlib.Core.Path.{subst}
use ketabdan_ms.Prelude.Text.{Unicode, upper, strip, lstrip, rstrip}
use ketabdan_ms.Config.{valid_levels}
use ketabdan_ms.Logging.{Level, resolve_level}

abbrev pub IsKnown : Unicode → String → Type 0
IsKnown u level = (n : ℕ) × (resolve_level u (Level.name level) ≡ ok n)

pub level-IsKnown :
    (u : Unicode) (level : String) → elem level valid_levels ≡ true → IsKnown u level
unfolding resolve_level upper strip lstrip rstrip
level-IsKnown u level h =
    elim (Bool-cases (elem level ("DEBUG" ∷ "INFO" ∷ "WARNING" ∷ "ERROR" ∷ []))) [
      | inl e ↦ elim (Bool-cases (elem level ("DEBUG" ∷ "INFO" ∷ []))) [
        | inl e' ↦ elim (Bool-cases ("DEBUG" == level)) [
          | inl e'' ↦ subst (IsKnown u) (==→≡ "DEBUG" level e'') (10, refl)
          | inr ne ↦ subst (IsKnown u) (==→≡ "INFO" level (ground arith)) (20, refl)
        ]
        | inr ne ↦ elim (Bool-cases ("WARNING" == level)) [
          | inl e'' ↦ subst (IsKnown u) (==→≡ "WARNING" level e'') (30, refl)
          | inr ne' ↦ subst (IsKnown u) (==→≡ "ERROR" level (ground arith)) (40, refl)
        ]
      ]
      | inr ne ↦ subst (IsKnown u) (==→≡ "CRITICAL" level (ground arith)) (50, refl)
    ]
