-- ===== src/Deployment/Passing.antt =====
-- When a check passes.
use ketabdan_ms.Prelude.{
  String, ◌≡◌, refl, ap, inl, inr, Bool, true, false, not, ◌||◌, Option, none, some, List, [], ◌∷◌,
  arith, Bool-cases, nat_eq, string_eq, any, All,
}
use ketabdan_ms.Prelude.Membership.{any-append}
use ketabdan_ms.Deployment.{
  Checked, Response, Fetched, answered, os_error, other_error, verdict, crash, then_check, judged,
  check_reply,
}
use ketabdan_ms.Deployment.Containers.{all_true, is_failure}

unfoldable pub passes : Checked → Bool
passes c = not (c.crashed || any is_failure c.rows)

pub both : (a b : Checked) → passes (then_check a b) ≡ true → (passes a ≡ true) × (passes b ≡ true)
unfolding passes then_check
both a b h = elim (Bool-cases a.crashed) [
  | inl e ↦ (let h' = rw e at h in cc)
  | inr e ↦
      (let joined = any-append is_failure a.rows b.rows in
        let h' = rw (e, joined) at h in (rw e (ground arith), ground arith))
]

pub verdict-true : (name : String) (b : Bool) → passes (verdict name b) ≡ true → b ≡ true
unfolding passes verdict
verdict-true name true h = refl
verdict-true name false h = cc

pub crash-fails {ℓ} : {A : Type ℓ} → passes crash ≡ true → A
unfolding passes
crash-fails h = cc

judged-true : (name : String) (o : Option Bool) → passes (judged name o) ≡ true → o ≡ some true
judged-true name none h = crash-fails h
judged-true name (some b) h = ap (λ x. some x) (verdict-true name b h)

-- A reply came, and the judgement was positive.
abbrev pub Judged : (Response → Option Bool) → Fetched → Type 0
Judged judge reply = (r : Response) × (reply ≡ answered r) × (judge r ≡ some true)

pub check_reply-Judged :
    (name : String) (judge : Response → Option Bool) (reply : Fetched)
    → passes (check_reply name judge reply) ≡ true
    → Judged judge reply
check_reply-Judged name judge (answered r) h = (r, refl, judged-true name (judge r) h)
check_reply-Judged name judge os_error h = let impossible = verdict-true name false h in cc
check_reply-Judged name judge other_error h = crash-fails h

pub all_true-All :
    {A : Type 0} (p : A → Bool) (xs : List A) → all_true p xs ≡ true → All (λ x. p x ≡ true) xs
all_true-All p [] h = tt
all_true-All p (x ∷ xs) h = (ground arith, all_true-All p xs (ground arith))
