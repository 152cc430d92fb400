-- ===== src/Deployment/Stack.antt =====
-- The judgements of the script on the containers, and what they show of them.
use ketabdan_ms.Prelude.{
  ℕ, String, ◌≡◌, refl, ap, ◌∙◌, sym, ◌⊎◌, inl, inr, Bool, true, false, not, ◌&&◌, ◌||◌, Option,
  none, some, List, [], ◌∷◌, arith, eqb_iff, Bool-cases, ◌==◌, nat_eq, string_eq, ==→≡, any, elem,
  All,
}
use ketabdan_ms.Deployment.{Container, or_empty}
use ketabdan_ms.Deployment.Containers.{
  service_of, by_service, row_of, port_or_0, violates, healthchecked, runs,
}
use ketabdan_ms.Deployment.Expected.{Allowed, LastOf, Running, Healthy}

or_empty-some :
    (o : Option String) (text : String)
    → ("" == text) ≡ false
    → (or_empty o == text) ≡ true
    → o ≡ some text
or_empty-some none text n h = cc
or_empty-some (some s) text n h = ap (λ x. some x) (==→≡ s text h)

any-All {ℓ κ} :
    {A : Type ℓ} (p : A → Bool) (P : A → Type κ)
    → ((a : A) → p a ≡ false → P a)
    → (xs : List A) → any p xs ≡ false
    → All P xs
any-All p P f [] h = tt
any-All p P f (x ∷ xs) h = (f x (ground arith), any-All p P f xs (ground arith))

port-Allowed :
    (service : String) (port : Option ℕ) (target : ℕ)
    → (not (port_or_0 port == 0)
        && not ((service == "caddy") && ((target == 80) || (target == 443))))
      ≡ false
    → (port ≡ none) ⊎ ((port ≡ some 0) ⊎ ((service ≡ "caddy") × ((target ≡ 80) ⊎ (target ≡ 443))))
port-Allowed service none target h = inl refl
port-Allowed service (some n) target h = elim (Bool-cases (n == 0)) [
  | inl e ↦ inr (inl (ap (λ m. some m) (==→≡ n 0 e)))
  | inr e ↦ inr (
      inr (
        let h' = rw e at h in
        (
          ==→≡ service "caddy" (ground arith),
          ground (arith, eqb_iff target 80, eqb_iff target 443),
        )))
]

pub publishers-Allowed :
    (rows : List Container)
    → any (λ c. any (violates (service_of c)) c.publishers) rows ≡ false
    → All (λ c. All (Allowed (service_of c)) c.publishers) rows
publishers-Allowed rows h =
    any-All (λ c. any (violates (service_of c)) c.publishers)
      (λ c. All (Allowed (service_of c)) c.publishers)
      (λ c e.
        any-All (violates (service_of c)) (Allowed (service_of c))
          (λ p e'. port-Allowed (service_of c) p.published_port p.target_port e') c.publishers e)
      rows h

LastOf-more :
    (service : String) (c d : Container) (all : List Container)
    → LastOf service c all
    → LastOf service c (d ∷ all)
LastOf-more service c d all l = record {
  before = d ∷ l.before;
  after = l.after;
  listed = ap (λ x. d ∷ x) l.listed;
  of_service = l.of_service;
  no_later = l.no_later;
}

row_of-LastOf :
    (service : String) (c : Container) (all : List Container)
    → row_of service (by_service all) ≡ some c
    → LastOf service c all
row_of-LastOf service c [] h = cc
row_of-LastOf service c (d ∷ ds) h =
    elim (Bool-cases (any (λ x. service_of x == service_of d) ds)) [
      | inl e ↦ LastOf-more service c d ds (row_of-LastOf service c ds (rw e at h))
      | inr e ↦ elim (Bool-cases (service_of d == service)) [
        | inl e' ↦
            (let h' = rw (e, e') at h in
              let same : d ≡ c = cc in
              let name = ==→≡ (service_of d) service e' in
              record {
                before = [];
                after = ds;
                listed = ap (λ x. x ∷ ds) same;
                of_service = ap service_of (sym same) ∙ name;
                no_later = rw name at e;
              })
        | inr e' ↦ LastOf-more service c d ds (row_of-LastOf service c ds (rw (e, e') at h))
      ]
    ]

module _ (all : List Container) (service : String) where
  runs-cases :
      (o : Option Container)
      → row_of service (by_service all) ≡ o
      → runs service o ≡ true
      → (c : Container) × LastOf service c all
        × (c.state ≡ some "running")
        × ((not (elem service healthchecked) || (or_empty c.health == "healthy")) ≡ true)
  runs-cases none e h = cc
  runs-cases (some c) e h = (
    c,
    row_of-LastOf service c all e,
    or_empty-some c.state "running" refl (ground arith),
    ground arith,
  )

  pub runs-Running : runs service (row_of service (by_service all)) ≡ true → Running all service
  runs-Running h =
      let (c, last, state, health) = runs-cases (row_of service (by_service all)) refl h in
      (c, last, state)

  pub runs-Healthy :
      elem service healthchecked ≡ true
      → runs service (row_of service (by_service all)) ≡ true
      → Healthy all service
  runs-Healthy checked h =
      let (c, last, state, health) = runs-cases (row_of service (by_service all)) refl h in
      (c, last, state, or_empty-some c.health "healthy" refl (ground arith))
