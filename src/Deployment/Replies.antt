-- ===== src/Deployment/Replies.antt =====
-- The judgements of the script on a reply, and what they show of it.
use ketabdan_ms.Prelude.{
  ℕ, String, ◌≡◌, refl, ap, ◌∙◌, sym, ◌≢◌, inl, inr, Bool, true, false, not, Option, none, some,
  arith, if◌then◌else◌, eqb_iff, Bool-cases, ◌==◌, nat_eq, string_eq, ==→≡,
}
use Prim.Native.String.{◌++◌ as ◌+s◌}
use Prim.Native.String.{◌∷◌ as ◌∷s◌}
use Prim.Native.Char.{Char, code}
use text.Mathlib.TextLemmas.{nil-append, cons-append}
use text.Mathlib.TextEquality.{Char-path}
use ketabdan_ms.Prelude.Text.{after_prefix, strip}
use ketabdan_ms.Json.{Json, str, obj, Fields, get, end}
use ketabdan_ms.Deployment.{
  Response, Probe, exited, probe_failed, Site, or_empty, starts_with, field_of, is_text,
  when_status,
}
use ketabdan_ms.Deployment.Checks.{
  redirects, key_is, checks_of, judge_checks, judge_probe, services_ok,
}
use ketabdan_ms.Deployment.Expected.{ToHttps, HasText, HasChecks}

cons-same : (c d : Char) (s t : String) → c ≡ d → s ≡ t → (d ∷s s) ≡ (c ∷s t)
cons-same c d s t h h' = cc

after_prefix-some : (p s rest : String) → after_prefix p s ≡ some rest → s ≡ p +s rest
unfolding after_prefix
after_prefix-some Prim.Native.String.[] s rest h =
    let same : s ≡ rest = cc in same ∙ sym (nil-append rest)
after_prefix-some (Prim.Native.String.◌∷◌ c p) Prim.Native.String.[] rest h = cc
after_prefix-some (Prim.Native.String.◌∷◌ c p) (Prim.Native.String.◌∷◌ d s) rest h =
    elim (Bool-cases (code c == code d)) [
      | inl e ↦
          cons-same c d s (p +s rest) (Char-path c d (==→≡ (code c) (code d) e))
            (after_prefix-some p s rest (rw e at h))
          ∙ sym (cons-append c p rest)
      | inr e ↦ (let h' = rw e at h in cc)
    ]

is_text-some : (text : String) (o : Option Json) → is_text text o ≡ true → o ≡ some (str text)
is_text-some text none h = cc
is_text-some text (some (Json.str s)) h = ap (λ x. some (str x)) (==→≡ s text h)
is_text-some text (some Json.null) h = cc
is_text-some text (some (Json.bool b)) h = cc
is_text-some text (some (Json.int n)) h = cc
is_text-some text (some (Json.float r)) h = cc
is_text-some text (some (Json.arr js)) h = cc
is_text-some text (some (Json.obj fs)) h = cc

-- No reading of the field passes where there is no object.
no_object : (b : Bool) (wanted : Option Json → Bool) → when_status b none wanted ≢ some true
no_object true wanted h = cc
no_object false wanted h = cc

when_status-true :
    (b : Bool) (v : Option Json) (text : String)
    → when_status b (some v) (is_text text) ≡ some true
    → (b ≡ true) × (v ≡ some (str text))
when_status-true true v text h = (refl, is_text-some text v (ground arith))
when_status-true false v text h = cc

module _ (site : Site) where
  pub key_is-HasText :
      (body : Option Json) (status : ℕ) (key text : String)
      → key_is site body status key (is_text text) ≡ some true
      → (status ≡ 200) × HasText body key text
  key_is-HasText none status key text h = cc
  key_is-HasText (some (Json.obj fs)) status key text h =
      let (is_200, field) = when_status-true (status == 200) (get key fs) text h in
      (==→≡ status 200 is_200, (fs, refl, field))
  key_is-HasText (some Json.null) status key text h = absurd (no_object (status == 200) _ h)
  key_is-HasText (some (Json.bool b)) status key text h = absurd (no_object (status == 200) _ h)
  key_is-HasText (some (Json.int n)) status key text h = absurd (no_object (status == 200) _ h)
  key_is-HasText (some (Json.float r)) status key text h = absurd (no_object (status == 200) _ h)
  key_is-HasText (some (Json.str s)) status key text h = absurd (no_object (status == 200) _ h)
  key_is-HasText (some (Json.arr js)) status key text h = absurd (no_object (status == 200) _ h)

  when_services-true :
      (b : Bool) (o o' : Option (Option Json))
      → (if not b then some false else services_ok site o o') ≡ some true
      → (b ≡ true) × (o ≡ some (some (str "ok"))) × (o' ≡ some (some (str "ok")))
  when_services-true false o o' h = cc
  when_services-true true (some d) (some r) h = (
    refl,
    ap (λ x. some x) (is_text-some "ok" d (ground arith)),
    ap (λ x. some x) (is_text-some "ok" r (ground arith)),
  )
  when_services-true true none r h = cc
  when_services-true true (some d) none h = cc

  some-eq : (o v : Option Json) → some o ≡ some v → o ≡ v
  some-eq o v h = cc

  field-object :
      (key : String) (j : Json) (v : Option Json)
      → field_of key j ≡ some v
      → (fs : Fields) × (j ≡ obj fs) × (get key fs ≡ v)
  field-object key (Json.obj fs) v h = (fs, refl, some-eq (get key fs) v h)
  field-object key Json.null v h = cc
  field-object key (Json.bool b) v h = cc
  field-object key (Json.int n) v h = cc
  field-object key (Json.float r) v h = cc
  field-object key (Json.str s) v h = cc
  field-object key (Json.arr js) v h = cc

  pub judge_checks-object :
      (status : ℕ) (checks : Option Json)
      → judge_checks site status checks ≡ some true
      → (status ≡ 200)
        × (cs : Fields) × (checks ≡ some (obj cs))
        × (get "database" cs ≡ some (str "ok"))
        × (get "redis" cs ≡ some (str "ok"))
  judge_checks-object status none h = cc
  judge_checks-object status (some checks) h =
      let (is_200, database, redis) =
        when_services-true (status == 200) (field_of "database" checks) (field_of "redis" checks)
          h in
      let (cs, object, has_database) = field-object "database" checks (some (str "ok")) database in
      (
        ==→≡ status 200 is_200,
        cs,
        ap (λ x. some x) object,
        has_database,
        some-eq (get "redis" cs) (some (str "ok")) (ap (field_of "redis") (sym object) ∙ redis),
      )

  checks_found :
      (fs cs : Fields) (o : Option Json)
      → get "checks" fs ≡ o
      → (elim o [ none ↦ some (obj end) | some checks ↦ some checks ]) ≡ some (obj cs)
      → get "database" cs ≡ some (str "ok")
      → o ≡ some (obj cs)
  unfolding get
  checks_found fs cs none e h d =
      let same : end ≡ cs = cc in
      let d' : (get "database" end ≡ some (str "ok")) = ap (get "database") same ∙ d in cc
  checks_found fs cs (some checks) e h d = h

  pub checks-HasChecks :
      (body : Option Json) (cs : Fields)
      → checks_of site body ≡ some (obj cs)
      → get "database" cs ≡ some (str "ok")
      → get "redis" cs ≡ some (str "ok")
      → HasChecks body
  checks-HasChecks none cs h d r = cc
  checks-HasChecks (some (Json.obj fs)) cs h d r =
      (fs, refl, cs, checks_found fs cs (get "checks" fs) refl h d, d, r)
  checks-HasChecks (some Json.null) cs h d r = cc
  checks-HasChecks (some (Json.bool b)) cs h d r = cc
  checks-HasChecks (some (Json.int n)) cs h d r = cc
  checks-HasChecks (some (Json.float x)) cs h d r = cc
  checks-HasChecks (some (Json.str s)) cs h d r = cc
  checks-HasChecks (some (Json.arr js)) cs h d r = cc

  pub judge_probe-answer :
      (p : Probe)
      → judge_probe site p ≡ true
      → (stdout : String) × (p ≡ exited 0 stdout) × (strip stdout ≡ "200")
  judge_probe-answer probe_failed h = cc
  judge_probe-answer (exited code stdout) h =
      let zero = ==→≡ code 0 (ground arith) in
      (stdout, ap (λ n. exited n stdout) zero, ==→≡ (strip stdout) "200" (ground arith))

  after-found :
      (target : String) (o : Option String)
      → after_prefix "https://" target ≡ o
      → (elim o [ none ↦ false | some rest ↦ true ]) ≡ true
      → (rest : String) × (target ≡ "https://" +s rest)
  after-found target none e h = cc
  after-found target (some rest) e h = (rest, after_prefix-some "https://" target rest e)

  has_location :
      (o : Option String)
      → starts_with "https://" (or_empty o) ≡ true
      → (rest : String) × (o ≡ some ("https://" +s rest))
  unfolding after_prefix
  has_location none h = cc
  has_location (some target) h =
      let (rest, e) = after-found target (after_prefix "https://" target) refl h in
      (rest, ap (λ x. some x) e)

  pub redirects-ToHttps : (r : Response) → redirects r ≡ true → ToHttps r
  redirects-ToHttps r h =
      let (rest, target) = has_location (r.header "Location") (ground arith) in
      (ground (arith, eqb_iff r.status 301, eqb_iff r.status 308), rest, target)
