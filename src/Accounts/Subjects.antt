-- ===== src/Accounts/Subjects.antt =====
-- Which subject a token resolves to.
use ketabdan_ms.Prelude.{
  ℕ, String, ◌≡◌, refl, ◌≢◌, ◌⊎◌, inl, inr, true, false, Option, none, some, arith, eq_iff,
  Bool-cases, ◌==◌, nat_eq, string_eq, Result, ok, err,
}
use ketabdan_ms.Json.{Json, Fields, str, get}
use ketabdan_ms.Config.{Settings}
use ketabdan_ms.Accounts.{is_secure_auth_secret}
use ketabdan_ms.Accounts.Tokens.{
  Jwt, insecure_secret, access_claims, create_access_token, has_other_type, subject_of, read_claims,
  accepted_algorithms, decode_access_token, resolve_token_subject,
}

-- What stands behind a subject
pub record Resolved (jwt : Jwt) (settings : Settings) (now : ℕ) (token subject : String)
    : Type 0 where
  pub secure : is_secure_auth_secret settings ≡ true
  pub claims : Fields
  pub decoded :
      jwt.decode token settings.auth_secret_key (accepted_algorithms settings.auth_algorithm) now
      ≡ ok claims
  pub has_subject : get "sub" claims ≡ some (str subject)
  pub named : (subject == "") ≡ false
  pub access : (get "typ" claims ≡ some (str "access")) ⊎ (get "typ" claims ≡ none)

subject-cases :
    (o : Option Json) (subject : String)
    → subject_of o ≡ ok subject
    → (o ≡ some (str subject)) × ((subject == "") ≡ false)
subject-cases o subject h = ground arith

type-cases : (o : Option Json) → has_other_type o ≡ false → (o ≡ some (str "access")) ⊎ (o ≡ none)
type-cases none h = inr refl
type-cases (some (str t)) h = ground (arith, eq_iff t "access")
type-cases (some _) h = cc

read-ok :
    (jwt : Jwt) (settings : Settings) (now : ℕ) (token subject : String) (x : Result String Fields)
    → is_secure_auth_secret settings ≡ true
    → jwt.decode token settings.auth_secret_key (accepted_algorithms settings.auth_algorithm) now
      ≡ x
    → read_claims x ≡ ok subject
    → Resolved jwt settings now token subject
read-ok jwt settings now token subject (err name) s e h = cc
read-ok jwt settings now token subject (ok claims) s e h =
    elim (Bool-cases (has_other_type (get "typ" claims))) [
      | inl other ↦ (let h' = rw other at h in cc)
      | inr same ↦
          (let (a, b) = subject-cases (get "sub" claims) subject (rw same at h) in
            record {
              secure = s;
              claims = claims;
              decoded = e;
              has_subject = a;
              named = b;
              access = type-cases (get "typ" claims) same;
            })
    ]

-- A token resolves to a subject only if the secret in force is secure, PyJWT accepts the token under
-- that secret, the claims name this subject, which is not empty, and the token's type is access or
-- not given.
pub resolve_token_subject_sound :
    (jwt : Jwt) (settings : Settings) (now : ℕ) (token subject : String)
    → resolve_token_subject jwt settings now token ≡ ok subject
    → Resolved jwt settings now token subject
unfolding resolve_token_subject decode_access_token
resolve_token_subject_sound jwt settings now token subject h =
    elim (Bool-cases (is_secure_auth_secret settings)) [
      | inl e ↦ read-ok jwt settings now token subject _ e refl (rw e at h)
      | inr e ↦ (let h' = rw e at h in cc)
    ]

-- An access token that was issued for a subject that is not empty resolves to it under the same
-- settings, if the secret is secure and PyJWT decodes what it encoded.
pub issue-then-resolve :
    (jwt : Jwt) (settings : Settings) (issued now lifetime : ℕ) (subject : String)
    → is_secure_auth_secret settings ≡ true
    → (subject == "") ≡ false
    → jwt.decode
        (jwt.encode
          (access_claims subject issued lifetime)
          settings.auth_secret_key
          settings.auth_algorithm)
        settings.auth_secret_key
        (accepted_algorithms settings.auth_algorithm)
        now
      ≡ ok (access_claims subject issued lifetime)
    → resolve_token_subject jwt settings now
        (create_access_token jwt issued subject settings.auth_secret_key settings.auth_algorithm
          lifetime).0
      ≡ ok subject
unfolding resolve_token_subject decode_access_token create_access_token get
issue-then-resolve jwt settings issued now lifetime subject s named law = rw (s, law, named) refl

subject_not_insecure : (o : Option Json) → subject_of o ≢ err insecure_secret
subject_not_insecure o h = ground arith

read_not_insecure : (x : Result String Fields) → read_claims x ≢ err insecure_secret
read_not_insecure (err name) h = cc
read_not_insecure (ok claims) h = ground arith

pub resolve_token_subject-secure :
    (jwt : Jwt) (settings : Settings) (now : ℕ) (token : String)
    → is_secure_auth_secret settings ≡ true
    → resolve_token_subject jwt settings now token ≢ err insecure_secret
unfolding resolve_token_subject decode_access_token
resolve_token_subject-secure jwt settings now token s h =
    read_not_insecure
      (jwt.decode token settings.auth_secret_key (accepted_algorithms settings.auth_algorithm) now)
      (rw s at h)
