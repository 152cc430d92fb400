-- ===== src/Api/Authentication.antt =====
-- Who the current user is, and that a login leads to it.
use ketabdan_ms.Prelude.{
  ℕ, ◌*◌, ◌^◌, ◌<◌, String, ◌≡◌, refl, ◌≢◌, ◌⊎◌, inl, inr, true, false, Option, none, some,
  Bool-cases, ◌==◌, nat_eq, string_eq, ==→≡, Result, ok, err,
}
use ketabdan_ms.Prelude.Text.{lower}
use ketabdan_ms.Store.{User, Db}
use ketabdan_ms.Uuid.{uuid_of, uuid_text, uuid_digits, strip_left, strip_right, remove, codes}
use ketabdan_ms.Uuid.RoundTrip.{uuid_of-uuid_text}
use ketabdan_ms.Accounts.{is_secure_auth_secret}
use ketabdan_ms.Accounts.Tokens.{
  TokenError, invalid_token, insecure_secret, access_claims, accepted_algorithms,
  create_access_token, resolve_token_subject,
}
use ketabdan_ms.Accounts.Subjects.{resolve_token_subject-secure, issue-then-resolve}
use ketabdan_ms.Api.{
  replied, unauthorized, World, Credentials, user_by_id, live_user, user_of_id, user_of_subject,
  get_current_user, issue_access_token,
}

module _ (w : World) where
  -- What the user who is returned went through
  pub record Authenticated (now : ℕ) (c : Option Credentials) (db : Db) (status : ℕ) (user : User)
      : Type 0 where
    pub sent : Credentials
    pub given : c ≡ some sent
    pub bearer : lower w.unicode sent.scheme ≡ "bearer"
    pub subject : String
    pub resolved : resolve_token_subject w.jwt w.settings now sent.credentials ≡ ok subject
    pub id : ℕ
    pub parsed : uuid_of w.unicode subject ≡ some id
    pub stored : user_by_id db id ≡ some user
    pub active : user.active ≡ true
    pub answer : status ≡ 200

  live-cases :
      (o : Option User) (status : ℕ) (user : User)
      → live_user w o ≡ replied status user
      → (o ≡ some user) × (user.active ≡ true) × (status ≡ 200)
  live-cases none status user h = cc
  live-cases (some x) status user h = elim (Bool-cases x.active) [
    | inl e ↦ (let h' = rw e at h in (cc, cc, cc))
    | inr e ↦ (let h' = rw e at h in cc)
  ]

  id-cases :
      (db : Db) (o : Option ℕ) (status : ℕ) (user : User)
      → user_of_id w db o ≡ replied status user
      → (id : ℕ) × (o ≡ some id)
        × (user_by_id db id ≡ some user)
        × (user.active ≡ true)
        × (status ≡ 200)
  id-cases db none status user h = cc
  id-cases db (some id) status user h =
      let (stored, active, answer) = live-cases (user_by_id db id) status user h in
      (id, refl, stored, active, answer)

  subject-reply-cases :
      (db : Db) (x : Result TokenError String) (status : ℕ) (user : User)
      → user_of_subject w db x ≡ replied status user
      → (subject : String) × (x ≡ ok subject)
        × (id : ℕ) × (uuid_of w.unicode subject ≡ some id)
        × (user_by_id db id ≡ some user)
        × (user.active ≡ true)
        × (status ≡ 200)
  subject-reply-cases db (ok subject) status user h =
      let (id, parsed, stored, active, answer) =
        id-cases db (uuid_of w.unicode subject) status user h in
      (subject, refl, id, parsed, stored, active, answer)
  subject-reply-cases db (err invalid_token) status user h = cc
  subject-reply-cases db (err insecure_secret) status user h = cc

  -- A request has a current user only if it brought bearer credentials whose token resolves to the
  -- text of the id of a stored row, and the user is that row and is active.
  pub get_current_user_sound :
      (now : ℕ) (c : Option Credentials) (db : Db) (status : ℕ) (user : User)
      → get_current_user w now c db ≡ replied status user
      → Authenticated now c db status user
  unfolding get_current_user
  get_current_user_sound now none db status user h = cc
  get_current_user_sound now (some c) db status user h =
      elim (Bool-cases (lower w.unicode c.scheme == "bearer")) [
        | inl e ↦
            (let (subject, resolved, id, parsed, stored, active, answer) =
                subject-reply-cases db (resolve_token_subject w.jwt w.settings now c.credentials)
                  status user (rw e at h) in
              record {
                sent = c;
                given = refl;
                bearer = ==→≡ (lower w.unicode c.scheme) "bearer" e;
                subject = subject;
                resolved = resolved;
                id = id;
                parsed = parsed;
                stored = stored;
                active = active;
                answer = answer;
              })
        | inr e ↦ (let h' = rw e at h in cc)
      ]

  live-uniform :
      (o : Option User)
      → ((user : User) × (live_user w o ≡ replied 200 user)) ⊎ (live_user w o ≡ unauthorized)
  live-uniform none = inr refl
  live-uniform (some x) = elim (Bool-cases x.active) [
    | inl e ↦ inl (x, rw e refl)
    | inr e ↦ inr (rw e refl)
  ]

  id-uniform :
      (db : Db) (o : Option ℕ)
      → ((user : User) × (user_of_id w db o ≡ replied 200 user))
        ⊎ (user_of_id w db o ≡ unauthorized)
  id-uniform db none = inr refl
  id-uniform db (some id) = live-uniform (user_by_id db id)

  subject-uniform :
      (db : Db) (x : Result TokenError String)
      → x ≢ err insecure_secret
      → ((user : User) × (user_of_subject w db x ≡ replied 200 user))
        ⊎ (user_of_subject w db x ≡ unauthorized)
  subject-uniform db (ok subject) n = id-uniform db (uuid_of w.unicode subject)
  subject-uniform db (err invalid_token) n = inr refl
  subject-uniform db (err insecure_secret) n = absurd (n refl)

  -- With a secure secret, a request has a current user or gets the one generic 401, whatever is
  -- wrong with its credentials.
  pub get_current_user_uniform :
      (now : ℕ) (c : Option Credentials) (db : Db)
      → is_secure_auth_secret w.settings ≡ true
      → ((user : User) × (get_current_user w now c db ≡ replied 200 user))
        ⊎ (get_current_user w now c db ≡ unauthorized)
  unfolding get_current_user
  get_current_user_uniform now none db s = inr refl
  get_current_user_uniform now (some c) db s =
      elim (Bool-cases (lower w.unicode c.scheme == "bearer")) [
        | inl e ↦ rw e (
            subject-uniform db _
              (resolve_token_subject-secure w.jwt w.settings now c.credentials s))
        | inr e ↦ rw e (inr refl)
      ]

  bearer_lower : lower w.unicode "Bearer" ≡ "bearer"
  unfolding lower
  bearer_lower = refl

  abbrev pub bearer : String → Option Credentials
  bearer token = some (record { scheme = "Bearer"; credentials = token })

  -- PyJWT decodes at `now` what it encoded for the subject at `issued`.
  abbrev pub Decodes : (issued now : ℕ) → (user : User) → Type 0
  Decodes issued now user =
      w.jwt.decode
        (w.jwt.encode
          (access_claims (uuid_text user.id) issued (w.settings.access_token_expire_minutes * 60))
          w.settings.auth_secret_key w.settings.auth_algorithm)
        w.settings.auth_secret_key (accepted_algorithms w.settings.auth_algorithm) now
      ≡ ok (access_claims (uuid_text user.id) issued (w.settings.access_token_expire_minutes * 60))

  uuid_text-not_empty : (n : ℕ) → n < 2 ^ 128 → (uuid_text n == "") ≡ false
  unfolding uuid_of uuid_digits strip_left strip_right remove codes
  uuid_text-not_empty n h = elim (Bool-cases (uuid_text n == "")) [
    | inl e ↦ (let back = rw (==→≡ (uuid_text n) "" e) at (uuid_of-uuid_text w.unicode n h) in cc)
    | inr e ↦ e
  ]

  pub issued-current :
      (issued now : ℕ) (db : Db) (user : User)
      → is_secure_auth_secret w.settings ≡ true
      → Decodes issued now user
      → user.id < 2 ^ 128
      → user_by_id db user.id ≡ some user
      → user.active ≡ true
      → get_current_user w now (bearer (issue_access_token w issued user).0) db ≡ replied 200 user
  unfolding get_current_user issue_access_token
  issued-current issued now db user s law small stored active =
      let token =
        (create_access_token w.jwt issued (uuid_text user.id) w.settings.auth_secret_key
          w.settings.auth_algorithm (w.settings.access_token_expire_minutes * 60)).0 in
      let resolved : (resolve_token_subject w.jwt w.settings now token ≡ ok (uuid_text user.id)) =
        issue-then-resolve w.jwt w.settings issued now _ (uuid_text user.id) s
          (uuid_text-not_empty user.id small) law in
      rw (bearer_lower, resolved, uuid_of-uuid_text w.unicode user.id small, stored, active) refl
