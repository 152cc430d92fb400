-- ===== src/Bootstrap.antt =====
-- The way to the first user of an empty installation: the migration 0005, `create_user --role`, a login
-- and a request to a guarded route (docs/06-BACKEND-API.md, "Bootstrap").
mod Tests
use ketabdan_ms.Prelude.{
  ℕ, ◌≤◌, ◌^◌, ◌<◌, String, ◌≡◌, refl, ap, ◌∙◌, inl, inr, true, false, none, some, [], ◌∷◌, arith,
  Bool-cases, if◌then◌else◌, ◌==◌, nat_eq, string_eq, ==→≡, ok, any, elem,
}
use Prim.Native.String.{count}
use mathlib.Core.Path.{subst}
use ketabdan_ms.Store.{User, Db}
use ketabdan_ms.Accounts.{
  PasswordHasher, min_password_length, is_secure_auth_secret, verify_password, normalize_username,
  named, authenticate,
}
use ketabdan_ms.Accounts.Authorization.{user_has_permission}
use ketabdan_ms.Seeds.{upgrade}
use ketabdan_ms.Seeds.Matrix.{
  documented, upgrade-role_permission_codes, upgrade-user_application_roles,
}
use ketabdan_ms.Cli.{Creation, create_main}
use ketabdan_ms.Cli.Creating.{
  Ungranted, user_of, CreatedWith, AllOrNothing, create_main-AllOrNothing,
}
use ketabdan_ms.Api.{
  replied, failed, generic_403_detail, World, Draws, TokenResponse, Credentials, get_current_user,
  require_permission, issue_access_token, login,
}
use ketabdan_ms.Api.Authentication.{bearer, Decodes, issued-current}

-- The hasher verifies its own hash of the password and finds it up to date.
pub record Verifies (hasher : PasswordHasher) (c : Creation) : Type 0 where
  pub verified : hasher.verify (hasher.hash c.salt c.password) c.password ≡ ok true
  pub current : hasher.check_needs_rehash (hasher.hash c.salt c.password) ≡ false

typed : (password : String) → min_password_length ≤ count password → (password == "") ≡ false
typed password h = elim (Bool-cases (password == "")) [
  | inl e ↦
      absurd (omega (arith, subst (λ p. min_password_length ≤ count p) (==→≡ password "" e) h))
  | inr e ↦ e
]

module _ (w : World) where
  authenticate-current :
      (c : Creation) (salt : ℕ) (name : String) (db : Db)
      → is_secure_auth_secret w.settings ≡ true
      → Verifies w.hasher c
      → named db (normalize_username w.unicode name) ≡ some (user_of w.unicode w.hasher c)
      → authenticate w.unicode w.hasher w.settings salt name c.password db ≡ record {
        result = ok (user_of w.unicode w.hasher c);
        db = db;
        verified = w.hasher.hash c.salt c.password ∷ [];
      }
  unfolding authenticate verify_password
  authenticate-current c salt name db secure law stored =
      rw (secure, stored, law.verified, law.current) refl

  answer : ℕ → User → TokenResponse
  answer now user = record {
    access_token = (issue_access_token w now user).0;
    token_type = "bearer";
    expires_in = (issue_access_token w now user).1;
  }

  logs_in :
      (c : Creation) (d : Draws) (name : String) (db : Db)
      → is_secure_auth_secret w.settings ≡ true
      → Verifies w.hasher c
      → (name == "") ≡ false
      → (c.password == "") ≡ false
      → named db (normalize_username w.unicode name) ≡ some (user_of w.unicode w.hasher c)
      → login w d name c.password db
        ≡ (replied 200 (answer d.now (user_of w.unicode w.hasher c)), db)
  unfolding login answer
  logs_in c d name db secure law n p stored =
      rw (n, p, authenticate-current c d.salt name db secure law stored) refl

  guarded :
      (p : String) (now : ℕ) (c : Credentials) (db : Db) (user : User)
      → get_current_user w now (some c) db ≡ replied 200 user
      → require_permission w p now (some c) db ≡ (
          if user_has_permission db user p
          then replied 200 user
          else failed 403 generic_403_detail none)
  unfolding require_permission
  guarded p now c db user h = rw h refl

  succeeded :
      (c : Creation) (db : Db) (code : String) (x : ℕ × Db)
      → AllOrNothing w.unicode w.hasher c db code x
      → x.0 ≡ 0
      → CreatedWith w.unicode w.hasher c db code x.1
  succeeded c db code x (inl (zero, made)) h = made
  succeeded c db code x (inr (one, same)) h = absurd (omega (arith, one, h))

  -- The password opens the tables under a name, and then the token a route that asks for `p`, exactly if
  -- the role with the code is documented to have `p`.
  pub record Opens (c : Creation) (d : Draws) (name : String) (now : ℕ) (code p : String) (db : Db)
      : Type 0 where
    pub token : TokenResponse
    pub logged_in : login w d name c.password db ≡ (replied 200 token, db)
    pub answered : require_permission w p now (bearer w token.access_token) db ≡ (
        if elem p (documented code)
        then replied 200 (user_of w.unicode w.hasher c)
        else failed 403 generic_403_detail none)

  created-Opens :
      (c : Creation) (d : Draws) (name : String) (now : ℕ) (code p : String) (db db' : Db)
      → is_secure_auth_secret w.settings ≡ true
      → Verifies w.hasher c
      → c.id < 2 ^ 128
      → Decodes w d.now now (user_of w.unicode w.hasher c)
      → (name == "") ≡ false
      → normalize_username w.unicode name ≡ normalize_username w.unicode c.username
      → (made : CreatedWith w.unicode w.hasher c db code db')
      → user_has_permission db' (user_of w.unicode w.hasher c) p ≡ elem p (documented code)
      → Opens c d name now code p db'
  unfolding answer
  created-Opens c d name now code p db db' secure law small decodes n spelt made allowed =
      let user = user_of w.unicode w.hasher c in
      record {
        token = answer d.now user;
        logged_in =
            logs_in c d name db' secure law n (typed c.password made.long_enough)
              (ap (λ x. named db' x) spelt ∙ made.stored);
        answered =
            guarded p now _ db' user
              (issued-current w d.now now db' user secure decodes small made.by_id refl)
            ∙ ap (λ b. if b then replied 200 user else failed 403 generic_403_detail none) allowed;
      }

  -- On tables that the migration of the authorization has just left, once the command that creates a user
  -- with a role exits with 0, the password logs in under every spelling of the name that is not empty,
  -- and its token opens a route that asks for a permission exactly if the documented matrix gives it to
  -- that role; else the route answers 403. The secret is secure, the hasher verifies its own hash of
  -- the password and finds it up to date, the id is below 2 ^ 128, and PyJWT decodes what it encoded.
  pub create_main-Opens :
      (c : Creation) (d : Draws) (name : String) (now : ℕ) (code p : String) (db db' : Db)
      → is_secure_auth_secret w.settings ≡ true
      → Verifies w.hasher c
      → c.id < 2 ^ 128
      → Decodes w d.now now (user_of w.unicode w.hasher c)
      → (name == "") ≡ false
      → normalize_username w.unicode name ≡ normalize_username w.unicode c.username
      → upgrade db ≡ some db'
      → c.role ≡ some code
      → (create_main w.unicode w.hasher c db').0 ≡ 0
      → Opens c d name now code p (create_main w.unicode w.hasher c db').1
  create_main-Opens c d name now code p db db' secure law small decodes n spelt migrated asked h =
      let none_yet : Ungranted c.id db' =
        ap (λ gs. any (λ g. g.user_id == c.id) gs)
          (upgrade-user_application_roles db db' migrated) in
      let made =
        succeeded c db' code _
          (create_main-AllOrNothing w.unicode w.hasher c db' code asked none_yet) h in
      created-Opens c d name now code p db' _ secure law small decodes n spelt made (
        made.permissions p
        ∙ ap (λ codes. elem p codes)
            (upgrade-role_permission_codes db db' code made.role migrated made.found))
