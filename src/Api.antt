-- ===== src/Api.antt =====
-- The HTTP layer of apps/api/app/api: answers, and the two guards in auth.py and deps.py. The bearer
-- scheme object of FastAPI has split the Authorization header into scheme and credentials. Log
-- lines are left out.
pub mod Resources
pub mod Authentication
pub mod Login
pub mod Service
pub mod Listings
mod Tests
use ketabdan_ms.Prelude.{
  ℕ, zero, suc, ◌+◌, ◌-◌, ◌*◌, ◌/◌, ◌%◌, ◌^◌, ◌≤◌, ◌<◌, String, ◌≡◌, refl, sym, ap, ◌∙◌, ◌≢◌, ◌↔◌,
  ◌⊎◌, inl, inr, Bool, true, false, not, ◌&&◌, ◌||◌, Option, none, some, List, [], ◌∷◌, ◌++◌, map,
  arith, eq_iff, ltb, leb, eqb, if◌then◌else◌, Bool-cases, Option-cases, ltb→lt, lt→ltb, leb→le, Eq,
  ◌==◌, nat_eq, string_eq, ==_refl, ==→≡, Result, ok, err, ◌>>=◌, >>=-eq-ok, length, length-append,
  find, keep, any, All, Any, elem,
}
use ketabdan_ms.Prelude.Text.{Unicode, lower}
use ketabdan_ms.Config.{Settings}
use ketabdan_ms.Store.{User, Db}
use ketabdan_ms.Uuid.{uuid_of, uuid_text}
use ketabdan_ms.Accounts.{
  PasswordHasher, AuthError, authentication_error, insecure_secret_error, Attempt, authenticate,
}
use ketabdan_ms.Accounts.Tokens.{
  Jwt, TokenError, invalid_token, insecure_secret, create_access_token, resolve_token_subject,
}
use ketabdan_ms.Accounts.Authorization.{user_has_permission}

-- A success, an `HTTPException` with its detail and its WWW-Authenticate header, or an exception
-- that nothing catches, which the server answers with 500.
pub data Reply (A : Type 0) : Type 0 where
  replied : (status : ℕ) → A → Reply A
  failed : (status : ℕ) (detail : String) (authenticate_header : Option String) → Reply A
  uncaught : (type_name : String) → Reply A

abbrev pub generic_401_detail : String
generic_401_detail = "Not authenticated"

abbrev pub generic_403_detail : String
generic_403_detail = "Not authorized"

abbrev pub generic_auth_failure : String
generic_auth_failure = "Invalid username or password"

abbrev pub unauthorized : {A : Type 0} → Reply A
unauthorized = failed 401 generic_401_detail (some "Bearer")

-- What the process has, and what a request brings: the time and the draws that it may need.
pub record World : Type 0 where
  pub unicode : Unicode
  pub settings : Settings
  pub hasher : PasswordHasher
  pub jwt : Jwt

pub record Draws : Type 0 where
  pub now : ℕ
  pub salt : ℕ
  pub id : ℕ

pub record Credentials : Type 0 where
  pub scheme : String
  pub credentials : String

pub record TokenResponse : Type 0 where
  pub access_token : String
  pub token_type : String
  pub expires_in : ℕ

-- The public projection of a user
pub record UserRead : Type 0 where
  pub id : ℕ
  pub username : String
  pub active : Bool

abbrev pub read_user : User → UserRead
read_user user = record { id = user.id; username = user.username; active = user.active }

abbrev pub map_reply : {A B : Type 0} → (A → B) → Reply A → Reply B
map_reply f (replied status a) = replied status (f a)
map_reply f (failed status detail header) = failed status detail header
map_reply f (uncaught name) = uncaught name

-- `db.get(User, user_id)`
abbrev pub user_by_id : Db → ℕ → Option User
user_by_id db id = find (λ x. x.id == id) db.users

module _ (w : World) where
  abbrev pub live_user : Option User → Reply User
  live_user none = unauthorized
  live_user (some user) = if user.active then replied 200 user else unauthorized

  abbrev pub user_of_id : Db → Option ℕ → Reply User
  user_of_id db none = unauthorized
  user_of_id db (some id) = live_user (user_by_id db id)

  abbrev pub user_of_subject : Db → Result TokenError String → Reply User
  user_of_subject db (ok subject) = user_of_id db (uuid_of w.unicode subject)
  user_of_subject db (err invalid_token) = unauthorized
  user_of_subject db (err insecure_secret) = uncaught "InsecureSecretError"

  unfoldable pub get_current_user : ℕ → Option Credentials → Db → Reply User
  get_current_user now none db = unauthorized
  get_current_user now (some c) db =
      if not (lower w.unicode c.scheme == "bearer")
      then unauthorized
      else user_of_subject db (resolve_token_subject w.jwt w.settings now c.credentials)

  abbrev pub check_permission : String → Db → Reply User → Reply User
  check_permission permission db (replied status user) =
      if user_has_permission db user permission
      then replied status user
      else failed 403 generic_403_detail none
  check_permission permission db (failed status detail header) = failed status detail header
  check_permission permission db (uncaught name) = uncaught name

  -- The route dependency `Depends(require_permission(permission))`
  unfoldable pub require_permission : String → ℕ → Option Credentials → Db → Reply User
  unfolding get_current_user
  require_permission permission now c db =
      check_permission permission db (get_current_user now c db)

  unfoldable pub issue_access_token : ℕ → User → String × ℕ
  issue_access_token now user =
      create_access_token w.jwt now (uuid_text user.id) w.settings.auth_secret_key
        w.settings.auth_algorithm (w.settings.access_token_expire_minutes * 60)

  abbrev pub answer_login : ℕ → Attempt → Reply TokenResponse × Db
  answer_login now a = elim a.result [
    | ok user ↦
        let (token, expires_in) = issue_access_token now user in
        (
          replied 200
              (record { access_token = token; token_type = "bearer"; expires_in = expires_in }),
          a.db,
        )
    | err authentication_error ↦ (failed 401 generic_auth_failure (some "Bearer"), a.db)
    | err insecure_secret_error ↦ (uncaught "InsecureSecretError", a.db)
  ]

  -- `LoginRequest` wants both texts to have a character.
  unfoldable pub login : Draws → (username password : String) → Db → Reply TokenResponse × Db
  unfolding issue_access_token
  login d username password db =
      if (username == "") || (password == "")
      then (failed 422 "validation error" none, db)
      else answer_login d.now
          (authenticate w.unicode w.hasher w.settings d.salt username password db)

  -- `GET /api/auth/me`
  unfoldable pub read_current_user : ℕ → Option Credentials → Db → Reply UserRead
  unfolding get_current_user
  read_current_user now c db = map_reply (λ user. read_user user) (get_current_user now c db)
