-- ===== src/Accounts.antt =====
-- apps/api/app/services/auth.py and the password part of apps/api/app/core/security.py. Argon2
-- (`PasswordHasher`) is a parameter: its hash takes the salt that it draws, and `verify` returns or
-- raises, with the name of the exception.
pub mod Login
pub mod Creation
pub mod Grants
pub mod Tokens
pub mod Rows
pub mod Subjects
mod Tests
pub mod Authorization
use ketabdan_ms.Prelude.{
  ℕ, zero, suc, ◌+◌, ◌-◌, ◌*◌, ◌/◌, ◌%◌, ◌^◌, ◌≤◌, ◌<◌, String, ◌≡◌, refl, sym, ap, ◌∙◌, ◌≢◌, ◌↔◌,
  ◌⊎◌, inl, inr, Bool, true, false, not, ◌&&◌, ◌||◌, Option, none, some, List, [], ◌∷◌, ◌++◌, map,
  arith, eq_iff, ltb, leb, eqb, if◌then◌else◌, Bool-cases, Option-cases, ltb→lt, lt→ltb, leb→le, Eq,
  ◌==◌, nat_eq, string_eq, ==_refl, ==→≡, Result, ok, err, ◌>>=◌, >>=-eq-ok, length, length-append,
  find, keep, any, All, Any, elem,
}
use Prim.Native.String.{count}
use ketabdan_ms.Prelude.Text.{Unicode, strip, casefold}
use ketabdan_ms.Config.{Settings, auth_secret_placeholder}
use ketabdan_ms.Store.{User, Db}

pub record PasswordHasher : Type 0 where
  pub hash : ℕ → String → String
  pub verify : String → String → Result String Bool
  pub check_needs_rehash : String → Bool

abbrev returned_true : Result String Bool → Bool
returned_true (ok b) = b
returned_true (err name) = false

unfoldable pub verify_password : PasswordHasher → String → String → Bool
verify_password hasher password_hash password = returned_true (hasher.verify password_hash password)

abbrev pub min_password_length : ℕ
min_password_length = 8

-- `db.scalar(select(User).where(User.username == canonical))`
abbrev pub named : Db → String → Option User
named db canonical = find (λ x. x.username == canonical) db.users

unfoldable pub normalize_username : Unicode → String → String
normalize_username u username = casefold u (strip username)

pub data AuthError : Type 0 where
  authentication_error : AuthError
  insecure_secret_error : AuthError

unfoldable pub is_secure_auth_secret : Settings → Bool
is_secure_auth_secret settings = not (
    (settings.auth_secret_key == auth_secret_placeholder)
    && not settings.auth_allow_insecure_dev_secret)

-- One attempt to log in: what it returns, the tables after it, and the hashes that the password was
-- verified against, the latest first.
pub record Attempt : Type 0 where
  pub result : Result AuthError User
  pub db : Db
  pub verified : List String

abbrev pub dummy_hash : String
dummy_hash = "$argon2id$v=19$m=65536,t=3,p=4$dGVzdA$dGVzdA"

-- `user.password_hash = ...` and the commit: the row with the user's id is written.
abbrev pub update : User → List User → List User
update user [] = []
update user (x ∷ xs) = (if x.id == user.id then user else x) ∷ update user xs

module _ (u : Unicode) (hasher : PasswordHasher) (settings : Settings) where
  -- The transparent upgrade of a hash
  abbrev pub upgraded : ℕ → String → User → User
  upgraded salt password user =
      if hasher.check_needs_rehash user.password_hash
      then record user { password_hash = hasher.hash salt password }
      else user

  abbrev pub saved : String → User → Db → Db
  saved old user db =
      if hasher.check_needs_rehash old then record db { users = update user db.users } else db

  abbrev pub admit : ℕ → String → Db → User → Attempt
  admit salt password db user =
      if not (verify_password hasher user.password_hash password) || not user.active
      then record { result = err authentication_error; db = db; verified = user.password_hash ∷ [] }
      else record {
        result = ok (upgraded salt password user);
        db = saved user.password_hash (upgraded salt password user) db;
        verified = user.password_hash ∷ [];
      }

  abbrev pub attempt : ℕ → String → Db → Option User → Attempt
  attempt salt password db none = record {
    result = err authentication_error;
    db = db;
    verified = dummy_hash ∷ [];
  }
  attempt salt password db (some user) = admit salt password db user

  unfoldable pub authenticate : ℕ → String → String → Db → Attempt
  authenticate salt username password db =
      if not (is_secure_auth_secret settings)
      then record { result = err insecure_secret_error; db = db; verified = [] }
      else attempt salt password db (named db (normalize_username u username))

pub data CreateError : Type 0 where
  empty_username : CreateError
  password_policy : CreateError
  username_taken : String → CreateError

module _ (u : Unicode) (hasher : PasswordHasher) where
  -- `id` and `salt` are the ones that the database default and Argon2 draw.
  unfoldable pub create_user : ℕ → ℕ → String → String → Bool → Db → Result CreateError User × Db
  create_user id salt username password active db =
      let canonical = normalize_username u username in
      let user : User = record {
        id = id;
        username = canonical;
        password_hash = hasher.hash salt password;
        active = active;
      } in
      if canonical == ""
      then (err empty_username, db)
      else (if ltb (count password) min_password_length
          then (err password_policy, db)
          else elim (named db canonical) [
            | some existing ↦ (err (username_taken canonical), db)
            | none ↦ (ok user, record db { users = user ∷ db.users })
          ])
