-- ===== src/Accounts/Login.antt =====
-- Logging in, and what creating a user does to it.
use ketabdan_ms.Prelude.{
  ℕ, String, ◌≡◌, refl, inl, inr, true, Option, none, some, arith, Bool-cases, nat_eq, string_eq,
  ok, err, length,
}
use ketabdan_ms.Prelude.Text.{Unicode}
use ketabdan_ms.Config.{Settings}
use ketabdan_ms.Store.{User, Db}
use ketabdan_ms.Accounts.{
  PasswordHasher, verify_password, normalize_username, named, AuthError, authentication_error,
  is_secure_auth_secret, upgraded, saved, admit, attempt, authenticate,
}

module _ (u : Unicode) (hasher : PasswordHasher) (settings : Settings) where
  -- The stored row that a login needs, and what the login then returns and writes.
  pub record Admitted (salt : ℕ) (username password : String) (db : Db) (user : User) (db' : Db)
      : Type 0 where
    pub secret : is_secure_auth_secret settings ≡ true
    pub row : User
    pub stored : named db (normalize_username u username) ≡ some row
    pub proven : verify_password hasher row.password_hash password ≡ true
    pub active : row.active ≡ true
    pub returned : user ≡ upgraded u hasher settings salt password row
    pub written : db' ≡ saved u hasher settings row.password_hash user db

  admit-ok :
      (salt : ℕ) (password : String) (db : Db) (row user : User)
      → (admit u hasher settings salt password db row).result ≡ ok user
      → (verify_password hasher row.password_hash password ≡ true)
        × (row.active ≡ true)
        × (user ≡ upgraded u hasher settings salt password row)
        × ((admit u hasher settings salt password db row).db
            ≡ saved u hasher settings row.password_hash user db)
  admit-ok salt password db row user h = (ground arith, ground arith, ground arith, ground arith)

  attempt-ok :
      (salt : ℕ) (username password : String) (db : Db) (user : User) (o : Option User)
      → is_secure_auth_secret settings ≡ true
      → named db (normalize_username u username) ≡ o
      → (attempt u hasher settings salt password db o).result ≡ ok user
      → Admitted salt username password db user (attempt u hasher settings salt password db o).db
  attempt-ok salt username password db user none s e h = cc
  attempt-ok salt username password db user (some row) s e h =
      let (proven, active, returned, written) = admit-ok salt password db row user h in
      record {
        secret = s;
        row = row;
        stored = e;
        proven = proven;
        active = active;
        returned = returned;
        written = written;
      }

  -- A login that succeeds found the stored row of the canonical username, verified the password
  -- against its hash, and the row is active; it returns that row, its hash made again if it needs a
  -- rehash, and writes nothing else. The secret in force is not the placeholder, unless the
  -- settings allow it.
  pub authenticate_sound :
      (salt : ℕ) (username password : String) (db : Db) (user : User)
      → (authenticate u hasher settings salt username password db).result ≡ ok user
      → Admitted salt username password db user
          (authenticate u hasher settings salt username password db).db
  unfolding authenticate
  authenticate_sound salt username password db user h =
      elim (Bool-cases (is_secure_auth_secret settings)) [
        | inl e ↦ rw e (attempt-ok salt username password db user _ e refl (rw e at h))
        | inr e ↦ (let h' = rw e at h in cc)
      ]

  -- A stored row makes the login succeed for every spelling of its name.
  pub authenticate_complete :
      (salt : ℕ) (username password : String) (db : Db) (row : User)
      → is_secure_auth_secret settings ≡ true
      → named db (normalize_username u username) ≡ some row
      → verify_password hasher row.password_hash password ≡ true
      → row.active ≡ true
      → (authenticate u hasher settings salt username password db).result
        ≡ ok (upgraded u hasher settings salt password row)
  unfolding authenticate
  authenticate_complete salt username password db row s e p a = rw (s, e, p, a) refl

  failed :
      (salt : ℕ) (password : String) (db : Db) (e : AuthError) (o : Option User)
      → (attempt u hasher settings salt password db o).result ≡ err e
      → (e ≡ authentication_error) × ((attempt u hasher settings salt password db o).db ≡ db)
  failed salt password db e none h = (cc, refl)
  failed salt password db e (some row) h = (ground arith, ground arith)

  one_hash :
      (salt : ℕ) (password : String) (db : Db) (o : Option User)
      → length (attempt u hasher settings salt password db o).verified ≡ 1
  one_hash salt password db none = refl
  one_hash salt password db (some row) = ground arith

  -- With a secure secret, an attempt that fails raises the one error there is, whatever failed, and
  -- changes no table.
  pub authenticate_uniform :
      (salt : ℕ) (username password : String) (db : Db) (e : AuthError)
      → is_secure_auth_secret settings ≡ true
      → (authenticate u hasher settings salt username password db).result ≡ err e
      → (e ≡ authentication_error)
        × ((authenticate u hasher settings salt username password db).db ≡ db)
  unfolding authenticate
  authenticate_uniform salt username password db e s h =
      rw s (failed salt password db e _ (rw s at h))

  -- With a secure secret, every attempt verifies the password against exactly one hash, whether or
  -- not the user exists.
  authenticate_verifies_once :
      (salt : ℕ) (username password : String) (db : Db)
      → is_secure_auth_secret settings ≡ true
      → length (authenticate u hasher settings salt username password db).verified ≡ 1
  unfolding authenticate
  authenticate_verifies_once salt username password db s = rw s (one_hash salt password db _)
