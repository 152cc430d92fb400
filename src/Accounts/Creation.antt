-- ===== src/Accounts/Creation.antt =====
-- Creating users, and logging in with what was created.
use ketabdan_ms.Prelude.{
  ℕ, ◌≤◌, String, ◌≡◌, refl, sym, ap, ◌∙◌, Bool, true, false, none, some, List, [], ◌∷◌, arith,
  ◌==◌, nat_eq, string_eq, ==_refl, ok, err, find,
}
use Prim.Native.String.{count}
use ketabdan_ms.Prelude.Text.{Unicode}
use ketabdan_ms.Config.{Settings}
use ketabdan_ms.Store.{User, Db}
use ketabdan_ms.Accounts.{
  PasswordHasher, verify_password, min_password_length, normalize_username, named,
  is_secure_auth_secret, authenticate, upgraded, CreateError, username_taken, create_user,
}
use ketabdan_ms.Accounts.Login.{authenticate_complete}

-- No two rows have one username, the first that a lookup finds being the only one.
abbrev pub UniqueNames : List User → Type 0
UniqueNames [] = Unit
UniqueNames (x ∷ xs) = (find (λ y. y.username == x.username) xs ≡ none) × UniqueNames xs

module _ (u : Unicode) (hasher : PasswordHasher) where
  -- What a creation that succeeds has checked and written
  pub record Created (id salt : ℕ) (username password : String) (active : Bool) (db : Db)
      (user : User) (db' : Db) : Type 0 where
    pub canonical : user.username ≡ normalize_username u username
    pub named_well : (normalize_username u username == "") ≡ false
    pub long_enough : min_password_length ≤ count password
    pub hashed : user.password_hash ≡ hasher.hash salt password
    pub switched : user.active ≡ active
    pub identified : user.id ≡ id
    pub free : named db (normalize_username u username) ≡ none
    pub written : db' ≡ record db { users = user ∷ db.users }

  -- A creation that succeeds had a username that is not blank, a password of eight characters or
  -- more and a free canonical name; it adds one row with that name and the password's hash, and
  -- changes nothing else.
  pub create_user_sound :
      (id salt : ℕ) (username password : String) (active : Bool) (db : Db) (user : User)
      → (create_user u hasher id salt username password active db).0 ≡ ok user
      → Created id salt username password active db user
          (create_user u hasher id salt username password active db).1
  unfolding create_user
  create_user_sound id salt username password active db user h = record {
    canonical = ground arith;
    named_well = ground arith;
    long_enough = ground arith;
    hashed = ground arith;
    switched = ground arith;
    identified = ground arith;
    free = ground arith;
    written = ground arith;
  }

  -- A creation that raises writes nothing.
  pub create_user_atomic :
      (id salt : ℕ) (username password : String) (active : Bool) (db : Db) (e : CreateError)
      → (create_user u hasher id salt username password active db).0 ≡ err e
      → (create_user u hasher id salt username password active db).1 ≡ db
  unfolding create_user
  create_user_atomic id salt username password active db e h = ground arith

  -- If no two rows have one username, then so after a creation, whether it succeeds or raises.
  create_user-UniqueNames :
      (id salt : ℕ) (username password : String) (active : Bool) (db : Db)
      → UniqueNames db.users
      → UniqueNames (create_user u hasher id salt username password active db).1.users
  unfolding create_user
  create_user-UniqueNames id salt username password active db v = ground arith

  pub named-created :
      (id salt : ℕ) (username other password : String) (active : Bool) (db : Db) (user : User)
      → (create_user u hasher id salt username password active db).0 ≡ ok user
      → normalize_username u other ≡ normalize_username u username
      → named
          (create_user u hasher id salt username password active db).1
          (normalize_username u other)
        ≡ some user
  named-created id salt username other password active db user h e =
      let c = create_user_sound id salt username password active db user h in
      rw (c.written, c.canonical, e, ==_refl (normalize_username u username)) refl

  create_user-taken :
      (id salt : ℕ) (username password : String) (active : Bool) (db : Db) (row : User)
      → named db (normalize_username u username) ≡ some row
      → (normalize_username u username == "") ≡ false
      → min_password_length ≤ count password
      → create_user u hasher id salt username password active db
        ≡ (err (username_taken (normalize_username u username)), db)
  unfolding create_user
  create_user-taken id salt username password active db row n b l = ground arith

  -- Once created, a name is taken in every spelling: creating it again with a password of eight
  -- characters or more is refused with the canonical name, and writes nothing.
  create_user-twice :
      (id salt : ℕ) (username password : String) (active : Bool) (db : Db) (user : User)
      (id' salt' : ℕ) (other password' : String) (active' : Bool)
      → (create_user u hasher id salt username password active db).0 ≡ ok user
      → normalize_username u other ≡ normalize_username u username
      → min_password_length ≤ count password'
      → create_user u hasher id' salt' other password' active'
          (create_user u hasher id salt username password active db).1
        ≡ (
          err (username_taken user.username),
          (create_user u hasher id salt username password active db).1,
        )
  create_user-twice id salt username password active db user id' salt' other password' active' h e
        l =
      let c = create_user_sound id salt username password active db user h in
      create_user-taken id' salt' other password' active' _ user
        (named-created id salt username other password active db user h e) (rw e c.named_well) l
      ∙ ap
          (λ n.
            (err (username_taken n), (create_user u hasher id salt username password active db).1))
          (e ∙ sym c.canonical)

  verified :
      (settings : Settings) (user : User) (salt : ℕ) (password : String)
      → user.password_hash ≡ hasher.hash salt password
      → hasher.verify (hasher.hash salt password) password ≡ ok true
      → verify_password hasher user.password_hash password ≡ true
  unfolding verify_password
  verified settings user salt password e v = rw (e, v) refl

  same_hash :
      (settings : Settings) (user : User) (salt salt' : ℕ) (password : String)
      → user.password_hash ≡ hasher.hash salt password
      → hasher.check_needs_rehash (hasher.hash salt password) ≡ false
      → upgraded u hasher settings salt' password user ≡ user
  same_hash settings user salt salt' password e r = rw (e, r) refl

  -- An active user who was created logs in with the password under every spelling of the name, if
  -- the secret is secure and the hasher verifies its own hashes and finds them up to date.
  pub create-then-authenticate :
      (settings : Settings) (id salt salt' : ℕ) (username other password : String) (db : Db)
      (user : User)
      → is_secure_auth_secret settings ≡ true
      → hasher.verify (hasher.hash salt password) password ≡ ok true
      → hasher.check_needs_rehash (hasher.hash salt password) ≡ false
      → normalize_username u other ≡ normalize_username u username
      → (create_user u hasher id salt username password true db).0 ≡ ok user
      → (authenticate u hasher settings salt' other password
          (create_user u hasher id salt username password true db).1).result
        ≡ ok user
  create-then-authenticate settings id salt salt' username other password db user s v r e h =
      let c = create_user_sound id salt username password true db user h in
      authenticate_complete u hasher settings salt' other password _ user s
        (named-created id salt username other password true db user h e)
        (verified settings user salt password c.hashed v) c.switched
      ∙ ap (λ r. ok r) (same_hash settings user salt salt' password c.hashed r)
