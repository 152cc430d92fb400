-- ===== src/Api/Login.antt =====
-- A login's token opens the next request.
use ketabdan_ms.Prelude.{
  ℕ, ◌^◌, ◌<◌, String, ◌≡◌, refl, sym, ap, ◌∙◌, inl, inr, true, ◌||◌, some, List, Bool-cases, ◌==◌,
  nat_eq, string_eq, Result, ok, err,
}
use ketabdan_ms.Store.{User, Db}
use ketabdan_ms.Accounts.{
  is_secure_auth_secret, normalize_username, named, AuthError, authentication_error,
  insecure_secret_error, authenticate, upgraded, saved,
}
use ketabdan_ms.Accounts.Rows.{with_id-update}
use ketabdan_ms.Accounts.Login.{authenticate_sound}
use ketabdan_ms.Api.{
  replied, World, Draws, user_by_id, get_current_user, issue_access_token, TokenResponse,
  answer_login, login,
}
use ketabdan_ms.Api.Authentication.{bearer, Decodes, issued-current}

same_row : (r r' : User) → some r ≡ some r' → r ≡ r'
same_row r r' h = cc

module _ (w : World) where
  abbrev after : ℕ → String → User → User
  after salt password row = upgraded w.unicode w.hasher w.settings salt password row

  upgrade-stored :
      (salt : ℕ) (password : String) (db : Db) (row : User)
      → user_by_id db row.id ≡ some row
      → (user_by_id
            (saved w.unicode w.hasher w.settings row.password_hash (after salt password row) db)
            row.id
          ≡ some (after salt password row))
        × ((after salt password row).id ≡ row.id)
        × ((after salt password row).active ≡ row.active)
  upgrade-stored salt password db row h =
      elim (Bool-cases (w.hasher.check_needs_rehash row.password_hash)) [
        | inl e ↦ rw e (
          with_id-update (record row { password_hash = w.hasher.hash salt password }) row db.users
              h,
          refl,
          refl,
        )
        | inr e ↦ rw e (h, refl, refl)
      ]

  -- The answer of a login that succeeds
  abbrev token_answer : ℕ → User → TokenResponse
  token_answer now user = record {
    access_token = (issue_access_token w now user).0;
    token_type = "bearer";
    expires_in = (issue_access_token w now user).1;
  }

  answer-cases :
      (now : ℕ) (db : Db) (verified : List String) (x : Result AuthError User) (status : ℕ)
      (t : TokenResponse)
      → (answer_login w now (record { result = x; db = db; verified = verified })).0
        ≡ replied status t
      → (user : User) × (x ≡ ok user)
        × (t ≡ token_answer now user)
        × (status ≡ 200)
        × ((answer_login w now (record { result = x; db = db; verified = verified })).1 ≡ db)
  answer-cases now db verified (ok user) status t h = (user, refl, cc, cc, refl)
  answer-cases now db verified (err authentication_error) status t h = cc
  answer-cases now db verified (err insecure_secret_error) status t h = cc

  login-cases :
      (d : Draws) (username password : String) (db : Db) (status : ℕ) (t : TokenResponse)
      → (login w d username password db).0 ≡ replied status t
      → (user : User) × ((authenticate w.unicode w.hasher w.settings d.salt username password
            db).result
          ≡ ok user)
        × (t ≡ token_answer d.now user)
        × (status ≡ 200)
        × ((login w d username password db).1
            ≡ (authenticate w.unicode w.hasher w.settings d.salt username password db).db)
  unfolding login
  login-cases d username password db status t h =
      elim (Bool-cases ((username == "") || (password == ""))) [
        | inl e ↦ (let h' = rw e at h in cc)
        | inr e ↦
            (let a = authenticate w.unicode w.hasher w.settings d.salt username password db in
              rw e (answer-cases d.now a.db a.verified a.result status t (rw e at h)))
      ]

  current-of :
      (issued now : ℕ) (db : Db) (row user : User) (t : TokenResponse)
      → is_secure_auth_secret w.settings ≡ true
      → Decodes w issued now row
      → row.id < 2 ^ 128
      → user.id ≡ row.id
      → user.active ≡ true
      → user_by_id db row.id ≡ some user
      → t ≡ token_answer issued user
      → get_current_user w now (bearer w t.access_token) db ≡ replied 200 user
  current-of issued now db row user t secure law small id active kept token =
      ap (λ t'. get_current_user w now (bearer w t'.access_token) db) token
      ∙ issued-current w issued now db user secure (rw id law) (rw id small)
          (ap (λ n. user_by_id db n) id ∙ kept) active

  -- After a login that succeeds, a request with its token as bearer credentials has the user as its
  -- current user, if ids are unique and below 2 ^ 128 and PyJWT decodes what it encoded.
  pub login-then-get_current_user :
      (d : Draws) (now : ℕ) (username password : String) (db : Db) (status : ℕ) (t : TokenResponse)
      (row : User)
      → (login w d username password db).0 ≡ replied status t
      → named db (normalize_username w.unicode username) ≡ some row
      → user_by_id db row.id ≡ some row
      → row.id < 2 ^ 128
      → Decodes w d.now now row
      → get_current_user w now (bearer w t.access_token) (login w d username password db).1
        ≡ replied 200 (upgraded w.unicode w.hasher w.settings d.salt password row)
  login-then-get_current_user d now username password db status t row h n stored small law =
      let (user, result, token, _, tables) = login-cases d username password db status t h in
      let a =
        authenticate_sound w.unicode w.hasher w.settings d.salt username password db user result in
      let same : (a.row ≡ row) = same_row a.row row (sym a.stored ∙ n) in
      let (kept, id, active) = upgrade-stored d.salt password db row stored in
      let is_user : (user ≡ after d.salt password row) =
        a.returned ∙ ap (λ r. after d.salt password r) same in
      let saved_as =
        λ (r : User) (x : User). saved w.unicode w.hasher w.settings r.password_hash x db in
      let now_stored =
        tables ∙ a.written ∙ ap (λ r. saved_as r user) same ∙ ap (λ x. saved_as row x) is_user in
      ap (λ tables. get_current_user w now (bearer w t.access_token) tables) now_stored
      ∙ current-of d.now now (saved_as row (after d.salt password row)) row
          (after d.salt password row) t a.secret law small id
          (active ∙ ap (λ r. r.active) (sym same) ∙ a.active) kept
          (token ∙ ap (λ r. token_answer d.now r) is_user)
