-- ===== src/Cli/Creating.antt =====
-- The command that creates a user, alone or with a role.
use ketabdan_ms.Prelude.{
  ℕ, String, ◌≡◌, refl, sym, ap, ◌∙◌, ◌⊎◌, inl, inr, true, false, ◌&&◌, ◌≤◌, some, List, [], ◌∷◌,
  arith, Bool-cases, Option-cases, ◌==◌, nat_eq, string_eq, ==_refl, ==→≡, Result, ok, err, find,
  keep, any, elem, or_false,
}
use mathlib.Core.Path.{subst}
use Prim.Native.String.{count}
use ketabdan_ms.Prelude.Text.{Unicode}
use ketabdan_ms.Prelude.Membership.{find-holds}
use ketabdan_ms.Store.{User, ApplicationRole, UserApplicationRole, Db}
use ketabdan_ms.Accounts.{
  PasswordHasher, min_password_length, normalize_username, named, CreateError, create_user,
}
use ketabdan_ms.Accounts.Creation.{Created, create_user_sound, create_user_atomic, named-created}
use ketabdan_ms.Accounts.Authorization.{
  role_permission_codes, user_permission_codes, user_has_permission, get_application_role_by_code,
  has_grant, grant, assign_application_role,
}
use ketabdan_ms.Accounts.Grants.{grant-grants}
use ketabdan_ms.Cli.{Creation, finish, create_from, create_main}

-- No grant is stored for the id.
abbrev pub Ungranted : ℕ → Db → Type 0
Ungranted id db = any (λ g. g.user_id == id) db.user_application_roles ≡ false

ungranted-has_grant :
    (id role : ℕ) (xs : List UserApplicationRole)
    → any (λ g. g.user_id == id) xs ≡ false
    → any (λ g. (g.user_id == id) && (g.application_role_id == role)) xs ≡ false
ungranted-has_grant id role [] h = refl
ungranted-has_grant id role (x ∷ xs) h =
    let ih = ungranted-has_grant id role xs (ground arith) in ground arith

ungranted-keep :
    (id : ℕ) (xs : List UserApplicationRole)
    → any (λ g. g.user_id == id) xs ≡ false
    → keep (λ g. g.user_id == id) xs ≡ []
ungranted-keep id [] h = refl
ungranted-keep id (x ∷ xs) h = elim (Bool-cases (x.user_id == id)) [
  | inl e ↦ (let h' = rw e at h in cc)
  | inr e ↦ rw e (ungranted-keep id xs (rw e at h))
]

no_permission :
    (db : Db) (user : User) (p : String)
    → Ungranted user.id db
    → user_has_permission db user p ≡ false
unfolding user_has_permission user_permission_codes
no_permission db user p h = rw (ungranted-keep user.id db.user_application_roles h) refl

role_found :
    (db : Db) (code : String) (role : ApplicationRole)
    → get_application_role_by_code db code ≡ some role
    → get_application_role_by_code db role.code ≡ some role
unfolding get_application_role_by_code
role_found db code role h =
    ap (λ c. find (λ (r : ApplicationRole). r.code == c) db.application_roles)
      (==→≡ role.code code (find-holds (λ r. r.code == code) db.application_roles role h))
    ∙ h

module _ (u : Unicode) (hasher : PasswordHasher) where
  assign-fresh :
      (username code : String) (db : Db) (user : User) (role : ApplicationRole)
      → named db (normalize_username u username) ≡ some user
      → get_application_role_by_code db code ≡ some role
      → has_grant db user.id role.id ≡ false
      → assign_application_role u username code db ≡ (ok user, grant db user role)
  unfolding assign_application_role
  assign-fresh username code db user role e e' h = rw (e, e', h) refl

  -- A user who was just created takes any role that is stored.
  created-assign :
      (c : Creation) (db : Db) (code : String) (role : ApplicationRole) (user : User)
      → Ungranted c.id db
      → get_application_role_by_code db code ≡ some role
      → (create_user u hasher c.id c.salt c.username c.password true db).0 ≡ ok user
      → assign_application_role u c.username role.code
          (create_user u hasher c.id c.salt c.username c.password true db).1
        ≡ (
          ok user,
          grant (create_user u hasher c.id c.salt c.username c.password true db).1 user role,
        )
  unfolding get_application_role_by_code
  created-assign c db code role user fresh found h =
      let made = create_user_sound u hasher c.id c.salt c.username c.password true db user h in
      assign-fresh c.username role.code _ user role
        (named-created u hasher c.id c.salt c.username c.username c.password true db user h refl)
        (rw made.written (role_found db code role found))
        (rw (made.written, made.identified)
          (ungranted-has_grant c.id role.id db.user_application_roles fresh))

  -- The row that is stored for the arguments
  abbrev pub user_of : Creation → User
  user_of c = record {
    id = c.id;
    username = normalize_username u c.username;
    password_hash = hasher.hash c.salt c.password;
    active = true;
  }

  -- What `create_user --role code` leaves when it succeeds
  pub record CreatedWith (c : Creation) (db : Db) (code : String) (db' : Db) : Type 0 where
    pub named_well : (normalize_username u c.username == "") ≡ false
    pub long_enough : min_password_length ≤ count c.password
    pub stored : named db' (normalize_username u c.username) ≡ some (user_of c)
    pub by_id : find (λ x. x.id == c.id) db'.users ≡ some (user_of c)
    pub role : ApplicationRole
    pub found : get_application_role_by_code db code ≡ some role
    pub permissions :
        (p : String)
        → user_has_permission db' (user_of c) p ≡ elem p (role_permission_codes db role.id)

  same_user :
      (c : Creation) (db : Db) (user : User) (db' : Db)
      → Created u hasher c.id c.salt c.username c.password true db user db'
      → user ≡ user_of c
  same_user c db user db' made =
      let id = made.identified in
      let name = made.canonical in let hash = made.hashed in let active = made.switched in cc

  find-written :
      (c : Creation) (db : Db) (user : User) (db' : Db)
      → Created u hasher c.id c.salt c.username c.password true db user db'
      → find (λ x. x.id == c.id) db'.users ≡ some (user_of c)
  find-written c db user db' made =
      ap (λ tables. find (λ x. x.id == c.id) tables.users) made.written
      ∙ ap (λ x. find (λ y. y.id == c.id) (x ∷ db.users)) (same_user c db user db' made)
      ∙ rw (==_refl c.id) refl

  created-permissions :
      (c : Creation) (db : Db) (role : ApplicationRole) (user : User) (p : String)
      → Ungranted c.id db
      → (create_user u hasher c.id c.salt c.username c.password true db).0 ≡ ok user
      → user_has_permission
          (grant (create_user u hasher c.id c.salt c.username c.password true db).1 user role)
          (user_of c)
          p
        ≡ elem p (role_permission_codes db role.id)
  unfolding role_permission_codes
  created-permissions c db role user p fresh h =
      let made = create_user_sound u hasher c.id c.salt c.username c.password true db user h in
      let db' = (create_user u hasher c.id c.salt c.username c.password true db).1 in
      let none : Ungranted user.id db' = rw (made.written, made.identified) fresh in
      let same : (role_permission_codes db' role.id ≡ role_permission_codes db role.id) =
        rw made.written refl in
      ap (λ x. user_has_permission (grant db' user role) x p) (sym (same_user c db user db' made))
      ∙ grant-grants db' user role p
      ∙ or_false (elem p (role_permission_codes db' role.id)) _ (no_permission db' user p none)
      ∙ ap (λ cs. elem p cs) same

  abbrev pub AllOrNothing : Creation → Db → String → ℕ × Db → Type 0
  AllOrNothing c db code (exit, db') =
      ((exit ≡ 0) × CreatedWith c db code db') ⊎ ((exit ≡ 1) × (db' ≡ db))

  given-role :
      (c : Creation) (db : Db) (code : String) (role : ApplicationRole)
      (x : Result CreateError User)
      → Ungranted c.id db
      → get_application_role_by_code db code ≡ some role
      → (create_user u hasher c.id c.salt c.username c.password true db).0 ≡ x
      → AllOrNothing c db code (
          finish u hasher c.username
            (some role)
            (x, (create_user u hasher c.id c.salt c.username c.password true db).1))
  given-role c db code role (err e) fresh found h =
      inr (refl, create_user_atomic u hasher c.id c.salt c.username c.password true db e h)
  given-role c db code role (ok user) fresh found h =
      let made = create_user_sound u hasher c.id c.salt c.username c.password true db user h in
      let same = same_user c db user _ made in
      inl (
        rw (created-assign c db code role user fresh found h) (
          refl,
          record {
            named_well = made.named_well;
            long_enough = made.long_enough;
            stored =
                named-created u hasher c.id c.salt c.username c.username c.password true db user h
                  refl
                ∙ ap (λ x. some x) same;
            by_id = find-written c db user _ made;
            role = role;
            found = found;
            permissions = λ p. created-permissions c db role user p fresh h;
          },
        ))

  asked-AllOrNothing :
      (c : Creation) (db : Db) (code : String)
      → Ungranted c.id db
      → AllOrNothing c db code (create_from u hasher c db (some code))
  asked-AllOrNothing c db code fresh = elim (Option-cases (get_application_role_by_code db code)) [
    | inl e ↦ rw e (inr (refl, refl))
    | inr (role, e) ↦ elim (Bool-cases (c.password == c.confirm)) [
      | inl same ↦ rw (e, same) (given-role c db code role _ fresh e refl)
      | inr differ ↦ rw (e, differ) (inr (refl, refl))
    ]
  ]

  -- Creating a user with a role is all or nothing: either the command exits with 0, an active user with
  -- the canonical name and the hash of the password is stored, under that name and under the id, and
  -- has exactly the permissions of the role with that code, or it exits with 1 and no table changes.
  -- The id that is drawn has no grants.
  pub create_main-AllOrNothing :
      (c : Creation) (db : Db) (code : String)
      → c.role ≡ some code
      → Ungranted c.id db
      → AllOrNothing c db code (create_main u hasher c db)
  unfolding create_main
  create_main-AllOrNothing c db code asked fresh =
      subst (λ o. AllOrNothing c db code (create_from u hasher c db o)) (sym asked)
        (asked-AllOrNothing c db code fresh)
