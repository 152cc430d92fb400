-- ===== src/Accounts/Grants.antt =====
-- Permissions follow the grants: the joins, and what assigning a role changes.
use ketabdan_ms.Prelude.{
  ℕ, String, ◌≡◌, refl, sym, ◌∙◌, ◌≢◌, ◌↔◌, inl, inr, Bool, true, false, ◌&&◌, ◌||◌, Option, none,
  some, List, map, arith, eq_iff, Bool-cases, Option-cases, ◌==◌, nat_eq, string_eq, ==_refl, ==→≡,
  ok, err, keep, any, Any, elem,
}
use ketabdan_ms.Prelude.Membership.{
  any-concat_map, any-keep, any-map, elem-any, any_iff, elem-append,
}
use ketabdan_ms.Prelude.Text.{Unicode}
use ketabdan_ms.Store.{
  User, ApplicationRole, Permission, ApplicationRolePermission, UserApplicationRole, Db,
}
use ketabdan_ms.Accounts.{normalize_username, named}
use ketabdan_ms.Accounts.Authorization.{
  AssignError, role_already_granted, role_permission_codes, user_permission_codes,
  user_has_permission, get_application_role_by_code, has_grant, grant, assign_role,
  assign_application_role,
}

-- A role is linked with a permission of the code.
abbrev pub HasLink : Db → ℕ → String → Type 0
HasLink db role code =
    Any
      (λ link.
        (link.application_role_id ≡ role)
        × Any (λ p. (p.id ≡ link.permission_id) × (p.code ≡ code)) db.permissions)
      db.application_role_permissions

-- A chain of rows by which the user has the permission
abbrev pub GrantedBy : Db → User → String → UserApplicationRole → Type 0
GrantedBy db user code g = (g.user_id ≡ user.id) × HasLink db g.application_role_id code

equal_iff : {P : Type 0} (a b : Bool) → a ≡ b → (b ≡ true) ↔ P → (a ≡ true) ↔ P
equal_iff a b e h = rw e h

permission_iff :
    (id : ℕ) (code : String) (ps : List Permission)
    → (any (λ x. x == code) (map (λ p. p.code) (keep (λ p. p.id == id) ps)) ≡ true)
      ↔ Any (λ p. (p.id ≡ id) × (p.code ≡ code)) ps
permission_iff id code ps =
    equal_iff _ _
      (any-map (λ x. x == code) (λ p. p.code) (keep (λ p. p.id == id) ps)
        ∙ any-keep (λ p. p.code == code) (λ p. p.id == id) ps)
      (any_iff _ _ (λ p. ground (arith, eq_iff p.code code)) ps)

abbrev codes_of : Db → ApplicationRolePermission → List String
codes_of db link = map (λ p. p.code) (keep (λ p. p.id == link.permission_id) db.permissions)

role_permission_iff :
    (db : Db) (role : ℕ) (code : String)
    → (any (λ x. x == code) (role_permission_codes db role) ≡ true) ↔ HasLink db role code
unfolding role_permission_codes
role_permission_iff db role code =
    equal_iff _ _
      (any-concat_map (λ x. x == code) (codes_of db)
          (keep (λ l. l.application_role_id == role) db.application_role_permissions)
        ∙ any-keep (λ l. any (λ x. x == code) (codes_of db l)) (λ l. l.application_role_id == role)
            db.application_role_permissions)
      (any_iff (λ l. (l.application_role_id == role) && any (λ x. x == code) (codes_of db l)) _
        (λ l. let h = permission_iff l.permission_id code db.permissions in ground arith)
        db.application_role_permissions)

-- A user has a permission exactly when a chain of rows grants it: a grant of the user, a link of
-- the granted role, and a permission with that code.
pub user_has_permission_iff :
    (db : Db) (user : User) (code : String)
    → (user_has_permission db user code ≡ true)
      ↔ Any (GrantedBy db user code) db.user_application_roles
unfolding user_has_permission user_permission_codes
user_has_permission_iff db user code =
    equal_iff _ _
      (elem-any code (user_permission_codes db user)
        ∙ any-concat_map (λ x. x == code) (λ g. role_permission_codes db g.application_role_id)
            (keep (λ g. g.user_id == user.id) db.user_application_roles)
        ∙ any-keep (λ g. any (λ x. x == code) (role_permission_codes db g.application_role_id))
            (λ g. g.user_id == user.id) db.user_application_roles)
      (any_iff
        (λ g.
          (g.user_id == user.id)
          && any (λ x. x == code) (role_permission_codes db g.application_role_id))
        _ (λ g. let h = role_permission_iff db g.application_role_id code in ground arith)
        db.user_application_roles)

same_role : (r r' : ApplicationRole) → some r ≡ some r' → r ≡ r'
same_role r r' h = cc

pub grant-grants :
    (db : Db) (user : User) (role : ApplicationRole) (code : String)
    → user_has_permission (grant db user role) user code
      ≡ (elem code (role_permission_codes db role.id) || user_has_permission db user code)
unfolding user_has_permission user_permission_codes role_permission_codes
grant-grants db user role code =
    rw (==_refl user.id)
      (elem-append code (role_permission_codes db role.id) (user_permission_codes db user))

grant-others :
    (db : Db) (user other : User) (role : ApplicationRole) (code : String)
    → user.id ≢ other.id
    → user_has_permission (grant db user role) other code ≡ user_has_permission db other code
unfolding user_has_permission user_permission_codes role_permission_codes
grant-others db user other role code d = elim (Bool-cases (user.id == other.id)) [
  | inl e ↦ absurd (d (==→≡ user.id other.id e))
  | inr e ↦ rw e refl
]

grant-held :
    (db : Db) (user : User) (role : ApplicationRole)
    → has_grant (grant db user role) user.id role.id ≡ true
grant-held db user role = rw (==_refl user.id, ==_refl role.id) refl

module _ (u : Unicode) where
  assign-held :
      (username role_code : String) (db : Db) (user : User) (role : ApplicationRole)
      → named db (normalize_username u username) ≡ some user
      → get_application_role_by_code db role_code ≡ some role
      → has_grant db user.id role.id ≡ true
      → assign_application_role u username role_code db
        ≡ (err (role_already_granted (normalize_username u username) role_code), db)
  unfolding assign_application_role
  assign-held username role_code db user role e e' h = rw (e, e', h) refl

  -- An assignment that raises changes no table.
  pub assign_atomic :
      (username code : String) (db : Db) (e : AssignError)
      → (assign_application_role u username code db).0 ≡ err e
      → (assign_application_role u username code db).1 ≡ db
  unfolding assign_application_role
  assign_atomic username code db e h = ground arith

  pub record Assigned (username code : String) (db : Db) (user : User) (db' : Db) : Type 0 where
    pub stored : named db (normalize_username u username) ≡ some user
    pub role : ApplicationRole
    pub found : get_application_role_by_code db code ≡ some role
    pub fresh : has_grant db user.id role.id ≡ false
    pub written : db' ≡ grant db user role

  assigned :
      (username code : String) (db : Db) (row user : User) (o : Option ApplicationRole)
      → named db (normalize_username u username) ≡ some row
      → get_application_role_by_code db code ≡ o
      → (assign_role (normalize_username u username) code db row o).0 ≡ ok user
      → Assigned username code db user (assign_role (normalize_username u username) code db row o).1
  assigned username code db row user none e e' h = cc
  assigned username code db row user (some role) e e' h = record {
    stored = ground arith;
    role = role;
    found = e';
    fresh = ground arith;
    written = ground arith;
  }

  -- An assignment that succeeds found the user and the role, the user did not hold the role, and one
  -- grant is added.
  pub assign_sound :
      (username code : String) (db : Db) (user : User)
      → (assign_application_role u username code db).0 ≡ ok user
      → Assigned username code db user (assign_application_role u username code db).1
  unfolding assign_application_role
  assign_sound username code db user h =
      elim (Option-cases (named db (normalize_username u username))) [
        | inl e ↦ (let h' = rw e at h in cc)
        | inr (row, e) ↦ rw e (assigned username code db row user _ e refl (rw e at h))
      ]

  -- An assignment that succeeds gives the user exactly the permissions of the role with that code,
  -- besides those that the user had.
  pub assign-grants :
      (username role_code code : String) (db : Db) (user : User) (role : ApplicationRole)
      → (assign_application_role u username role_code db).0 ≡ ok user
      → get_application_role_by_code db role_code ≡ some role
      → user_has_permission (assign_application_role u username role_code db).1 user code
        ≡ (elem code (role_permission_codes db role.id) || user_has_permission db user code)
  assign-grants username role_code code db user role h e =
      let a = assign_sound username role_code db user h in
      rw (a.written, same_role a.role role (sym a.found ∙ e)) (grant-grants db user role code)

  -- An assignment that succeeds changes the permissions of no user with another id.
  assign-others :
      (username role_code code : String) (db : Db) (user other : User)
      → (assign_application_role u username role_code db).0 ≡ ok user
      → user.id ≢ other.id
      → user_has_permission (assign_application_role u username role_code db).1 other code
        ≡ user_has_permission db other code
  assign-others username role_code code db user other h d =
      let a = assign_sound username role_code db user h in
      rw a.written (grant-others db user other a.role code d)

  -- After an assignment that succeeds, assigning the same role to the same username again is refused
  -- as already granted, and changes nothing.
  assign-twice :
      (username role_code : String) (db : Db) (user : User)
      → (assign_application_role u username role_code db).0 ≡ ok user
      → assign_application_role u username role_code
          (assign_application_role u username role_code db).1
        ≡ (
          err (role_already_granted (normalize_username u username) role_code),
          (assign_application_role u username role_code db).1,
        )
  unfolding get_application_role_by_code
  assign-twice username role_code db user h =
      let a = assign_sound username role_code db user h in
      rw a.written (
        assign-held username role_code (grant db user a.role) user a.role a.stored a.found
          (grant-held db user a.role))
