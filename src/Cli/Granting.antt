-- ===== src/Cli/Granting.antt =====
-- The command that grants a role.
use ketabdan_ms.Prelude.{
  String, ◌≡◌, refl, inl, inr, true, false, ◌||◌, some, arith, Bool-cases, Option-cases, ◌==◌,
  nat_eq, string_eq, ==_refl,
}
use ketabdan_ms.Prelude.Text.{Unicode}
use ketabdan_ms.Store.{User, ApplicationRole, Db}
use ketabdan_ms.Accounts.{normalize_username, named}
use ketabdan_ms.Accounts.Authorization.{
  get_application_role_by_code, has_grant, assign_application_role,
}
use ketabdan_ms.Cli.{assign_exit, assign_main}

module _ (u : Unicode) where
  -- The user and the role are stored, and the user holds the role.
  pub record Holds (username code : String) (db : Db) : Type 0 where
    pub user : User
    pub stored : named db (normalize_username u username) ≡ some user
    pub role : ApplicationRole
    pub found : get_application_role_by_code db code ≡ some role
    pub held : has_grant db user.id role.id ≡ true

  granted :
      (username code : String) (db : Db)
      → (assign_exit u (assign_application_role u username code db)).0 ≡ 0
      → Holds username code (assign_exit u (assign_application_role u username code db)).1
  unfolding assign_application_role get_application_role_by_code
  granted username code db h = elim (Option-cases (named db (normalize_username u username))) [
    | inl e ↦ (let h' = rw e at h in absurd (omega (arith, h')))
    | inr (user, e) ↦ elim (Option-cases (get_application_role_by_code db code)) [
      | inl e' ↦ (let h' = rw (e, e') at h in absurd (omega (arith, h')))
      | inr (role, e') ↦ elim (Bool-cases (has_grant db user.id role.id)) [
        | inl e'' ↦
            rw (e, e', e'')
              (record { user = user; stored = e; role = role; found = e'; held = e'' })
        | inr e'' ↦
            rw (e, e', e'')
              (record {
                user = user;
                stored = e;
                role = role;
                found = e';
                held = rw (==_refl user.id, ==_refl role.id) refl;
              })
      ]
    ]
  ]

  -- Granting a role exits with 0 only if afterwards the user and the role are stored and the user
  -- holds the role, whether it was granted now or held before.
  pub assign_main-Holds :
      (username code : String) (db : Db)
      → (assign_main u false (some username) (some code) db).0 ≡ 0
      → Holds username code (assign_main u false (some username) (some code) db).1
  unfolding assign_main
  assign_main-Holds username code db h = elim (Bool-cases ((username == "") || (code == ""))) [
    | inl e ↦ (let h' = rw e at h in absurd (omega (arith, h')))
    | inr e ↦ rw e (granted username code db (rw e at h))
  ]
