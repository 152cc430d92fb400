-- ===== src/Cli.antt =====
-- The commands apps/api/app/create_user.py and assign_role.py, from their parsed arguments to the exit
-- code, and the listing. Other printed texts are left out; Python exits with 1 after an exception that
-- nothing catches.
pub mod Creating
pub mod Granting
pub mod Listing
mod Tests
use ketabdan_ms.Prelude.{
  ℕ, zero, suc, ◌+◌, ◌-◌, ◌*◌, ◌/◌, ◌%◌, ◌^◌, ◌≤◌, ◌<◌, String, ◌≡◌, refl, sym, ap, ◌∙◌, ◌≢◌, ◌↔◌,
  ◌⊎◌, inl, inr, Bool, true, false, not, ◌&&◌, ◌||◌, Option, none, some, List, [], ◌∷◌, ◌++◌, map,
  arith, eq_iff, ltb, leb, eqb, if◌then◌else◌, Bool-cases, Option-cases, ltb→lt, lt→ltb, leb→le, Eq,
  ◌==◌, nat_eq, string_eq, ==_refl, ==→≡, Result, ok, err, ◌>>=◌, >>=-eq-ok, length, length-append,
  find, keep, any, elem, or_false, concat_map,
}
use ketabdan_ms.Prelude.Text.{Unicode}
use ketabdan_ms.Store.{User, ApplicationRole, Db}
use ketabdan_ms.Accounts.{PasswordHasher, CreateError, create_user}
use ketabdan_ms.Prelude.Sorting.{sort}
use ketabdan_ms.Accounts.Authorization.{
  list_application_roles, AssignError, user_not_found, unknown_application_role,
  role_already_granted, get_application_role_by_code, assign_application_role,
}

-- What a run of `create_user` is given: the arguments, the two passwords that are typed, and what is
-- drawn for the row
pub record Creation : Type 0 where
  pub username : String
  pub role : Option String
  pub password : String
  pub confirm : String
  pub id : ℕ
  pub salt : ℕ

abbrev pub exit_of : {E A : Type 0} → Result E A → ℕ
exit_of (ok a) = 0
exit_of (err e) = 1

module _ (u : Unicode) (hasher : PasswordHasher) where
  abbrev pub grant_role : String → Option ApplicationRole → Db → ℕ × Db
  grant_role username none db = (0, db)
  grant_role username (some role) db =
      let (result, db') = assign_application_role u username role.code db in (exit_of result, db')

  abbrev pub finish : String → Option ApplicationRole → Result CreateError User × Db → ℕ × Db
  finish username role (err e, db) = (1, db)
  finish username role (ok user, db) = grant_role username role db

  abbrev pub create_with : Creation → Option ApplicationRole → Db → ℕ × Db
  create_with c role db =
      if not (c.password == c.confirm)
      then (1, db)
      else finish c.username role (create_user u hasher c.id c.salt c.username c.password true db)

  -- The role is looked up before the passwords are asked for.
  abbrev pub with_role : Creation → Db → Option ApplicationRole → ℕ × Db
  with_role c db none = (1, db)
  with_role c db (some role) = create_with c (some role) db

  abbrev pub create_from : Creation → Db → Option String → ℕ × Db
  create_from c db none = create_with c none db
  create_from c db (some code) = with_role c db (get_application_role_by_code db code)

  unfoldable pub create_main : Creation → Db → ℕ × Db
  create_main c db = create_from c db c.role

module _ (u : Unicode) where
  -- A role that is already held is nothing to do.
  abbrev pub assign_exit : Result AssignError User × Db → ℕ × Db
  assign_exit (ok user, db) = (0, db)
  assign_exit (err (user_not_found name), db) = (1, db)
  assign_exit (err (unknown_application_role code), db) = (1, db)
  assign_exit (err (role_already_granted name code), db) = (0, db)

  abbrev pub or_blank : Option String → String
  or_blank none = ""
  or_blank (some s) = s

  unfoldable pub assign_main : Bool → (username role_code : Option String) → Db → ℕ × Db
  assign_main listing username role_code db =
      if listing
      then (0, db)
      else (if (or_blank username == "") || (or_blank role_code == "")
          then (2, db)
          else assign_exit (assign_application_role u (or_blank username) (or_blank role_code) db))

-- A line of `--list`: a role and the names of those who hold it.
pub record StateLine : Type 0 where
  pub code : String
  pub name : String
  pub holders : List String

module _ (collate : String → String → Bool) where
  unfoldable pub holders : Db → ApplicationRole → List String
  holders db role = sort collate (
      concat_map (λ g. map (λ x. x.username) (keep (λ x. x.id == g.user_id) db.users))
        (keep (λ g. g.application_role_id == role.id) db.user_application_roles))

  unfoldable pub print_state : Db → List StateLine
  unfolding list_application_roles
  print_state db =
      map (λ role. record { code = role.code; name = role.name; holders = holders db role })
        (list_application_roles collate db)
