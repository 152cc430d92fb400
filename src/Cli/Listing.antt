-- ===== src/Cli/Listing.antt =====
-- What `assign_role --list` shows.
use ketabdan_ms.Prelude.{
  ℕ, String, ◌≡◌, refl, ap, ◌∙◌, Bool, true, false, ◌&&◌, some, List, [], ◌∷◌, map, arith, ◌==◌,
  nat_eq, string_eq, ==_refl, ==→≡, keep, any, elem, concat_map,
}
use ketabdan_ms.Prelude.Text.{Unicode}
use ketabdan_ms.Prelude.Sorting.{any-sort}
use ketabdan_ms.Prelude.Membership.{
  any-concat_map, any-keep, any-map, elem-any, find-any, find-holds,
}
use ketabdan_ms.Store.{ApplicationRole, UserApplicationRole, Db}
use ketabdan_ms.Accounts.{normalize_username}
use ketabdan_ms.Accounts.Authorization.{get_application_role_by_code, list_application_roles}
use ketabdan_ms.Cli.{StateLine, holders, print_state, assign_main}
use ketabdan_ms.Cli.Granting.{Holds, assign_main-Holds}

any-same {ℓ} :
    {A : Type ℓ} (p q : A → Bool) → ((x : A) → p x ≡ q x) → (xs : List A) → any p xs ≡ any q xs
any-same p q h [] = refl
any-same p q h (x ∷ xs) = let here = h x in let ih = any-same p q h xs in ground arith

any-more {ℓ} :
    {A : Type ℓ} (p q : A → Bool)
    → ((x : A) → p x ≡ true → q x ≡ true)
    → (xs : List A) → any p xs ≡ true
    → any q xs ≡ true
any-more p q f [] h = h
any-more p q f (x ∷ xs) h = let here = f x in let ih = any-more p q f xs in ground arith

-- A user of the name has a grant of the role.
abbrev pub has_grant_by_name : Db → ℕ → String → Bool
has_grant_by_name db role name =
    any
      (λ g.
        (g.application_role_id == role)
        && any (λ x. (x.id == g.user_id) && (x.username == name)) db.users)
      db.user_application_roles

grant-named :
    (db : Db) (name : String) (user role : ℕ) (g : UserApplicationRole)
    → any (λ x. (x.id == user) && (x.username == name)) db.users ≡ true
    → ((g.user_id == user) && (g.application_role_id == role)) ≡ true
    → ((g.application_role_id == role)
        && any (λ x. (x.id == g.user_id) && (x.username == name)) db.users)
      ≡ true
grant-named db name user role g h e =
    let same : g.user_id ≡ user = ==→≡ g.user_id user (ground arith) in
    let fits : (g.application_role_id == role) ≡ true = ground arith in rw (same, fits) h

module _ (collate : String → String → Bool) where
  holders-elem :
      (db : Db) (role : ApplicationRole) (name : String)
      → elem name (holders collate db role) ≡ has_grant_by_name db role.id name
  unfolding holders
  holders-elem db role name =
      let named_so : String → Bool = λ x. x == name in
      let names : UserApplicationRole → List String =
        λ g. map (λ x. x.username) (keep (λ x. x.id == g.user_id) db.users) in
      let of_role : UserApplicationRole → Bool = λ g. g.application_role_id == role.id in
      elem-any name (holders collate db role)
      ∙ any-sort collate named_so (concat_map names (keep of_role db.user_application_roles))
      ∙ any-concat_map named_so names (keep of_role db.user_application_roles)
      ∙ any-keep (λ g. any named_so (names g)) of_role db.user_application_roles
      ∙ any-same (λ g. of_role g && any named_so (names g))
          (λ g. of_role g && any (λ x. (x.id == g.user_id) && (x.username == name)) db.users)
          (λ g.
            ap (λ b. of_role g && b)
              (any-map named_so (λ x. x.username) (keep (λ x. x.id == g.user_id) db.users)
                ∙ any-keep (λ x. x.username == name) (λ x. x.id == g.user_id) db.users))
          db.user_application_roles

  -- The listing has a line with the code and the name exactly if a row with the code is stored and a
  -- user of the name has a grant of it.
  pub print_state-any :
      (db : Db) (code name : String)
      → any (λ line. (line.code == code) && elem name line.holders) (print_state collate db)
        ≡ any
            (λ role. (role.code == code) && has_grant_by_name db role.id name)
            db.application_roles
  unfolding print_state list_application_roles
  print_state-any db code name =
      let shows : StateLine → Bool = λ line. (line.code == code) && elem name line.holders in
      let line_of : ApplicationRole → StateLine =
        λ role. record { code = role.code; name = role.name; holders = holders collate db role } in
      any-map shows line_of (list_application_roles collate db)
      ∙ any-sort (λ (a b : ApplicationRole). collate a.code b.code) (λ role. shows (line_of role))
          db.application_roles
      ∙ any-same (λ role. shows (line_of role))
          (λ role. (role.code == code) && has_grant_by_name db role.id name)
          (λ role. ap (λ b. (role.code == code) && b) (holders-elem db role name))
          db.application_roles

  Holds-listed :
      (u : Unicode) (username code : String) (db : Db)
      → Holds u username code db
      → any
          (λ line. (line.code == code) && elem (normalize_username u username) line.holders)
          (print_state collate db)
        ≡ true
  unfolding get_application_role_by_code
  Holds-listed u username code db h =
      let name = normalize_username u username in
      let its_name = find-holds (λ x. x.username == name) db.users h.user h.stored in
      let its_code = find-holds (λ r. r.code == code) db.application_roles h.role h.found in
      let in_users : any (λ x. (x.id == h.user.id) && (x.username == name)) db.users ≡ true =
        find-any (λ x. (x.id == h.user.id) && (x.username == name)) (λ x. x.username == name)
          db.users h.user h.stored (rw (==_refl h.user.id, its_name) refl) in
      let in_grants : has_grant_by_name db h.role.id name ≡ true =
        any-more (λ g. (g.user_id == h.user.id) && (g.application_role_id == h.role.id))
          (λ g.
            (g.application_role_id == h.role.id)
            && any (λ x. (x.id == g.user_id) && (x.username == name)) db.users)
          (λ g e. grant-named db name h.user.id h.role.id g in_users e) db.user_application_roles
          h.held in
      print_state-any db code name
      ∙ find-any (λ role. (role.code == code) && has_grant_by_name db role.id name)
          (λ r. r.code == code) db.application_roles h.role h.found (rw (its_code, in_grants) refl)

  -- After the command has granted a role, or found it held, the listing shows the user under the
  -- code of the role; and it shows, for any tables, exactly the names with a grant.
  pub assign_main-print_state :
      (u : Unicode) (username code : String) (db : Db) (any_code any_name : String)
      → (assign_main u false (some username) (some code) db).0 ≡ 0
      → (any
            (λ line. (line.code == code) && elem (normalize_username u username) line.holders)
            (print_state collate (assign_main u false (some username) (some code) db).1)
          ≡ true)
        × (any
              (λ line. (line.code == any_code) && elem any_name line.holders)
              (print_state collate db)
            ≡ any
                (λ role. (role.code == any_code) && has_grant_by_name db role.id any_name)
                db.application_roles)
  assign_main-print_state u username code db any_code any_name h = (
    Holds-listed u username code _ (assign_main-Holds u username code db h),
    print_state-any db any_code any_name,
  )
