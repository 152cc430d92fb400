-- ===== src/Api/Service/Access.antt =====
-- What a login's upgrade of a hash leaves: ids, whether users are active, and so every guard's answer.
use ketabdan_ms.Prelude.{
  ℕ, String, ◌≡◌, refl, sym, ap, ◌∙◌, inl, inr, Bool, true, false, Option, none, some, List,
  if◌then◌else◌, Bool-cases, ◌==◌, nat_eq, string_eq, ==→≡, Result, ok, err,
}
use ketabdan_ms.Store.{User, Db}
use ketabdan_ms.Prelude.Text.{lower}
use ketabdan_ms.Uuid.{uuid_of}
use ketabdan_ms.Accounts.{update}
use ketabdan_ms.Accounts.Rows.{with_id, with_id-update, with_id-update-other}
use ketabdan_ms.Accounts.Tokens.{TokenError, invalid_token, insecure_secret, resolve_token_subject}
use ketabdan_ms.Accounts.Authorization.{
  role_permission_codes, user_permission_codes, user_has_permission,
}
use ketabdan_ms.Api.{
  Reply, replied, failed, uncaught, unauthorized, World, Credentials, user_by_id, live_user,
  user_of_id, user_of_subject, get_current_user, check_permission, require_permission,
}

-- What the guards read of a row
abbrev pub key : Option User → Option (ℕ × Bool)
key none = none
key (some user) = some (user.id, user.active)

pub record SameAccess (db db' : Db) : Type 0 where
  pub users : (n : ℕ) → key (user_by_id db n) ≡ key (user_by_id db' n)
  pub grants : db.user_application_roles ≡ db'.user_application_roles
  pub links : db.application_role_permissions ≡ db'.application_role_permissions
  pub permissions : db.permissions ≡ db'.permissions

pub SameAccess-refl : (db : Db) → SameAccess db db
SameAccess-refl db = record { users = λ n. refl; grants = refl; links = refl; permissions = refl }

pub SameAccess-trans : (a b c : Db) → SameAccess a b → SameAccess b c → SameAccess a c
SameAccess-trans a b c s t = record {
  users = λ n. s.users n ∙ t.users n;
  grants = s.grants ∙ t.grants;
  links = s.links ∙ t.links;
  permissions = s.permissions ∙ t.permissions;
}

pub update-key :
    (user row : User) (xs : List User) (n : ℕ)
    → with_id row.id xs ≡ some row
    → user.id ≡ row.id
    → user.active ≡ row.active
    → key (with_id n xs) ≡ key (with_id n (update user xs))
update-key user row xs n h id active = elim (Bool-cases (user.id == n)) [
  | inl e ↦
      (let same = ==→≡ user.id n e in
        let found : (with_id n xs ≡ some row) = ap (λ m. with_id m xs) (sym same ∙ id) ∙ h in
        let after : (with_id n (update user xs) ≡ some user) =
          ap (λ m. with_id m (update user xs)) (sym same)
          ∙ with_id-update user row xs (ap (λ m. with_id m xs) id ∙ h) in
        ap key found ∙ ap (λ k. some k) (rw (id, active) refl) ∙ ap key (sym after))
  | inr e ↦ ap key (sym (with_id-update-other n user xs e))
]

pub same-user_has_permission :
    (db db' : Db) (x y : User) (permission : String)
    → SameAccess db db'
    → x.id ≡ y.id
    → user_has_permission db x permission ≡ user_has_permission db' y permission
unfolding user_has_permission user_permission_codes role_permission_codes
same-user_has_permission db db' x y permission s id = rw (s.grants, s.links, s.permissions, id) refl

-- The answer is not an exception.
abbrev pub admitted : {A : Type 0} → Reply A → Bool
admitted (replied status a) = true
admitted (failed status detail header) = false
admitted (uncaught name) = false

module _ (w : World) (db db' : Db) (s : SameAccess db db') (permission : String) where
  checked-same :
      (x y : User) (status : ℕ)
      → x.id ≡ y.id
      → admitted (check_permission w permission db (replied status x))
        ≡ admitted (check_permission w permission db' (replied status y))
  checked-same x y status id = elim (Bool-cases (user_has_permission db' y permission)) [
    | inl e ↦ rw (same-user_has_permission db db' x y permission s id, e) refl
    | inr e ↦ rw (same-user_has_permission db db' x y permission s id, e) refl
  ]

  if-same :
      (x y : User)
      → x.id ≡ y.id
      → (b b' : Bool) → b ≡ b'
      → admitted (check_permission w permission db (if b then replied 200 x else unauthorized))
        ≡ admitted (check_permission w permission db' (if b' then replied 200 y else unauthorized))
  if-same x y id true true h = checked-same x y 200 id
  if-same x y id true false h = cc
  if-same x y id false true h = cc
  if-same x y id false false h = refl

  live-same :
      (o o' : Option User)
      → key o ≡ key o'
      → admitted (check_permission w permission db (live_user w o))
        ≡ admitted (check_permission w permission db' (live_user w o'))
  live-same none none h = refl
  live-same none (some y) h = cc
  live-same (some x) none h = cc
  live-same (some x) (some y) h =
      let id : (x.id ≡ y.id) = cc in
      let active : (x.active ≡ y.active) = cc in if-same x y id x.active y.active active

  id-same :
      (o : Option ℕ)
      → admitted (check_permission w permission db (user_of_id w db o))
        ≡ admitted (check_permission w permission db' (user_of_id w db' o))
  id-same none = refl
  id-same (some id) = live-same (user_by_id db id) (user_by_id db' id) (s.users id)

  subject-same :
      (x : Result TokenError String)
      → admitted (check_permission w permission db (user_of_subject w db x))
        ≡ admitted (check_permission w permission db' (user_of_subject w db' x))
  subject-same (ok subject) = id-same (uuid_of w.unicode subject)
  subject-same (err invalid_token) = refl
  subject-same (err insecure_secret) = refl

  -- The guard decides the same in tables that give the same access.
  pub require_permission-same :
      (now : ℕ) (c : Option Credentials)
      → admitted (require_permission w permission now c db)
        ≡ admitted (require_permission w permission now c db')
  unfolding require_permission get_current_user
  require_permission-same now none = refl
  require_permission-same now (some c) = elim (Bool-cases (lower w.unicode c.scheme == "bearer")) [
    | inl e ↦ rw e (subject-same (resolve_token_subject w.jwt w.settings now c.credentials))
    | inr e ↦ rw e refl
  ]
