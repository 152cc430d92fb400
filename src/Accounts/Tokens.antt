-- ===== src/Accounts/Tokens.antt =====
-- The tokens of apps/api/app/core/security.py and services/auth.py. PyJWT is a parameter: `decode`
-- gets the token, the key, the algorithms and the time, and returns the claims or raises, with the
-- name of the exception. Times are whole seconds.
use ketabdan_ms.Prelude.{
  ℕ, ◌+◌, String, Bool, true, false, not, Option, none, some, List, [], ◌∷◌, if◌then◌else◌, ◌==◌,
  nat_eq, string_eq, Result, ok, err, elem,
}
use ketabdan_ms.Json.{Json, Fields, str, int, pos, field, end, get}
use ketabdan_ms.Config.{Settings}
use ketabdan_ms.Accounts.{is_secure_auth_secret}

pub record Jwt : Type 0 where
  pub encode : Fields → String → String → String
  pub decode : String → String → List String → ℕ → Result String Fields

abbrev pub jwt_algorithms : List String
jwt_algorithms = "HS256" ∷ []

abbrev pub access_token_type : String
access_token_type = "access"

abbrev pub access_claims : String → ℕ → ℕ → Fields
access_claims subject now lifetime = field "sub" (str subject) (
    field "typ" (str access_token_type)
      (field "iat" (int (pos now)) (field "exp" (int (pos (now + lifetime))) end)))

-- The token, and its lifetime in seconds.
unfoldable pub create_access_token : Jwt → ℕ → String → String → String → ℕ → String × ℕ
create_access_token jwt now subject secret_key algorithm lifetime =
    (jwt.encode (access_claims subject now lifetime) secret_key algorithm, lifetime)

-- `InvalidTokenError` carries nothing.
pub data TokenError : Type 0 where
  invalid_token : TokenError
  insecure_secret : TokenError

-- `payload.get("typ", "access") != "access"`
abbrev pub has_other_type : Option Json → Bool
has_other_type none = false
has_other_type (some (str t)) = not (t == access_token_type)
has_other_type (some _) = true

abbrev pub subject_of : Option Json → Result TokenError String
subject_of (some (str s)) = if s == "" then err invalid_token else ok s
subject_of _ = err invalid_token

abbrev pub read_claims : Result String Fields → Result TokenError String
read_claims (err name) = err invalid_token
read_claims (ok claims) =
    if has_other_type (get "typ" claims) then err invalid_token else subject_of (get "sub" claims)

abbrev pub accepted_algorithms : String → List String
accepted_algorithms algorithm =
    if elem algorithm jwt_algorithms then jwt_algorithms else algorithm ∷ []

unfoldable pub decode_access_token : Jwt → ℕ → String → String → String → Result TokenError String
unfolding get
decode_access_token jwt now token secret_key algorithm =
    read_claims (jwt.decode token secret_key (accepted_algorithms algorithm) now)

unfoldable pub resolve_token_subject : Jwt → Settings → ℕ → String → Result TokenError String
resolve_token_subject jwt settings now token =
    if not (is_secure_auth_secret settings)
    then err insecure_secret
    else decode_access_token jwt now token settings.auth_secret_key settings.auth_algorithm
