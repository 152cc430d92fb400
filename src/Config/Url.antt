-- ===== src/Config/Url.antt =====
-- `urllib.parse.urlsplit`, as far as config.py uses it: scheme, network location and path.
use ketabdan_ms.Prelude.{
  ℕ, String, Bool, true, false, not, ◌&&◌, ◌||◌, Option, none, some, [], ◌∷◌, leb, if◌then◌else◌,
  ◌==◌, nat_eq, string_eq,
}
use Prim.Native.Char.{code}
use Prim.Native.String.{[], ◌∷◌}
use ketabdan_ms.Prelude.Text.{translate, capitals, small_letters}

-- The checks of the standard library on a network location that end in a ValueError: a bracketed
-- host that is no IP address, and a name whose Unicode normal form has a delimiter.
pub record UrlChecks : Type 0 where
  pub bad_bracketed_host : String → Bool
  pub bad_normal_form : String → Bool

pub record UrlParts : Type 0 where
  pub scheme : String
  pub netloc : String
  pub path : String

-- Leading control characters and spaces go, and so does every tab and line break.
drop_control : String → String
drop_control [] = []
drop_control (c ∷ s) = if leb (code c) 32 then drop_control s else c ∷ s

drop_breaks : String → String
drop_breaks [] = []
drop_breaks (c ∷ s) =
    let rest = drop_breaks s in
    if code c == 9 || code c == 10 || code c == 13 then rest else c ∷ rest

-- The text before the first character that is in `stops`, and the text from there on.
break_at : (ℕ → Bool) → String → String × String
break_at stop [] = ([], [])
break_at stop (c ∷ s) =
    let (before, from) = break_at stop s in
    if stop (code c) then ([], c ∷ s) else (c ∷ before, from)

is_letter : ℕ → Bool
is_letter c = (leb b'a' c && leb c b'z') || (leb b'A' c && leb c b'Z')

is_scheme_char : ℕ → Bool
is_scheme_char c = is_letter c || (leb b'0' c && leb c b'9') || c == b'+' || c == b'-' || c == b'.'

all_scheme_chars : String → Bool
all_scheme_chars [] = true
all_scheme_chars (c ∷ s) = is_scheme_char (code c) && all_scheme_chars s

has_char : ℕ → String → Bool
has_char c [] = false
has_char c (d ∷ s) = code d == c || has_char c s

-- A scheme has ASCII letters only where its case is concerned.
ascii_lower : String → String
ascii_lower [] = []
ascii_lower (c ∷ s) = translate capitals small_letters c ∷ ascii_lower s

after_colon : String → String
after_colon [] = []
after_colon (c ∷ s) = s

-- The scheme and the rest: a colon behind a letter and scheme characters.
split_scheme : String → String × String
split_scheme [] = ([], [])
split_scheme (c ∷ s) =
    let (before, from) = break_at (λ d. d == b':') (c ∷ s) in
    if is_letter (code c) && all_scheme_chars before && not (from == [])
    then (ascii_lower before, after_colon from)
    else ([], c ∷ s)

split_netloc : String → String × String
split_netloc (a ∷ b ∷ s) =
    if code a == b'/' && code b == b'/'
    then break_at (λ d. d == b'/' || d == b'?' || d == b'#') s
    else ([], a ∷ b ∷ s)
split_netloc s = ([], s)

module _ (checks : UrlChecks) where
  bad_netloc : String → Bool
  bad_netloc netloc =
      let opened = has_char b'[' netloc in
      let closed = has_char b']' netloc in
      (opened && not closed)
      || (closed && not opened)
      || (opened && closed && checks.bad_bracketed_host netloc)
      || checks.bad_normal_form netloc

  -- `none` is the ValueError.
  unfoldable pub urlsplit : String → Option UrlParts
  unfolding drop_control drop_breaks break_at is_letter is_scheme_char all_scheme_chars has_char
      ascii_lower after_colon split_scheme split_netloc bad_netloc
  urlsplit url =
      let (scheme, rest) = split_scheme (drop_breaks (drop_control url)) in
      let (netloc, tail) = split_netloc rest in
      if bad_netloc netloc
      then none
      else some (record {
        scheme = scheme;
        netloc = netloc;
        path = (break_at (λ d. d == b'#' || d == b'?') tail).0;
      })
