-- ===== src/Deployment.antt =====
-- scripts/verify_deployment.py: the checks of a deployed stack and the exit code. The network, docker
-- and the parser of JSON are a record; the printed details are left out. A check that raises what it
-- does not catch ends the run.
pub mod Checks
pub mod Containers
pub mod Expected
pub mod Passing
pub mod Replies
pub mod Stack
pub mod Verdict
mod Tests
use ketabdan_ms.Prelude.{
  ℕ, zero, suc, ◌+◌, ◌-◌, ◌*◌, ◌/◌, ◌%◌, ◌^◌, ◌≤◌, ◌<◌, String, ◌≡◌, refl, sym, ap, ◌∙◌, ◌≢◌, ◌↔◌,
  ◌⊎◌, inl, inr, Bool, true, false, not, ◌&&◌, ◌||◌, Option, none, some, List, [], ◌∷◌, ◌++◌, map,
  arith, eq_iff, ltb, leb, eqb, if◌then◌else◌, Bool-cases, Option-cases, ltb→lt, lt→ltb, leb→le, Eq,
  ◌==◌, nat_eq, string_eq, ==_refl, ==→≡, Result, ok, err, ◌>>=◌, >>=-eq-ok, length, length-append,
  find, keep, any, elem,
}
use ketabdan_ms.Prelude.Text.{Unicode, after_prefix}
use ketabdan_ms.Json.{Json, null, bool, int, float, str, arr, obj, nil, cons, end, Fields, get, pos}

pub data Status : Type 0 where
  pass : Status
  fail : Status
  skip : Status

pub record Row : Type 0 where
  pub name : String
  pub status : Status

-- The rows that a check records, and whether it ends in an exception
pub record Checked : Type 0 where
  pub rows : List Row
  pub crashed : Bool

pub record Response : Type 0 where
  pub status : ℕ
  pub header : String → Option String
  pub body : String

pub data Fetched : Type 0 where
  answered : Response → Fetched
  os_error : Fetched
  other_error : Fetched

pub record Sent : Type 0 where
  pub base : String
  pub path : String
  pub method : String
  pub authorization : Option String
  pub body : Option String

pub record Publisher : Type 0 where
  pub published_port : Option ℕ
  pub target_port : ℕ

pub record Container : Type 0 where
  pub service : Option String
  pub name : Option String
  pub publishers : List Publisher
  pub state : Option String
  pub health : Option String

pub data Listed : Type 0 where
  containers : List Container → Listed
  listing_failed : Listed
  listing_raised : Listed

pub data Probe : Type 0 where
  exited : (code : ℕ) (stdout : String) → Probe
  probe_failed : Probe

-- What the script sees: the fetch of each position in the script, the probe of the metrics inside
-- the network, the listening ports and the containers
pub record Site : Type 0 where
  pub unicode : Unicode
  pub fetch : ℕ → Sent → Fetched
  pub loads : String → Option Json
  pub dumps_login : String → String → String
  pub repr : Json → String
  pub probe : Probe
  pub listening : ℕ → Bool
  pub compose_ps : Listed

unfoldable pub verdict : String → Bool → Checked
verdict name b = record {
  rows = record { name = name; status = if b then pass else fail } ∷ [];
  crashed = false;
}

abbrev pub skipped : String → Checked
skipped name = record { rows = record { name = name; status = skip } ∷ []; crashed = false }

abbrev pub crash : Checked
crash = record { rows = []; crashed = true }

-- The second check runs if the first does not raise.
unfoldable pub then_check : Checked → Checked → Checked
then_check a b = if a.crashed then a else record { rows = a.rows ++ b.rows; crashed = b.crashed }

abbrev pub judged : String → Option Bool → Checked
judged name none = crash
judged name (some b) = verdict name b

-- The shape of a check: an `OSError` is a failure, and what a judgement of the reply raises is not
-- caught.
abbrev pub check_reply : String → (Response → Option Bool) → Fetched → Checked
check_reply name judge (answered r) = judged name (judge r)
check_reply name judge os_error = verdict name false
check_reply name judge other_error = crash

abbrev pub get_request : String → String → Sent
get_request base path = record {
  base = base;
  path = path;
  method = "GET";
  authorization = none;
  body = none;
}

abbrev pub or_empty : Option String → String
or_empty none = ""
or_empty (some s) = s

abbrev pub starts_with : String → String → Bool
starts_with start s = elim (after_prefix start s) [ none ↦ false | some rest ↦ true ]

-- `payload.get(key)`, where a payload that is no dict raises
abbrev pub field_of : String → Json → Option (Option Json)
field_of key (obj fields) = some (get key fields)
field_of key j = none

abbrev pub is_text : String → Option Json → Bool
is_text text (some (str s)) = s == text
is_text text j = false

abbrev pub truthy : Option Json → Bool
truthy none = false
truthy (some null) = false
truthy (some (bool b)) = b
truthy (some (int (pos n))) = not (n == 0)
truthy (some (int n)) = true
truthy (some (float r)) = not ((r == "0.0") || (r == "-0.0"))
truthy (some (str s)) = not (s == "")
truthy (some (arr nil)) = false
truthy (some (arr (cons x xs))) = true
truthy (some (obj end)) = false
truthy (some (obj fields)) = true

-- `status == wanted and payload.get(key) is as wanted`
abbrev pub when_status : Bool → Option (Option Json) → (Option Json → Bool) → Option Bool
when_status false field wanted = some false
when_status true none wanted = none
when_status true (some v) wanted = some (wanted v)
