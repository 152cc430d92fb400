-- ===== src/Worker/Serialization.antt =====
-- apps/api/app/worker/serialization.py: what arq stores in Redis. The codecs of Python
-- are parameters; what the default function makes of the values that are no JSON is written out.
pub mod Stored
use ketabdan_ms.Prelude.{
  ℕ, zero, suc, ◌+◌, ◌-◌, ◌*◌, ◌/◌, ◌%◌, ◌^◌, ◌≤◌, ◌<◌, String, ◌≡◌, refl, sym, ap, ◌∙◌, ◌≢◌, ◌↔◌,
  ◌⊎◌, inl, inr, Bool, true, false, not, ◌&&◌, ◌||◌, Option, none, some, List, [], ◌∷◌, ◌++◌, map,
  arith, eq_iff, ltb, leb, eqb, if◌then◌else◌, Bool-cases, Option-cases, ltb→lt, lt→ltb, leb→le, Eq,
  ◌==◌, nat_eq, string_eq, ==_refl, ==→≡, Result, ok, err, ◌>>=◌, >>=-eq-ok, length, length-append,
  find, keep, any, All, Any, elem, or_false,
}
use Prim.Native.String.{◌++◌ as append}
use ketabdan_ms.Json.{Json, arr, obj, Items, nil, cons, Fields, end, field}

-- A Python value in the data of a job or of a result: a JSON scalar, an exception, a list, a dict,
-- or an object of any other type
mutual
  pub data Value : Type 0 where
    scalar : Json → Value
    exception : (type_name message : String) → Value
    other : (type_name : String) → Value
    list : Values → Value
    dict : Members → Value

  pub data Values : Type 0 where
    none_left : Values
    value : Value → Values → Values

  pub data Members : Type 0 where
    no_member : Members
    member : String → Value → Members → Members

-- `f"{type(value).__name__}: {value}"`
abbrev pub render_exception : String → String → String
render_exception type_name message = append type_name (append ": " message)

-- `_json_default`: an exception is rendered, anything else raises.
abbrev pub json_default : Value → Result String Json
json_default (exception type_name message) = ok (Json.str (render_exception type_name message))
json_default v = err "TypeError"

abbrev pub map_ok : {A B : Type 0} → (A → B) → Result String A → Result String B
map_ok f (ok a) = ok (f a)
map_ok f (err e) = err e

abbrev pub both_ok :
    {A B C : Type 0} → (A → B → C) → Result String A → Result String B → Result String C
both_ok f (ok a) (ok b) = ok (f a b)
both_ok f (ok a) (err e) = err e
both_ok f (err e) b = err e

-- The value that `json.dumps` prints, with `default=_json_default`
unfoldable mutual
  pub encoded : Value → Result String Json
  encoded (scalar j) = ok j
  encoded (exception type_name message) = json_default (exception type_name message)
  encoded (other type_name) = json_default (other type_name)
  encoded (list vs) = map_ok (λ js. arr js) (encoded_list vs)
  encoded (dict ms) = map_ok (λ fs. obj fs) (encoded_dict ms)

  pub encoded_list : Values → Result String Items
  encoded_list none_left = ok nil
  encoded_list (value v vs) = both_ok (λ j js. cons j js) (encoded v) (encoded_list vs)

  pub encoded_dict : Members → Result String Fields
  encoded_dict no_member = ok end
  encoded_dict (member k v ms) = both_ok (λ j fs. field k j fs) (encoded v) (encoded_dict ms)

-- Python's codecs: `json.dumps` with the defaults replaced, `str.encode("utf-8")`, `bytes.decode("utf-8")`
-- and `json.loads`. Each may raise: on a value that is too deep, on a lone surrogate, on bytes that are no
-- UTF-8, on a text that is no JSON. B is the type of `bytes`.
pub record Codec (B : Type 0) : Type 0 where
  pub dumps : Json → Result String String
  pub encode : String → Result String B
  pub decode : B → Result String String
  pub loads : String → Result String Json

module _ {B : Type 0} (codec : Codec B) where
  unfoldable pub json_job_serializer : Value → Result String B
  json_job_serializer v = encoded v >>= λ j. codec.dumps j >>= λ text. codec.encode text

  unfoldable pub json_job_deserializer : B → Result String Json
  json_job_deserializer bytes = codec.decode bytes >>= λ text. codec.loads text
