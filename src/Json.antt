-- ===== src/Json.antt =====
-- JSON values, as `json.loads` and `response.json()` build them. An object is a Python dict: one
-- value to a key. A float is kept by its `repr`.
use ketabdan_ms.Prelude.{
  ℕ, suc, String, Bool, true, false, Option, none, some, List, [], ◌∷◌, if◌then◌else◌, ◌==◌, nat_eq,
  string_eq,
}
use ketabdan_ms.Prelude.Text.{show}
use Prim.Native.String.{◌++◌}

pub data ℤ : Type 0 where
  pos : ℕ → ℤ
  negsuc : ℕ → ℤ

mutual
  pub data Json : Type 0 where
    null : Json
    bool : Bool → Json
    int : ℤ → Json
    float : String → Json
    str : String → Json
    arr : Items → Json
    obj : Fields → Json

  pub data Items : Type 0 where
    nil : Items
    cons : Json → Items → Items

  pub data Fields : Type 0 where
    end : Fields
    field : String → Json → Fields → Fields

-- `d.get(key)`, with `none` where the key is missing
unfoldable pub get : String → Fields → Option Json
get key end = none
get key (field k v fs) = if k == key then some v else get key fs

-- `d.keys()`
unfoldable pub keys : Fields → List String
keys end = []
keys (field k v fs) = k ∷ keys fs

unfoldable pub show_ℤ : ℤ → String
show_ℤ (pos n) = show n
show_ℤ (negsuc n) = "-" ++ show (suc n)

-- `str(value)`; `repr` prints lists and dicts.
unfoldable pub to_str : (Json → String) → Json → String
to_str repr null = "None"
to_str repr (bool true) = "True"
to_str repr (bool false) = "False"
to_str repr (int n) = show_ℤ n
to_str repr (float r) = r
to_str repr (str s) = s
to_str repr (arr xs) = repr (arr xs)
to_str repr (obj fs) = repr (obj fs)
