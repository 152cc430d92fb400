-- ===== src/Worker/Serialization/Stored.antt =====
-- What a stored job or result reads back as.
use ketabdan_ms.Prelude.{String, ◌≡◌, refl, nat_eq, string_eq, Result, ok, err}
use Prim.Native.String.{◌++◌}
use ketabdan_ms.Json.{Json, arr, obj, Items, nil, cons, Fields, end, field}
use ketabdan_ms.Worker.Serialization.{
  Value, scalar, exception, other, list, dict, Values, none_left, value, Members, no_member, member,
  map_ok, both_ok, encoded, encoded_list, encoded_dict,
}

-- How a value is to look as JSON: a scalar as it is, an exception as its class and its text, a list and
-- a dict item by item in their order, and an object of any other type not at all.
abbrev mutual
  pub Renders : Value → Json → Type 0
  Renders (scalar j) j' = j' ≡ j
  Renders (exception type_name message) j' = j' ≡ Json.str (type_name ++ (": " ++ message))
  Renders (other type_name) j' = ⊥
  Renders (list vs) j' = (js : Items) × (j' ≡ arr js) × RendersAll vs js
  Renders (dict ms) j' = (fs : Fields) × (j' ≡ obj fs) × RendersMembers ms fs

  pub RendersAll : Values → Items → Type 0
  RendersAll none_left js = js ≡ nil
  RendersAll (value v vs) js =
      (j : Json) × (rest : Items) × (js ≡ cons j rest) × Renders v j × RendersAll vs rest

  pub RendersMembers : Members → Fields → Type 0
  RendersMembers no_member fs = fs ≡ end
  RendersMembers (member k v ms) fs =
      (j : Json) × (rest : Fields) × (fs ≡ field k j rest) × Renders v j × RendersMembers ms rest

map_ok-ok :
    {A B : Type 0} (f : A → B) (x : Result String A) (b : B)
    → map_ok f x ≡ ok b
    → (a : A) × (x ≡ ok a) × (b ≡ f a)
map_ok-ok f (ok a) b h = (a, refl, cc)
map_ok-ok f (err e) b h = cc

both_ok-ok :
    {A B C : Type 0} (f : A → B → C) (x : Result String A) (y : Result String B) (c : C)
    → both_ok f x y ≡ ok c
    → (a : A) × (b : B) × (x ≡ ok a) × (y ≡ ok b) × (c ≡ f a b)
both_ok-ok f (ok a) (ok b) c h = (a, b, refl, refl, cc)
both_ok-ok f (ok a) (err e) c h = cc
both_ok-ok f (err e) y c h = cc

mutual
  unfolding encoded

  encoded-Renders : (v : Value) (j : Json) → encoded v ≡ ok j → Renders v j
  encoded-Renders (scalar j') j h = cc
  encoded-Renders (exception type_name message) j h = cc
  encoded-Renders (other type_name) j h = cc
  encoded-Renders (list vs) j h =
      let (js, e, same) = map_ok-ok (λ js. arr js) (encoded_list vs) j h in
      (js, same, encoded_list-RendersAll vs js e)
  encoded-Renders (dict ms) j h =
      let (fs, e, same) = map_ok-ok (λ fs. obj fs) (encoded_dict ms) j h in
      (fs, same, encoded_dict-RendersMembers ms fs e)

  encoded_list-RendersAll : (vs : Values) (js : Items) → encoded_list vs ≡ ok js → RendersAll vs js
  encoded_list-RendersAll none_left js h = cc
  encoded_list-RendersAll (value v vs) js h =
      let (j, rest, first, later, same) =
        both_ok-ok (λ j js. cons j js) (encoded v) (encoded_list vs) js h in
      (j, rest, same, encoded-Renders v j first, encoded_list-RendersAll vs rest later)

  encoded_dict-RendersMembers :
      (ms : Members) (fs : Fields) → encoded_dict ms ≡ ok fs → RendersMembers ms fs
  encoded_dict-RendersMembers no_member fs h = cc
  encoded_dict-RendersMembers (member k v ms) fs h =
      let (j, rest, first, later, same) =
        both_ok-ok (λ j fs. field k j fs) (encoded v) (encoded_dict ms) fs h in
      (j, rest, same, encoded-Renders v j first, encoded_dict-RendersMembers ms rest later)
