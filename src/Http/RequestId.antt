-- ===== src/Http/RequestId.antt =====
-- The correlation id is always safe to log and to send back, and survives a further hop.
use ketabdan_ms.Prelude.{
  ℕ, zero, suc, ◌+◌, ◌/◌, ◌%◌, String, ◌≡◌, refl, ap, ◌∙◌, inl, inr, Bool, true, false, ◌&&◌,
  Option, none, some, arith, Bool-cases, ◌==◌, nat_eq, string_eq, ==→≡,
}
use Prim.Native.Char.{code}
use Prim.Native.String.{[], ◌∷◌, count}
use text.Mathlib.TextLemmas.{length-cons}
use ketabdan_ms.Prelude.Text.{is_space, lstrip, rstrip, strip}
use ketabdan_ms.Uuid.{hex_digit, hex_from, uuid_hex}
use ketabdan_ms.Http.{
  is_safe_char, all_safe, drop_line_feed, is_safe_id, matches_safe_request_id, accept,
  resolve_request_id,
}

hex_digit-safe : (d : ℕ) → is_safe_char (code (hex_digit d)) ≡ true
unfolding hex_digit is_safe_char
hex_digit-safe zero = refl
hex_digit-safe (suc zero) = refl
hex_digit-safe (suc (suc zero)) = refl
hex_digit-safe (suc (suc (suc zero))) = refl
hex_digit-safe (suc (suc (suc (suc zero)))) = refl
hex_digit-safe (suc (suc (suc (suc (suc zero))))) = refl
hex_digit-safe (suc (suc (suc (suc (suc (suc zero)))))) = refl
hex_digit-safe (suc (suc (suc (suc (suc (suc (suc zero))))))) = refl
hex_digit-safe (suc (suc (suc (suc (suc (suc (suc (suc zero)))))))) = refl
hex_digit-safe (suc (suc (suc (suc (suc (suc (suc (suc (suc zero))))))))) = refl
hex_digit-safe (suc (suc (suc (suc (suc (suc (suc (suc (suc (suc zero)))))))))) = refl
hex_digit-safe (suc (suc (suc (suc (suc (suc (suc (suc (suc (suc (suc zero))))))))))) = refl
hex_digit-safe (suc (suc (suc (suc (suc (suc (suc (suc (suc (suc (suc (suc zero)))))))))))) = refl
hex_digit-safe (suc (suc (suc (suc (suc (suc (suc (suc (suc (suc (suc (suc (suc zero))))))))))))) =
    refl
hex_digit-safe
      (suc (suc (suc (suc (suc (suc (suc (suc (suc (suc (suc (suc (suc (suc zero)))))))))))))) =
    refl
hex_digit-safe
      (suc (suc (suc (suc (suc (suc (suc (suc (suc (suc (suc (suc (suc (suc (suc n))))))))))))))) =
    refl

hex_from-safe : (k n : ℕ) (out : String) → all_safe out ≡ true → all_safe (hex_from k n out) ≡ true
unfolding all_safe hex_from
hex_from-safe zero n out h = h
hex_from-safe (suc k) n out h = hex_from-safe k (n / 16) _ (rw (hex_digit-safe (n % 16)) h)

count-hex_from : (k n : ℕ) (out : String) → count (hex_from k n out) ≡ k + count out
unfolding hex_from
count-hex_from zero n out = omega arith
count-hex_from (suc k) n out = omega (
  arith,
  count-hex_from k (n / 16) (hex_digit (n % 16) ∷ out),
  length-cons (hex_digit (n % 16)) out,
)

uuid_hex-safe : (n : ℕ) → is_safe_id (uuid_hex n) ≡ true
unfolding is_safe_id uuid_hex
uuid_hex-safe n = rw (count-hex_from 32 n "", hex_from-safe 32 n "" refl) refl

safe_char-no_space : (c : ℕ) → is_safe_char c ≡ true → is_space c ≡ false
unfolding is_safe_char is_space
safe_char-no_space c h = ground arith

line_feed-space : (c : ℕ) → is_space c ≡ false → (c == 10) ≡ false
unfolding is_space
line_feed-space c h = ground arith

no_line_feed : (c : ℕ) (b : Bool) → (is_space c && b) ≡ false → ((c == 10) && b) ≡ false
no_line_feed c true h = let k = line_feed-space c in ground arith
no_line_feed c false h = ground arith

and-parts : (a b : Bool) → (a && b) ≡ true → (a ≡ true) × (b ≡ true)
and-parts a b h = ground arith

drop_line_feed-rstrip : (s : String) → drop_line_feed (rstrip s) ≡ rstrip s
unfolding drop_line_feed rstrip
drop_line_feed-rstrip [] = refl
drop_line_feed-rstrip (c ∷ s) =
    let ih = drop_line_feed-rstrip s in
    elim (Bool-cases (is_space (code c) && (rstrip s == ""))) [
      | inl e ↦ rw e refl
      | inr e ↦ rw (e, no_line_feed (code c) (rstrip s == "") e) (ap (λ r. c ∷ r) ih)
    ]

rstrip-safe : (s : String) → all_safe s ≡ true → rstrip s ≡ s
unfolding all_safe rstrip
rstrip-safe [] h = refl
rstrip-safe (c ∷ s) h =
    let (safe, rest) = and-parts (is_safe_char (code c)) (all_safe s) h in
    rw (safe_char-no_space (code c) safe) (ap (λ r. c ∷ r) (rstrip-safe s rest))

strip-safe : (s : String) → all_safe s ≡ true → strip s ≡ s
unfolding strip all_safe lstrip
strip-safe [] h = refl
strip-safe (c ∷ s) h =
    let (safe, rest) = and-parts (is_safe_char (code c)) (all_safe s) h in
    rw (safe_char-no_space (code c) safe) (rstrip-safe (c ∷ s) h)

accepted :
    (candidate : String)
    → drop_line_feed candidate ≡ candidate
    → matches_safe_request_id candidate ≡ true
    → is_safe_id candidate ≡ true
unfolding matches_safe_request_id
accepted candidate e h = let h' = rw e at h in ground arith

-- The id of a request is 1 to 64 characters of `[A-Za-z0-9_.-]`, whatever the client sends.
pub resolve_request_id-safe :
    (drawn : ℕ) (incoming : Option String) → is_safe_id (resolve_request_id drawn incoming) ≡ true
unfolding resolve_request_id strip
resolve_request_id-safe drawn none = uuid_hex-safe drawn
resolve_request_id-safe drawn (some incoming) =
    let candidate = rstrip (lstrip incoming) in
    let h = accepted candidate (drop_line_feed-rstrip (lstrip incoming)) in
    let h' = uuid_hex-safe drawn in ground arith

safe_id-all_safe : (id : String) → is_safe_id id ≡ true → all_safe id ≡ true
unfolding is_safe_id
safe_id-all_safe id h = ground arith

safe_id-not_empty : (id : String) → is_safe_id id ≡ true → (id == "") ≡ false
unfolding is_safe_id
safe_id-not_empty id h = elim (Bool-cases (id == "")) [
  | inl e ↦ (let h' = rw (==→≡ id "" e) at h in cc)
  | inr e ↦ e
]

safe_id-accepted :
    (drawn : ℕ) (id : String) → is_safe_id id ≡ true → (id == "") ≡ false → accept drawn id ≡ id
unfolding matches_safe_request_id is_safe_id
safe_id-accepted drawn id h e = ground arith

safe_id-kept :
    (drawn : ℕ) (id : String) → is_safe_id id ≡ true → resolve_request_id drawn (some id) ≡ id
unfolding resolve_request_id
safe_id-kept drawn id h =
    ap (accept drawn) (strip-safe id (safe_id-all_safe id h))
    ∙ safe_id-accepted drawn id h (safe_id-not_empty id h)

-- An id that one hop resolved is the one that the next hop resolves from its header.
pub resolve_request_id-propagates :
    (drawn drawn' : ℕ) (incoming : Option String)
    → resolve_request_id drawn' (some (resolve_request_id drawn incoming))
      ≡ resolve_request_id drawn incoming
resolve_request_id-propagates drawn drawn' incoming =
    safe_id-kept drawn' _ (resolve_request_id-safe drawn incoming)
