-- ===== src/Notifications/Dispatcher/Routing.antt =====
-- The dispatcher routes by channel, and turns every failure into a result.
use ketabdan_ms.Prelude.{
  String, ◌≡◌, refl, ◌↔◌, ◌⊎◌, inl, inr, true, false, none, some, List, [], ◌∷◌, arith, Bool-cases,
  ◌==◌, nat_eq, string_eq, ok, err, any,
}
use ketabdan_ms.Notifications.Models.{NotificationMessage, NotificationResult, channel_value}
use ketabdan_ms.Notifications.Dispatcher.{
  NotificationDispatcher, lookup, has_provider, DispatchError, unsupported_channel, send, send_many,
}

lookup-cases :
    {A : Type 0} (key : String) (ps : List (String × A))
    → ((any (λ p. p.0 == key) ps ≡ false) × (lookup key ps ≡ none))
      ⊎ ((any (λ p. p.0 == key) ps ≡ true) × ((a : A) × (lookup key ps ≡ some a)))
lookup-cases key [] = inl (refl, refl)
lookup-cases key ((k, v) ∷ ps) = elim (Bool-cases (k == key)) [
  | inl same ↦ rw same (inr (refl, (v, refl)))
  | inr other ↦ rw other (lookup-cases key ps)
]

-- Sending raises exactly for a channel with no provider, and then names the channel; in every other
-- case it returns a result, whatever the provider does.
send-eq-err_iff :
    (d : NotificationDispatcher) (m : NotificationMessage) (e : DispatchError)
    → (send d m ≡ err e) ↔ (
        (has_provider d (channel_value m.recipient.channel) ≡ false)
        × (e ≡ unsupported_channel (channel_value m.recipient.channel)))
unfolding send has_provider
send-eq-err_iff d m e = elim (lookup-cases (channel_value m.recipient.channel) d.providers) [
  | inl missing ↦ ground (arith, missing.0, missing.1)
  | inr found ↦ ground (arith, found.0, found.1.1)
]

-- The results are what sending each of the messages returns.
abbrev pub Answers :
    NotificationDispatcher → List NotificationMessage → List NotificationResult → Type 0
Answers d [] [] = Unit
Answers d (m ∷ ms) (r ∷ rs) = (send d m ≡ ok r) × Answers d ms rs
Answers d _ _ = ⊥

-- Sending many returns exactly when every send returns, and then the results are those of the
-- messages, one for each and in their order.
send_many-eq-ok_iff :
    (d : NotificationDispatcher) (ms : List NotificationMessage) (rs : List NotificationResult)
    → (send_many d ms ≡ ok rs) ↔ Answers d ms rs
unfolding send_many
send_many-eq-ok_iff d [] [] = (λ _. tt, λ _. refl)
send_many-eq-ok_iff d [] (r ∷ rs) = ground arith
send_many-eq-ok_iff d (m ∷ ms) [] = ground arith
send_many-eq-ok_iff d (m ∷ ms) (r ∷ rs) = grind (arith, send_many-eq-ok_iff d ms rs)
