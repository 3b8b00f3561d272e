-- ===== src/Subscriptions/Tests.antt =====
-- modules/bot, modules/zalo and modules/email: the theorems at concrete inputs, on rows in a list.
use solsight_api.Prelude.{true, List, [], ◌∷◌, ◌≡◌, refl, string_eq, row_table, update_row}
use solsight_api.Subscriptions.{
  subscription_key, recipient, generate_token, find_pending_by_token, poll, mark_verified,
}
use solsight_api.Subscriptions.History.{
  Event, generates, polls, proven, run, step, recipient-proven,
}
use solsight_api.Subscriptions.Email.{initiate_verification, verify_token}
use solsight_api.Subscriptions.Email.History.{
  EmailEvent, initiates, verifies, confirmed, email_run, email_step, recipient-confirmed,
}

-- Two users draw a token each, and the chat account of the first one sends its token; the latest
-- event is first.
abbrev connection : List Event
connection =
    polls "A1" "chat" 5000 ∷ generates "2" "B2" "bob" 4000 ∷ generates "1" "A1" "ann" 3000 ∷ []

recipient-proven_example : proven "ann" "chat" connection ≡ true
unfolding recipient run step generate_token find_pending_by_token poll mark_verified update_row
recipient-proven_example =
    recipient-proven (row_table subscription_key) connection ([], tt) "ann" "chat" true (λ id. refl)
      refl

abbrev mails : List EmailEvent
mails =
    verifies "C3" 9000
    ∷ verifies "A1" 8000
    ∷ initiates "1" "C3" "ann" "new@mail" 7000
    ∷ initiates "1" "A1" "ann" "old@mail" 3000
    ∷ []

recipient-confirmed_example : confirmed "ann" "new@mail" mails ≡ true
unfolding recipient email_run email_step initiate_verification verify_token update_row
recipient-confirmed_example =
    recipient-confirmed (row_table subscription_key) mails ([], tt) "ann" "new@mail" true
      (λ id. refl) refl
