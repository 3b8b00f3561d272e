-- ===== src/Subscriptions/Email.antt =====
-- modules/email/services/email-subscription.service.ts: the address that a user's alerts go to. The
-- row is that of the bots, with `email` as its `contact`; here the contact is stored when the token
-- is made, and the link that is sent to the address brings the token back.
pub mod History
use solsight_api.Prelude.{ℕ, ◌+◌, ◌*◌, String, true, false, Option, none, some, Table, update_row}
use solsight_api.Subscriptions.{
  Subscription, subscription_key, is_pending, is_of, disconnect, recipient,
}

abbrev pub email_token_life_ms : ℕ
email_token_life_ms = 24 * 60 * 60 * 1000

module _ (subs : Table subscription_key) where
  abbrev pub initiated : String → String → ℕ → Subscription → Subscription
  initiated token email now r = record r {
    contact = some email;
    verification_token = some token;
    token_expires_at = some (now + email_token_life_ms);
    is_verified = false;
    verified_at = none;
  }

  abbrev pub new_email_subscription : String → String → String → String → ℕ → Subscription
  new_email_subscription id user_id email token now = record {
    id = id;
    user_id = user_id;
    contact = some email;
    verification_token = some token;
    token_expires_at = some (now + email_token_life_ms);
    is_verified = false;
    verified_at = none;
  }

  unfoldable pub initiate_verification :
      String → String → String → String → ℕ → subs.State → Subscription × subs.State
  initiate_verification id token user_id email now s = elim (subs.find_where (is_of user_id) s) [
    | some existing ↦ let row = initiated token email now existing in (row, subs.save row s)
    | none ↦ let row = new_email_subscription id user_id email token now in (row, subs.save row s)
  ]

  abbrev pub verified_email : ℕ → Subscription → Subscription
  verified_email now r = record r {
    is_verified = true;
    verified_at = some now;
    verification_token = none;
    token_expires_at = none;
  }

  -- The two statements of `verifyToken`. The row is read, and updated by its id alone: what another call
  -- does in between is not looked at again.
  unfoldable pub verify_begin : String → ℕ → subs.State → Option Subscription
  verify_begin token now s = subs.find_where (is_pending token now) s

  unfoldable pub verify_end : ℕ → Subscription → subs.State → subs.State
  verify_end now sub s = update_row subs sub.id (verified_email now) s

  -- `verifyToken` with no other call between the two
  unfoldable pub verify_token : String → ℕ → subs.State → Option String × subs.State
  unfolding verify_begin verify_end
  verify_token token now s = elim (verify_begin token now s) [
    | none ↦ (none, s)
    | some sub ↦ (some sub.user_id, verify_end now sub s)
  ]
