-- ===== src/Subscriptions.antt =====
-- modules/bot and modules/zalo: the chat account that a user's alerts go to, connected by a token
-- that the user sends to the bot. The two services are one text, with `telegramChatId` in the one and
-- `zaloUserId` in the other: `contact` here. modules/email is in Email.
pub mod History
pub mod Email
mod Tests
use solsight_api.Prelude.{
  ℕ, ◌+◌, ◌*◌, String, Bool, true, false, ◌&&◌, not, Option, none, some, ltb, Table, update_row,
  if◌then◌else◌, ◌==◌, string_eq,
}
use solsight_api.Prelude.Text.{is_blank}

-- `BotSubscription` and `ZaloSubscription`
pub record Subscription : Type 0 where
  pub id : String
  pub user_id : String
  pub contact : Option String
  pub verification_token : Option String
  pub token_expires_at : Option ℕ
  pub is_verified : Bool
  pub verified_at : Option ℕ

-- `id` is the primary key.
abbrev pub subscription_key : Subscription → String
subscription_key r = r.id

abbrev pub is_of : String → Subscription → Bool
is_of user_id r = r.user_id == user_id

abbrev pub token_life_ms : ℕ
token_life_ms = 10 * 60 * 1000

-- `MoreThan(new Date())`
abbrev pub is_after : ℕ → Option ℕ → Bool
is_after now none = false
is_after now (some t) = ltb now t

abbrev pub is_text : String → Option String → Bool
is_text s none = false
is_text s (some t) = t == s

abbrev pub is_pending : String → ℕ → Subscription → Bool
is_pending token now r =
    is_text token r.verification_token && not r.is_verified && is_after now r.token_expires_at

abbrev pub new_subscription : String → String → String → ℕ → Subscription
new_subscription id user_id token now = record {
  id = id;
  user_id = user_id;
  contact = none;
  verification_token = some token;
  token_expires_at = some (now + token_life_ms);
  is_verified = false;
  verified_at = none;
}

module _ (subs : Table subscription_key) where
  -- `id` is the one that the database gives a new row, `token` the one that `makeToken` draws.
  unfoldable pub generate_token :
      String → String → String → ℕ → subs.State → Subscription × subs.State
  generate_token id token user_id now s = elim (subs.find_where (is_of user_id) s) [
    | some existing ↦
        let row = record existing {
          verification_token = some token;
          token_expires_at = some (now + token_life_ms);
          is_verified = false;
          contact = none;
          verified_at = none;
        } in
        (row, subs.save row s)
    | none ↦ let row = new_subscription id user_id token now in (row, subs.save row s)
  ]

  unfoldable pub find_pending_by_token : String → ℕ → subs.State → Option Subscription
  find_pending_by_token token now s = subs.find_where (is_pending token now) s

  abbrev pub verified_row : String → ℕ → Subscription → Subscription
  verified_row contact now r = record r {
    is_verified = true;
    contact = some contact;
    verified_at = some now;
    verification_token = none;
    token_expires_at = none;
  }

  unfoldable pub mark_verified : String → String → ℕ → subs.State → subs.State
  mark_verified id contact now s = update_row subs id (verified_row contact now) s

  abbrev pub disconnected : String → Subscription → Subscription
  disconnected user_id r =
      if r.user_id == user_id
      then record r {
        is_verified = false;
        contact = none;
        verified_at = none;
        verification_token = none;
        token_expires_at = none;
      }
      else r

  unfoldable pub disconnect : String → subs.State → subs.State
  disconnect user_id s = subs.update_all (disconnected user_id) s

  -- Where `sendMessage` and `sendAlertMessage` send to, if anywhere
  abbrev pub contact_of : Option Subscription → Option String
  contact_of none = none
  contact_of (some r) = elim r.contact [
    | none ↦ none
    | some c ↦ if is_blank c then none else some c
  ]

  unfoldable pub recipient : Bool → String → subs.State → Option String
  recipient has_token user_id s =
      if has_token
      then contact_of (subs.find_where (λ r. is_of user_id r && r.is_verified) s)
      else none

  -- One update in `pollLoop`: `text` is trimmed and in upper case, as the loop makes it.
  abbrev verify_found : Option Subscription → String → ℕ → subs.State → subs.State
  verify_found none chat now s = s
  verify_found (some r) chat now s = mark_verified r.id chat now s

  unfoldable pub poll : String → String → ℕ → subs.State → subs.State
  unfolding find_pending_by_token
  poll text chat now s = verify_found (find_pending_by_token text now s) chat now s
