-- ===== src/Watchlist/Alerts.antt =====
-- modules/watchlist: wallet-alert.service.ts and wallet-alert-checker.service.ts. An alert that fires
-- notifies its user, sends a message of the bot, and keeps the signature of the event. Amounts are
-- natural numbers, a change of a balance one with a direction. The services that are called answer.
pub mod Repeats
use solsight_api.Prelude.{
  ℕ, suc, ◌+◌, ◌*◌, String, Bool, true, false, ◌&&◌, ◌||◌, not, Option, none, some, List, [], ◌∷◌,
  ◌++◌, map, keep, first, ltb, leb, nat_beq, or_else, is_some, if◌then◌else◌, string_eq, ◌==◌,
  Result, ok, err,
}
use solsight_api.Prelude.Text.{is_blank}
use solsight_api.Cluster.{Cluster, mainnet, cluster_beq}
use solsight_api.Watchlist.{WatchedWallet, WatchError, not_watched, alert_not_found, watches}

pub data WalletAlertType : Type 0 where
  any_swap token_balance_change large_transfer : WalletAlertType

pub data AlertDirection : Type 0 where
  increase decrease any_direction : AlertDirection

-- `percentage` is the threshold type of that name, and `false` the other or none.
pub record WalletAlertCondition : Type 0 where
  pub token_mint : Option String
  pub threshold : Option ℕ
  pub percentage : Bool
  pub direction : Option AlertDirection
  -- in lamports
  pub min_amount : Option ℕ

pub record WalletAlert : Type 0 where
  pub id : String
  pub user_id : String
  pub wallet_address : String
  pub watched_wallet_id : String
  pub alert_type : WalletAlertType
  pub condition : Option WalletAlertCondition
  pub is_active : Bool
  pub last_checked_signature : Option String

unfoldable pub get_alerts_for_wallet :
    (user_id address : String) → List WalletAlert → List WalletAlert
get_alerts_for_wallet user_id address rows =
    keep (λ a. (a.user_id == user_id) && (a.wallet_address == address)) rows

unfoldable pub get_all_active_alerts_for_wallet : String → List WalletAlert → List WalletAlert
get_all_active_alerts_for_wallet address rows =
    keep (λ a. a.is_active && (a.wallet_address == address)) rows

unfoldable pub create_alert :
    (id user_id address : String)
    → Option Cluster
    → WalletAlertType
    → Option WalletAlertCondition
    → List WatchedWallet
    → List WalletAlert
    → Result WatchError WalletAlert × List WalletAlert
create_alert id user_id address network alert_type condition watched rows =
    elim (first (watches user_id address (or_else network mainnet)) watched) [
      | none ↦ (err not_watched, rows)
      | some w ↦
          let a : WalletAlert = record {
            id = id;
            user_id = user_id;
            wallet_address = address;
            watched_wallet_id = w.id;
            alert_type = alert_type;
            condition = condition;
            is_active = true;
            last_checked_signature = none;
          } in
          (ok a, a ∷ rows)
    ]

abbrev pub is_own : String → String → WalletAlert → Bool
is_own user_id id a = (a.id == id) && (a.user_id == user_id)

abbrev pub save_alert : WalletAlert → List WalletAlert → List WalletAlert
save_alert a rows = map (λ r. if r.id == a.id then a else r) rows

unfoldable pub update_alert :
    (user_id id : String)
    → Option Bool
    → Option WalletAlertCondition
    → List WalletAlert
    → Result WatchError WalletAlert × List WalletAlert
update_alert user_id id is_active condition rows = elim (first (is_own user_id id) rows) [
  | none ↦ (err alert_not_found, rows)
  | some a ↦
      let b : WalletAlert = record a {
        is_active = or_else is_active a.is_active;
        condition = if is_some condition then condition else a.condition;
      } in
      (ok b, save_alert b rows)
]

unfoldable pub delete_alert :
    (user_id id : String) → List WalletAlert → Result WatchError Bool × List WalletAlert
delete_alert user_id id rows = elim (first (is_own user_id id) rows) [
  | none ↦ (err alert_not_found, rows)
  | some a ↦ (ok true, keep (λ r. not (r.id == a.id)) rows)
]

abbrev pub seen_at : String → WalletAlert → WalletAlert
seen_at signature a = record a { last_checked_signature = some signature }

unfoldable pub update_last_checked : (id signature : String) → List WalletAlert → List WalletAlert
update_last_checked id signature rows =
    map (λ r. if r.id == id then seen_at signature r else r) rows

-- `alert.lastCheckedSignature === event.signature`
abbrev pub is_seen : String → WalletAlert → Bool
is_seen signature a = elim a.last_checked_signature [ none ↦ false | some s ↦ s == signature ]

-- What goes out for an alert: the notification and the message of the bot
pub record Notice : Type 0 where
  pub user_id : String
  pub alert_id : String
  pub text : String

-- The loop over the alerts of a wallet: `fires` are the guards besides the signature, which is tested
-- too; each alert that fires is told its user, twice, and then marked.
unfoldable pub check_alerts :
    (WalletAlert → Bool)
    → String
    → (WalletAlert → String)
    → List WalletAlert
    → List WalletAlert × List Notice
    → List WalletAlert × List Notice
unfolding update_last_checked
check_alerts fires signature text [] (rows, out) = (rows, out)
check_alerts fires signature text (a ∷ alerts) (rows, out) =
    let rest = check_alerts fires signature text alerts in
    if fires a && not (is_seen signature a)
    then rest (
      update_last_checked a.id signature rows,
      out ++ record { user_id = a.user_id; alert_id = a.id; text = text a } ∷ [],
    )
    else rest (rows, out)

unfoldable pub check_wallet :
    (WalletAlert → Bool)
    → String
    → (WalletAlert → String)
    → String
    → List WalletAlert × List Notice
    → List WalletAlert × List Notice
unfolding check_alerts get_all_active_alerts_for_wallet
check_wallet fires signature text address (rows, out) =
    check_alerts fires signature text (get_all_active_alerts_for_wallet address rows) (rows, out)

abbrev pub is_any_swap : WalletAlert → Bool
is_any_swap a = elim a.alert_type [ any_swap ↦ true | _ ↦ false ]

unfoldable pub handle_swap_event :
    (maker signature : String)
    → (WalletAlert → String)
    → List WalletAlert × List Notice
    → List WalletAlert × List Notice
unfolding check_wallet
handle_swap_event maker signature text s = check_wallet is_any_swap signature text maker s

-- `balance_change`
pub data BalanceChange : Type 0 where
  up : ℕ → BalanceChange
  down : ℕ → BalanceChange

abbrev pub size : BalanceChange → ℕ
size (up n) = n
size (down n) = n

abbrev pub goes_up : BalanceChange → Bool
goes_up (up n) = ltb 0 n
goes_up (down n) = false

abbrev pub goes_down : BalanceChange → Bool
goes_down (up n) = false
goes_down (down n) = ltb 0 n

abbrev pub right_direction : AlertDirection → BalanceChange → Bool
right_direction increase change = goes_up change
right_direction decrease change = goes_down change
right_direction any_direction change = true

-- The guards of `handleHolderUpdateEvent`; the threshold counts only where it is no percentage.
unfoldable pub balance_condition : String → BalanceChange → WalletAlertCondition → Bool
balance_condition mint change k =
    elim k.token_mint [ none ↦ false | some m ↦ not (is_blank m) && m == mint ]
    && (k.percentage || leb (or_else k.threshold 0) (size change))
    && right_direction (or_else k.direction any_direction) change

abbrev pub is_balance_change : String → BalanceChange → WalletAlert → Bool
is_balance_change mint change a = elim a.alert_type [
  | token_balance_change ↦ elim a.condition [
    | none ↦ false
    | some k ↦ balance_condition mint change k
  ]
  | _ ↦ false
]

unfoldable pub handle_holder_update_event :
    (wallet mint signature : String)
    → BalanceChange
    → (WalletAlert → String)
    → List WalletAlert × List Notice
    → List WalletAlert × List Notice
unfolding check_wallet balance_condition
handle_holder_update_event wallet mint signature change text s =
    check_wallet (is_balance_change mint change) signature text wallet s

-- `minAmountSol ?? 1`, in lamports
abbrev pub min_lamports : Option WalletAlertCondition → ℕ
min_lamports none = 1000000000
min_lamports (some k) = or_else k.min_amount 1000000000

abbrev pub is_large_transfer : ℕ → WalletAlert → Bool
is_large_transfer lamports a = elim a.alert_type [
  | large_transfer ↦ leb (min_lamports a.condition) lamports
  | _ ↦ false
]

-- First the alerts of the sender, then those of the receiver; `text` has the wallet in it.
unfoldable pub handle_payment_transfer_event :
    (from_wallet to_wallet signature : String)
    → ℕ
    → (String → WalletAlert → String)
    → List WalletAlert × List Notice
    → List WalletAlert × List Notice
unfolding check_wallet
handle_payment_transfer_event from_wallet to_wallet signature lamports text s =
    check_wallet (is_large_transfer lamports) signature (text to_wallet) to_wallet
      (check_wallet (is_large_transfer lamports) signature (text from_wallet) from_wallet s)
