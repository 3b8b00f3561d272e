-- ===== src/Watchlist.antt =====
-- modules/watchlist: the wallets that a user watches, the alerts on them, and the checks of the alerts
-- when an event of a wallet arrives. The tables are lists of their rows; the texts of messages are a
-- parameter. What the database removes with a user or a wallet is left out.
pub mod Alerts
mod Tests
use solsight_api.Prelude.{
  String, Bool, true, false, ◌&&◌, ◌||◌, not, Option, none, some, List, [], ◌∷◌, ◌++◌, keep, first,
  length, or_else, is_some, if◌then◌else◌, string_eq, ◌==◌, Result, ok, err, ℕ,
}
use solsight_api.Prelude.Text.{is_blank}
use solsight_api.Cluster.{Cluster, mainnet, cluster_beq}

pub record WatchedWallet : Type 0 where
  pub id : String
  pub wallet_address : String
  pub user_id : String
  pub label : Option String
  pub network : Cluster

pub data WatchError : Type 0 where
  already_watched not_watched alert_not_found : WatchError

abbrev pub watches : String → String → Cluster → WatchedWallet → Bool
watches user_id address network w =
    (w.user_id == user_id) && (w.wallet_address == address) && cluster_beq w.network network

abbrev pub on_any_network : String → String → WatchedWallet → Bool
on_any_network user_id address w = (w.user_id == user_id) && (w.wallet_address == address)

unfoldable pub find_watched : String → List WatchedWallet → List WatchedWallet × ℕ
find_watched user_id rows =
    let wallets = keep (λ w. w.user_id == user_id) rows in (wallets, length wallets)

unfoldable pub add_watched :
    (id user_id address : String)
    → Option String
    → Option Cluster
    → List WatchedWallet
    → Result WatchError WatchedWallet × List WatchedWallet
add_watched id user_id address label network rows =
    let on = or_else network mainnet in
    if is_some (first (watches user_id address on) rows)
    then (err already_watched, rows)
    else (let w : WatchedWallet = record {
      id = id;
      wallet_address = address;
      user_id = user_id;
      label = label;
      network = on;
    } in
        (ok w, w ∷ rows))

abbrev pub save_watched : WatchedWallet → List WatchedWallet → List WatchedWallet
save_watched w [] = w ∷ []
save_watched w (v ∷ rows) = if v.id == w.id then w ∷ rows else v ∷ save_watched w rows

unfoldable pub update_watched :
    (user_id address : String)
    → Option String
    → List WatchedWallet
    → Result WatchError WatchedWallet × List WatchedWallet
update_watched user_id address label rows = elim (first (on_any_network user_id address) rows) [
  | none ↦ (err not_watched, rows)
  | some w ↦ (ok (record w { label = label }), save_watched (record w { label = label }) rows)
]

-- The network of the query, where one is given
abbrev pub on_network : Option Cluster → WatchedWallet → Bool
on_network none w = true
on_network (some c) w = cluster_beq w.network c

unfoldable pub remove_watched :
    (user_id address : String)
    → Option Cluster
    → List WatchedWallet
    → Result WatchError Bool × List WatchedWallet
remove_watched user_id address network rows =
    elim (first (λ w. on_any_network user_id address w && on_network network w) rows) [
      | none ↦ (err not_watched, rows)
      | some w ↦ (ok true, keep (λ v. not (v.id == w.id)) rows)
    ]
