-- ===== src/Watchlist/Tests.antt =====
-- modules/watchlist: a repeated event at concrete alerts.
use solsight_api.Prelude.{String, true, none, List, [], ◌∷◌, ◌≡◌, refl}
use solsight_api.Watchlist.Alerts.{
  WalletAlert, Notice, large_transfer, handle_payment_transfer_event,
}
use solsight_api.Watchlist.Alerts.Repeats.{handle_payment_transfer_event_twice}

abbrev alert_of : String → String → WalletAlert
alert_of id address = record {
  id = id;
  user_id = "ann";
  wallet_address = address;
  watched_wallet_id = "w";
  alert_type = large_transfer;
  condition = none;
  is_active = true;
  last_checked_signature = none;
}

abbrev two_alerts : List WalletAlert × List Notice
two_alerts = (alert_of "1" "A" ∷ alert_of "2" "B" ∷ [], [])

abbrev alert_text : String → WalletAlert → String
alert_text address a = address

handle_payment_transfer_event_twice_example :
    handle_payment_transfer_event "A" "B" "sig" 2000000000 alert_text
      (handle_payment_transfer_event "A" "B" "sig" 2000000000 alert_text two_alerts)
    ≡ handle_payment_transfer_event "A" "B" "sig" 2000000000 alert_text two_alerts
handle_payment_transfer_event_twice_example =
    handle_payment_transfer_event_twice "A" "B" "sig" 2000000000 alert_text two_alerts

-- Both users are told once.
two_notices :
    (handle_payment_transfer_event "A" "B" "sig" 2000000000 alert_text two_alerts).1
    ≡ record { user_id = "ann"; alert_id = "1"; text = "A" }
      ∷ record { user_id = "ann"; alert_id = "2"; text = "B" }
      ∷ []
unfolding handle_payment_transfer_event
two_notices = refl
