-- ===== src/Events/Tests.antt =====
-- event-stream-dispatcher.service.ts at concrete inputs: of two handlers found, one twice, both name
-- the channel of trades on mainnet. Calling a handler notes its object and throws.
use solsight_api.Prelude.{
  ℕ, String, Bool, true, false, none, some, List, [], ◌∷◌, ◌≡◌, refl, lookup,
}
use solsight_api.Cluster.{mainnet, devnet}
use solsight_api.Cluster.Channels.{trade_events, redis_channel}
use solsight_api.Redis.Memory.{braces}
use solsight_api.Redis.PubSub.{PubSub, on_message}
use solsight_api.Events.{
  EventHandler, Provider, Timestamp, positive, discover_handlers, on_application_bootstrap,
  call_handlers, dispatch,
}
use solsight_api.Events.Grouping.{wanted}
use solsight_api.Events.Delivery.{on_message-on_application_bootstrap}

abbrev trades : String
trades = redis_channel trade_events mainnet

abbrev first_handler : EventHandler
first_handler = record { object = 1; channels = trades ∷ redis_channel trade_events devnet ∷ [] }

abbrev second_handler : EventHandler
second_handler = record { object = 2; channels = trades ∷ [] }

abbrev providers : List Provider
providers = some first_handler ∷ none ∷ some second_handler ∷ some first_handler ∷ []

abbrev note : EventHandler → Unit {0} → String → List ℕ → Bool × List ℕ
note h v channel w = (false, h.object ∷ w)

abbrev timestamp_of : Unit {0} → Timestamp
timestamp_of v = positive 0

abbrev with_timestamp : ℕ → Unit {0} → Unit {0}
with_timestamp seconds v = v

abbrev at_start : PubSub (List EventHandler)
at_start = record { connected = true; handlers = []; pattern_handlers = [] }

on_message-on_application_bootstrap_example :
    on_message
      (List EventHandler)
      braces
      (dispatch braces timestamp_of with_timestamp note 1700000000000)
      trades
      "{}"
      (on_application_bootstrap (λ channel. true) providers at_start)
      []
    ≡ 2 ∷ 1 ∷ []
unfolding lookup call_handlers wanted discover_handlers redis_channel
on_message-on_application_bootstrap_example =
    on_message-on_application_bootstrap braces timestamp_of with_timestamp note 1700000000000
      (λ channel. true) providers at_start trades "{}" tt [] refl refl refl refl
