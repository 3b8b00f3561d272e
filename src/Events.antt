-- ===== src/Events.antt =====
-- events/event-stream-dispatcher.service.ts: at start every handler of events is found and each
-- channel that one of them names is subscribed to, once, with a callback that calls them all. A
-- handler is an object; two providers can hold the same one. The parameters are the event's field
-- `timestamp`, which `with_timestamp` overwrites, and `handle`, the handlers' code, whose answer
-- `false` is an exception or a promise that rejects.
mod Grouping
pub mod Delivery
mod Tests
use solsight_api.Prelude.{
  ℕ, String, Bool, true, false, Option, none, some, List, [], ◌∷◌, ◌++◌, ◌==◌, nat_eq, string_eq,
  lookup, insert, or_else, any, if◌then◌else◌, ltb, ◌+◌, ◌-◌, ◌*◌, ◌/◌,
}
use solsight_api.Redis.Client.{Json}
use solsight_api.Redis.PubSub.{PubSub, Command, subscribe_begin, subscribe_end}
use solsight_api.Cluster.Channels.{is_trade_event_channel}

-- `object` is the identity of the object, `channels` the answer of its method.
pub record EventHandler : Type 0 where
  pub object : ℕ
  pub channels : List String

-- `provider.instance` as `isEventHandler` sees it: `none` is anything that is no handler.
abbrev pub Provider : Type 0
Provider = Option EventHandler

abbrev trade_timestamp_sanity_floor_age_s : ℕ
trade_timestamp_sanity_floor_age_s = 365 * 24 * 60 * 60

-- `Number(event.timestamp)`: no finite number, one that is 0 or negative, or a positive one in
-- seconds, rounded down (it is compared with a whole number only)
pub data Timestamp : Type 0 where
  not_finite non_positive : Timestamp
  positive : ℕ → Timestamp

-- `seen` is the set of the objects found so far.
unfoldable pub discover_from : List ℕ → List Provider → List EventHandler
discover_from seen [] = []
discover_from seen (none ∷ providers) = discover_from seen providers
discover_from seen (some h ∷ providers) =
    let known : Bool = any (λ o. o == h.object) seen in
    let rest = discover_from (if known then seen else h.object ∷ seen) providers in
    if known then rest else h ∷ rest

-- `discoverHandlers`
unfoldable pub discover_handlers : List Provider → List EventHandler
unfolding discover_from
discover_handlers providers = discover_from [] providers

abbrev pub ByChannel : Type 0
ByChannel = List (String × List EventHandler)

unfoldable pub add_channels : EventHandler → List String → ByChannel → ByChannel
add_channels h [] m = m
add_channels h (channel ∷ channels) m =
    add_channels h channels (insert channel (or_else (lookup channel m) [] ++ h ∷ []) m)

-- `handlersByChannel`
unfoldable pub group_handlers : List EventHandler → ByChannel → ByChannel
unfolding add_channels
group_handlers [] m = m
group_handlers (h ∷ hs) m = group_handlers hs (add_channels h h.channels m)

abbrev replied :
    List Command → Bool → String → PubSub (List EventHandler) → PubSub (List EventHandler)
replied [] ok channel p = p
replied (cmd ∷ cmds) ok channel p = subscribe_end (List EventHandler) channel ok p

-- `await pubSubService.subscribe(channel, ...)` for one channel: `reply` is how the server answers a
-- SUBSCRIBE. The callback stands for the handlers that it calls.
unfoldable pub subscribe_channel :
    (String → Bool)
    → String
    → List EventHandler
    → PubSub (List EventHandler)
    → PubSub (List EventHandler)
subscribe_channel reply channel hs p =
    let (waiting, sent) = subscribe_begin (List EventHandler) channel hs p in
    replied sent (reply channel) channel waiting

unfoldable pub subscribe_all :
    (String → Bool) → ByChannel → PubSub (List EventHandler) → PubSub (List EventHandler)
unfolding subscribe_channel
subscribe_all reply [] p = p
subscribe_all reply ((channel, hs) ∷ rest) p =
    subscribe_all reply rest (subscribe_channel reply channel hs p)

-- `onApplicationBootstrap` once the handlers are found: without a handler it returns at once.
unfoldable pub subscribe_handlers :
    (String → Bool) → List EventHandler → PubSub (List EventHandler) → PubSub (List EventHandler)
unfolding group_handlers subscribe_all
subscribe_handlers reply [] p = p
subscribe_handlers reply (h ∷ hs) p = subscribe_all reply (group_handlers (h ∷ hs) []) p

unfoldable pub on_application_bootstrap :
    (String → Bool) → List Provider → PubSub (List EventHandler) → PubSub (List EventHandler)
unfolding discover_handlers subscribe_handlers
on_application_bootstrap reply providers p =
    subscribe_handlers reply (discover_handlers providers) p

module _ (js : Json) (timestamp_of : js.Value → Timestamp)
    (with_timestamp : ℕ → js.Value → js.Value) {W : Type 0}
    (handle : EventHandler → js.Value → String → W → Bool × W) where
  -- `tradeTimestampSanityFloorSec`; at a clock before 1971 it is no bound, below 0 as in the source
  abbrev sanity_floor_s : ℕ → ℕ
  sanity_floor_s now_ms = now_ms / 1000 - trade_timestamp_sanity_floor_age_s

  -- whether there is a `reason`
  unfoldable pub is_invalid : ℕ → Timestamp → Bool
  is_invalid now_ms not_finite = true
  is_invalid now_ms non_positive = true
  is_invalid now_ms (positive seconds) = ltb seconds (sanity_floor_s now_ms)

  -- `overrideTradeTimestampWhenInvalid`
  unfoldable pub override_trade_timestamp : ℕ → js.Value → js.Value
  unfolding is_invalid
  override_trade_timestamp now_ms event =
      if is_invalid now_ms (timestamp_of event) then with_timestamp (now_ms / 1000) event else event

  -- The loop over the handlers: what one throws is logged, and the next one is called.
  unfoldable pub call_handlers : List EventHandler → js.Value → String → W → W
  call_handlers [] event channel w = w
  call_handlers (h ∷ hs) event channel w =
      call_handlers hs event channel (handle h event channel w).1

  -- The callback of a channel at the time `now_ms`
  unfoldable pub dispatch : ℕ → List EventHandler → js.Value → String → W → Bool × W
  unfolding override_trade_timestamp call_handlers is_trade_event_channel
  dispatch now_ms hs message channel w =
      if js.is_object message
      then (let event : js.Value =
            if is_trade_event_channel channel
            then override_trade_timestamp now_ms message
            else message in
          (true, call_handlers hs event channel w))
      else (true, w)
