-- ===== src/Redis/PubSub.antt =====
-- redis/services/pubsub.service.ts. A callback is an element of `H`; what calling it does to the rest
-- of the program is the parameter `invoke`, whose answer `false` is an exception. `subscribe` and
-- `unsubscribe` wait for Redis, so each is two steps: what runs up to the wait, with the command that
-- is sent, and what runs after the reply. `subscribe` and `psubscribe` are one text over two maps.
pub mod Delivery
pub mod Registration
use solsight_api.Prelude.{
  ℕ, String, Bool, true, false, Option, none, some, List, [], ◌∷◌, ◌++◌, string_eq, lookup, insert,
  delete, is_some, or_else, if◌then◌else◌,
}
use solsight_api.Redis.Client.{Json}
use solsight_api.Redis.Service.{Stored, text, value}

-- What a step sends to the server
pub data Command : Type 0 where
  subscribe unsubscribe psubscribe publish : String → Command

module _ (H : Type 0) where
  abbrev pub Handlers : Type 0
  Handlers = List (String × List H)

  -- `subscriber` is `null` where Redis could not be had at start.
  pub record PubSub : Type 0 where
    pub connected : Bool
    pub handlers : Handlers
    pub pattern_handlers : Handlers

  -- The map with the handler in, and whether the channel is new and a command has to be sent
  unfoldable pub register : String → H → Handlers → Handlers × Bool
  register channel handler m = elim (lookup channel m) [
    | some existing ↦ (insert channel (existing ++ handler ∷ []) m, false)
    | none ↦ (insert channel (handler ∷ []) m, true)
  ]

  abbrev sent {ℓ} : {A : Type ℓ} → Bool → Command → A → A × List Command
  sent true cmd a = (a, cmd ∷ [])
  sent false cmd a = (a, [])

  unfoldable pub subscribe_begin : String → H → PubSub → PubSub × List Command
  subscribe_begin channel handler p =
      if p.connected
      then (let (m, is_new) = register channel handler p.handlers in
          sent is_new (subscribe channel) (record p { handlers = m }))
      else (p, [])

  -- The reply: on a failure the channel's handlers are dropped.
  unfoldable pub subscribe_end : String → Bool → PubSub → PubSub
  subscribe_end channel true p = p
  subscribe_end channel false p = record p { handlers = delete channel p.handlers }

  -- After the reply nothing is left to do, whatever it is.
  unfoldable pub unsubscribe_begin : String → PubSub → PubSub × List Command
  unsubscribe_begin channel p =
      if p.connected
      then (if is_some (lookup channel p.handlers)
          then (record p { handlers = delete channel p.handlers }, unsubscribe channel ∷ [])
          else (p, []))
      else (p, [])

  unfoldable pub psubscribe_begin : String → H → PubSub → PubSub × List Command
  psubscribe_begin pattern handler p =
      if p.connected
      then (let (m, is_new) = register pattern handler p.pattern_handlers in
          sent is_new (psubscribe pattern) (record p { pattern_handlers = m }))
      else (p, [])

  unfoldable pub psubscribe_end : String → Bool → PubSub → PubSub
  psubscribe_end pattern true p = p
  psubscribe_end pattern false p = record p { pattern_handlers = delete pattern p.pattern_handlers }

  module _ (js : Json) {W : Type 0} (invoke : H → js.Value → String → W → Bool × W) where
    -- `parsePayload`
    unfoldable pub parse_payload : String → Option js.Value
    parse_payload message = elim (js.parse message) [
      | none ↦ none
      | some parsed ↦ if js.is_object parsed then some parsed else none
    ]

    -- The loop over the callbacks: an exception is logged, and the next one is called.
    unfoldable pub call_each : List H → js.Value → String → W → W
    call_each [] parsed channel w = w
    call_each (h ∷ hs) parsed channel w = call_each hs parsed channel (invoke h parsed channel w).1

    abbrev call_parsed : List H → Option js.Value → String → W → W
    call_parsed hs none channel w = w
    call_parsed hs (some parsed) channel w = call_each hs parsed channel w

    -- The listeners of "message" and "pmessage"
    unfoldable pub on_message : String → String → PubSub → W → W
    unfolding parse_payload
    on_message channel message p w =
        call_parsed (or_else (lookup channel p.handlers) []) (parse_payload message) channel w

    unfoldable pub on_pmessage : String → String → String → PubSub → W → W
    unfolding parse_payload
    on_pmessage pattern channel message p w =
        call_parsed (or_else (lookup pattern p.pattern_handlers) []) (parse_payload message) channel
          w

  -- `publish`: a string is sent as it is, anything else as JSON; `reply` is how the server answers,
  -- `none` for an error. Without a publisher nothing is sent.
  unfoldable pub publish_message : (js : Json) → Bool → Stored js → (String → Option ℕ) → ℕ
  publish_message js connected (text message) reply =
      if connected then or_else (reply message) 0 else 0
  publish_message js connected (value message) reply =
      if connected then or_else (reply (js.stringify message)) 0 else 0
