-- ===== src/Events/Delivery.antt =====
-- event-stream-dispatcher.service.ts over pubsub.service.ts: which handlers an event reaches.
use solsight_api.Prelude.{
  ℕ, String, Bool, true, false, Option, none, some, List, [], ◌∷◌, ◌≡◌, refl, ◌∙◌, ◌==◌, string_eq,
  lookup, lookup-insert, lookup-delete, Option-cases, Bool-cases, inl, inr, or_else, if◌then◌else◌,
  eq→≡, eq_self, arith, ltb, ◌+◌, ◌-◌, ◌/◌,
}
use solsight_api.Redis.Client.{Json}
use solsight_api.Redis.PubSub.Delivery.{on_message_lem}
use solsight_api.Redis.PubSub.{
  PubSub, register, subscribe_begin, subscribe_end, parse_payload, call_each, on_message,
}
use solsight_api.Cluster.Channels.{is_trade_event_channel}
use solsight_api.Events.Grouping.{IsUnique, wanted, group_handlers-IsUnique, group_handlers_lem}
use solsight_api.Events.{
  EventHandler, Provider, Timestamp, not_finite, non_positive, positive, is_invalid, ByChannel,
  discover_handlers, group_handlers, subscribe_channel, subscribe_all, subscribe_handlers,
  on_application_bootstrap, override_trade_timestamp, call_handlers, dispatch,
}

subscribe_channel_on :
    (reply : String → Bool) (c : String) (hs : List EventHandler) (p : PubSub (List EventHandler))
    → p.connected ≡ true
    → (subscribe_channel reply c hs p).connected ≡ true
unfolding subscribe_channel subscribe_begin subscribe_end register
subscribe_channel_on reply c hs p on = elim (Option-cases (lookup c p.handlers)) [
  | inr (old, e) ↦ rw (on, register, e)
  | inl e ↦ elim (Bool-cases (reply c)) [
    | inl done ↦ rw (on, register, e, done)
    | inr failed ↦ rw (on, register, e, failed)
  ]
]

subscribe_channel_other :
    (reply : String → Bool) (c j : String) (hs : List EventHandler) (p : PubSub (List EventHandler))
    → p.connected ≡ true
    → (c == j) ≡ false
    → lookup j (subscribe_channel reply c hs p).handlers ≡ lookup j p.handlers
unfolding subscribe_channel subscribe_begin subscribe_end register
subscribe_channel_other reply c j hs p on other = elim (Option-cases (lookup c p.handlers)) [
  | inr (old, e) ↦ rw (on, register, e) (rw (lookup-insert, other))
  | inl e ↦ elim (Bool-cases (reply c)) [
    | inl done ↦ rw (on, register, e, done) (rw (lookup-insert, other))
    | inr failed ↦ rw (on, register, e, failed) (rw (lookup-delete, other, lookup-insert, other))
  ]
]

-- What stands for a channel once the server has answered
abbrev answered : Bool → List EventHandler → Option (List (List EventHandler))
answered true hs = some (hs ∷ [])
answered false hs = none

subscribe_channel_self :
    (reply : String → Bool) (j : String) (hs : List EventHandler) (p : PubSub (List EventHandler))
    → p.connected ≡ true
    → lookup j p.handlers ≡ none
    → lookup j (subscribe_channel reply j hs p).handlers ≡ answered (reply j) hs
unfolding subscribe_channel subscribe_begin subscribe_end register
subscribe_channel_self reply j hs p on e = elim (Bool-cases (reply j)) [
  | inl done ↦ rw (on, register, e, done) (rw (lookup-insert, eq_self j))
  | inr failed ↦ rw (on, register, e, failed) (rw (lookup-delete, eq_self j))
]

subscribe_all_absent :
    (reply : String → Bool) (j : String) (m : ByChannel) (p : PubSub (List EventHandler))
    → p.connected ≡ true
    → lookup j m ≡ none
    → lookup j (subscribe_all reply m p).handlers ≡ lookup j p.handlers
unfolding subscribe_all lookup
subscribe_all_absent reply j [] p on absent = refl
subscribe_all_absent reply j ((c, hs) ∷ rest) p on absent = elim (Bool-cases (c == j)) [
  | inl same ↦ grind (arith)
  | inr other ↦
      subscribe_all_absent reply j rest (subscribe_channel reply c hs p)
        (subscribe_channel_on reply c hs p on) (rw other at absent)
      ∙ subscribe_channel_other reply c j hs p on other
]

subscribe_all_lem :
    (reply : String → Bool) (j : String) (m : ByChannel) (p : PubSub (List EventHandler))
    → IsUnique m
    → p.connected ≡ true
    → lookup j p.handlers ≡ none
    → or_else (lookup j (subscribe_all reply m p).handlers) []
      ≡ (elim (lookup j m) [ none ↦ [] | some hs ↦ or_else (answered (reply j) hs) [] ])
unfolding subscribe_all lookup
subscribe_all_lem reply j [] p unique on fresh = rw fresh
subscribe_all_lem reply j ((c, hs) ∷ rest) p (once, unique) on fresh =
    let then_on = subscribe_channel_on reply c hs p on in
    elim (Bool-cases (c == j)) [
      | inr other ↦ rw other (
          subscribe_all_lem reply j rest (subscribe_channel reply c hs p) unique then_on
            (subscribe_channel_other reply c j hs p on other ∙ fresh))
      | inl same ↦
          rw (← eq→≡ c j same, eq_self c)
            (rw (
              subscribe_all_absent reply c rest (subscribe_channel reply c hs p) then_on once,
              subscribe_channel_self reply c hs p on (rw (eq→≡ c j same) fresh),
              eq→≡ c j same,
            ))
    ]

subscribe_handlers_lem :
    (reply : String → Bool) (j : String) (hs : List EventHandler) (p : PubSub (List EventHandler))
    → p.connected ≡ true
    → lookup j p.handlers ≡ none
    → or_else (lookup j (subscribe_handlers reply hs p).handlers) []
      ≡ (elim (lookup j (group_handlers hs [])) [
        | none ↦ []
        | some hs ↦ or_else (answered (reply j) hs) []
      ])
unfolding subscribe_handlers group_handlers lookup
subscribe_handlers_lem reply j [] p on fresh = rw fresh
subscribe_handlers_lem reply j (h ∷ hs) p on fresh =
    subscribe_all_lem reply j (group_handlers (h ∷ hs) []) p
      (group_handlers-IsUnique (h ∷ hs) [] tt) on fresh

module _ (js : Json) (timestamp_of : js.Value → Timestamp)
    (with_timestamp : ℕ → js.Value → js.Value) {W : Type 0}
    (handle : EventHandler → js.Value → String → W → Bool × W) (now_ms : ℕ) where
  -- A trade with the time that its handlers get: the present in seconds, where its own is no number, is
  -- not above 0 or lies more than 365 days back
  abbrev put_right : Timestamp → js.Value → js.Value
  put_right not_finite v = with_timestamp (now_ms / 1000) v
  put_right non_positive v = with_timestamp (now_ms / 1000) v
  put_right (positive seconds) v =
      if ltb (seconds + 31536000) (now_ms / 1000) then with_timestamp (now_ms / 1000) v else v

  abbrev sane : String → js.Value → js.Value
  sane channel v = if is_trade_event_channel channel then put_right (timestamp_of v) v else v

  floor_lem :
      (seconds : ℕ)
      → ltb seconds (now_ms / 1000 - 31536000) ≡ ltb (seconds + 31536000) (now_ms / 1000)
  floor_lem seconds = ground arith

  by_timestamp :
      (x : Timestamp) (v : js.Value)
      → (if is_invalid js timestamp_of with_timestamp handle now_ms x
          then with_timestamp (now_ms / 1000) v
          else v)
        ≡ put_right x v
  unfolding is_invalid
  by_timestamp not_finite v = refl
  by_timestamp non_positive v = refl
  by_timestamp (positive seconds) v = rw (floor_lem seconds)

  override_lem :
      (v : js.Value)
      → override_trade_timestamp js timestamp_of with_timestamp handle now_ms v
        ≡ put_right (timestamp_of v) v
  unfolding override_trade_timestamp
  override_lem v = by_timestamp (timestamp_of v) v

  callbacks_lem :
      (answer : Bool) (grouped : Option (List EventHandler)) (j : String) (v : js.Value) (w : W)
      → js.is_object v ≡ true
      → call_each
          (List EventHandler)
          js
          (dispatch js timestamp_of with_timestamp handle now_ms)
          (elim grouped [ none ↦ [] | some hs ↦ or_else (answered answer hs) [] ])
          v
          j
          w
        ≡ (if answer
            then call_handlers js timestamp_of with_timestamp handle
                (or_else grouped [])
                (sane j v)
                j
                w
            else w)
  unfolding call_each dispatch call_handlers
  callbacks_lem true none j v w object = refl
  callbacks_lem false none j v w object = refl
  callbacks_lem true (some hs) j v w object = rw (call_each, dispatch, object) (rw (override_lem v))
  callbacks_lem false (some hs) j v w object = refl

  -- At start, with Redis there and nothing subscribed to the channel yet: if the server accepts the
  -- SUBSCRIBE, a later message that is a JSON object reaches exactly the handlers that name the
  -- channel, each in the order in which it was found and whatever the earlier ones throw, with the
  -- present as the time of a trade whose own is no number, is not above 0 or lies more than 365 days
  -- back; if it refuses, no handler of the channel is ever called.
  pub on_message-on_application_bootstrap :
      (reply : String → Bool) (providers : List Provider) (p : PubSub (List EventHandler))
      (j message : String) (v : js.Value) (w : W)
      → p.connected ≡ true
      → lookup j p.handlers ≡ none
      → js.parse message ≡ some v
      → js.is_object v ≡ true
      → on_message
          (List EventHandler)
          js
          (dispatch js timestamp_of with_timestamp handle now_ms)
          j
          message
          (on_application_bootstrap reply providers p)
          w
        ≡ (if reply j
            then call_handlers js timestamp_of with_timestamp handle
                (wanted j (discover_handlers providers))
                (sane j v)
                j
                w
            else w)
  unfolding parse_payload on_application_bootstrap lookup
  on_message-on_application_bootstrap reply providers p j message v w on fresh parsed object =
      on_message_lem js (dispatch js timestamp_of with_timestamp handle now_ms)
        (on_application_bootstrap reply providers p) j message v w
        (rw (parse_payload, parsed) (rw object))
      ∙ rw (subscribe_handlers_lem reply j (discover_handlers providers) p on fresh) (
          callbacks_lem (reply j) (lookup j (group_handlers (discover_handlers providers) [])) j v w
            object
          ∙ rw (group_handlers_lem j (discover_handlers providers) []))
