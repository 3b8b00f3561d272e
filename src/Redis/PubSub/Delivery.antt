-- ===== src/Redis/PubSub/Delivery.antt =====
-- pubsub.service.ts: who is called for a message.
use solsight_api.Prelude.{
  String, Bool, true, false, none, some, List, [], ◌∷◌, ◌++◌, ◌≡◌, refl, ◌==◌, string_eq, lookup,
  lookup-insert, Option-cases, Bool-cases, inl, inr, or_else, if◌then◌else◌, eq→≡, eq_self,
}
use solsight_api.Redis.Client.{Json}
use solsight_api.Redis.PubSub.{
  PubSub, Handlers, register, subscribe_begin, parse_payload, call_each, on_message,
}

module _ {H : Type 0} (js : Json) {W : Type 0} (invoke : H → js.Value → String → W → Bool × W) where
  call_each-append :
      (hs : List H) (h : H) (v : js.Value) (channel : String) (w : W)
      → call_each H js invoke (hs ++ h ∷ []) v channel w
        ≡ (invoke h v channel (call_each H js invoke hs v channel w)).1
  unfolding call_each
  call_each-append [] h v channel w = refl
  call_each-append (x ∷ hs) h v channel w = call_each-append hs h v channel (invoke x v channel w).1

  register_lem :
      (channel j : String) (h : H) (m : Handlers H)
      → or_else (lookup j (register H channel h m).0) []
        ≡ (if channel == j then or_else (lookup j m) [] ++ h ∷ [] else or_else (lookup j m) [])
  unfolding register
  register_lem channel j h m = elim (Bool-cases (channel == j)) [
    | inr other ↦ elim (Option-cases (lookup channel m)) [
      | inl e ↦ rw (e, register, lookup-insert, other)
      | inr (hs, e) ↦ rw (e, register, lookup-insert, other)
    ]
    | inl same ↦
        rw (← eq→≡ channel j same, eq_self channel)
          (elim (Option-cases (lookup channel m)) [
            | inl e ↦ rw (e, register) (rw (lookup-insert, eq_self channel))
            | inr (hs, e) ↦ rw (e, register) (rw (lookup-insert, eq_self channel))
          ])
  ]

  subscribed_lem :
      (p : PubSub H) (channel j : String) (h : H)
      → p.connected ≡ true
      → or_else (lookup j (subscribe_begin H channel h p).0.handlers) [] ≡ (
          if channel == j
          then or_else (lookup j p.handlers) [] ++ h ∷ []
          else or_else (lookup j p.handlers) [])
  unfolding subscribe_begin
  subscribed_lem p channel j h on = elim (Bool-cases (register H channel h p.handlers).1) [
    | inl is_new ↦ rw (on, is_new) (register_lem channel j h p.handlers)
    | inr old ↦ rw (on, old) (register_lem channel j h p.handlers)
  ]

  pub on_message_lem :
      (p : PubSub H) (j message : String) (v : js.Value) (w : W)
      → parse_payload H js invoke message ≡ some v
      → on_message H js invoke j message p w
        ≡ call_each H js invoke (or_else (lookup j p.handlers) []) v j w
  unfolding on_message
  on_message_lem p j message v w parsed = rw parsed

  -- On a message that is a JSON object, a handler that has just subscribed to the channel is called
  -- after all earlier ones, whatever those did or threw; other channels see no difference.
  on_message-subscribe_begin :
      (p : PubSub H) (channel j message : String) (h : H) (v : js.Value) (w : W)
      → p.connected ≡ true
      → parse_payload H js invoke message ≡ some v
      → on_message H js invoke j message (subscribe_begin H channel h p).0 w ≡ (
          if channel == j
          then (invoke h v j (on_message H js invoke j message p w)).1
          else on_message H js invoke j message p w)
  on_message-subscribe_begin p channel j message h v w on parsed =
      rw
        (
          on_message_lem (subscribe_begin H channel h p).0 j message v w parsed,
          subscribed_lem p channel j h on,
          on_message_lem p j message v w parsed,
        )
        (elim (Bool-cases (channel == j)) [
          | inl same ↦ rw same (call_each-append (or_else (lookup j p.handlers) []) h v j w)
          | inr other ↦ rw other
        ])

  dropped_lem :
      (message : String)
      → ((v : js.Value) → js.parse message ≡ some v → js.is_object v ≡ false)
      → parse_payload H js invoke message ≡ none
  unfolding parse_payload
  dropped_lem message no_object = elim (Option-cases (js.parse message)) [
    | inl e ↦ rw (e, parse_payload)
    | inr (v, e) ↦ rw (e, parse_payload) (rw (no_object v e))
  ]

  -- Anything that is not a JSON object is dropped: no handler is called.
  pub on_message_dropped :
      (p : PubSub H) (channel message : String) (w : W)
      → ((v : js.Value) → js.parse message ≡ some v → js.is_object v ≡ false)
      → on_message H js invoke channel message p w ≡ w
  unfolding on_message
  on_message_dropped p channel message w no_object = rw (dropped_lem message no_object)
