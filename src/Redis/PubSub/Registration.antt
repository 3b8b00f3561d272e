-- ===== src/Redis/PubSub/Registration.antt =====
-- pubsub.service.ts: the handlers and the commands sent, over any order of calls and replies.
use text.Mathlib.TextEquality.{eq_iff}
use solsight_api.Prelude.{
  String, Bool, true, false, none, some, List, [], ◌∷◌, ◌++◌, map, ◌≡◌, refl, arith, ◌==◌,
  string_eq, lookup, insert, lookup-insert, lookup-delete, Option-cases, inl, inr, is_some,
  if◌then◌else◌, eq_self,
}
use solsight_api.Redis.PubSub.{
  PubSub, Command, subscribe, unsubscribe, register, subscribe_begin, subscribe_end,
  unsubscribe_begin,
}

module _ (H : Type 0) where
  pub data Happening : Type 0 where
    subscribes : String → H → Happening
    -- the reply to a `SUBSCRIBE`, and whether it is a success
    replies : String → Bool → Happening
    unsubscribes : String → Happening

  -- What the server sees: a command that reaches it, and a `SUBSCRIBE` that it refuses
  pub data Entry : Type 0 where
    reached : Command → Entry
    refused : String → Entry

  -- The service with what the server has seen, the latest first
  pub record Session : Type 0 where
    pub service : PubSub H
    pub log : List Entry

  abbrev after : PubSub H × List Command → List Entry → Session
  after (p, cmds) log = record { service = p; log = map reached cmds ++ log }

  abbrev with_reply : String → Bool → List Entry → List Entry
  with_reply channel true log = log
  with_reply channel false log = refused channel ∷ log

  unfoldable pub happen : Happening → Session → Session
  happen (subscribes channel h) s = after (subscribe_begin H channel h s.service) s.log
  happen (replies channel answer) s = record {
    service = subscribe_end H channel answer s.service;
    log = with_reply channel answer s.log;
  }
  happen (unsubscribes channel) s = after (unsubscribe_begin H channel s.service) s.log

  unfoldable pub happenings : List Happening → Session → Session
  happenings [] s = s
  happenings (x ∷ xs) s = happenings xs (happen x s)

  -- The last that the server saw of the channel is a `SUBSCRIBE`, which it has not refused.
  abbrev pub is_subscribed : String → List Entry → Bool
  is_subscribed channel [] = false
  is_subscribed channel (reached (subscribe c) ∷ log) =
      if c == channel then true else is_subscribed channel log
  is_subscribed channel (reached (unsubscribe c) ∷ log) =
      if c == channel then false else is_subscribed channel log
  is_subscribed channel (refused c ∷ log) =
      if c == channel then false else is_subscribed channel log
  is_subscribed channel (reached _ ∷ log) = is_subscribed channel log

  abbrev pub IsServed : Session → Type 0
  IsServed s =
      (channel : String)
      → is_some (lookup channel s.service.handlers) ≡ true
      → is_subscribed channel s.log ≡ true

  begin-IsServed :
      (channel : String) (h : H) (s : Session)
      → IsServed s
      → IsServed (after (subscribe_begin H channel h s.service) s.log)
  unfolding subscribe_begin register
  begin-IsServed channel h s served j =
      let m = s.service.handlers in
      elim (Option-cases (lookup channel m)) [
        | inl e ↦ ground (arith, e, served j, lookup-insert channel j (h ∷ []) m, eq_iff channel j)
        | inr (hs, e) ↦ ground (
          arith,
          e,
          served j,
          lookup-insert channel j (hs ++ h ∷ []) m,
          eq_iff channel j,
          served channel,
        )
      ]

  end-IsServed :
      (channel : String) (answer : Bool) (s : Session)
      → IsServed s
      → IsServed (record {
        service = subscribe_end H channel answer s.service;
        log = with_reply channel answer s.log;
      })
  unfolding subscribe_end
  end-IsServed channel true s served j = served j
  end-IsServed channel false s served j =
      ground (arith, served j, lookup-delete channel j s.service.handlers, eq_iff channel j)

  unsubscribe-IsServed :
      (channel : String) (s : Session)
      → IsServed s
      → IsServed (after (unsubscribe_begin H channel s.service) s.log)
  unfolding unsubscribe_begin
  unsubscribe-IsServed channel s served j =
      ground (arith, served j, lookup-delete channel j s.service.handlers)

  happen-IsServed : (x : Happening) (s : Session) → IsServed s → IsServed (happen x s)
  unfolding happen
  happen-IsServed (subscribes channel h) s served = begin-IsServed channel h s served
  happen-IsServed (replies channel answer) s served = end-IsServed channel answer s served
  happen-IsServed (unsubscribes channel) s served = unsubscribe-IsServed channel s served

  -- Over any order of calls and replies, from a state where it holds: the last that the server saw of a
  -- channel with a handler is a `SUBSCRIBE`, which it has not refused.
  pub happenings-IsServed :
      (xs : List Happening) (s : Session) → IsServed s → IsServed (happenings xs s)
  unfolding happenings
  happenings-IsServed [] s served = served
  happenings-IsServed (x ∷ xs) s served =
      happenings-IsServed xs (happen x s) (happen-IsServed x s served)

  subscribe_begin_new :
      (channel : String) (h : H) (p : PubSub H)
      → p.connected ≡ true
      → lookup channel p.handlers ≡ none
      → subscribe_begin H channel h p
        ≡ (record p { handlers = insert channel (h ∷ []) p.handlers }, subscribe channel ∷ [])
  unfolding subscribe_begin register
  subscribe_begin_new channel h p on free = ground (arith, on, free)

  subscribe_begin_old :
      (channel : String) (h : H) (hs : List H) (p : PubSub H)
      → p.connected ≡ true
      → lookup channel p.handlers ≡ some hs
      → subscribe_begin H channel h p
        ≡ (record p { handlers = insert channel (hs ++ h ∷ []) p.handlers }, [])
  unfolding subscribe_begin register
  subscribe_begin_old channel h hs p on taken = ground (arith, on, taken)

  -- A second handler for a channel whose `SUBSCRIBE` is not answered yet sends nothing, and its call
  -- returns; when the answer is an error it is dropped together with the first.
  subscribe_end_drops_later :
      (channel : String) (h later : H) (p : PubSub H)
      → p.connected ≡ true
      → lookup channel p.handlers ≡ none
      → let waiting = (subscribe_begin H channel h p).0 in
        let joined = subscribe_begin H channel later waiting in
        (joined.1 ≡ [])
        × (lookup channel joined.0.handlers ≡ some (h ∷ later ∷ []))
        × (lookup channel (subscribe_end H channel false joined.0).handlers ≡ none)
  unfolding subscribe_end
  subscribe_end_drops_later channel h later p on free =
      let m = p.handlers in
      let first = insert channel (h ∷ []) m in
      let q : PubSub H = record p { handlers = first } in
      let there : lookup channel first ≡ some (h ∷ []) = rw (lookup-insert, eq_self channel) in
      rw (subscribe_begin_new channel h p on free) (
        rw (subscribe_begin_old channel later (h ∷ []) q on there)
          (refl, rw (lookup-insert, eq_self channel), rw (lookup-delete, eq_self channel)))
