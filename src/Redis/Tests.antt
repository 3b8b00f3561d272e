-- ===== src/Redis/Tests.antt =====
-- redis.service.ts: the laws at concrete inputs, on the small server.
use solsight_api.Prelude.{String, true, false, [], ◌∷◌, lookup, string_eq}
use solsight_api.Redis.PubSub.Registration.{
  Session, subscribes, replies, unsubscribes, happenings, IsServed, happenings-IsServed,
}

abbrev no_session : Session String
no_session = record {
  service = record { connected = true; handlers = []; pattern_handlers = [] };
  log = [];
}

happenings-IsServed_example : IsServed String (
    happenings String
      (subscribes "x" "a" ∷ subscribes "y" "b" ∷ replies "x" false ∷ unsubscribes "y" ∷ [])
      no_session)
unfolding lookup
happenings-IsServed_example =
    happenings-IsServed String
      (subscribes "x" "a" ∷ subscribes "y" "b" ∷ replies "x" false ∷ unsubscribes "y" ∷ [])
      no_session (λ channel e. cc)
