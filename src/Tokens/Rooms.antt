-- ===== src/Tokens/Rooms.antt =====
-- tokens/services/socket/room: the names of the socket rooms, `domain:cluster:resource:interval`.
pub mod Roundtrip
use solsight_api.Prelude.{
  String, Bool, false, Option, none, some, List, [], ◌∷◌, any, or_else, is_some, ◌==◌, string_eq,
  Result, ok, err, ◌>>=◌, ◌>>◌, guard, or_throw, not, ◌||◌, lookup,
}
use solsight_api.Prelude.Text.{split, includes, is_blank, ◌⊕◌}
use solsight_api.Cluster.{Cluster, valid_cluster, cluster_name}

-- `ROOM_RULES`
abbrev pub room_rules : List (String × List String)
room_rules =
    ("price", "5s" ∷ [])
    ∷ ("priceOHLC", "10s" ∷ "1m" ∷ "5m" ∷ [])
    ∷ ("tx", "5s" ∷ [])
    ∷ ("stats", "5s" ∷ [])
    ∷ ("trades", "5s" ∷ [])
    ∷ ("top_traders", "5s" ∷ [])
    ∷ ("holders", "5s" ∷ [])
    ∷ ("volume", "5s" ∷ [])
    ∷ []

pub data RoomError : Type 0 where
  invalid_cluster invalid_resource invalid_interval invalid_cluster_in_room : RoomError

-- `TokenSubscribeDto`, as a client sends it
pub record TokenSubscribe : Type 0 where
  pub cluster : String
  pub domain : String
  pub resource : String
  pub interval : String

-- Absent parts of a room name are `undefined`.
pub record ParsedRoom : Type 0 where
  pub domain : String
  pub cluster : Cluster
  pub resource : Option String
  pub interval : Option String

-- `rules.includes(interval)`, where the domain has rules
unfoldable pub is_valid : String → String → Bool
is_valid domain interval = elim (lookup domain room_rules) [
  | none ↦ false
  | some rules ↦ any (λ r. r == interval) rules
]

unfoldable pub create : TokenSubscribe → Result RoomError String
create p = do
  cluster ← or_throw (valid_cluster p.cluster) invalid_cluster
  guard (not (is_blank p.resource || includes b':' p.resource)) invalid_resource
  guard (is_valid p.domain p.interval) invalid_interval
  ok (p.domain ⊕ ":" ⊕ p.cluster ⊕ ":" ⊕ p.resource ⊕ ":" ⊕ p.interval)

abbrev parsed_parts : List String → Result RoomError ParsedRoom
parsed_parts (domain ∷ cluster ∷ rest) = do
  c ← or_throw (valid_cluster cluster) invalid_cluster_in_room
  ok (record {
    domain = domain;
    cluster = c;
    resource = elim rest [ [] ↦ none | r ∷ _ ↦ some r ];
    interval = elim rest [ [] ↦ none | r ∷ tail ↦ elim tail [ [] ↦ none | i ∷ _ ↦ some i ] ];
  })
parsed_parts _ = err invalid_cluster_in_room

unfoldable pub parse : String → Result RoomError ParsedRoom
parse room = parsed_parts (split b':' room)
