-- ===== src/Tokens/Rooms/Roundtrip.antt =====
-- room.factory.ts: a room that was created is parsed back into its parts.
use text.Mathlib.TextEquality.{eq_iff}
use solsight_api.Prelude.{
  String, Bool, true, false, Option, none, some, List, [], ◌∷◌, ◌≡◌, refl, sym, ◌∙◌, ap, ok, arith,
  Option-cases, inl, inr, lookup, ◌==◌, string_eq, any, Bool-cases, ◌||◌, eq→≡,
}
use solsight_api.Prelude.Text.{
  split, Lacks, split_colon, split-Lacks, includes, includes-Lacks, ◌⊕◌,
}
use solsight_api.Cluster.{Cluster, valid_cluster}
use solsight_api.Tokens.Rooms.{room_rules, TokenSubscribe, is_valid, create, parse}

-- No domain and no interval of the rules has a colon.
rules_without_colon : any (λ p. includes b':' p.0 || any (includes b':') p.1) room_rules ≡ false
unfolding includes
rules_without_colon = refl

interval_without_colon :
    (interval : String) (rules : List String)
    → any (includes b':') rules ≡ false
    → any (λ r. r == interval) rules ≡ true
    → includes b':' interval ≡ false
interval_without_colon interval [] h k = cc
interval_without_colon interval (r ∷ rs) h k =
    ground (arith, eq_iff r interval, interval_without_colon interval rs)

abbrev valid_in : String → String → Option (List String) → Bool
valid_in domain interval none = false
valid_in domain interval (some rules) = any (λ r. r == interval) rules

valid_without_colon :
    (domain interval : String) (m : List (String × List String))
    → any (λ p. includes b':' p.0 || any (includes b':') p.1) m ≡ false
    → valid_in domain interval (lookup domain m) ≡ true
    → (includes b':' domain ≡ false) × (includes b':' interval ≡ false)
unfolding lookup
valid_without_colon domain interval [] h k = cc
valid_without_colon domain interval ((d, rules) ∷ m) h k = ground (
  arith,
  eq_iff d domain,
  interval_without_colon interval rules,
  valid_without_colon domain interval m,
)

cluster_without_colon :
    (name : String) (c : Cluster) → valid_cluster name ≡ some c → includes b':' name ≡ false
unfolding valid_cluster
cluster_without_colon name c h = elim (Bool-cases (name == "mainnet")) [
  | inl e ↦ rw (eq→≡ name "mainnet" e) (unfold includes in refl)
  | inr n ↦ elim (Bool-cases (name == "devnet")) [
    | inl e ↦ rw (eq→≡ name "devnet" e) (unfold includes in refl)
    | inr m ↦ cc (rw (n, m) at h)
  ]
]

is_valid-valid_in :
    (domain interval : String)
    → is_valid domain interval ≡ valid_in domain interval (lookup domain room_rules)
unfolding is_valid
is_valid-valid_in domain interval = elim (Option-cases (lookup domain room_rules)) [
  | inl e ↦ rw (e, is_valid)
  | inr (rules, e) ↦ rw (e, is_valid)
]

create_inv :
    (p : TokenSubscribe) (room : String) (c : Cluster)
    → valid_cluster p.cluster ≡ some c
    → create p ≡ ok room
    → (is_valid p.domain p.interval ≡ true)
      × (includes b':' p.resource ≡ false)
      × (room ≡ p.domain ⊕ ":" ⊕ p.cluster ⊕ ":" ⊕ p.resource ⊕ ":" ⊕ p.interval)
unfolding create
create_inv p room c known made = ground arith

split_room :
    (d c r i : String)
    → Lacks b':' d
    → Lacks b':' c
    → Lacks b':' r
    → Lacks b':' i
    → split b':' (d ⊕ ":" ⊕ c ⊕ ":" ⊕ r ⊕ ":" ⊕ i) ≡ d ∷ c ∷ r ∷ i ∷ []
split_room d c r i ld lc lr li =
    split_colon d _ ld
    ∙ ap (◌∷◌ d)
        (split_colon c _ lc ∙ ap (◌∷◌ c) (split_colon r i lr ∙ ap (◌∷◌ r) (split-Lacks b':' i li)))

-- The name that `create` gives a room is parsed back into the parts that it was given.
pub parse-create :
    (p : TokenSubscribe) (room : String) (c : Cluster)
    → valid_cluster p.cluster ≡ some c
    → create p ≡ ok room
    → parse room
      ≡ ok (record {
        domain = p.domain;
        cluster = c;
        resource = some p.resource;
        interval = some p.interval;
      })
unfolding parse
parse-create p room c known made =
    let (valid, single, named) = create_inv p room c known made in
    let (in_domain, in_interval) =
      valid_without_colon p.domain p.interval room_rules rules_without_colon
        (sym (is_valid-valid_in p.domain p.interval) ∙ valid) in
    let parts =
      split_room p.domain p.cluster p.resource p.interval (includes-Lacks _ _ in_domain)
        (includes-Lacks _ _ (cluster_without_colon p.cluster c known)) (includes-Lacks _ _ single)
        (includes-Lacks _ _ in_interval) in
    rw (named, parts) (rw known)
