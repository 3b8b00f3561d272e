-- ===== src/Tokens/Sync.antt =====
-- tokens/services/sync: the mints of swaps that the catalog does not know are put into a set in Redis
-- (token-sync.enqueuer.ts), which a job empties into the catalog (token-sync.service.ts). A call that
-- waits is cut where another may come between. What Jupiter and the chain answer are arguments.
pub mod Known
mod Tests
use solsight_api.Prelude.{
  ℕ, String, Bool, true, false, ◌&&◌, ◌||◌, not, Option, none, some, List, [], ◌∷◌, ◌++◌, map, keep,
  any, is_some, or_else, nat_beq, string_eq, pair_eq, ◌==◌, ◌≡◌, ◌⊎◌, lookup, insert, if◌then◌else◌,
  Table, length,
}
use solsight_api.Prelude.Text.{is_blank}
use solsight_api.Cluster.{Cluster, mainnet, devnet, cluster_name, clusters}

abbrev pub common_token_mints : List String
common_token_mints =
    "So11111111111111111111111111111111111111112" ∷ "EPjFWdd5AufqSSqeM2qN1xzybapC8G4wEGGkZwyTDt1v"
    ∷ "Es9vMFrzaCERmJfrF4H2FYD4KCoNkY11McCe8BenwNYB" ∷ "DezXAZ8z7PnrnRJjz3wXBoRgixCa6v5B1pPB263"
    ∷ "JUPyiwrYJFskUPiHa7hkeR8VUtAeFoSYbKedZNsDvCN" ∷ []

abbrev pub batch_size : ℕ
batch_size = 25

-- A row of the catalog as far as the job writes it; `details` is the rest of what it is made of.
pub record CatalogRow : Type 0 where
  pub address : String
  pub network : String
  pub symbol : String
  pub name : String
  pub decimals : ℕ

abbrev pub catalog_key : CatalogRow → String × String
catalog_key r = (r.address, r.network)

-- What the two services use of Redis: whether the key of a known token is there, the set of pending
-- mints, and the cached metadata. A key may expire at any time.
pub record SyncStore : Type 1 where
  pub State : Type 0
  pub known : Cluster → String → State → Bool
  pub mark_known : Cluster → String → State → State
  pub add_pending : Cluster → String → State → State
  pub pop_pending : Cluster → ℕ → State → List String × State
  pub del_metadata : Cluster → String → State → State
  pub known-mark :
      (c d : Cluster) (m n : String) (s : State)
      → known d n (mark_known c m s) ≡ true
      → ((c ≡ d) × (m ≡ n)) ⊎ (known d n s ≡ true)
  pub known-add :
      (c d : Cluster) (m n : String) (s : State)
      → known d n (add_pending c m s) ≡ true
      → known d n s ≡ true
  pub known-pop :
      (c d : Cluster) (k : ℕ) (n : String) (s : State)
      → known d n (pop_pending c k s).1 ≡ true
      → known d n s ≡ true
  pub known-del :
      (c d : Cluster) (m n : String) (s : State)
      → known d n (del_metadata c m s) ≡ true
      → known d n s ≡ true

-- A token of Jupiter, whose id may be missing
pub record JupiterToken : Type 0 where
  pub id : Option String
  pub symbol : String
  pub name : String
  pub decimals : ℕ

module _ (t : Table catalog_key) (store : SyncStore) where
  pub record SyncState : Type 0 where
    pub catalog : t.State
    pub redis : store.State

  abbrev pub is_common : String → Bool
  is_common mint = any (λ m. m == mint) common_token_mints

  -- `enqueueIfUnknown`: the test of the key, and the query with what follows it
  unfoldable pub enqueue_if_unknown : Cluster → String → SyncState → SyncState
  enqueue_if_unknown cluster mint s =
      if is_common mint || store.known cluster mint s.redis
      then s
      else if is_some (t.find (mint, cluster_name cluster) s.catalog)
      then record s { redis = store.mark_known cluster mint s.redis }
      else record s { redis = store.add_pending cluster mint s.redis }

  -- `mapJupiterTokenToEntity` under its id, with the network
  abbrev pub jupiter_row : Cluster → String → JupiterToken → CatalogRow
  jupiter_row cluster id j = record {
    address = id;
    network = cluster_name cluster;
    symbol = j.symbol;
    name = j.name;
    decimals = j.decimals;
  }

  unfoldable pub add_jupiter :
      Cluster → List JupiterToken → List (String × CatalogRow) → List (String × CatalogRow)
  add_jupiter cluster [] found = found
  add_jupiter cluster (j ∷ js) found =
      let rest = add_jupiter cluster js in
      elim j.id [
        | none ↦ rest found
        | some id ↦
            if is_blank id then rest found else rest (insert id (jupiter_row cluster id j) found)
      ]

  -- Only mainnet asks Jupiter; `none` is an error.
  abbrev pub from_jupiter : Cluster → Option (List JupiterToken) → List (String × CatalogRow)
  from_jupiter mainnet jupiter = add_jupiter mainnet (or_else jupiter []) []
  from_jupiter devnet jupiter = []

  -- `fetchFromOnChain`; `short` is `mint.slice(0, 8)`.
  module _ (short : String → String) (chain : Cluster → String → Option ℕ) where
    unfoldable pub fetch_from_on_chain : Cluster → String → Option CatalogRow
    fetch_from_on_chain cluster mint = elim (chain cluster mint) [
      | none ↦ none
      | some decimals ↦ some (record {
        address = mint;
        network = cluster_name cluster;
        symbol = short mint;
        name = mint;
        decimals = decimals;
      })
    ]

    unfoldable pub add_on_chain :
        Cluster → List String → List (String × CatalogRow) → List (String × CatalogRow)
    unfolding fetch_from_on_chain
    add_on_chain cluster [] found = found
    add_on_chain cluster (mint ∷ mints) found =
        let rest = add_on_chain cluster mints in
        elim (fetch_from_on_chain cluster mint) [
          | none ↦ rest found
          | some row ↦ rest (insert mint row found)
        ]

    -- `tokenDataMap`, as it is after both sources
    unfoldable pub token_data :
        Cluster → List String → Option (List JupiterToken) → List (String × CatalogRow)
    unfolding add_jupiter add_on_chain
    token_data cluster mints jupiter =
        let first = from_jupiter cluster jupiter in
        add_on_chain cluster (keep (λ m. not (is_some (lookup m first))) mints) first

    abbrev pub upsert_all : List (String × CatalogRow) → t.State → t.State
    upsert_all [] catalog = catalog
    upsert_all ((m, row) ∷ rest) catalog = upsert_all rest (t.save row catalog)

    abbrev pub mark_all : Cluster → List (String × CatalogRow) → store.State → store.State
    mark_all cluster [] redis = redis
    mark_all cluster ((m, row) ∷ rest) redis =
        mark_all cluster rest (store.del_metadata cluster m (store.mark_known cluster m redis))

    -- `syncMints` from the upsert on; `stores` is whether the database answers.
    unfoldable pub sync_data : Bool → Cluster → List (String × CatalogRow) → SyncState → SyncState
    sync_data stores cluster rows s =
        if stores
        then record s { catalog = upsert_all rows s.catalog; redis = mark_all cluster rows s.redis }
        else s

    unfoldable pub sync_mints :
        Bool → Cluster → List String → Option (List JupiterToken) → SyncState → SyncState
    unfolding token_data sync_data
    sync_mints stores cluster mints jupiter s =
        sync_data stores cluster (token_data cluster mints jupiter) s

    -- `drainCluster` up to its wait for the sources: the mints that were popped
    unfoldable pub drain_begin : Cluster → SyncState → List String × SyncState
    drain_begin cluster s =
        let (mints, redis) = store.pop_pending cluster batch_size s.redis in
        (mints, record s { redis = redis })
