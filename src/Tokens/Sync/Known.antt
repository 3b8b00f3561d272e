-- ===== src/Tokens/Sync/Known.antt =====
-- token-sync.service.ts, token-sync.enqueuer.ts: what is marked as known is in the catalog.
use solsight_api.Prelude.{
  ℕ, String, Bool, true, false, ◌||◌, Option, List, [], ◌∷◌, ◌≡◌, ◌⊎◌, inl, inr, refl, ap, subst,
  is_some, or_else, string_eq, pair_eq, ◌==◌, eq→≡, ≡→eq, Bool-cases, Option-cases, insert, Table,
  ◌∙◌, All,
}
use solsight_api.Prelude.Text.{is_blank}
use solsight_api.Cluster.{Cluster, mainnet, devnet, cluster_name}
use solsight_api.Tokens.Sync.{
  CatalogRow, catalog_key, SyncStore, SyncState, JupiterToken, is_common, enqueue_if_unknown,
  jupiter_row, add_jupiter, fetch_from_on_chain, add_on_chain, token_data, upsert_all, mark_all,
  sync_data, sync_mints, drain_begin,
}

module _ (t : Table catalog_key) (store : SyncStore) (short : String → String)
    (chain : Cluster → String → Option ℕ) where
  abbrev State : Type 0
  State = SyncState t store

  -- Each mint that Redis calls known has a row.
  abbrev pub IsKnown : State → Type 0
  IsKnown s =
      (c : Cluster) (m : String)
      → store.known c m s.redis ≡ true
      → is_some (t.find (m, cluster_name c) s.catalog) ≡ true

  -- The rows that are to be stored stand under their address, for the network.
  abbrev AreOf : Cluster → List (String × CatalogRow) → Type 0
  AreOf cluster rows =
      All (λ (e : String × CatalogRow). catalog_key e.1 ≡ (e.0, cluster_name cluster)) rows

  insert-AreOf :
      (cluster : Cluster) (m : String) (row : CatalogRow) (rows : List (String × CatalogRow))
      → catalog_key row ≡ (m, cluster_name cluster)
      → AreOf cluster rows
      → AreOf cluster (insert m row rows)
  unfolding insert
  insert-AreOf cluster m row [] e h = (e, tt)
  insert-AreOf cluster m row ((k, r) ∷ rows) e (f, h) = elim (Bool-cases (k == m)) [
    | inl same ↦ rw same (e, h)
    | inr other ↦ rw other (f, insert-AreOf cluster m row rows e h)
  ]

  add_jupiter-AreOf :
      (cluster : Cluster) (js : List JupiterToken) (found : List (String × CatalogRow))
      → AreOf cluster found
      → AreOf cluster (add_jupiter t store cluster js found)
  unfolding add_jupiter
  add_jupiter-AreOf cluster [] found h = h
  add_jupiter-AreOf cluster (j ∷ js) found h = elim (Option-cases j.id) [
    | inl e ↦ rw (e, add_jupiter) (add_jupiter-AreOf cluster js found h)
    | inr (id, e) ↦
        rw (e, add_jupiter)
          (elim (Bool-cases (is_blank id)) [
            | inl blank ↦ rw blank (add_jupiter-AreOf cluster js found h)
            | inr full ↦ rw full (
                add_jupiter-AreOf cluster js (insert id (jupiter_row t store cluster id j) found)
                  (insert-AreOf cluster id (jupiter_row t store cluster id j) found refl h))
          ])
  ]

  add_on_chain-AreOf :
      (cluster : Cluster) (mints : List String) (found : List (String × CatalogRow))
      → AreOf cluster found
      → AreOf cluster (add_on_chain t store short chain cluster mints found)
  unfolding add_on_chain fetch_from_on_chain
  add_on_chain-AreOf cluster [] found h = h
  add_on_chain-AreOf cluster (m ∷ ms) found h = elim (Option-cases (chain cluster m)) [
    | inl e ↦ rw (e, add_on_chain, fetch_from_on_chain) (add_on_chain-AreOf cluster ms found h)
    | inr (n, e) ↦
        rw (e, add_on_chain, fetch_from_on_chain)
          (add_on_chain-AreOf cluster ms _ (insert-AreOf cluster m _ found refl h))
  ]

  token_data-AreOf :
      (cluster : Cluster) (mints : List String) (jupiter : Option (List JupiterToken))
      → AreOf cluster (token_data t store short chain cluster mints jupiter)
  unfolding token_data
  token_data-AreOf mainnet mints jupiter =
      add_on_chain-AreOf mainnet _ _ (add_jupiter-AreOf mainnet (or_else jupiter []) [] tt)
  token_data-AreOf devnet mints jupiter = add_on_chain-AreOf devnet _ [] tt

  -- A row that is there stays there.
  stays :
      (k : String × String) (row : CatalogRow) (s : t.State)
      → is_some (t.find k s) ≡ true
      → is_some (t.find k (t.save row s)) ≡ true
  stays k row s there = elim (Bool-cases (catalog_key row == k)) [
    | inl same ↦ ap is_some (t.find-save_self k row s (eq→≡ (catalog_key row) k same))
    | inr other ↦
        ap is_some (t.find-save_ne k row s (λ q. cc (≡→eq (catalog_key row) k q, other))) ∙ there
  ]

  stay :
      (k : String × String) (rows : List (String × CatalogRow)) (s : t.State)
      → is_some (t.find k s) ≡ true
      → is_some (t.find k (upsert_all t store short chain rows s)) ≡ true
  stay k [] s there = there
  stay k ((m, row) ∷ rows) s there = stay k rows (t.save row s) (stays k row s there)

  marked :
      (cluster d : Cluster) (n : String) (rows : List (String × CatalogRow)) (catalog : t.State)
      (redis : store.State)
      → AreOf cluster rows
      → store.known d n (mark_all t store short chain cluster rows redis) ≡ true
      → (is_some (t.find (n, cluster_name d) (upsert_all t store short chain rows catalog)) ≡ true)
        ⊎ (store.known d n redis ≡ true)
  marked cluster d n [] catalog redis h known = inr known
  marked cluster d n ((m, row) ∷ rows) catalog redis (e, h) known =
      elim (marked cluster d n rows (t.save row catalog)
        (store.del_metadata cluster m (store.mark_known cluster m redis)) h known) [
          | inl there ↦ inl there
          | inr early ↦
              elim (store.known-mark cluster d m n redis
                (store.known-del cluster d m n (store.mark_known cluster m redis) early)) [
                  | inr before ↦ inr before
                  | inl (c_is_d, m_is_n) ↦
                      let key : catalog_key row ≡ (n, cluster_name d) =
                        e
                        ∙ ap (λ (k : String × Cluster). (k.0, cluster_name k.1))
                            (λ i. (m_is_n i, c_is_d i)) in
                      inl (
                        stay (n, cluster_name d) rows (t.save row catalog)
                          (ap is_some (t.find-save_self (n, cluster_name d) row catalog key)))
                ]
        ]

  -- What the two services do, cut at the waits: a report of a mint, the pop of a batch, and the storing
  -- of a batch with the marks. `stores` is whether the database answers.
  pub data SyncStep : Type 0 where
    enqueues : Cluster → String → SyncStep
    pops : Cluster → SyncStep
    syncs : (stores : Bool) → Cluster → List String → Option (List JupiterToken) → SyncStep

  unfoldable pub step : SyncStep → State → State
  step (enqueues cluster mint) s = enqueue_if_unknown t store cluster mint s
  step (pops cluster) s = (drain_begin t store short chain cluster s).1
  step (syncs stores cluster mints jupiter) s =
      sync_mints t store short chain stores cluster mints jupiter s

  abbrev pub steps : List SyncStep → State → State
  steps [] s = s
  steps (k ∷ ks) s = steps ks (step k s)

  enqueue-IsKnown :
      (cluster : Cluster) (mint : String) (s : State)
      → IsKnown s
      → IsKnown (enqueue_if_unknown t store cluster mint s)
  unfolding enqueue_if_unknown
  enqueue-IsKnown cluster mint s h =
      elim (Bool-cases (is_common t store mint || store.known cluster mint s.redis)) [
        | inl skip ↦ rw skip h
        | inr new ↦ elim (Bool-cases (is_some (t.find (mint, cluster_name cluster) s.catalog))) [
          | inr absent ↦
              rw (new, absent) (λ c m known. h c m (store.known-add cluster c mint m s.redis known))
          | inl there ↦
              rw (new, there)
                (λ c m known. elim (store.known-mark cluster c mint m s.redis known) [
                  | inr before ↦ h c m before
                  | inl (c_same, m_same) ↦
                      subst
                        (λ (k : String × Cluster).
                          is_some (t.find (k.0, cluster_name k.1) s.catalog) ≡ true)
                        (λ i. (m_same i, c_same i)) there
                ])
        ]
      ]

  step-IsKnown : (k : SyncStep) (s : State) → IsKnown s → IsKnown (step k s)
  unfolding step drain_begin sync_mints sync_data
  step-IsKnown (enqueues cluster mint) s h = enqueue-IsKnown cluster mint s h
  step-IsKnown (pops cluster) s h = λ c m known. h c m (store.known-pop cluster c _ m s.redis known)
  step-IsKnown (syncs false cluster mints jupiter) s h = h
  step-IsKnown (syncs true cluster mints jupiter) s h = λ c m known.
      let rows = token_data t store short chain cluster mints jupiter in
      elim (marked cluster c m rows s.catalog s.redis (token_data-AreOf cluster mints jupiter)
        known) [
          | inl there ↦ there
          | inr before ↦ stay (m, cluster_name c) rows s.catalog (h c m before)
        ]

  -- Over any order of reports, pops and storings, with any answers of Jupiter, the chain and the
  -- database, and keys that expire at any time: a mint whose key says that it is known has a row in
  -- the catalog for that network. Nothing is known at the start.
  pub steps-IsKnown :
      (ks : List SyncStep) (s : State)
      → ((c : Cluster) (m : String) → store.known c m s.redis ≡ false)
      → (c : Cluster) (m : String) → store.known c m (steps ks s).redis ≡ true
      → is_some (t.find (m, cluster_name c) (steps ks s).catalog) ≡ true
  steps-IsKnown ks s none_known = kept ks s (λ c m known. cc (none_known c m, known))
    where
      kept : (ks : List SyncStep) (s : State) → IsKnown s → IsKnown (steps ks s)
      kept [] s h = h
      kept (k ∷ ks) s h = kept ks (step k s) (step-IsKnown k s h)
