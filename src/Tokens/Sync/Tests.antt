-- ===== src/Tokens/Sync/Tests.antt =====
-- tokens/services/sync: the invariant at a concrete run.
use solsight_api.Prelude.{
  ℕ, String, true, false, Option, none, some, List, [], ◌∷◌, any, ◌≡◌, ◌⊎◌, inl, inr, refl,
  row_table, Table, is_some, lookup, insert, string_eq, pair_eq, ◌==◌, eq→≡, Bool-cases,
}
use solsight_api.Cluster.{Cluster, mainnet, devnet}
use solsight_api.Tokens.Sync.{
  catalog_key, SyncStore, SyncState, enqueue_if_unknown, drain_begin, sync_mints, sync_data,
  token_data, add_on_chain, fetch_from_on_chain,
}
use solsight_api.Tokens.Sync.Known.{SyncStep, enqueues, pops, syncs, step, steps, steps-IsKnown}

-- The known mints of the two networks, and the pending ones
pub record Marks : Type 0 where
  pub on_mainnet : List String
  pub on_devnet : List String
  pub pending : List String

abbrev known_in : Cluster → Marks → List String
known_in mainnet s = s.on_mainnet
known_in devnet s = s.on_devnet

abbrev mark_in : Cluster → String → Marks → Marks
mark_in mainnet m s = record s { on_mainnet = m ∷ s.on_mainnet }
mark_in devnet m s = record s { on_devnet = m ∷ s.on_devnet }

known-mark_in :
    (c d : Cluster) (m n : String) (s : Marks)
    → any (λ k. k == n) (known_in d (mark_in c m s)) ≡ true
    → ((c ≡ d) × (m ≡ n)) ⊎ (any (λ k. k == n) (known_in d s) ≡ true)
known-mark_in mainnet mainnet m n s known = elim (Bool-cases (m == n)) [
  | inl same ↦ inl (refl, eq→≡ m n same)
  | inr other ↦ inr (rw other at known)
]
known-mark_in mainnet devnet m n s known = inr known
known-mark_in devnet mainnet m n s known = inr known
known-mark_in devnet devnet m n s known = elim (Bool-cases (m == n)) [
  | inl same ↦ inl (refl, eq→≡ m n same)
  | inr other ↦ inr (rw other at known)
]

known-pending :
    (d : Cluster) (n : String) (s : Marks) (waiting : List String)
    → any (λ k. k == n) (known_in d (record s { pending = waiting })) ≡ true
    → any (λ k. k == n) (known_in d s) ≡ true
known-pending mainnet n s waiting known = known
known-pending devnet n s waiting known = known

abbrev marks : SyncStore
marks = record {
  State = Marks;
  known = λ c m s. any (λ k. k == m) (known_in c s);
  mark_known = mark_in;
  add_pending = λ c m s. record s { pending = m ∷ s.pending };
  pop_pending = λ c k s. (s.pending, record s { pending = [] });
  del_metadata = λ c m s. s;
  known-mark = known-mark_in;
  known-add = λ c d m n s. known-pending d n s (m ∷ s.pending);
  known-pop = λ c d k n s. known-pending d n s [];
  known-del = λ c d m n s known. known;
}

abbrev rows : Table catalog_key
rows = row_table catalog_key

abbrev no_tokens : SyncState rows marks
no_tokens = record {
  catalog = ([], tt);
  redis = record { on_mainnet = []; on_devnet = []; pending = [] };
}

abbrev chain_answers : Cluster → String → Option ℕ
chain_answers c m = some 6

-- A mint is reported twice; between the reports it is popped and stored.
abbrev sync_run : List (SyncStep rows marks (λ m. m) chain_answers)
sync_run =
    enqueues devnet "Mint1"
    ∷ pops devnet
    ∷ syncs true devnet ("Mint1" ∷ []) none
    ∷ enqueues devnet "Mint1"
    ∷ []

no_mark : (c : Cluster) (m : String) → any (λ k. k == m) (known_in c no_tokens.redis) ≡ false
no_mark mainnet m = refl
no_mark devnet m = refl

steps-IsKnown_example :
    is_some (
      rows.find
        ("Mint1", "devnet")
        (steps rows marks (λ m. m) chain_answers sync_run no_tokens).catalog)
    ≡ true
unfolding step enqueue_if_unknown drain_begin sync_mints sync_data token_data add_on_chain
    fetch_from_on_chain lookup insert
steps-IsKnown_example =
    steps-IsKnown rows marks (λ m. m) chain_answers sync_run no_tokens no_mark devnet "Mint1" refl
