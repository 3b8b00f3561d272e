-- ===== src/Staking/History/Skipped.antt =====
-- StakingService.getHistory: what more than one batch of new signatures does.
use solsight_api.Prelude.{String, Bool, true, not, ◌&&◌, List, [], ◌∷◌, ◌++◌, ◌≡◌, arith, string_eq}
use solsight_api.Staking.History.{HistoryReader, SyncState}
use solsight_api.Staking.History.Sync.{has, IsDistinct}

-- A test that a list is distinct
unfoldable pub is_distinct : List String → Bool
is_distinct [] = true
is_distinct (x ∷ xs) = not (has x xs) && is_distinct xs

pub is_distinct-IsDistinct : (xs : List String) → is_distinct xs ≡ true → IsDistinct xs
unfolding is_distinct
is_distinct-IsDistinct [] e = tt
is_distinct-IsDistinct (x ∷ xs) e =
    (ground (arith, e), is_distinct-IsDistinct xs (ground (arith, e)))

module _ (reader : HistoryReader) (b : String) (bs between rest old : List String) (x n o : String)
    (s : SyncState) where
  -- The chain: a batch of new signatures, the other new ones, of which x is any, and what was there
  abbrev pub chain_of : List String
  chain_of = (b ∷ bs ++ (between ++ x ∷ rest)) ++ n ∷ old
