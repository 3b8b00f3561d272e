-- ===== src/Staking/History/Page.antt =====
-- StakingService.readHistoryPage and the end of getHistory: a page of the records of a wallet. The
-- table holds its rows in the order of the query, the newest first; `text_before` is the database's
-- order of texts.
use solsight_api.Prelude.{
  ℕ, ◌+◌, String, Bool, ◌&&◌, ◌||◌, Option, none, some, List, [], ◌∷◌, take, keep, first, length,
  ltb, nat_beq, ◌==◌, string_eq, if◌then◌else◌,
}
use solsight_api.Cluster.{Cluster, cluster_beq}
use solsight_api.Staking.History.{StakingHistory}

pub record StakingHistoryResponse : Type 0 where
  pub records : List StakingHistory
  pub next_cursor : Option String

abbrev pub last_row : List StakingHistory → Option StakingHistory
last_row [] = none
last_row (r ∷ []) = some r
last_row (r ∷ (q ∷ rs)) = last_row (q ∷ rs)

abbrev pub signature_of : Option StakingHistory → Option String
signature_of none = none
signature_of (some r) = some r.signature

-- The condition that a cursor adds
abbrev pub is_older : (String → String → Bool) → StakingHistory → StakingHistory → Bool
is_older text_before cursor r =
    ltb r.block_time cursor.block_time
    || nat_beq r.block_time cursor.block_time && text_before r.signature cursor.signature

module _ (text_before : String → String → Bool) (network : Cluster) (wallet : String)
    (table : List StakingHistory) where
  abbrev pub mine : List StakingHistory
  mine =
      keep (λ (r : StakingHistory). cluster_beq r.cluster network && r.wallet_address == wallet)
        table

  abbrev pub row_of : String → Option StakingHistory
  row_of signature =
      first (λ (r : StakingHistory). cluster_beq r.cluster network && r.signature == signature)
        table

  -- The rows that the query finds, before its limit; an empty cursor counts as none.
  unfoldable pub rows_behind : Option String → List StakingHistory
  rows_behind none = mine
  rows_behind (some before) = if before == "" then mine else elim (row_of before) [
    | none ↦ []
    | some cursor ↦ keep (is_older text_before cursor) mine
  ]

  unfoldable pub read_history_page : Option String → ℕ → List StakingHistory
  unfolding rows_behind
  read_history_page before limit = take limit (rows_behind before)

  -- What `getHistory` answers
  unfoldable pub history_page : Option String → ℕ → StakingHistoryResponse
  unfolding read_history_page
  history_page before page_size =
      let records = read_history_page before (page_size + 1) in
      let has_more = ltb page_size (length records) in
      let page_records = if has_more then take page_size records else records in
      record {
        records = page_records;
        next_cursor =
            if has_more && ltb 0 (length page_records)
            then signature_of (last_row page_records)
            else none;
      }
