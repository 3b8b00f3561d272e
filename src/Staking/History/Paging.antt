-- ===== src/Staking/History/Paging.antt =====
-- StakingService.getHistory: pages that follow each other by the cursor.
use solsight_api.Prelude.{
  ℕ, ◌+◌, String, Bool, true, false, ◌&&◌, Option, none, some, List, [], ◌∷◌, ◌++◌, take, drop,
  keep, keep_narrow, length, take-append-drop, ltb, ◌==◌, string_eq, ◌≡◌, sym, ap, ◌∙◌, subst,
  arith, Bool-cases, Option-cases, inl, inr, All,
}
use mathlib.Core.List.{append_assoc}
use solsight_api.Cluster.{Cluster, cluster_beq}
use solsight_api.Staking.History.{StakingHistory}
use solsight_api.Staking.History.Page.{is_older, mine, row_of, rows_behind, history_page, last_row}
use solsight_api.Staking.History.Ordered.{
  IsOrder, IsUnique, All-keep, kept_lem, All-middle, last_split, has_last, take_sum, take_shorter,
  take_longer, All-map2, Finds, finds_lem, named_lem, older_transitive, IsSorted, keep-IsSorted,
  older_lem,
}

module _ (text_before : String → String → Bool) (order : IsOrder text_before) where
  module _ (network : Cluster) (wallet : String) (table : List StakingHistory)
      (unique : IsUnique table) (sorted : IsSorted text_before order table) where
    -- What stands behind a row
    abbrev Behind : List StakingHistory → StakingHistory → Type 0
    Behind rest c =
        rows_behind text_before network wallet table (some c.signature)
        ≡ keep (is_older text_before c) rest

    abbrev my_rows : List StakingHistory
    my_rows = mine text_before network wallet table

    abbrev is_mine : StakingHistory → Bool
    is_mine r = cluster_beq r.cluster network && r.wallet_address == wallet

    mine-Behind : All (Behind my_rows) my_rows
    unfolding rows_behind
    mine-Behind =
        All-map2 (λ (r : StakingHistory). ((r.signature == "") ≡ false) × Finds network table r)
          (λ (r : StakingHistory). is_mine r ≡ true) (Behind my_rows)
          (λ c (named, found) own.
            let here : cluster_beq c.cluster network ≡ true = ground (arith, own) in
            rw (named, found here))
          my_rows
          (All-keep (λ (r : StakingHistory). ((r.signature == "") ≡ false) × Finds network table r)
            is_mine table
            (All-map2 (λ (r : StakingHistory). (r.signature == "") ≡ false) (Finds network table)
              (λ (r : StakingHistory). ((r.signature == "") ≡ false) × Finds network table r)
              (λ c named found. (named, found)) table (named_lem table unique)
              (finds_lem network table unique)))
          (kept_lem is_mine table)

    narrow-Behind :
        (cursor : StakingHistory)
        → All
            (Behind (keep (is_older text_before cursor) my_rows))
            (keep (is_older text_before cursor) my_rows)
    narrow-Behind cursor =
        All-map2 (Behind my_rows) (λ (r : StakingHistory). is_older text_before cursor r ≡ true)
          (Behind (keep (is_older text_before cursor) my_rows))
          (λ c behind older.
            behind
            ∙ sym (
                keep_narrow (is_older text_before cursor) (is_older text_before c) my_rows
                  (λ x e. older_transitive text_before order cursor c x older e)))
          (keep (is_older text_before cursor) my_rows)
          (All-keep (Behind my_rows) (is_older text_before cursor) my_rows mine-Behind)
          (kept_lem (is_older text_before cursor) my_rows)

    abbrev IsChained : List StakingHistory → Type 0
    IsChained rest = IsSorted text_before order rest × All (Behind rest) rest

    mine-IsChained : IsChained my_rows
    mine-IsChained = (keep-IsSorted text_before order is_mine table sorted, mine-Behind)

    rows_behind-IsChained :
        (before : Option String) → IsChained (rows_behind text_before network wallet table before)
    unfolding rows_behind
    rows_behind-IsChained none = mine-IsChained
    rows_behind-IsChained (some before) = elim (Bool-cases (before == "")) [
      | inl blank ↦ rw blank mine-IsChained
      | inr text ↦ elim (Option-cases (row_of text_before network wallet table before)) [
        | inl missing ↦ rw (text, missing) (tt, tt)
        | inr (cursor, found) ↦
            rw (text, found)
              (
                keep-IsSorted text_before order (is_older text_before cursor) my_rows
                    mine-IsChained.0,
                narrow-Behind cursor,
              )
      ]
    ]

    -- The rows of a page
    records_lem :
        (before : Option String) (n : ℕ)
        → (history_page text_before network wallet table before n).records
          ≡ take n (rows_behind text_before network wallet table before)
    unfolding history_page
    records_lem before n =
        let rest = rows_behind text_before network wallet table before in
        elim (Bool-cases (ltb n (length (take (n + 1) rest)))) [
          | inl more ↦ rw more (take_shorter n rest)
          | inr all ↦ rw all (take_longer n rest all)
        ]

    cursor_lem :
        (before : Option String) (n : ℕ) (cursor : String)
        → (history_page text_before network wallet table before n).next_cursor ≡ some cursor
        → (c : StakingHistory) × (last_row
              (take n (rows_behind text_before network wallet table before))
            ≡ some c)
          × (c.signature ≡ cursor)
    unfolding history_page
    cursor_lem before n cursor e =
        let rest = rows_behind text_before network wallet table before in
        elim (Bool-cases (ltb n (length (take (n + 1) rest)))) [
          | inr all ↦ absurd (let q = rw all at e in cc)
          | inl more ↦ elim (Bool-cases (ltb 0 (length (take n (take (n + 1) rest))))) [
            | inr empty ↦ absurd (let q = rw (more, empty) at e in cc)
            | inl some_rows ↦
                let (c, last) = has_last (take n (take (n + 1) rest)) (ground (arith, some_rows)) in
                let q = rw (more, some_rows, last) at e in
                (c, ap last_row (sym (take_shorter n rest)) ∙ last, cc)
          ]
        ]

    -- The cursor of a page leads to what stands behind its last row.
    next_lem :
        (before : Option String) (n : ℕ) (cursor : String)
        → (history_page text_before network wallet table before n).next_cursor ≡ some cursor
        → rows_behind text_before network wallet table (some cursor)
          ≡ drop n (rows_behind text_before network wallet table before)
    next_lem before n cursor e =
        let rest = rows_behind text_before network wallet table before in
        let (c, last, named) = cursor_lem before n cursor e in
        let (pre, split) = last_split (take n rest) c last in
        let whole : rest ≡ pre ++ c ∷ drop n rest =
          sym (take-append-drop n rest)
          ∙ ap (λ (l : List StakingHistory). l ++ drop n rest) split
          ∙ append_assoc pre (c ∷ []) (drop n rest) in
        let (in_order, behind) = rows_behind-IsChained before in
        ap (λ (s : String). rows_behind text_before network wallet table (some s)) (sym named)
        ∙ All-middle (Behind rest) pre c (drop n rest) (subst (All (Behind rest)) whole behind)
        ∙ ap (keep (is_older text_before c)) whole
        ∙ older_lem text_before order pre c (drop n rest)
            (subst (IsSorted text_before order) whole in_order)

    -- For a table in the order of the query, whose signatures are unique and not empty: a page and the
    -- page that its cursor leads to have, one behind the other, the records of one page of both sizes.
    pub history_page-next :
        (before : Option String) (n m : ℕ) (cursor : String)
        → (history_page text_before network wallet table before n).next_cursor ≡ some cursor
        → (history_page text_before network wallet table before n).records
            ++ (history_page text_before network wallet table (some cursor) m).records
          ≡ (history_page text_before network wallet table before (n + m)).records
    history_page-next before n m cursor e =
        let rest = rows_behind text_before network wallet table before in
        rw
          (
            records_lem before n,
            records_lem (some cursor) m,
            records_lem before (n + m),
            next_lem before n cursor e,
          )
          (sym (take_sum n m rest))
