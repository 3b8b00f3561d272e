-- ===== src/Staking/History/Sync.antt =====
-- StakingService.backfillLatestHistory and backfillOlderHistory: signatures that are passed over.
use solsight_api.Prelude.{
  ℕ, suc, zero, String, Bool, true, false, ◌||◌, Option, some, List, [], ◌∷◌, ◌++◌, take, any, ◌≡◌,
  refl, sym, ◌∙◌, ap, arith, ◌==◌, string_eq, eq→≡, eq_self, first, Bool-cases, Option-cases, inl,
  inr,
}
use solsight_api.Staking.Instructions.{classify_stake_action}
use solsight_api.Staking.History.{
  logs_of, HistoryReader, StakingHistory, after_signature, until_signature, upsert_record,
  upsert_records, record_of, fetch_records,
}

abbrev pub has : String → List String → Bool
has y xs = any (λ (z : String). z == y) xs

pub has-append : (y : String) (xs ys : List String) → has y (xs ++ ys) ≡ (has y xs || has y ys)
has-append y [] ys = refl
has-append y (x ∷ xs) ys = ground (arith, has-append y xs ys)

-- A list in which every signature stands once
abbrev pub IsDistinct : List String → Type 0
IsDistinct [] = Unit {0}
IsDistinct (x ∷ xs) = (has x xs ≡ false) × IsDistinct xs

differs : (x y : String) (xs : List String) → has x xs ≡ false → has y xs ≡ true → (x == y) ≡ false
differs x y xs out there = elim (Bool-cases (x == y)) [
  | inr other ↦ other
  | inl same ↦
      absurd
        (let q : has y xs ≡ has x xs = ap (λ (w : String). has w xs) (sym (eq→≡ x y same)) in cc)
]

-- What stands behind x does not stand in front of it.
pub apart :
    (x y : String) (before later : List String)
    → IsDistinct (before ++ x ∷ later)
    → has y later ≡ true
    → (has y before ≡ false) × ((x == y) ≡ false)
apart x y [] later (once, _) there = (refl, differs x y later once there)
apart x y (z ∷ before) later (once, distinct) there =
    let (front, other) = apart x y before later distinct there in
    let inside : has y (before ++ x ∷ later) ≡ true =
      ground (arith, has-append y before (x ∷ later), there) in
    let z_other = differs z y (before ++ x ∷ later) once inside in
    (ground (arith, front, z_other), other)

pub has-take :
    (n : ℕ) (y : String) (xs : List String) → has y xs ≡ false → has y (take n xs) ≡ false
has-take zero y xs out = refl
has-take (suc n) y [] out = refl
has-take (suc n) y (x ∷ xs) out = ground (arith, has-take n y xs)

pub has-until :
    (n y : String) (xs : List String) → has y xs ≡ false → has y (until_signature n xs) ≡ false
unfolding until_signature
has-until n y [] out = refl
has-until n y (x ∷ xs) out = ground (arith, has-until n y xs)

pub has-after :
    (o y : String) (xs : List String) → has y xs ≡ false → has y (after_signature o xs) ≡ false
unfolding after_signature
has-after o y [] out = refl
has-after o y (x ∷ xs) out = ground (arith, has-after o y xs)

pub until-append :
    (n : String) (xs ys : List String)
    → has n xs ≡ true
    → until_signature n (xs ++ ys) ≡ until_signature n xs
unfolding until_signature
until-append n [] ys there = absurd cc
until-append n (x ∷ xs) ys there = elim (Bool-cases (x == n)) [
  | inl same ↦ rw same
  | inr other ↦
      rw other (ap (λ (l : List String). x ∷ l) (until-append n xs ys (rw other at there)))
]

pub after-append :
    (o : String) (xs ys : List String)
    → has o xs ≡ false
    → after_signature o (xs ++ ys) ≡ after_signature o ys
unfolding after_signature
after-append o [] ys out = refl
after-append o (x ∷ xs) ys out = elim (Bool-cases (x == o)) [
  | inl same ↦ absurd (let q = rw same at out in cc)
  | inr other ↦ rw other (after-append o xs ys (rw other at out))
]

-- x stands once.
pub not_before :
    (x : String) (before later : List String)
    → IsDistinct (before ++ x ∷ later)
    → has x before ≡ false
not_before x [] later _ = refl
not_before x (z ∷ before) later (once, distinct) =
    let inside : has x (before ++ x ∷ later) ≡ true =
      ground (arith, has-append x before (x ∷ later), eq_self x) in
    let other = differs z x (before ++ x ∷ later) once inside in
    ground (arith, not_before x before later distinct, other)

pub not_later :
    (x : String) (before later : List String)
    → IsDistinct (before ++ x ∷ later)
    → has x later ≡ false
not_later x [] later (once, _) = once
not_later x (z ∷ before) later (_, distinct) = not_later x before later distinct

some_inj : {A : Type 0} {a b : A} → some a ≡ some b → a ≡ b
some_inj e = cc

-- The record of a signature
abbrev pub record_at : String → List StakingHistory → Option StakingHistory
record_at x = first (λ (r : StakingHistory). r.signature == x)

record_at-upsert_record :
    (x : String) (r : StakingHistory) (rs : List StakingHistory)
    → (r.signature == x) ≡ false
    → record_at x (upsert_record r rs) ≡ record_at x rs
unfolding upsert_record
record_at-upsert_record x r [] other = rw other
record_at-upsert_record x r (q ∷ qs) other = elim (Bool-cases (q.signature == r.signature)) [
  | inl same ↦
      let q_other : (q.signature == x) ≡ false = rw (eq→≡ q.signature r.signature same) other in
      rw (same, q_other, other)
  | inr differ ↦ elim (Bool-cases (q.signature == x)) [
    | inl hit ↦ rw (differ, hit)
    | inr miss ↦ rw (differ, miss) (record_at-upsert_record x r qs other)
  ]
]

record_at-upsert_record_self :
    (r : StakingHistory) (rs : List StakingHistory)
    → record_at r.signature (upsert_record r rs) ≡ some r
unfolding upsert_record
record_at-upsert_record_self r [] = rw (eq_self r.signature)
record_at-upsert_record_self r (q ∷ qs) = elim (Bool-cases (q.signature == r.signature)) [
  | inl same ↦ rw same (rw (eq_self r.signature))
  | inr differ ↦ rw (differ, differ) (record_at-upsert_record_self r qs)
]

module _ (reader : HistoryReader) where
  signature-record_of :
      (y : String) (r : StakingHistory) → record_of reader y ≡ some r → r.signature ≡ y
  unfolding record_of
  signature-record_of y r e = elim (Option-cases (reader.get_transaction y)) [
    | inl missing ↦ absurd (let q = rw (record_of, missing) at e in cc)
    | inr (tx, found) ↦ elim (Option-cases (classify_stake_action (logs_of tx.meta))) [
      | inl other ↦ absurd (let q = rw (record_of, found, other) at e in cc)
      | inr (action, classified) ↦
          let made = some_inj (rw (record_of, found, classified) at e) in
          sym (ap (λ (h : StakingHistory). h.signature) made)
    ]
  ]

  pub fetched_lem :
      (x : String) (batch : List String) (rs : List StakingHistory)
      → has x batch ≡ false
      → record_at x (upsert_records (fetch_records reader batch) rs) ≡ record_at x rs
  unfolding upsert_records fetch_records
  fetched_lem x [] rs out = refl
  fetched_lem x (y ∷ ys) rs out =
      let y_other : (y == x) ≡ false = ground (arith, out) in
      let rest : has x ys ≡ false = ground (arith, out) in
      elim (Option-cases (record_of reader y)) [
        | inl e ↦ rw (fetch_records, e) (fetched_lem x ys rs rest)
        | inr (r, e) ↦
            rw (fetch_records, e)
              (fetched_lem x ys (upsert_record r rs) rest
                ∙ record_at-upsert_record x r rs (rw (signature-record_of y r e) y_other))
      ]

  -- A record of the batch is in the table afterwards.
  pub stored_lem :
      (y : String) (r : StakingHistory) (batch : List String) (rs : List StakingHistory)
      → IsDistinct batch
      → has y batch ≡ true
      → record_of reader y ≡ some r
      → record_at y (upsert_records (fetch_records reader batch) rs) ≡ some r
  unfolding upsert_records fetch_records
  stored_lem y r [] rs distinct there e = absurd cc
  stored_lem y r (z ∷ zs) rs (once, distinct) there e = elim (Bool-cases (z == y)) [
    | inl same ↦
        let z_is_y = eq→≡ z y same in
        let found : record_of reader z ≡ some r = rw z_is_y e in
        let once_y : has y zs ≡ false = rw z_is_y at once in
        rw (fetch_records, found)
          (fetched_lem y zs (upsert_record r rs) once_y
            ∙ rw (← signature-record_of y r e) (record_at-upsert_record_self r rs))
    | inr other ↦
        let later : has y zs ≡ true = rw other at there in
        elim (Option-cases (record_of reader z)) [
          | inl none_there ↦ rw (fetch_records, none_there) (stored_lem y r zs rs distinct later e)
          | inr (q, found) ↦
              rw (fetch_records, found) (stored_lem y r zs (upsert_record q rs) distinct later e)
        ]
  ]
