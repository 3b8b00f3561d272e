-- ===== src/Staking/History/Ordered.antt =====
-- Lists of history records in the order of the query, the newest first.
use solsight_api.Prelude.{
  ℕ, zero, suc, ◌+◌, ◌<◌, ◌≤◌, String, Bool, true, false, ◌&&◌, some, List, [], ◌∷◌, ◌++◌, take,
  drop, keep, first, length, length-take, take-take, take_whole, ltb, ◌==◌, string_eq, eq_self, ◌≡◌,
  refl, sym, ap, ◌∙◌, arith, Bool-cases, inl, inr, All,
}
use solsight_api.Cluster.{Cluster, cluster_beq}
use solsight_api.Staking.History.{StakingHistory}
use solsight_api.Staking.History.Page.{is_older, last_row}

-- The signatures are unique, and none is empty.
abbrev pub IsUnique : List StakingHistory → Type 0
IsUnique [] = Unit {0}
IsUnique (r ∷ rs) =
    ((r.signature == "") ≡ false)
    × (All (λ (q : StakingHistory). (r.signature == q.signature) ≡ false) rs × IsUnique rs)

pub All-keep :
    (P : StakingHistory → Type 0) (p : StakingHistory → Bool) (rs : List StakingHistory)
    → All P rs
    → All P (keep p rs)
All-keep P p [] h = tt
All-keep P p (r ∷ rs) (h, rest) = elim (Bool-cases (p r)) [
  | inl hit ↦ rw hit (h, All-keep P p rs rest)
  | inr miss ↦ rw miss (All-keep P p rs rest)
]

pub kept_lem :
    (p : StakingHistory → Bool) (rs : List StakingHistory)
    → All (λ (r : StakingHistory). p r ≡ true) (keep p rs)
kept_lem p [] = tt
kept_lem p (r ∷ rs) = elim (Bool-cases (p r)) [
  | inl hit ↦ rw hit (hit, kept_lem p rs)
  | inr miss ↦ rw miss (kept_lem p rs)
]

keep_whole :
    (p : StakingHistory → Bool) (rs : List StakingHistory)
    → All (λ (r : StakingHistory). p r ≡ true) rs
    → keep p rs ≡ rs
keep_whole p [] h = refl
keep_whole p (r ∷ rs) (h, rest) =
    rw h (ap (λ (l : List StakingHistory). r ∷ l) (keep_whole p rs rest))

pub All-middle :
    (P : StakingHistory → Type 0) (pre : List StakingHistory) (c : StakingHistory)
    (post : List StakingHistory)
    → All P (pre ++ c ∷ post)
    → P c
All-middle P [] c post (h, _) = h
All-middle P (r ∷ pre) c post (_, rest) = All-middle P pre c post rest

-- A list ends with its last row.
pub last_split :
    (rs : List StakingHistory) (c : StakingHistory)
    → last_row rs ≡ some c
    → (pre : List StakingHistory) × (rs ≡ pre ++ c ∷ [])
last_split [] c e = absurd cc
last_split (r ∷ []) c e = ([], cc)
last_split (r ∷ (q ∷ rs)) c e =
    let (pre, split) = last_split (q ∷ rs) c e in
    (r ∷ pre, ap (λ (l : List StakingHistory). r ∷ l) split)

pub has_last :
    (rs : List StakingHistory) → 0 < length rs → (c : StakingHistory) × (last_row rs ≡ some c)
has_last [] h = absurd (omega (arith, h))
has_last (r ∷ []) h = (r, refl)
has_last (r ∷ (q ∷ rs)) h = has_last (q ∷ rs) (omega arith)

take_nil : (m : ℕ) → take {A = StakingHistory} m [] ≡ []
take_nil zero = refl
take_nil (suc m) = refl

pub take_sum :
    (n m : ℕ) (rs : List StakingHistory) → take (n + m) rs ≡ take n rs ++ take m (drop n rs)
take_sum zero m rs = let e : 0 + m ≡ m = omega arith in ap (λ k. take {A = StakingHistory} k rs) e
take_sum (suc n) m [] = rw (take_nil m, take_nil (suc n + m))
take_sum (suc n) m (r ∷ rs) =
    let e : suc n + m ≡ suc (n + m) = omega arith in
    ap (λ k. take k (r ∷ rs)) e ∙ ap (λ (l : List StakingHistory). r ∷ l) (take_sum n m rs)

pub take_shorter : (k : ℕ) (rs : List StakingHistory) → take k (take (k + 1) rs) ≡ take k rs
take_shorter k rs =
    let e : k + 1 ≡ suc k = omega arith in ap (λ j. take k (take j rs)) e ∙ take-take k rs

pub take_longer :
    (k : ℕ) (rs : List StakingHistory)
    → ltb k (length (take (k + 1) rs)) ≡ false
    → take (k + 1) rs ≡ take k rs
take_longer k rs e =
    let short : length rs ≤ k = ground (arith, length-take (k + 1) rs, e) in
    take_whole (k + 1) rs (omega (arith, short)) ∙ sym (take_whole k rs short)

pub All-map2 :
    (P Q R : StakingHistory → Type 0)
    → ((c : StakingHistory) → P c → Q c → R c)
    → (rs : List StakingHistory) → All P rs
    → All Q rs
    → All R rs
All-map2 P Q R f [] h k = tt
All-map2 P Q R f (r ∷ rs) (h, hs) (k, ks) = (f r h k, All-map2 P Q R f rs hs ks)

-- The row with the signature of a row of the network is that row.
abbrev pub Finds : Cluster → List StakingHistory → StakingHistory → Type 0
Finds network rs c =
    cluster_beq c.cluster network ≡ true
    → first (λ (r : StakingHistory). cluster_beq r.cluster network && r.signature == c.signature) rs
      ≡ some c

pub finds_lem :
    (network : Cluster) (rs : List StakingHistory) → IsUnique rs → All (Finds network rs) rs
finds_lem network [] h = tt
finds_lem network (r ∷ rs) (_, (other, h)) = (
  (λ e. rw (e, eq_self r.signature)),
  All-map2 (λ (q : StakingHistory). (r.signature == q.signature) ≡ false) (Finds network rs)
      (Finds network (r ∷ rs))
      (λ c differs found e. elim (Bool-cases (cluster_beq r.cluster network)) [
        | inl here ↦ rw (here, differs) (found e)
        | inr elsewhere ↦ rw elsewhere (found e)
      ])
      rs other (finds_lem network rs h),
)

pub named_lem :
    (rs : List StakingHistory)
    → IsUnique rs
    → All (λ (r : StakingHistory). (r.signature == "") ≡ false) rs
named_lem [] h = tt
named_lem (r ∷ rs) (e, (_, h)) = (e, named_lem rs h)

-- What the database promises of its order of texts
pub record IsOrder (text_before : String → String → Bool) : Type 0 where
  pub asymmetric : (a b : String) → text_before a b ≡ true → text_before b a ≡ false
  pub transitive :
      (a b c : String) → text_before a b ≡ true → text_before b c ≡ true → text_before a c ≡ true

module _ (text_before : String → String → Bool) (order : IsOrder text_before) where
  older_asymmetric :
      (a b : StakingHistory) → is_older text_before a b ≡ true → is_older text_before b a ≡ false
  older_asymmetric a b e = elim (Bool-cases (text_before b.signature a.signature)) [
    | inl before ↦
        let after = order.asymmetric b.signature a.signature before in
        ground (arith, e, before, after)
    | inr not_before ↦ ground (arith, e, not_before)
  ]

  older_irreflexive : (a : StakingHistory) → is_older text_before a a ≡ false
  older_irreflexive a = elim (Bool-cases (is_older text_before a a)) [
    | inl e ↦ absurd (let f = older_asymmetric a a e in cc)
    | inr e ↦ e
  ]

  pub older_transitive :
      (a b c : StakingHistory)
      → is_older text_before a b ≡ true
      → is_older text_before b c ≡ true
      → is_older text_before a c ≡ true
  older_transitive a b c e f = elim (Bool-cases (text_before c.signature b.signature)) [
    | inl cb ↦ elim (Bool-cases (text_before b.signature a.signature)) [
      | inl ba ↦
          let ca = order.transitive c.signature b.signature a.signature cb ba in
          ground (arith, e, f, ca)
      | inr not_ba ↦ ground (arith, e, f, not_ba)
    ]
    | inr not_cb ↦ ground (arith, e, f, not_cb)
  ]

  -- The newest first
  abbrev pub IsSorted : List StakingHistory → Type 0
  IsSorted [] = Unit {0}
  IsSorted (r ∷ rs) = All (λ (q : StakingHistory). is_older text_before r q ≡ true) rs × IsSorted rs

  pub keep-IsSorted :
      (p : StakingHistory → Bool) (rs : List StakingHistory) → IsSorted rs → IsSorted (keep p rs)
  keep-IsSorted p [] h = tt
  keep-IsSorted p (r ∷ rs) (h, rest) = elim (Bool-cases (p r)) [
    | inl hit ↦ rw hit (
      All-keep (λ (q : StakingHistory). is_older text_before r q ≡ true) p rs h,
      keep-IsSorted p rs rest,
    )
    | inr miss ↦ rw miss (keep-IsSorted p rs rest)
  ]

  -- In a sorted list, the rows that are older than one of them are those behind it.
  pub older_lem :
      (pre : List StakingHistory) (c : StakingHistory) (post : List StakingHistory)
      → IsSorted (pre ++ c ∷ post)
      → keep (is_older text_before c) (pre ++ c ∷ post) ≡ post
  older_lem [] c post (h, _) = rw (older_irreflexive c) (keep_whole (is_older text_before c) post h)
  older_lem (r ∷ pre) c post (h, rest) =
      let newer =
        older_asymmetric r c
          (All-middle (λ (q : StakingHistory). is_older text_before r q ≡ true) pre c post h) in
      rw newer (older_lem pre c post rest)
