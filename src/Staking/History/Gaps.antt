-- ===== src/Staking/History/Gaps.antt =====
-- StakingService.getHistory: signatures between the two marks of an address are never copied.
use solsight_api.Prelude.{
  ℕ, String, Bool, true, false, not, ◌&&◌, some, List, [], ◌∷◌, ◌++◌, take, length, ltb, ◌≡◌, refl,
  sym, ◌∙◌, ap, subst, arith, ◌==◌, string_eq, eq_self, Bool-cases, inl, inr,
}
use mathlib.Core.List.{append_assoc}
use solsight_api.Staking.History.{
  HistoryReader, SyncState, after_signature, until_signature, last_of, latest_batch, older_batch,
  backfill_latest_history, backfill_older_history, sync_address, since, older_than,
  signature_backfill_batch_size,
}
use solsight_api.Staking.History.Sync.{
  has, has-append, IsDistinct, apart, has-take, has-until, has-after, until-append, after-append,
  not_before, not_later, record_at, fetched_lem,
}

-- On the chain, x stands behind the newest signature that was copied and in front of the oldest one.
pub record IsPassed (x : String) (chain : List String) (s : SyncState) : Type 0 where
  pub before : List String
  pub later : List String
  pub split : chain ≡ before ++ x ∷ later
  pub newest : String
  pub newest_mark : s.newest_synced_signature ≡ some newest
  pub newest_before : has newest before ≡ true
  pub oldest : String
  pub oldest_mark : s.oldest_synced_signature ≡ some oldest
  pub oldest_later : has oldest later ≡ true

held :
    (y : String) (whole part : List String)
    → (has y whole ≡ false → has y part ≡ false)
    → has y part ≡ true
    → has y whole ≡ true
held y whole part inside there = elim (Bool-cases (has y whole)) [
  | inl inside_whole ↦ inside_whole
  | inr out ↦ absurd (let q = inside out in cc)
]

module _ (reader : HistoryReader) (x : String) where
  -- A batch of signatures in front of x
  latest_batch-IsPassed :
      (batch chain : List String) (s : SyncState) (p : IsPassed x chain s)
      → ((y : String) → has y p.before ≡ false → has y batch ≡ false)
      → IsPassed x chain (latest_batch reader batch s)
  latest_batch-IsPassed [] chain s p inside = p
  latest_batch-IsPassed (n ∷ ns) chain s p inside = record {
    before = p.before;
    later = p.later;
    split = p.split;
    newest = n;
    newest_mark = refl;
    newest_before = held n p.before (n ∷ ns) (inside n) (ground (arith, eq_self n));
    oldest = p.oldest;
    oldest_mark = rw p.oldest_mark;
    oldest_later = p.oldest_later;
  }

  last_of-has :
      (q : String) (qs : List String)
      → (l : String) × (last_of reader (q ∷ qs) ≡ some l) × (has l (q ∷ qs) ≡ true)
  last_of-has q [] = (q, refl, ground (arith, eq_self q))
  last_of-has q (r ∷ rs) = let (l, e, there) = last_of-has r rs in (l, e, ground (arith, there))

  older_batch-IsPassed :
      (batch chain : List String) (s : SyncState) (p : IsPassed x chain s)
      → ((y : String) → has y p.later ≡ false → has y batch ≡ false)
      → IsPassed x chain (older_batch reader batch s)
  older_batch-IsPassed [] chain s p inside = record {
    before = p.before;
    later = p.later;
    split = p.split;
    newest = p.newest;
    newest_mark = p.newest_mark;
    newest_before = p.newest_before;
    oldest = p.oldest;
    oldest_mark = p.oldest_mark;
    oldest_later = p.oldest_later;
  }
  older_batch-IsPassed (n ∷ ns) chain s p inside =
      let (l, e, there) = last_of-has n ns in
      record {
        before = p.before;
        later = p.later;
        split = p.split;
        newest = p.newest;
        newest_mark = rw p.newest_mark;
        newest_before = p.newest_before;
        oldest = l;
        oldest_mark = e;
        oldest_later = held l p.later (n ∷ ns) (inside l) there;
      }

  latest_inside :
      (chain : List String) (s : SyncState) (p : IsPassed x chain s) (y : String)
      → has y p.before ≡ false
      → has y (take signature_backfill_batch_size (since s.newest_synced_signature chain)) ≡ false
  latest_inside chain s p y out =
      rw (p.newest_mark, p.split, until-append p.newest p.before (x ∷ p.later) p.newest_before)
        (has-take signature_backfill_batch_size y (until_signature p.newest p.before)
          (has-until p.newest y p.before out))

  after-skip :
      (o : String) (later : List String)
      → (x == o) ≡ false
      → after_signature o (x ∷ later) ≡ after_signature o later
  unfolding after_signature
  after-skip o later other = rw other

  older_inside :
      (chain : List String) (s : SyncState) (p : IsPassed x chain s)
      → IsDistinct chain
      → (y : String) → has y p.later ≡ false
      → has y (take signature_backfill_batch_size (older_than s.oldest_synced_signature chain))
        ≡ false
  older_inside chain s p distinct y out =
      let (front, other) =
        apart x p.oldest p.before p.later (subst IsDistinct p.split distinct) p.oldest_later in
      rw
        (
          p.oldest_mark,
          p.split,
          after-append p.oldest p.before (x ∷ p.later) front,
          after-skip p.oldest p.later other,
        )
        (has-take signature_backfill_batch_size y (after_signature p.oldest p.later)
          (has-after p.oldest y p.later out))

  latest_batch_kept :
      (batch : List String) (s : SyncState)
      → has x batch ≡ false
      → record_at x (latest_batch reader batch s).records ≡ record_at x s.records
  latest_batch_kept [] s out = refl
  latest_batch_kept (n ∷ ns) s out = fetched_lem reader x (n ∷ ns) s.records out

  older_batch_kept :
      (batch : List String) (s : SyncState)
      → has x batch ≡ false
      → record_at x (older_batch reader batch s).records ≡ record_at x s.records
  older_batch_kept [] s out = refl
  older_batch_kept (n ∷ ns) s out = fetched_lem reader x (n ∷ ns) s.records out

  -- x stays passed over, and its record as it was
  abbrev IsKept : List String → SyncState → SyncState → Type 0
  IsKept chain s s' = IsPassed x chain s' × (record_at x s'.records ≡ record_at x s.records)

  sync_address-IsKept :
      (cursor : Bool) (page_size : ℕ) (chain : List String) (s : SyncState)
      → IsDistinct chain
      → IsPassed x chain s
      → IsKept chain s (sync_address reader cursor page_size chain s)
  unfolding sync_address backfill_latest_history backfill_older_history
  sync_address-IsKept false page_size chain s distinct p =
      let inside = latest_inside chain s p in
      let batch = take signature_backfill_batch_size (since s.newest_synced_signature chain) in
      (
        latest_batch-IsPassed batch chain s p inside,
        latest_batch_kept batch s
            (inside x (not_before x p.before p.later (subst IsDistinct p.split distinct))),
      )
  sync_address-IsKept true page_size chain s distinct p =
      let inside = older_inside chain s p distinct in
      let batch = take signature_backfill_batch_size (older_than s.oldest_synced_signature chain) in
      elim (Bool-cases (ltb (length s.records) page_size && not s.has_reached_oldest_history)) [
        | inr whole ↦ rw whole (p, refl)
        | inl more ↦ rw more (
          older_batch-IsPassed batch chain s p inside,
          older_batch_kept batch s
              (inside x (not_later x p.before p.later (subst IsDistinct p.split distinct))),
        )
      ]

  grown :
      (new chain : List String) (s : SyncState) → IsPassed x chain s → IsPassed x (new ++ chain) s
  grown new chain s p = record {
    before = new ++ p.before;
    later = p.later;
    split =
        ap (λ (l : List String). new ++ l) p.split ∙ sym (append_assoc new p.before (x ∷ p.later));
    newest = p.newest;
    newest_mark = p.newest_mark;
    newest_before = ground (arith, has-append p.newest new p.before, p.newest_before);
    oldest = p.oldest;
    oldest_mark = p.oldest_mark;
    oldest_later = p.oldest_later;
  }

-- A call of `getHistory`, with the signatures that are new on the chain by then
pub record Visit : Type 0 where
  pub new : List String
  pub cursor : Bool
  pub page_size : ℕ

unfoldable pub visits : HistoryReader → List Visit → List String → SyncState → SyncState
unfolding sync_address
visits reader [] chain s = s
visits reader (v ∷ vs) chain s =
    visits reader vs (v.new ++ chain) (sync_address reader v.cursor v.page_size (v.new ++ chain) s)

-- No signature comes twice.
abbrev pub Grows : List Visit → List String → Type 0
Grows [] chain = Unit {0}
Grows (v ∷ vs) chain = IsDistinct (v.new ++ chain) × Grows vs (v.new ++ chain)

pub visits-IsPassed :
    (reader : HistoryReader) (x : String) (vs : List Visit) (chain : List String) (s : SyncState)
    → Grows vs chain
    → IsPassed x chain s
    → record_at x (visits reader vs chain s).records ≡ record_at x s.records
unfolding visits
visits-IsPassed reader x [] chain s _ p = refl
visits-IsPassed reader x (v ∷ vs) chain s (distinct, grows) p =
    let (p', kept) =
      sync_address-IsKept reader x v.cursor v.page_size (v.new ++ chain) s distinct
        (grown reader x v.new chain s p) in
    visits-IsPassed reader x vs (v.new ++ chain) _ grows p' ∙ kept
