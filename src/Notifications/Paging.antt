-- ===== src/Notifications/Paging.antt =====
-- notifications.service.ts: the pages by the cursor, one after the other, are the whole list.
use solsight_api.Prelude.{
  ℕ, suc, zero, ◌+◌, String, Bool, true, false, ◌&&◌, Option, none, some, List, [], ◌∷◌, ◌++◌, keep,
  take, drop, length, ltb, if◌then◌else◌, ◌≡◌, ◌≤◌, ◌<◌, refl, sym, ap, arith, All, Bool-cases, inl,
  inr, ◌∙◌, take_whole, take-take, length-take, take-append-drop, length-drop, length-keep,
  keep-and, keep_narrow,
}
use solsight_api.Notifications.{
  Notification, QueryNotifications, get_notifications_for_user, query_limit, selects, before_cursor,
}

-- The time of the last row
abbrev pub last_created : ℕ → List Notification → ℕ
last_created d [] = d
last_created d (n ∷ ns) = last_created n.created_at ns

abbrev behind : List Notification → Option (List Notification) → Option (List Notification)
behind page none = none
behind page (some rest) = some (page ++ rest)

-- A client that asks for the next page by the time of the last row until there is no more; `none`
-- where it still asks after as many pages as it has steps
unfoldable pub all_pages :
    ℕ → String → QueryNotifications → List Notification → Option (List Notification)
all_pages zero user_id q rows = none
all_pages (suc fuel) user_id q rows =
    let (page, more) = get_notifications_for_user user_id q rows in
    let rest = all_pages fuel user_id (record q { cursor = some (last_created 0 page) }) rows in
    if more then behind page rest else some page

abbrev Before : ℕ → Notification → Type 0
Before t n = n.created_at < t

-- No two rows have one time, and the later come first.
abbrev pub IsNewestFirst : List Notification → Type 0
IsNewestFirst [] = Unit
IsNewestFirst (n ∷ ns) = All (Before n.created_at) ns × IsNewestFirst ns

keep-All :
    (P : Notification → Type 0) (p : Notification → Bool) (ns : List Notification)
    → All P ns
    → All P (keep p ns)
keep-All P p [] h = tt
keep-All P p (n ∷ ns) (a, h) = elim (Bool-cases (p n)) [
  | inl hit ↦ rw hit (a, keep-All P p ns h)
  | inr miss ↦ rw miss (keep-All P p ns h)
]

keep-IsNewestFirst :
    (p : Notification → Bool) (ns : List Notification)
    → IsNewestFirst ns
    → IsNewestFirst (keep p ns)
keep-IsNewestFirst p [] h = tt
keep-IsNewestFirst p (n ∷ ns) (a, h) = elim (Bool-cases (p n)) [
  | inl hit ↦ rw hit (keep-All (Before n.created_at) p ns a, keep-IsNewestFirst p ns h)
  | inr miss ↦ rw miss (keep-IsNewestFirst p ns h)
]

kept-Before : (c : ℕ) (ns : List Notification) → All (Before c) (keep (before_cursor (some c)) ns)
kept-Before c [] = tt
kept-Before c (n ∷ ns) = elim (Bool-cases (ltb n.created_at c)) [
  | inl hit ↦ rw hit (ground arith, kept-Before c ns)
  | inr miss ↦ rw miss (kept-Before c ns)
]

keep_whole :
    (c : ℕ) (ns : List Notification) → All (Before c) ns → keep (before_cursor (some c)) ns ≡ ns
keep_whole c [] h = refl
keep_whole c (n ∷ ns) (a, h) =
    let hit : ltb n.created_at c ≡ true = ground arith in
    rw hit (ap (λ (xs : List Notification). n ∷ xs) (keep_whole c ns h))

last_created-lt :
    (b d k : ℕ) (ns : List Notification)
    → d < b
    → All (Before b) ns
    → last_created d (take k ns) < b
last_created-lt b d zero ns lt h = lt
last_created-lt b d (suc k) [] lt h = lt
last_created-lt b d (suc k) (n ∷ ns) lt (a, h) = last_created-lt b n.created_at k ns a h

page-lt :
    (b n : ℕ) (ns : List Notification)
    → All (Before b) ns
    → 0 < n
    → n < length ns
    → last_created 0 (take n ns) < b
page-lt b zero ns h pos long = absurd (omega arith)
page-lt b (suc n) [] h pos long = absurd (omega arith)
page-lt b (suc n) (m ∷ ns) (a, h) pos long = last_created-lt b m.created_at n ns a h

-- What comes before the last row of a page is the rest of the list.
cut :
    (d k : ℕ) (ns : List Notification)
    → IsNewestFirst ns
    → k < length ns
    → keep (before_cursor (some (last_created d (take (suc k) ns)))) ns ≡ drop (suc k) ns
cut d k [] h short = absurd (omega arith)
cut d zero (n ∷ ns) (a, h) short =
    let self : ltb n.created_at n.created_at ≡ false = ground arith in
    rw self (keep_whole n.created_at ns a)
cut d (suc k) (n ∷ []) (a, h) short = absurd (omega arith)
cut d (suc k) (n ∷ m ∷ ns) ((b, a), h) short =
    let x = last_created m.created_at (take k ns) in
    let below : x < n.created_at = last_created-lt n.created_at m.created_at k ns b a in
    let out : ltb n.created_at x ≡ false = ground arith in
    rw out (cut n.created_at k (m ∷ ns) h (omega arith))

cut_at :
    (n : ℕ) (ns : List Notification)
    → IsNewestFirst ns
    → 0 < n
    → n < length ns
    → keep (before_cursor (some (last_created 0 (take n ns)))) ns ≡ drop n ns
cut_at zero ns h pos long = absurd (omega arith)
cut_at (suc k) ns h pos long = cut 0 k ns h (omega arith)

keep_all : (ns : List Notification) → keep (before_cursor none) ns ≡ ns
keep_all [] = refl
keep_all (n ∷ ns) = ap (λ (xs : List Notification). n ∷ xs) (keep_all ns)

module _ (user_id : String) (q : QueryNotifications) (rows : List Notification)
    (some_limit : 0 < query_limit q) where
  abbrev chosen : List Notification
  chosen = keep (selects user_id q) rows

  abbrev left : Option ℕ → List Notification
  left c = keep (before_cursor c) chosen

  abbrev at : Option ℕ → QueryNotifications
  at c = record q { cursor = c }

  found_lem :
      (c : Option ℕ) → keep (λ n. selects user_id (at c) n && before_cursor c n) rows ≡ left c
  found_lem c = keep-and (selects user_id q) (before_cursor c) rows

  -- The last page
  page_whole :
      (c : Option ℕ)
      → length (left c) ≤ query_limit q
      → get_notifications_for_user user_id (at c) rows ≡ (left c, false)
  unfolding get_notifications_for_user
  page_whole c short =
      let whole = take_whole (query_limit q + 1) (left c) (omega arith) in
      let no_more : ltb (query_limit q) (length (left c)) ≡ false = ground arith in
      rw (found_lem c) (rw whole (rw no_more refl))

  -- A page that is full
  page_full :
      (c : Option ℕ)
      → query_limit q < length (left c)
      → get_notifications_for_user user_id (at c) rows ≡ (take (query_limit q) (left c), true)
  unfolding get_notifications_for_user
  page_full c long =
      let n = query_limit q in
      let one_more : n + 1 ≡ suc n = omega arith in
      let more : ltb n (length (take (n + 1) (left c))) ≡ true =
        ground (arith, length-take (n + 1) (left c)) in
      rw (found_lem c) (
        rw more (
          ap (λ (k : ℕ). (take n (take k (left c)), true)) one_more
          ∙ ap (λ (ns : List Notification). (ns, true)) (take-take n (left c))))

  -- The next cursor comes before the last one.
  lower_cursor :
      (c : Option ℕ) (n : ℕ)
      → 0 < n
      → n < length (left c)
      → (m : Notification) → before_cursor (some (last_created 0 (take n (left c)))) m ≡ true
      → before_cursor c m ≡ true
  lower_cursor none n pos long m hit = refl
  lower_cursor (some c) n pos long m hit =
      let x = last_created 0 (take n (left (some c))) in
      let lower : x < c = page-lt c n (left (some c)) (kept-Before c chosen) pos long in
      ground arith

  next_left :
      (c : Option ℕ)
      → IsNewestFirst chosen
      → query_limit q < length (left c)
      → left (some (last_created 0 (take (query_limit q) (left c)))) ≡ drop (query_limit q) (left c)
  next_left c sorted long =
      let n = query_limit q in
      let x = last_created 0 (take n (left c)) in
      sym (
        keep_narrow (before_cursor c) (before_cursor (some x)) chosen
          (lower_cursor c n some_limit long))
      ∙ cut_at n (left c) (keep-IsNewestFirst (before_cursor c) chosen sorted) some_limit long

  pages_lem :
      (fuel : ℕ) (c : Option ℕ)
      → IsNewestFirst chosen
      → length (left c) < fuel
      → all_pages fuel user_id (at c) rows ≡ some (left c)
  unfolding all_pages
  pages_lem zero c sorted enough = absurd (omega arith)
  pages_lem (suc fuel) c sorted enough = elim (Bool-cases (ltb (query_limit q) (length (left c)))) [
    | inr short ↦ rw (page_whole c (ground arith), all_pages) refl
    | inl long ↦
        let n = query_limit q in
        let over : n < length (left c) = ground arith in
        let c' = some (last_created 0 (take n (left c))) in
        let rest = next_left c sorted over in
        let fewer : length (left c') < fuel =
          omega (arith, ap (λ (ns : List Notification). length ns) rest, length-drop n (left c)) in
        rw (page_full c over, all_pages)
          (ap (behind (take n (left c)))
              (pages_lem fuel c' sorted fewer ∙ ap (λ (ns : List Notification). some ns) rest)
            ∙ ap (λ (ns : List Notification). some ns) (take-append-drop n (left c)))
  ]

  -- Where the limit is not 0 and no two of the user's rows that the filter selects have one time:
  -- asking for page after page by the time of the last row is over after at most as many pages as there
  -- are rows, and one, and gives each of the selected rows once, in their order.
  pub all_pages-whole :
      IsNewestFirst (keep (selects user_id q) rows)
      → all_pages (length rows + 1) user_id (record q { cursor = none }) rows
        ≡ some (keep (selects user_id q) rows)
  all_pages-whole sorted =
      pages_lem (length rows + 1) none sorted (
        omega
          (arith, length-keep (before_cursor none) chosen, length-keep (selects user_id q) rows))
      ∙ ap (λ (ns : List Notification). some ns) (keep_all chosen)
