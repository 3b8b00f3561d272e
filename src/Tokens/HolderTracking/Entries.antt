-- ===== src/Tokens/HolderTracking/Entries.antt =====
-- holder-tracking.service.ts: one entry of the map, and the timers that are set.
use text.Mathlib.TextEquality.{eq_iff}
use solsight_api.Prelude.{
  ℕ, ◌+◌, ◌<◌, String, Bool, true, false, Option, none, some, List, ◌∷◌, ◌≡◌, refl, ap, subst,
  arith, string_eq, nat_eq, nat_beq, nat_beq_iff, lookup, insert, delete, lookup-insert,
  lookup-delete, eq→≡, ◌==◌, Option-cases, Bool-cases, inl, inr,
}
use solsight_api.Tokens.HolderTracking.{TrackedMintState, Tracking, clear_timer, idle}

-- The timer is set for this very key.
abbrev pub is_set_for : String → Option String → Bool
is_set_for key none = false
is_set_for key (some k) = k == key

abbrev pub is_armed : String → Option ℕ → List (ℕ × String) → Bool
is_armed key none timers = false
is_armed key (some t) timers = is_set_for key (lookup t timers)

-- An entry is tracked, waits for its own timer while it has no subscriber, and names no timer of
-- another mint; `next` is the next name of a timer.
pub record Kept (key : String) (st : TrackedMintState) (timers : List (ℕ × String)) (next : ℕ)
    : Type 0 where
  pub tracked : st.is_tracked ≡ true
  pub armed : st.subscriber_count ≡ 0 → is_armed key st.untrack_timer timers ≡ true
  pub own : (t : ℕ) (k : String) → st.untrack_timer ≡ some t → lookup t timers ≡ some k → k ≡ key
  pub old : (t : ℕ) → st.untrack_timer ≡ some t → t < next

abbrev pub EveryKept : List (String × TrackedMintState) → List (ℕ × String) → ℕ → Type 0
EveryKept m timers next =
    (key : String) (st : TrackedMintState) → lookup key m ≡ some st → Kept key st timers next

abbrev pub IsKept : Tracking → Type 0
IsKept s = EveryKept s.tracked_mints s.timers s.next_timer

pub insert-EveryKept :
    (key : String) (new : TrackedMintState) (m : List (String × TrackedMintState))
    (timers : List (ℕ × String)) (next : ℕ)
    → ((j : String) (st : TrackedMintState)
        → (key == j) ≡ false
        → lookup j m ≡ some st
        → Kept j st timers next)
    → Kept key new timers next
    → EveryKept (insert key new m) timers next
insert-EveryKept key new m timers next others mine j st found = elim (Bool-cases (key == j)) [
  | inl same ↦
      let here : key ≡ j = eq→≡ key j same in
      let e : new ≡ st = ground (arith, found, lookup-insert key j new m, same) in
      subst (λ x. Kept x st timers next) here (subst (λ x. Kept key x timers next) e mine)
  | inr other ↦ others j st other (ground (arith, found, lookup-insert key j new m, other))
]

-- A new timer changes nothing for the entries of other mints.
pub add-Kept :
    (j key : String) (st : TrackedMintState) (timers : List (ℕ × String)) (next : ℕ)
    → Kept j st timers next
    → Kept j st ((next, key) ∷ timers) (next + 1)
unfolding lookup
add-Kept j key st timers next k = record {
  tracked = k.tracked;
  armed = λ z. elim (Option-cases st.untrack_timer) [
    | inl e ↦ cc (rw e at (k.armed z))
    | inr (u, e) ↦
        let ne : nat_beq next u ≡ false = ground (arith, k.old u e) in
        rw e (rw ne (rw e at (k.armed z)))
  ];
  own = λ t x e f.
      let ne : nat_beq next t ≡ false = ground (arith, k.old t e) in k.own t x e (rw ne at f);
  old = λ t e. omega (arith, k.old t e);
}

-- Nor does clearing a timer that is another mint's.
pub clear-Kept :
    (j key : String) (st : TrackedMintState) (t : ℕ) (timers : List (ℕ × String)) (next : ℕ)
    → Kept j st timers next
    → (key == j) ≡ false
    → ((k : String) → lookup t timers ≡ some k → k ≡ key)
    → Kept j st (delete t timers) next
clear-Kept j key st t timers next k other his = record {
  tracked = k.tracked;
  armed = λ z. elim (Option-cases st.untrack_timer) [
    | inl e ↦ cc (rw e at (k.armed z))
    | inr (u, e) ↦
        let set : is_set_for j (lookup u timers) ≡ true = rw e at (k.armed z) in
        rw (e, is_armed, lookup-delete t u timers)
          (elim (Bool-cases (nat_beq t u)) [
            | inr apart ↦ rw apart set
            | inl one ↦ elim (Option-cases (lookup u timers)) [
              | inl gone ↦ cc (rw gone at set)
              | inr (x, there) ↦
                  ground (
                    arith,
                    one,
                    set,
                    there,
                    nat_beq_iff t u,
                    other,
                    his x,
                    eq_iff x j,
                    eq_iff key j,
                  )
            ]
          ])
  ];
  own = λ x y e f. ground (arith, f, lookup-delete t x timers, k.own x y e);
  old = k.old;
}

-- The entry that `onHolderRoomLeave` sets a timer for
pub armed-Kept :
    (key : String) (st : TrackedMintState) (timers : List (ℕ × String)) (next : ℕ)
    → st.is_tracked ≡ true
    → Kept key (record st { untrack_timer = some next }) ((next, key) ∷ timers) (next + 1)
unfolding lookup
armed-Kept key st timers next tracked = record {
  tracked = tracked;
  armed = λ z. ground (arith, eq_iff key key);
  own = λ t k e f. ground (arith, e, f);
  old = λ t e. ground (arith, e);
}

-- The entry of a mint that has a subscriber
pub joined-Kept :
    (key : String) (st : TrackedMintState) (n : ℕ) (timers : List (ℕ × String)) (next : ℕ)
    → st.is_tracked ≡ true
    → st.untrack_timer ≡ none
    → st.subscriber_count ≡ n + 1
    → Kept key st timers next
joined-Kept key st n timers next tracked idle_timer some_left = record {
  tracked = tracked;
  armed = λ z. ground (arith, z, some_left);
  own = λ t k e f. ground (arith, e, idle_timer);
  old = λ t e. ground (arith, e, idle_timer);
}

pub cleared-Kept :
    (j key : String) (st : TrackedMintState) (timer : Option ℕ) (timers : List (ℕ × String))
    (next : ℕ)
    → Kept j st timers next
    → (key == j) ≡ false
    → ((t : ℕ) (k : String) → timer ≡ some t → lookup t timers ≡ some k → k ≡ key)
    → Kept j st (clear_timer timer timers) next
cleared-Kept j key st none timers next k other his = k
cleared-Kept j key st (some t) timers next k other his =
    clear-Kept j key st t timers next k other (λ x f. his t x refl f)

-- An entry with a subscriber does not need the timer that has fired.
pub busy-Kept :
    (j : String) (x : TrackedMintState) (t : ℕ) (timers : List (ℕ × String)) (next : ℕ)
    → Kept j x timers next
    → idle x ≡ false
    → Kept j x (delete t timers) next
busy-Kept j x t timers next k busy = record {
  tracked = k.tracked;
  armed = λ z. ground (arith, z, k.tracked, busy);
  own = λ u y a b. ground (arith, b, lookup-delete t u timers, k.own u y a);
  old = k.old;
}

pub set_for_lem : (key : String) (o : Option String) → is_set_for key o ≡ true → o ≡ some key
set_for_lem key none h = cc
set_for_lem key (some k) h = ap some (eq→≡ k key h)
