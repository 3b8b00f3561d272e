-- ===== src/Tokens/HolderTracking/Sequential.antt =====
-- holder-tracking.service.ts: the map and the timers where no call runs during the wait of another.
use text.Mathlib.TextEquality.{eq_iff}
use solsight_api.Prelude.{
  ℕ, ◌+◌, ◌-◌, String, Bool, true, false, ◌&&◌, not, none, some, List, [], ◌∷◌, ◌≡◌, refl, arith,
  string_eq, nat_eq, nat_beq, lookup, insert, delete, lookup-insert, lookup-delete, eq→≡, ◌==◌,
  Option-cases, Bool-cases, inl, inr, if◌then◌else◌,
}
use solsight_api.Cluster.{Cluster}
use solsight_api.Tokens.HolderTracking.Races.{
  join_begin_fresh, found_self, join_end_lem, once_joined,
}
use solsight_api.Tokens.HolderTracking.{
  HolderCommand, tracking_key, join, untrack_after_grace_period, TrackedMintState, Tracking,
  state_at, clear_timer, join_begin, leave, untrack_begin, untrack_end, idle, disarm,
}
use solsight_api.Tokens.HolderTracking.Entries.{
  is_set_for, Kept, IsKept, insert-EveryKept, add-Kept, clear-Kept, armed-Kept, joined-Kept,
  cleared-Kept, busy-Kept, set_for_lem,
}

leave-IsKept : (key : String) (s : Tracking) → IsKept s → IsKept (leave key s)
unfolding leave
leave-IsKept key s kept = elim (Option-cases (lookup key s.tracked_mints)) [
  | inl e ↦ rw (e, leave) kept
  | inr (st, e) ↦
      let before = kept key st e in
      let left : TrackedMintState = record st { subscriber_count = st.subscriber_count - 1 } in
      rw (e, leave)
        (elim (Bool-cases (nat_beq (st.subscriber_count - 1) 0 && st.is_tracked)) [
          | inl last ↦ rw last (
              insert-EveryKept key (record left { untrack_timer = some s.next_timer })
                s.tracked_mints ((s.next_timer, key) ∷ s.timers) (s.next_timer + 1)
                (λ j x other f. add-Kept j key x s.timers s.next_timer (kept j x f))
                (armed-Kept key left s.timers s.next_timer before.tracked))
          | inr more ↦ rw more (
              insert-EveryKept key left s.tracked_mints s.timers s.next_timer
                (λ j x other f. kept j x f)
                (record {
                  tracked = before.tracked;
                  armed = λ z. ground (arith, more, before.tracked, z);
                  own = before.own;
                  old = before.old;
                }))
        ])
]

-- A join of a mint that is in the map
join-IsKept_old :
    (cluster : Cluster) (mint : String) (delivered : Bool) (s : Tracking) (log : List HolderCommand)
    (st : TrackedMintState)
    → lookup (tracking_key cluster mint) s.tracked_mints ≡ some st
    → IsKept s
    → IsKept (join cluster mint delivered (s, log)).0
unfolding join join_begin
join-IsKept_old cluster mint delivered s log st e kept =
    let key = tracking_key cluster mint in
    let before = kept key st e in
    let joined : TrackedMintState = record st {
      subscriber_count = st.subscriber_count + 1;
      untrack_timer = none;
    } in
    let no : (nat_beq (st.subscriber_count + 1) 1 && not st.is_tracked) ≡ false =
      ground (arith, before.tracked) in
    rw (e, join, join_begin)
      (rw no (
        insert-EveryKept key joined s.tracked_mints (clear_timer st.untrack_timer s.timers)
          s.next_timer
          (λ j x other f.
            cleared-Kept j key x st.untrack_timer s.timers s.next_timer (kept j x f) other
              before.own)
          (joined-Kept key joined st.subscriber_count _ s.next_timer before.tracked refl refl)))

-- A join of a mint that is not in the map
join-IsKept_new :
    (cluster : Cluster) (mint : String) (delivered : Bool) (s : Tracking) (log : List HolderCommand)
    → lookup (tracking_key cluster mint) s.tracked_mints ≡ none
    → IsKept s
    → IsKept (join cluster mint delivered (s, log)).0
unfolding join
join-IsKept_new cluster mint delivered s log e kept =
    let key = tracking_key cluster mint in
    let one = once_joined s in
    let m = insert key one s.tracked_mints in
    let joined : Tracking = record s { tracked_mints = m; next_object = s.next_object + 1 } in
    let named : one.object ≡ (state_at key s).object = rw e refl in
    rw (join_begin_fresh key s e, join)
      (rw
        (join_end_lem key (state_at key s).object joined one (found_self key one s.tracked_mints)
          named)
        (insert-EveryKept key (record one { is_tracked = true }) m s.timers s.next_timer
          (λ j x other f.
            kept j x (ground (arith, f, other, lookup-insert key j one s.tracked_mints)))
          (joined-Kept key (record one { is_tracked = true }) 0 s.timers s.next_timer refl refl
            refl)))

join-IsKept :
    (cluster : Cluster) (mint : String) (delivered : Bool) (s : Tracking) (log : List HolderCommand)
    → IsKept s
    → IsKept (join cluster mint delivered (s, log)).0
join-IsKept cluster mint delivered s log kept =
    elim (Option-cases (lookup (tracking_key cluster mint) s.tracked_mints)) [
      | inl e ↦ join-IsKept_new cluster mint delivered s log e kept
      | inr (st, e) ↦ join-IsKept_old cluster mint delivered s log st e kept
    ]

fire-IsKept :
    (cluster : Cluster) (mint : String) (delivered : Bool) (t : ℕ) (s : Tracking)
    (log : List HolderCommand)
    → lookup t s.timers ≡ some (tracking_key cluster mint)
    → IsKept s
    → IsKept (untrack_after_grace_period cluster mint delivered (disarm t s, log)).0
unfolding untrack_after_grace_period untrack_begin untrack_end
fire-IsKept cluster mint delivered t s log set kept =
    let key = tracking_key cluster mint in
    let others : (j : String) (x : TrackedMintState)
        → (key == j) ≡ false
        → lookup j s.tracked_mints ≡ some x
        → Kept j x (delete t s.timers) s.next_timer =
      λ j x other f.
        clear-Kept j key x t s.timers s.next_timer (kept j x f) other
          (λ k g. ground (arith, set, g)) in
    elim (Option-cases (lookup key s.tracked_mints)) [
      | inl e ↦
          rw (e, untrack_after_grace_period, untrack_begin)
            (λ j x f. elim (Bool-cases (key == j)) [
              | inl same ↦ cc (rw (← eq→≡ key j same, e) at f)
              | inr other ↦ others j x other f
            ])
      | inr (st, e) ↦
          let before = kept key st e in
          elim (Bool-cases (idle st)) [
            | inl quiet ↦
                rw (e, untrack_after_grace_period, untrack_begin)
                  (rw quiet (λ j x f.
                    others j x (ground (arith, f, lookup-delete key j s.tracked_mints))
                      (ground (arith, f, lookup-delete key j s.tracked_mints))))
            | inr busy ↦
                rw (e, untrack_after_grace_period, untrack_begin)
                  (rw busy (λ j x f. elim (Bool-cases (key == j)) [
                    | inr other ↦ others j x other f
                    | inl same ↦
                        let st_is_x : st ≡ x = ground (arith, f, e, same, eq_iff key j) in
                        busy-Kept j x t s.timers s.next_timer (kept j x f) (rw (← st_is_x) busy)
                  ]))
          ]
    ]

-- Calls that run one after the other, and timers that fire; `delivered` is whether the command
-- reaches the indexer.
pub data Turn : Type 0 where
  joins : (cluster : Cluster) (mint : String) (delivered : Bool) → Turn
  leaves : (cluster : Cluster) (mint : String) → Turn
  fires : (cluster : Cluster) (mint : String) (delivered : Bool) (timer : ℕ) → Turn

-- Only a timer that is set fires, and it calls for the mint that it was set for.
unfoldable pub turn : Turn → Tracking × List HolderCommand → Tracking × List HolderCommand
turn (joins cluster mint delivered) (s, log) = join cluster mint delivered (s, log)
turn (leaves cluster mint) (s, log) = (leave (tracking_key cluster mint) s, log)
turn (fires cluster mint delivered t) (s, log) =
    if is_set_for (tracking_key cluster mint) (lookup t s.timers)
    then untrack_after_grace_period cluster mint delivered (disarm t s, log)
    else (s, log)

unfoldable pub turns : List Turn → Tracking × List HolderCommand → Tracking × List HolderCommand
turns [] s = s
turns (x ∷ xs) s = turns xs (turn x s)

turn-IsKept :
    (x : Turn) (s : Tracking) (log : List HolderCommand) → IsKept s → IsKept (turn x (s, log)).0
unfolding turn
turn-IsKept (joins cluster mint delivered) s log kept =
    join-IsKept cluster mint delivered s log kept
turn-IsKept (leaves cluster mint) s log kept = leave-IsKept (tracking_key cluster mint) s kept
turn-IsKept (fires cluster mint delivered t) s log kept =
    elim (Bool-cases (is_set_for (tracking_key cluster mint) (lookup t s.timers))) [
      | inr unset ↦ rw unset kept
      | inl set ↦ rw set (
          fire-IsKept cluster mint delivered t s log
            (set_for_lem (tracking_key cluster mint) (lookup t s.timers) set) kept)
    ]

-- Where no call runs during the wait of another, over any sequence of joins, leaves and timers: every
-- mint in the map is tracked, one without subscribers has a timer set for it, and no entry names the
-- timer of another mint. It holds whether or not the commands reach the indexer.
pub turns-IsKept :
    (xs : List Turn) (s : Tracking) (log : List HolderCommand)
    → IsKept s
    → IsKept (turns xs (s, log)).0
unfolding turns
turns-IsKept [] s log kept = kept
turns-IsKept (x ∷ xs) s log kept =
    turns-IsKept xs (turn x (s, log)).0 (turn x (s, log)).1 (turn-IsKept x s log kept)
