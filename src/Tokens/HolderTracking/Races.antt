-- ===== src/Tokens/HolderTracking/Races.antt =====
-- holder-tracking.service.ts: what a call meets that ran during the wait of another.
use solsight_api.Prelude.{
  ℕ, ◌+◌, ◌-◌, String, true, false, none, some, List, ◌≡◌, refl, arith, string_eq, nat_beq, lookup,
  insert, lookup-insert, lookup-delete, eq_self,
}
use solsight_api.Tokens.HolderTracking.{
  TrackedMintState, Tracking, fresh_state, join_begin, join_end, mark, mark_tracked, leave,
  untrack_begin, untrack_end, idle,
}

abbrev pub once_joined : Tracking → TrackedMintState
once_joined s = record (fresh_state s.next_object) { subscriber_count = 1 }

pub join_begin_fresh :
    (key : String) (s : Tracking)
    → lookup key s.tracked_mints ≡ none
    → join_begin key s ≡ (
      record s {
        tracked_mints = insert key (once_joined s) s.tracked_mints;
        next_object = s.next_object + 1;
      },
      true,
    )
unfolding join_begin
join_begin_fresh key s e = rw e refl

pub found_self :
    (key : String) (st : TrackedMintState) (m : List (String × TrackedMintState))
    → lookup key (insert key st m) ≡ some st
found_self key st m = rw (lookup-insert key key st m, eq_self key)

leave_lem :
    (key : String) (s : Tracking) (st : TrackedMintState)
    → lookup key s.tracked_mints ≡ some st
    → st.is_tracked ≡ false
    → leave key s ≡ record s {
      tracked_mints =
          insert key (record st { subscriber_count = st.subscriber_count - 1 }) s.tracked_mints;
    }
unfolding leave
leave_lem key s st e untracked = rw (e, leave) (ground (arith, untracked))

pub join_end_lem :
    (key : String) (object : ℕ) (s : Tracking) (st : TrackedMintState)
    → lookup key s.tracked_mints ≡ some st
    → st.object ≡ object
    → join_end key object s
      ≡ record s { tracked_mints = insert key (record st { is_tracked = true }) s.tracked_mints }
unfolding join_end mark
join_end_lem key object s st e same =
    let found : nat_beq st.object object ≡ true = ground (arith, same) in
    rw (e, join_end, mark) (rw (found, mark_tracked))

-- A subscriber who leaves while the track command of its own join is still on its way: afterwards the
-- mint is tracked, has no subscriber, and no timer is set to stop it.
leave_before-join_end :
    (key : String) (s : Tracking)
    → lookup key s.tracked_mints ≡ none
    → let (s1, sends) = join_begin key s in
      let s3 = join_end key s.next_object (leave key s1) in
      (sends ≡ true)
      × (lookup key s3.tracked_mints
          ≡ some (record (fresh_state s.next_object) { is_tracked = true }))
      × (s3.timers ≡ s.timers)
leave_before-join_end key s new =
    let start = (join_begin key s).0 in
    let one = once_joined s in
    let m = insert key one s.tracked_mints in
    let joined : Tracking = record s { tracked_mints = m; next_object = s.next_object + 1 } in
    let gone : TrackedMintState = record one { subscriber_count = 0 } in
    let left : Tracking = record joined { tracked_mints = insert key gone m } in
    rw (join_begin_fresh key s new) (
      rw (leave_lem key joined one (found_self key one s.tracked_mints) refl) (
        rw (join_end_lem key s.next_object left gone (found_self key gone m) refl)
          (refl, found_self key (record gone { is_tracked = true }) (insert key gone m), refl)))

-- A subscriber who joins while the untrack command is on its way: no command is sent for it, and its
-- mint is not in the map afterwards.
pub join_before-untrack_end :
    (key : String) (s : Tracking) (st : TrackedMintState)
    → lookup key s.tracked_mints ≡ some st
    → idle st ≡ true
    → let (s1, sends) = join_begin key s in
      (untrack_begin key s ≡ some st.object)
      × (sends ≡ false)
      × (lookup key (untrack_end key s1).tracked_mints ≡ none)
unfolding untrack_begin join_begin untrack_end
join_before-untrack_end key s st e quiet =
    let still : st.is_tracked ≡ true = ground (arith, quiet) in
    let none_left : st.subscriber_count ≡ 0 = ground (arith, quiet) in
    (
      rw (e, untrack_begin) (rw quiet),
      rw e (ground (arith, still)),
      rw (lookup-delete key key _, eq_self key),
    )
