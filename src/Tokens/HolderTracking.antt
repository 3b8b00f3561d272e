-- ===== src/Tokens/HolderTracking.antt =====
-- tokens/services/socket/holder-tracking.service.ts. Sending a command waits for Redis, so a call
-- that may send is two steps: the part up to the wait, and the part after it. The object with a
-- mint's state may be replaced in the map during the wait: `object` is its identity. The steps take
-- the key `trackingKey(cluster, mint)`, and the calls at the end put them together.
pub mod Races
pub mod Entries
pub mod Sequential
use solsight_api.Prelude.{
  ℕ, ◌+◌, ◌-◌, String, Bool, true, false, ◌&&◌, not, Option, none, some, List, ◌∷◌, nat_beq,
  string_eq, nat_eq, lookup, insert, delete, or_else, is_some, if◌then◌else◌, Result, ok, err,
}
use solsight_api.Prelude.Text.{◌⊕◌}
use solsight_api.Cluster.{Cluster, cluster_name}
use solsight_api.Tokens.Rooms.{parse, RoomError}

pub data HolderCommand : Type 0 where
  track : Cluster → String → (bootstrap : Bool) → HolderCommand
  untrack : Cluster → String → HolderCommand

pub record TrackedMintState : Type 0 where
  pub object : ℕ
  pub subscriber_count : ℕ
  pub untrack_timer : Option ℕ
  pub is_tracked : Bool

-- The map, the timers that are set with the key that each was set for, and the next names of an
-- object and of a timer.
pub record Tracking : Type 0 where
  pub tracked_mints : List (String × TrackedMintState)
  pub timers : List (ℕ × String)
  pub next_object : ℕ
  pub next_timer : ℕ

abbrev pub tracking_key : Cluster → String → String
tracking_key cluster mint = cluster_name cluster ⊕ ":" ⊕ mint

-- `this.trackedMints.get(key)`, and a new state where there is none
abbrev pub fresh_state : ℕ → TrackedMintState
fresh_state object = record {
  object = object;
  subscriber_count = 0;
  untrack_timer = none;
  is_tracked = false;
}

abbrev pub state_at : String → Tracking → TrackedMintState
state_at key s = or_else (lookup key s.tracked_mints) (fresh_state s.next_object)

-- `clearTimeout`, of a timer that may be none
abbrev pub clear_timer : Option ℕ → List (ℕ × String) → List (ℕ × String)
clear_timer none timers = timers
clear_timer (some t) timers = delete t timers

-- `onHolderRoomJoin` up to the wait: whether the track command is sent, and for which object
unfoldable pub join_begin : String → Tracking → Tracking × Bool
join_begin key s =
    let st = state_at key s in
    let joined = record st { subscriber_count = st.subscriber_count + 1; untrack_timer = none } in
    (
      record s {
        tracked_mints = insert key joined s.tracked_mints;
        timers = clear_timer st.untrack_timer s.timers;
        next_object = s.next_object + 1;
      },
      nat_beq joined.subscriber_count 1 && not st.is_tracked,
    )

-- `state.isTracked = true` on the object that the call holds, if the map still has it
abbrev pub mark_tracked : Bool → ℕ → TrackedMintState → TrackedMintState
mark_tracked flag object st =
    if nat_beq st.object object then record st { is_tracked = flag } else st

unfoldable pub mark : String → Bool → ℕ → Tracking → Tracking
mark key flag object s = elim (lookup key s.tracked_mints) [
  | none ↦ s
  | some st ↦ record s { tracked_mints = insert key (mark_tracked flag object st) s.tracked_mints }
]

unfoldable pub join_end : String → ℕ → Tracking → Tracking
unfolding mark
join_end key object s = mark key true object s

-- `onHolderRoomLeave`, which does not wait
unfoldable pub leave : String → Tracking → Tracking
leave key s = elim (lookup key s.tracked_mints) [
  | none ↦ s
  | some st ↦
      let left = record st { subscriber_count = st.subscriber_count - 1 } in
      if nat_beq left.subscriber_count 0 && left.is_tracked
      then record s {
        tracked_mints =
            insert key (record left { untrack_timer = some s.next_timer }) s.tracked_mints;
        timers = (s.next_timer, key) ∷ s.timers;
        next_timer = s.next_timer + 1;
      }
      else record s { tracked_mints = insert key left s.tracked_mints }
]

-- `untrackAfterGracePeriod` up to the wait: the object that is to be untracked, if any
abbrev pub idle : TrackedMintState → Bool
idle st = nat_beq st.subscriber_count 0 && st.is_tracked

unfoldable pub untrack_begin : String → Tracking → Option ℕ
untrack_begin key s = elim (lookup key s.tracked_mints) [
  | none ↦ none
  | some st ↦ if idle st then some st.object else none
]

-- After the wait: `currentState.isTracked = false; this.trackedMints.delete(trackingKey)`
unfoldable pub untrack_end : String → Tracking → Tracking
untrack_end key s = record s { tracked_mints = delete key s.tracked_mints }

-- A timer that is set fires: it is not set any more, and calls `untrackAfterGracePeriod`.
abbrev pub disarm : ℕ → Tracking → Tracking
disarm t s = record s { timers = delete t s.timers }

-- `trackMint` and `untrackMint` up to the wait
unfoldable pub track_begin : String → Tracking → Tracking × Bool
track_begin key s =
    let st = state_at key s in
    (
      record s { tracked_mints = insert key st s.tracked_mints; next_object = s.next_object + 1 },
      not st.is_tracked,
    )

unfoldable pub untrack_mint_begin : String → Tracking → Tracking × Option ℕ
untrack_mint_begin key s = elim (lookup key s.tracked_mints) [
  | none ↦ (s, none)
  | some st ↦
      if st.is_tracked
      then (record s { timers = clear_timer st.untrack_timer s.timers }, some st.object)
      else (s, none)
]

-- `sendTrackCommand` and `sendUntrackCommand`: what reaches the indexer. Without Redis, or on an
-- error, nothing does, and the caller is not told.
unfoldable pub send : Bool → HolderCommand → List HolderCommand → List HolderCommand
send delivered command log = if delivered then command ∷ log else log

-- The calls with no other call in between; `delivered` is whether the command reaches the indexer.
unfoldable pub join :
    Cluster → String → Bool → Tracking × List HolderCommand → Tracking × List HolderCommand
join cluster mint delivered (s, log) =
    let key = tracking_key cluster mint in
    let (s', sends) = join_begin key s in
    if sends
    then (join_end key (state_at key s).object s', send delivered (track cluster mint true) log)
    else (s', log)

unfoldable pub untrack_after_grace_period :
    Cluster → String → Bool → Tracking × List HolderCommand → Tracking × List HolderCommand
untrack_after_grace_period cluster mint delivered (s, log) =
    let key = tracking_key cluster mint in
    if is_some (untrack_begin key s)
    then (untrack_end key s, send delivered (untrack cluster mint) log)
    else (s, log)

unfoldable pub track_mint :
    Cluster → String → Bool → Bool → Tracking × List HolderCommand → Tracking × List HolderCommand
track_mint cluster mint bootstrap delivered (s, log) =
    let key = tracking_key cluster mint in
    let (s', sends) = track_begin key s in
    if sends
    then (
      mark key true (state_at key s).object s',
      send delivered (track cluster mint bootstrap) log,
    )
    else (s', log)

unfoldable pub untrack_mint :
    Cluster → String → Bool → Tracking × List HolderCommand → Tracking × List HolderCommand
untrack_mint cluster mint delivered (s, log) =
    let key = tracking_key cluster mint in
    let (s', object) = untrack_mint_begin key s in
    if is_some object
    then (untrack_end key s', send delivered (untrack cluster mint) log)
    else (s', log)

-- A room's name gives the network and the mint; one that names no network throws.
unfoldable pub on_holder_room_join :
    String → Bool → Tracking × List HolderCommand → Result RoomError (Tracking × List HolderCommand)
on_holder_room_join room delivered s = elim (parse room) [
  | err e ↦ err e
  | ok p ↦ ok (join p.cluster (or_else p.resource "undefined") delivered s)
]

unfoldable pub on_holder_room_leave : String → Tracking → Result RoomError Tracking
on_holder_room_leave room s = elim (parse room) [
  | err e ↦ err e
  | ok p ↦ ok (leave (tracking_key p.cluster (or_else p.resource "undefined")) s)
]
