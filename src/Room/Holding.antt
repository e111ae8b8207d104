-- ===== src/Room/Holding.antt =====
-- client/src/state/roomReducer.ts: events that arrive while a room's snapshot is awaited.
use rmcollab_model.Common.{
  ℕ, suc, ◌+◌, ◌≤◌, ◌≡◌, refl, ◌∙◌, String, Bool, true, false, ◌&&◌, Option, some, List, [], ◌∷◌,
  ◌++◌, foldl, append_assoc, append-nil, arith, inl, inr, all, all-append, length, length-append,
  Bool-cases,
}
use mathlib.Core.List.{foldl-append}
use rmcollab_model.Shared.Domain.{Participant, ChatMessage, MediaItemWithJob}
use rmcollab_model.Shared.Events.{ServerEvent, participant_joined, room_state}
use rmcollab_model.Room.State.{RoomState}
use rmcollab_model.Room.Apply.{take_snapshot}
use rmcollab_model.Room.Reducer.{
  is_held_kind, room_of, max_held, same_room, events_of, apply_case, apply_with, apply_to_depth,
  apply_server_event,
}

-- A held kind of event does not look at what the function does with others.
pub held-apply_with :
    (f g : RoomState → ServerEvent → RoomState) (now : ℕ) (s : RoomState) (e : ServerEvent)
    → is_held_kind e ≡ true
    → apply_with f now s e ≡ apply_with g now s e
unfolding apply_with apply_case
held-apply_with f g now s (participant_joined r p) h = refl
held-apply_with f g now s (room_state r p c m) h = cc
held-apply_with f g now s _ h = refl

held-apply_to_depth :
    (d : ℕ) (now : ℕ) (s : RoomState) (e : ServerEvent)
    → is_held_kind e ≡ true
    → apply_to_depth (suc d) now s e ≡ apply_server_event now s e
unfolding apply_server_event
held-apply_to_depth d now s e h = held-apply_with _ _ now s e h

-- So replaying held events one by one is applying them as they are.
pub held-foldl :
    (d now : ℕ) (s : RoomState) (es : List ServerEvent)
    → all is_held_kind es ≡ true
    → foldl (apply_to_depth (suc d) now) s es ≡ foldl (apply_server_event now) s es
held-foldl d now s [] h = refl
held-foldl d now s (e ∷ es) h = elim (Bool-cases (is_held_kind e)) [
  | inl held ↦
      rw (held-apply_to_depth d now s e held)
        (held-foldl d now (apply_server_event now s e) es (rw held at h))
  | inr other ↦ absurd (ground arith)
]

-- The event is held for the room.
abbrev pub waits_for : Option String → ServerEvent → Bool
waits_for room e = is_held_kind e && same_room (room_of e) room

pub all-held :
    (room : Option String) (es : List ServerEvent)
    → all (waits_for room) es ≡ true
    → all is_held_kind es ≡ true
all-held room [] h = refl
all-held room (e ∷ es) h = ground (arith, all-held room es)

-- Of the events held for a room, none is left out of its replay.
events_of-held :
    (room_id : String) (es : List ServerEvent)
    → all (waits_for (some room_id)) es ≡ true
    → events_of room_id es ≡ es
events_of-held room_id [] h = refl
events_of-held room_id (e ∷ es) h = ground (arith, events_of-held room_id es)

-- What the state becomes while events of the awaited room arrive: they are held, in order.
held_after : RoomState → List ServerEvent → RoomState
held_after s es = record s { held_events = s.held_events ++ es }

-- Events with their times of arrival.
abbrev pub arrive : RoomState → List (ℕ × ServerEvent) → RoomState
arrive s [] = s
arrive s ((t, e) ∷ es) = arrive (apply_server_event t s e) es

abbrev pub events : List (ℕ × ServerEvent) → List ServerEvent
events [] = []
events ((t, e) ∷ es) = e ∷ events es

hold_one :
    (t : ℕ) (s : RoomState) (e : ServerEvent)
    → s.synced ≡ false
    → waits_for s.active_room_id e ≡ true
    → length s.held_events + 1 ≤ max_held
    → apply_server_event t s e ≡ held_after s (e ∷ [])
unfolding apply_server_event apply_with held_after
hold_one t s e unsynced waits room = ground arith

hold_all :
    (s : RoomState) (es : List (ℕ × ServerEvent))
    → s.synced ≡ false
    → all (waits_for s.active_room_id) (events es) ≡ true
    → length s.held_events + length (events es) ≤ max_held
    → arrive s es ≡ held_after s (events es)
unfolding held_after
hold_all s [] unsynced waits room = rw (append-nil s.held_events)
hold_all s ((t, e) ∷ es) unsynced waits room =
    let one = hold_one t s e unsynced (ground arith) (omega arith) in
    let rest =
      hold_all (held_after s (e ∷ [])) es unsynced (ground arith)
        (omega (arith, length-append s.held_events (e ∷ []))) in
    rw one (rest ∙ rw (append_assoc s.held_events (e ∷ []) (events es)))

-- A snapshot is not held.
pub snapshot_lem :
    (d now : ℕ) (s : RoomState) (room_id : String) (participants : List Participant)
    (history : List ChatMessage) (media : List MediaItemWithJob)
    → apply_to_depth (suc (suc d)) now s (room_state room_id participants history media)
      ≡ foldl
          (apply_to_depth (suc d) now)
          (take_snapshot s room_id participants history media)
          (events_of room_id s.held_events)
unfolding apply_to_depth apply_case
snapshot_lem d now s room_id participants history media = elim (Bool-cases s.synced) [
  | inl e ↦ rw e
  | inr e ↦ rw e
]

-- Where all that is held is for the room, the snapshot replays all of it.
pub snapshot_replays :
    (now : ℕ) (s : RoomState) (room_id : String) (participants : List Participant)
    (history : List ChatMessage) (media : List MediaItemWithJob)
    → all (waits_for (some room_id)) s.held_events ≡ true
    → apply_server_event now s (room_state room_id participants history media)
      ≡ foldl
          (apply_server_event now)
          (take_snapshot s room_id participants history media)
          s.held_events
unfolding apply_server_event
snapshot_replays now s room_id participants history media held =
    snapshot_lem 0 now s room_id participants history media
    ∙ rw (events_of-held room_id s.held_events held) (
        held-foldl 0 now (take_snapshot s room_id participants history media) s.held_events
          (all-held (some room_id) s.held_events held))

take_snapshot-held_after :
    (s : RoomState) (es : List ServerEvent) (room_id : String) (participants : List Participant)
    (history : List ChatMessage) (media : List MediaItemWithJob)
    → take_snapshot (held_after s es) room_id participants history media
      ≡ take_snapshot s room_id participants history media
unfolding take_snapshot held_after
take_snapshot-held_after s es room_id participants history media = refl

held_events-held_after :
    (s : RoomState) (es : List ServerEvent) → (held_after s es).held_events ≡ s.held_events ++ es
unfolding held_after
held_events-held_after s es = refl

-- Holding is only a delay. While a room's snapshot is awaited, let events of that room arrive, at
-- any times, of the kinds that wait for the snapshot and no more than there is room for. The
-- snapshot then gives the state that the snapshot, followed by those events, would have given.
pub hold-then-snapshot :
    (now : ℕ) (s : RoomState) (room_id : String) (es : List (ℕ × ServerEvent))
    (participants : List Participant) (history : List ChatMessage) (media : List MediaItemWithJob)
    → s.synced ≡ false
    → s.active_room_id ≡ some room_id
    → all (waits_for s.active_room_id) s.held_events ≡ true
    → all (waits_for s.active_room_id) (events es) ≡ true
    → length s.held_events + length (events es) ≤ max_held
    → apply_server_event now (arrive s es) (room_state room_id participants history media)
      ≡ foldl
          (apply_server_event now)
          (apply_server_event now s (room_state room_id participants history media))
          (events es)
hold-then-snapshot now s room_id es participants history media unsynced here old new room =
    let hold = hold_all s es unsynced new room in
    let old' = rw here at old in
    let new' = rw here at new in
    let both : all (waits_for (some room_id)) (held_after s (events es)).held_events ≡ true =
      rw
        (
          held_events-held_after s (events es),
          all-append (waits_for (some room_id)) s.held_events (events es),
          old',
        )
        new' in
    rw hold (
      snapshot_replays now (held_after s (events es)) room_id participants history media both
      ∙ rw
          (
            take_snapshot-held_after s (events es) room_id participants history media,
            held_events-held_after s (events es),
            snapshot_replays now s room_id participants history media old',
          )
          (foldl-append (apply_server_event now) _ s.held_events (events es)))
