-- ===== src/Room/Coherence.antt =====
-- client/src/state/roomReducer.ts: what holds of the held events in every state the page can reach.
use rmcollab_model.Common.{
  ℕ, zero, suc, ◌≤◌, ◌≡◌, refl, sym, ◌∙◌, String, Bool, true, false, Option, List, [], ◌∷◌, ◌++◌,
  foldl, arith, all, all-append, length, length-append, Bool-cases, inl, inr, filter,
}
use rmcollab_model.Shared.Domain.{Participant, ChatMessage, MediaItemWithJob}
use rmcollab_model.Shared.Events.{ServerEvent, session_joined, room_state, room_deleted}
use rmcollab_model.Room.State.{
  RoomState, RoomAction, server_event, room_requested, connection_lost, reset, initial_room_state,
}
use rmcollab_model.Room.Apply.{
  take_snapshot, join_participant, ask_admission, settle_admission, decide_admission,
  delete_message, set_documents, remove_participant, part_participant, add_message, set_typing,
  add_media, update_media, delete_media, delete_room, update_job_of, complete_job_of,
}
use rmcollab_model.Room.Reducer.{
  is_held_kind, max_held, is_to_hold, events_of, apply_case, apply_to_depth, apply_server_event,
  request_room, room_reducer,
}
use rmcollab_model.Room.Holding.{waits_for, all-held, held-foldl, snapshot_lem}

-- A synced page holds nothing; the held events are of the active room, of the kinds that wait for a
-- snapshot, and at most 500.
pub record IsCoherent (s : RoomState) : Type 0 where
  pub quiet : s.synced ≡ true → s.held_events ≡ []
  pub of_room : all (waits_for s.active_room_id) s.held_events ≡ true
  pub bounded : length s.held_events ≤ max_held

-- All that coherence is about.
abbrev Keeps : RoomState → RoomState → Type 0
Keeps s t =
    (t.synced ≡ s.synced) × (t.held_events ≡ s.held_events) × (t.active_room_id ≡ s.active_room_id)

Keeps-IsCoherent : (s t : RoomState) → Keeps s t → IsCoherent s → IsCoherent t
Keeps-IsCoherent s t k c = record {
  quiet = λ e. k.1 ∙ c.quiet (sym k.0 ∙ e);
  of_room = rw (k.1, k.2) c.of_room;
  bounded = rw k.1 c.bounded;
}

-- Neither the snapshot nor the end of the room.
abbrev is_steady : ServerEvent → Bool
is_steady (room_state r ps cs ms) = false
is_steady (room_deleted r n b) = false
is_steady _ = true

apply_case-Keeps :
    (again : RoomState → ServerEvent → RoomState) (now : ℕ) (s : RoomState) (e : ServerEvent)
    → is_steady e ≡ true
    → Keeps s (apply_case again now s e)
unfolding apply_case join_participant ask_admission settle_admission decide_admission delete_message
    set_documents remove_participant part_participant add_message set_typing add_media update_media
    delete_media update_job_of complete_job_of
apply_case-Keeps again now s (session_joined a b c) h = (refl, refl, refl)
apply_case-Keeps again now s _ h = ground arith

hold-IsCoherent :
    (s : RoomState) (e : ServerEvent)
    → is_to_hold s e ≡ true
    → IsCoherent s
    → IsCoherent (record s { held_events = s.held_events ++ e ∷ [] })
hold-IsCoherent s e h c = record {
  quiet = λ synced. absurd (ground arith);
  of_room =
      rw (all-append (waits_for s.active_room_id) s.held_events (e ∷ []), c.of_room) (ground arith);
  bounded = ground (arith, length-append s.held_events (e ∷ []));
}

delete_room-IsCoherent :
    (now : ℕ) (s : RoomState) (room_id : String) (name by_name : Option String)
    → IsCoherent s
    → IsCoherent (delete_room now s room_id name by_name)
unfolding delete_room
delete_room-IsCoherent now s room_id name by_name c = record {
  quiet = ground (arith, c.quiet);
  of_room = ground (arith, c.of_room);
  bounded = ground (arith, c.bounded);
}

take_snapshot-IsCoherent :
    (s : RoomState) (room_id : String) (participants : List Participant)
    (history : List ChatMessage) (media : List MediaItemWithJob)
    → IsCoherent (take_snapshot s room_id participants history media)
unfolding take_snapshot
take_snapshot-IsCoherent s room_id participants history media = record {
  quiet = λ e. refl;
  of_room = refl;
  bounded = omega arith;
}

-- A function that keeps the state coherent, whatever the event.
abbrev KeepsCoherent : (RoomState → ServerEvent → RoomState) → Type 0
KeepsCoherent f = (s : RoomState) (e : ServerEvent) → IsCoherent s → IsCoherent (f s e)

foldl-IsCoherent :
    (f : RoomState → ServerEvent → RoomState) (s : RoomState) (es : List ServerEvent)
    → KeepsCoherent f
    → IsCoherent s
    → IsCoherent (foldl f s es)
foldl-IsCoherent f s [] k c = c
foldl-IsCoherent f s (e ∷ es) k c = foldl-IsCoherent f (f s e) es k (k s e c)

apply_case-IsCoherent :
    (again : RoomState → ServerEvent → RoomState) (now : ℕ)
    → KeepsCoherent again
    → KeepsCoherent (apply_case again now)
unfolding apply_case
apply_case-IsCoherent again now k s (room_state room_id participants history media) c =
    foldl-IsCoherent again (take_snapshot s room_id participants history media)
      (events_of room_id s.held_events) k
      (take_snapshot-IsCoherent s room_id participants history media)
apply_case-IsCoherent again now k s (room_deleted room_id name by_name) c =
    delete_room-IsCoherent now s room_id name by_name c
apply_case-IsCoherent again now k s e c =
    Keeps-IsCoherent s (apply_case again now s e) (apply_case-Keeps again now s e refl) c

apply_to_depth-IsCoherent : (d now : ℕ) → KeepsCoherent (apply_to_depth d now)
unfolding apply_to_depth
apply_to_depth-IsCoherent zero now s e c = c
apply_to_depth-IsCoherent (suc d) now s e c = elim (Bool-cases (is_to_hold s e)) [
  | inl h ↦ rw h (hold-IsCoherent s e h c)
  | inr h ↦
      rw h
        (apply_case-IsCoherent (apply_to_depth d now) now (apply_to_depth-IsCoherent d now) s e c)
]

request_room-IsCoherent :
    (s : RoomState) (room_id : String) → IsCoherent s → IsCoherent (request_room s room_id)
unfolding request_room
request_room-IsCoherent s room_id c = record {
  quiet = ground (arith, c.quiet);
  of_room = ground (arith, c.of_room);
  bounded = ground (arith, c.bounded);
}

-- Every action keeps the state coherent.
pub room_reducer-IsCoherent :
    (now : ℕ) (s : RoomState) (a : RoomAction) → IsCoherent s → IsCoherent (room_reducer now s a)
unfolding room_reducer apply_server_event
room_reducer-IsCoherent now s (server_event e) c = apply_to_depth-IsCoherent 2 now s e c
room_reducer-IsCoherent now s (room_requested room_id) c = request_room-IsCoherent s room_id c
room_reducer-IsCoherent now s connection_lost c = record {
  quiet = ground (arith, c.quiet);
  of_room = ground (arith, c.of_room);
  bounded = ground (arith, c.bounded);
}
room_reducer-IsCoherent now s reset c = record {
  quiet = λ e. refl;
  of_room = refl;
  bounded = omega arith;
}
room_reducer-IsCoherent now s a c = record {
  quiet = c.quiet;
  of_room = c.of_room;
  bounded = c.bounded;
}

-- The actions of a page, each with the time it is handled at.
unfoldable pub run : RoomState → List (ℕ × RoomAction) → RoomState
run s [] = s
run s ((now, a) ∷ as') = run (room_reducer now s a) as'

-- From a coherent state, every sequence of actions, at any times, leads to a coherent one: nothing is
-- held once the snapshot is in place, and what is held is of the active room, of a kind that waits,
-- and no more than the most.
pub run-IsCoherent :
    (s : RoomState) (as' : List (ℕ × RoomAction)) → IsCoherent s → IsCoherent (run s as')
unfolding run
run-IsCoherent s [] c = c
run-IsCoherent s ((now, a) ∷ as') c =
    run-IsCoherent (room_reducer now s a) as' (room_reducer-IsCoherent now s a c)

pub initial-IsCoherent : IsCoherent initial_room_state
initial-IsCoherent = record { quiet = λ e. refl; of_room = refl; bounded = omega arith }

all-filter :
    (p q : ServerEvent → Bool) (es : List ServerEvent)
    → all p es ≡ true
    → all p (filter q es) ≡ true
all-filter p q [] h = refl
all-filter p q (e ∷ es) h = ground (arith, all-filter p q es)

-- In a coherent state, following the reducer's calls of itself to any depth from two on gives what
-- `apply_server_event` gives.
pub apply_to_depth_enough :
    (d now : ℕ) (s : RoomState) (e : ServerEvent)
    → IsCoherent s
    → apply_to_depth (suc (suc d)) now s e ≡ apply_server_event now s e
unfolding apply_server_event apply_to_depth apply_case
apply_to_depth_enough d now s (room_state room_id participants history media) c =
    snapshot_lem d now s room_id participants history media
    ∙ held-foldl d now _ (events_of room_id s.held_events) kinds
    ∙ sym (held-foldl 0 now _ (events_of room_id s.held_events) kinds)
    ∙ sym (snapshot_lem 0 now s room_id participants history media)
  where
    kinds : all is_held_kind (events_of room_id s.held_events) ≡ true
    kinds =
        all-filter is_held_kind _ s.held_events (all-held s.active_room_id s.held_events c.of_room)
apply_to_depth_enough d now s e c = refl
