-- ===== src/Room/State.antt =====
-- client/src/state/roomReducer.ts: the state, the actions, and the helpers on lists of rooms and
-- participants. `typing` is an association list in the object's insertion order.
use rmcollab_model.Common.{
  ℕ, String, Bool, true, false, Option, none, List, [], ◌∷◌, leb, if◌then◌else◌, ◌==◌, option_is,
  ◌&&◌,
}
use rmcollab_model.Common.Sorting.{sort}
use rmcollab_model.Shared.Domain.{
  Session, Room, Participant, ChatMessage, MediaItemWithJob, RoomDocument,
}
use rmcollab_model.Shared.Events.{ServerEvent, Waiter, RemovalScope}

pub record RealtimeError : Type 0 where
  pub code : String
  pub message : String
  pub at : ℕ

pub data Admission : Type 0 where
  waiting : (session_name owner_name : Option String) → (owner_online : Bool) → Admission
  denied : (by_name : String) → Admission

pub record DeletedRoom : Type 0 where
  pub name : String
  pub by_name : Option String
  pub at : ℕ

pub record Ended : Type 0 where
  pub by_name : String
  pub at : ℕ

pub record OwnerChange : Type 0 where
  pub owner_id : String
  pub owner_name : String
  pub by_name : String
  pub at : ℕ

pub record Removal : Type 0 where
  pub scope : RemovalScope
  pub room_id : String
  pub by_name : String
  pub at : ℕ

pub record Typist : Type 0 where
  pub participant_id : String
  pub display_name : String
  pub at : ℕ

pub record RoomState : Type 0 where
  pub session : Option Session
  pub me : Option Participant
  pub rooms : List Room
  pub active_room_id : Option String
  pub synced : Bool
  pub loaded_room_id : Option String
  pub held_events : List ServerEvent
  pub participants : List Participant
  pub chat : List ChatMessage
  pub media : List MediaItemWithJob
  pub typing : List Typist
  pub last_error : Option RealtimeError
  pub admission : Option Admission
  pub room_deleted : Option DeletedRoom
  pub ended : Option Ended
  pub owner_change : Option OwnerChange
  pub waiting_list : List Waiter
  pub admission_decided : List String
  pub documents : Option (List RoomDocument)
  pub removed : Option Removal

abbrev pub initial_room_state : RoomState
initial_room_state = record {
  session = none;
  me = none;
  rooms = [];
  active_room_id = none;
  synced = false;
  loaded_room_id = none;
  held_events = [];
  participants = [];
  chat = [];
  media = [];
  typing = [];
  last_error = none;
  admission = none;
  room_deleted = none;
  ended = none;
  owner_change = none;
  waiting_list = [];
  admission_decided = [];
  documents = none;
  removed = none;
}

pub data RoomAction : Type 0 where
  server_event : ServerEvent → RoomAction
  invalid_event : (reason : String) → RoomAction
  room_requested : (room_id : String) → RoomAction
  connection_lost clear_error : RoomAction
  prune_typing : (older_than : ℕ) → RoomAction
  reset : RoomAction

-- The comparator of `sortRooms`: the main room first, then by age.
abbrev pub room_le : Room → Room → Bool
room_le a b =
    if a.is_main
    then (if b.is_main then leb a.created_at b.created_at else true)
    else (if b.is_main then false else leb a.created_at b.created_at)

pub sort_rooms : List Room → List Room
sort_rooms rooms = sort room_le rooms

-- The first entry with the id is replaced in place; a new one goes to the end.
unfoldable pub upsert_participant : List Participant → Participant → List Participant
upsert_participant [] p = p ∷ []
upsert_participant (q ∷ list) p = if q.id == p.id then p ∷ list else q ∷ upsert_participant list p

-- Events of a room are applied only while its snapshot is in place.
abbrev pub is_current_room : RoomState → String → Bool
is_current_room s room_id = s.synced && option_is s.active_room_id room_id
