-- ===== src/Room/Isolation.antt =====
-- client/src/state/roomReducer.ts: events of other rooms.
use rmcollab_model.Common.{
  ℕ, ◌≡◌, refl, String, Bool, true, false, some, arith, Bool-cases, inl, inr,
}
use rmcollab_model.Shared.Events.{ServerEvent, room_state, participant_joined, participant_removed}
use rmcollab_model.Room.State.{RoomState, is_current_room}
use rmcollab_model.Room.Apply.{
  join_participant, delete_message, set_documents, part_participant, add_message, set_typing,
  add_media, update_media, delete_media, delete_room, update_job_of, complete_job_of,
}
use rmcollab_model.Room.Reducer.{room_of, is_to_hold, apply_case, apply_with, apply_server_event}

-- What a room shows is as before.
abbrev pub SameContents : RoomState → RoomState → Type 0
SameContents s t =
    (t.participants ≡ s.participants)
    × (t.chat ≡ s.chat)
    × (t.media ≡ s.media)
    × (t.typing ≡ s.typing)
    × (t.documents ≡ s.documents)

-- The two events that change what is shown whatever room they name.
abbrev pub is_unguarded : ServerEvent → Bool
is_unguarded (room_state r ps cs ms) = true
is_unguarded (participant_removed r p c b) = true
is_unguarded _ = false

apply_case-SameContents :
    (again : RoomState → ServerEvent → RoomState) (now : ℕ) (s : RoomState) (e : ServerEvent)
    (room_id : String)
    → is_unguarded e ≡ false
    → room_of e ≡ some room_id
    → is_current_room s room_id ≡ false
    → SameContents s (apply_case again now s e)
unfolding apply_case join_participant delete_message set_documents part_participant add_message
    set_typing add_media update_media delete_media delete_room update_job_of complete_job_of
apply_case-SameContents again now s (participant_joined r p) room_id g h c = ground arith
apply_case-SameContents again now s e room_id g h c = ground arith

-- An event of a room, whose snapshot is not in place or that is not the active one, changes none of
-- the people, messages, uploads, typing notices and documents on screen, unless it is a snapshot or
-- a removal.
pub foreign-SameContents :
    (now : ℕ) (s : RoomState) (e : ServerEvent) (room_id : String)
    → is_unguarded e ≡ false
    → room_of e ≡ some room_id
    → is_current_room s room_id ≡ false
    → SameContents s (apply_server_event now s e)
unfolding apply_server_event apply_with
foreign-SameContents now s e room_id g h c = elim (Bool-cases (is_to_hold s e)) [
  | inl held ↦ rw held (refl, refl, refl, refl, refl)
  | inr other ↦ rw other (apply_case-SameContents _ now s e room_id g h c)
]
