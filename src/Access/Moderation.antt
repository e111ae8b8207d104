-- ===== src/Access/Moderation.antt =====
-- gateway/src/http/routes: manage.ts, sessions.ts and rooms.ts, the requests by which an owner changes
-- who is in a session or a room. A body or a query that does not parse is a missing one. What a
-- request publishes is listed in its order. Files, notes and the touching of the session are left out.
pub mod KeptOut
pub mod Owners
mod Tests
use rmcollab_model.Common.{
  ℕ, String, Bool, true, false, not, ◌&&◌, ◌||◌, Option, none, some, List, [], ◌∷◌, ◌++◌, map,
  if◌then◌else◌, ◌==◌, option_is,
}
use rmcollab_model.Shared.Domain.{Room}
use rmcollab_model.Shared.Events.{
  ServerEvent, RemovalScope, participant_removed, session_updated, room_deleted, rooms_updated,
  admission_decided, session_ended, owner_changed, chat_message_deleted,
}
use rmcollab_model.Shared.Events
use rmcollab_model.Access.Database.{
  Database, Settings, SessionRow, RoomRow, ParticipantRow, ChatRow, get_room, get_participant,
  get_session_by_id, to_session,
}
use rmcollab_model.Access.Sessions.{
  session_owner_id, get_session_by_code, is_admitted_member, is_waiting, set_waiting,
}
use rmcollab_model.Access.Rooms.{
  has_room_access, list_rooms, ban_from_room, remove_from_session, create_room,
}
use rmcollab_model.Access.Changes.{
  rotate_session_code, set_session_owner, set_waiting_room, set_session_kept, delete_room,
  delete_session, get_chat_message_author, delete_chat_message,
}

pub data Published : Type 0 where
  to_room : (room_id : String) → ServerEvent → Published
  to_session_of : (session_id : String) → ServerEvent → Published

-- The tables after a request, what it published, and its answer.
pub record Answer : Type 0 where
  pub db : Database
  pub published : List Published
  pub status : ℕ
  pub error : Option String

abbrev pub refuse : Database → ℕ → String → Answer
refuse db status error = record { db = db; published = []; status = status; error = some error }

abbrev pub answer : Database → List Published → ℕ → Answer
answer db published status = record {
  db = db;
  published = published;
  status = status;
  error = none;
}

-- `room.ownerId === participantId || …`
unfoldable pub moderates : Database → RoomRow → String → Bool
unfolding session_owner_id
moderates db room participant_id =
    option_is room.created_by participant_id
    || option_is (session_owner_id db room.session_id) participant_id

-- `session_updated` with the session's new row, if there is one.
abbrev session_told : Settings → Option SessionRow → List Published
session_told t none = []
session_told t (some s) = to_session_of s.id (session_updated (to_session t s)) ∷ []

-- After a person's removal from the main room: the code is changed.
abbrev with_new_code : Settings → RoomRow → Published → Database × Option String → Answer
with_new_code t room told (db, none) = answer db (told ∷ []) 204
with_new_code t room told (db, some code) =
    answer db (told ∷ session_told t (get_session_by_id db room.session_id)) 200

-- The part of the removal after its checks.
unfoldable pub take_out :
    Settings → Database → List String → RoomRow → ParticipantRow → ParticipantRow → Answer
unfolding remove_from_session ban_from_room
take_out t db codes room owner target =
    if room.is_main
    then with_new_code t room
        (to_session_of room.session_id
          (participant_removed room.id target.id RemovalScope.session owner.display_name))
        (rotate_session_code (remove_from_session db target.id) room.session_id codes)
    else answer (ban_from_room db room.id target.id)
        (to_room room.id
            (participant_removed room.id target.id RemovalScope.room owner.display_name)
          ∷ [])
        204

unfoldable pub take_out_target :
    Settings → Database → List String → RoomRow → ParticipantRow → Option ParticipantRow → Answer
unfolding take_out
take_out_target t db codes room owner none = refuse db 404 "not_found"
take_out_target t db codes room owner (some target) =
    if not (target.session_id == room.session_id)
    then refuse db 404 "not_found"
    else (if target.id == owner.id
        then refuse db 400 "cannot_remove_self"
        else (if not room.is_main && option_is room.created_by target.id
            then refuse db 400 "room_owner"
            else take_out t db codes room owner target))

-- POST /api/rooms/:roomId/participants/:targetId/remove. The codes are those drawn for a new code.
unfoldable pub remove_person :
    Settings → Database → List String → String → Option String → String → Answer
unfolding moderates take_out_target
remove_person t db codes room_id none target_id = refuse db 404 "not_found"
remove_person t db codes room_id (some participant_id) target_id = elim (get_room db room_id) [
  | none ↦ refuse db 404 "not_found"
  | some room ↦ elim (get_participant db participant_id) [
    | none ↦ refuse db 403 "not_room_owner"
    | some owner ↦
        if moderates db room owner.id
        then take_out_target t db codes room owner (get_participant db target_id)
        else refuse db 403 "not_room_owner"
  ]
]

abbrev name_of : Option ParticipantRow → Option String
name_of none = none
name_of (some p) = some p.display_name

-- DELETE /api/rooms/:roomId
unfoldable pub delete_room_request : Database → String → String → Answer
unfolding moderates delete_room
delete_room_request db room_id participant_id = elim (get_room db room_id) [
  | none ↦ refuse db 404 "not_found"
  | some room ↦
      if room.is_main
      then refuse db 400 "main_room"
      else (if participant_id == "" || not (moderates db room participant_id)
          then refuse db 403 "not_room_owner"
          else answer (delete_room db room.id)
              (to_room room.id (
                  room_deleted room.id (some room.name)
                    (name_of (get_participant db participant_id)))
                ∷ to_session_of room.session_id (
                    rooms_updated room.session_id
                      (list_rooms (delete_room db room.id) room.session_id))
                ∷ [])
              204)
]

-- `asOwner`, with what is done once the session and its owner are found. An owner with no row makes
-- the rest throw.
unfoldable pub as_owner :
    Settings → Database → String → Option String → (SessionRow → ParticipantRow → Answer) → Answer
unfolding get_session_by_code session_owner_id
as_owner t db code none act = refuse db 404 "session_not_found"
as_owner t db code (some participant_id) act =
    elim (get_session_by_code t db code (some participant_id)) [
      | none ↦ refuse db 404 "session_not_found"
      | some session ↦
          if option_is (session_owner_id db session.id) participant_id
          then elim (get_participant db participant_id) [
            | none ↦ refuse db 500 "internal_error"
            | some owner ↦ act session owner
          ]
          else refuse db 403 "not_owner"
    ]

-- POST /api/sessions/:code/admissions
unfoldable pub answer_waiting :
    Database → Option ParticipantRow → Bool → SessionRow → ParticipantRow → Answer
unfolding is_waiting set_waiting remove_from_session
answer_waiting db none admit session owner = refuse db 404 "not_found"
answer_waiting db (some target) admit session owner =
    if not (target.session_id == session.id) || not (is_waiting db target.id)
    then refuse db 404 "not_found"
    else answer (if admit then set_waiting db target.id false else remove_from_session db target.id)
        (to_session_of session.id (admission_decided session.id target.id admit owner.display_name)
          ∷ [])
        204

unfoldable pub admission_request :
    Settings → Database → String → Option String → String → Bool → Answer
unfolding as_owner answer_waiting
admission_request t db code participant_id target_id admit =
    as_owner t db code participant_id (answer_waiting db (get_participant db target_id) admit)

-- POST /api/sessions/:code/owner
unfoldable pub hand_over : Database → Option ParticipantRow → SessionRow → ParticipantRow → Answer
unfolding is_admitted_member set_session_owner
hand_over db none session owner = refuse db 404 "not_found"
hand_over db (some target) session owner =
    if not (target.session_id == session.id)
      || not (is_admitted_member db session.id (some target.id))
    then refuse db 404 "not_found"
    else (if target.id == owner.id
        then refuse db 400 "already_owner"
        else answer (set_session_owner db session.id target.id)
            (to_session_of session.id (
                rooms_updated session.id
                  (list_rooms (set_session_owner db session.id target.id) session.id))
              ∷ to_session_of session.id
                  (owner_changed session.id target.id target.display_name owner.display_name)
              ∷ [])
            204)

unfoldable pub owner_request : Settings → Database → String → Option String → String → Answer
unfolding as_owner hand_over
owner_request t db code participant_id target_id =
    as_owner t db code participant_id (hand_over db (get_participant db target_id))

-- DELETE /api/sessions/:code
abbrev end_session : Database → SessionRow → ParticipantRow → Answer
end_session db session owner =
    answer (delete_session db session.id)
      (to_session_of session.id (
          session_ended session.id owner.display_name
            (map (λ (r : Room). r.id) (list_rooms db session.id)))
        ∷ [])
      204

unfoldable pub end_request : Settings → Database → String → Option String → Answer
unfolding as_owner
end_request t db code participant_id = as_owner t db code participant_id (end_session db)

-- PATCH /api/sessions/:code, of the settings that are given
abbrev with_waiting_room : Database → String → Option Bool → Database
with_waiting_room db session_id none = db
with_waiting_room db session_id (some on) = set_waiting_room db session_id on

abbrev with_kept : Database → String → Option Bool → Database
with_kept db session_id none = db
with_kept db session_id (some on) = set_session_kept db session_id on

abbrev change_settings :
    Settings → Database → Option Bool → Option Bool → SessionRow → ParticipantRow → Answer
change_settings t db none none session owner = refuse db 400 "invalid_body"
change_settings t db waiting_room kept session owner =
    let db' = with_kept (with_waiting_room db session.id waiting_room) session.id kept in
    answer db' (session_told t (get_session_by_id db' session.id)) 200

unfoldable pub settings_request :
    Settings → Database → String → Option String → Option Bool → Option Bool → Answer
unfolding as_owner
settings_request t db code participant_id waiting_room kept =
    as_owner t db code participant_id (change_settings t db waiting_room kept)

-- POST /api/sessions/:code/rooms, of a body that parses
unfoldable pub create_room_request :
    Settings → Database → String → ℕ → String → String → String → Option String → Answer
unfolding get_session_by_code is_admitted_member create_room
create_room_request t db fresh now code participant_id name access_code =
    elim (get_session_by_code t db code (some participant_id)) [
      | none ↦ refuse db 404 "session_not_found"
      | some session ↦
          if is_admitted_member db session.id (some participant_id)
          then (let db' =
                create_room db fresh now session.id name false access_code (some participant_id) in
              answer db'
                (to_session_of session.id (rooms_updated session.id (list_rooms db' session.id))
                  ∷ [])
                201)
          else refuse db 403 "not_in_session"
    ]

-- DELETE /api/rooms/:roomId/messages/:messageId, once the room and the person are found
unfoldable pub delete_message_of : Database → RoomRow → ParticipantRow → Option ChatRow → Answer
unfolding moderates delete_chat_message
delete_message_of db room person none = refuse db 404 "not_found"
delete_message_of db room person (some message) =
    if not (message.room_id == room.id)
    then refuse db 404 "not_found"
    else (if message.participant_id == person.id || moderates db room person.id
        then answer (delete_chat_message db message.id)
            (to_room room.id (chat_message_deleted room.id message.id) ∷ []) 204
        else refuse db 403 "not_allowed")

unfoldable pub delete_message_request : Settings → Database → String → String → String → Answer
unfolding has_room_access delete_message_of
delete_message_request t db room_id message_id participant_id = elim (get_room db room_id) [
  | none ↦ refuse db 403 "not_in_room"
  | some room ↦ elim (get_participant db participant_id) [
    | none ↦ refuse db 403 "not_in_room"
    | some person ↦
        if person.session_id == room.session_id && has_room_access t db room.id person.id
        then delete_message_of db room person (get_chat_message_author db message_id)
        else refuse db 403 "not_in_room"
  ]
]
