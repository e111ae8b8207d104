-- ===== src/Access/Changes.antt =====
-- gateway/src/db/repositories.ts: a session's code and settings, what is deleted, and the chat.
use rmcollab_model.Common.{
  ℕ, ◌-◌, String, Bool, true, false, not, ◌&&◌, ◌||◌, Option, none, some, List, [], ◌∷◌, ◌++◌, map,
  filter, any, find?, if◌then◌else◌, ◌==◌, option_is, leb, length, drop,
}
use rmcollab_model.Common.Sorting.{sort}
use rmcollab_model.Shared.Domain.{ChatMessage}
use rmcollab_model.Shared.Events.{Waiter}
use rmcollab_model.Access.Database.{
  Database, SessionRow, RoomRow, ParticipantRow, RoomEntry, RetiredCode, ChatRow, update, delete,
  get_participant, get_room,
}

abbrev pub session_is : String → SessionRow → Bool
session_is id s = s.id == id

-- INSERT INTO retired_session_codes … ON CONFLICT DO NOTHING, of the session's code
abbrev pub retire : Database → String → List RetiredCode
retire db session_id =
    map (λ (s : SessionRow). record { code = s.code; session_id = session_id })
      (filter
        (λ (s : SessionRow).
          s.id == session_id && not (any (λ (r : RetiredCode). r.code == s.code) db.retired_codes))
        db.sessions)

abbrev pub code_in_use : Database → String → String → Bool
code_in_use db session_id code =
    any (λ (s : SessionRow). s.code == code && not (s.id == session_id)) db.sessions

-- The session's code is retired, whether or not it gets the new one.
abbrev pub with_retired : Database → String → Database
with_retired db session_id = record db { retired_codes = retire db session_id ++ db.retired_codes }

abbrev pub with_code : Database → String → String → Database
with_code db session_id code = record db {
  sessions = update (session_is session_id) (λ s. record s { code = code }) db.sessions;
}

-- The codes are those that are drawn, five at most. A clash with another session's code changes
-- nothing; one with a retired code, or a session that is gone, leaves the session as it is.
unfoldable pub rotate_session_code : Database → String → List String → Database × Option String
rotate_session_code db session_id [] = (db, none)
rotate_session_code db session_id (code ∷ codes) = elim (code_in_use db session_id code) [
  | true ↦ rotate_session_code db session_id codes
  | false ↦
      elim (any (λ (r : RetiredCode). r.code == code) db.retired_codes
        || not (any (session_is session_id) db.sessions)) [
          | true ↦ rotate_session_code (with_retired db session_id) session_id codes
          | false ↦ (with_code (with_retired db session_id) session_id code, some code)
        ]
]

unfoldable pub set_session_owner : Database → String → String → Database
set_session_owner db session_id participant_id = record db {
  rooms =
      update (λ (r : RoomRow). r.session_id == session_id && r.is_main)
        (λ r. record r { created_by = some participant_id }) db.rooms;
}

unfoldable pub set_waiting_room : Database → String → Bool → Database
set_waiting_room db session_id on = record db {
  sessions = update (session_is session_id) (λ s. record s { waiting_room = on }) db.sessions;
}

unfoldable pub set_session_kept : Database → String → Bool → Database
set_session_kept db session_id kept = record db {
  sessions = update (session_is session_id) (λ s. record s { kept = kept }) db.sessions;
}

unfoldable pub list_waiting : Database → String → List Waiter
list_waiting db session_id =
    map (λ (p : ParticipantRow). record { id = p.id; display_name = p.display_name })
      (sort (λ (a : ParticipantRow) b. leb a.joined_at b.joined_at)
        (filter
          (λ (p : ParticipantRow).
            p.session_id == session_id && p.waiting && p.connected && not p.removed)
          db.participants))

-- DELETE FROM rooms, with what the schema deletes of the rows that name a deleted room
abbrev pub delete_rooms : (RoomRow → Bool) → Database → Database
delete_rooms goes db =
    let gone = λ (id : String). any (λ (r : RoomRow). r.id == id && goes r) db.rooms in
    record db {
      rooms = delete goes db.rooms;
      participants =
          map
            (λ (p : ParticipantRow).
              if any (λ (r : RoomRow). option_is p.current_room_id r.id && goes r) db.rooms
              then record p { current_room_id = none }
              else p)
            db.participants;
      members = delete (λ (e : RoomEntry). gone e.room_id) db.members;
      bans = delete (λ (e : RoomEntry). gone e.room_id) db.bans;
      chat = delete (λ (c : ChatRow). gone c.room_id) db.chat;
    }

unfoldable pub delete_room : Database → String → Database
delete_room db room_id = delete_rooms (λ r. r.id == room_id && not r.is_main) db

unfoldable pub delete_session : Database → String → Database
delete_session db session_id =
    let db' = delete_rooms (λ r. r.session_id == session_id) db in
    let gone = λ (id : String).
      any (λ (p : ParticipantRow). p.id == id && p.session_id == session_id) db.participants in
    record db' {
      sessions = delete (session_is session_id) db.sessions;
      participants = delete (λ (p : ParticipantRow). p.session_id == session_id) db'.participants;
      members = delete (λ (e : RoomEntry). gone e.participant_id) db'.members;
      bans = delete (λ (e : RoomEntry). gone e.participant_id) db'.bans;
      chat = delete (λ (c : ChatRow). gone c.participant_id) db'.chat;
      retired_codes = delete (λ (r : RetiredCode). r.session_id == session_id) db.retired_codes;
    }

abbrev name_of : Option ParticipantRow → Option String
name_of none = none
name_of (some p) = some p.display_name

abbrev to_message : ChatRow → String → ChatMessage
to_message c name = record {
  id = c.id;
  room_id = c.room_id;
  participant_id = c.participant_id;
  display_name = name;
  body = c.body;
  created_at = c.created_at;
}

-- The rows that join to their author.
abbrev messages : Database → List ChatRow → List ChatMessage
messages db [] = []
messages db (c ∷ cs) =
    let rest = messages db cs in
    elim (name_of (get_participant db c.participant_id)) [
      | none ↦ rest
      | some name ↦ to_message c name ∷ rest
    ]

-- The insertion breaks a foreign key where the room or the author is gone: then it throws.
unfoldable pub insert_chat_message :
    Database → String → ℕ → String → String → String → Option (Database × ChatMessage)
unfolding get_room get_participant
insert_chat_message db fresh now room_id participant_id body =
    let row : ChatRow = record {
      id = fresh;
      room_id = room_id;
      participant_id = participant_id;
      body = body;
      created_at = now;
    } in
    elim (get_room db room_id) [
      | none ↦ none
      | some room ↦ elim (name_of (get_participant db participant_id)) [
        | none ↦ none
        | some name ↦ some (record db { chat = db.chat ++ row ∷ [] }, to_message row name)
      ]
    ]

-- The newest up to the limit, the oldest of them first. Messages of one time keep the order that
-- they were inserted in, where the source orders them by their random ids.
unfoldable pub list_recent_chat_messages : Database → String → ℕ → List ChatMessage
list_recent_chat_messages db room_id limit =
    let all = messages db (
      sort (λ (a : ChatRow) b. leb a.created_at b.created_at)
        (filter (λ (c : ChatRow). c.room_id == room_id) db.chat)) in
    drop (length all - limit) all

unfoldable pub get_chat_message_author : Database → String → Option ChatRow
get_chat_message_author db message_id = find? (λ (c : ChatRow). c.id == message_id) db.chat

unfoldable pub delete_chat_message : Database → String → Database
delete_chat_message db message_id = record db {
  chat = delete (λ (c : ChatRow). c.id == message_id) db.chat;
}
