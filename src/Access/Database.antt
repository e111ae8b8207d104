-- ===== src/Access/Database.antt =====
-- gateway/src/db/schema.sql and the row types of gateway/src/db/repositories.ts: the tables that say
-- who is in a session and in its rooms. Columns that nothing modelled here reads are left out: the time
-- of a grant, a ban or a code's retirement. The texts of `trim` and `toUpperCase`, and the letters and
-- digits that a code is cut down to, are those of a record of functions.
use rmcollab_model.Common.{
  ℕ, String, Bool, true, false, not, ◌&&◌, Option, none, some, List, ◌∷◌, map, filter, any, find?,
  if◌then◌else◌, ◌==◌,
}
use rmcollab_model.Shared.Domain.{Session, Room, Participant, MediaItemWithJob}

pub record SessionRow : Type 0 where
  pub id : String
  pub code : String
  pub name : Option String
  pub created_at : ℕ
  pub waiting_room : Bool
  pub kept : Bool

-- `created_by` is the room's owner.
pub record RoomRow : Type 0 where
  pub id : String
  pub session_id : String
  pub name : String
  pub is_main : Bool
  pub access_code : Option String
  pub created_by : Option String
  pub created_at : ℕ

pub record ParticipantRow : Type 0 where
  pub id : String
  pub session_id : String
  pub display_name : String
  pub current_room_id : Option String
  pub connected : Bool
  pub joined_at : ℕ
  pub removed : Bool
  pub waiting : Bool

-- A row of room_members, of those let in by a code, or of room_bans.
pub record RoomEntry : Type 0 where
  pub room_id : String
  pub participant_id : String

pub record RetiredCode : Type 0 where
  pub code : String
  pub session_id : String

pub record ChatRow : Type 0 where
  pub id : String
  pub room_id : String
  pub participant_id : String
  pub body : String
  pub created_at : ℕ

-- `media` is what `listRoomMediaWithJobs` reads of a room.
pub record Database : Type 0 where
  pub sessions : List SessionRow
  pub rooms : List RoomRow
  pub participants : List ParticipantRow
  pub members : List RoomEntry
  pub bans : List RoomEntry
  pub retired_codes : List RetiredCode
  pub chat : List ChatRow
  pub media : String → List MediaItemWithJob

-- What the code does to texts by library functions, and the days of `config.sessionTtlMs` and
-- `config.sessionKeepMs`.
pub record Settings : Type 0 where
  pub trim : String → String
  pub upper : String → String
  pub letters_and_digits : String → String
  pub ttl_days : ℕ
  pub keep_days : ℕ

-- UPDATE
abbrev pub update {ℓ} : {A : Type ℓ} → (A → Bool) → (A → A) → List A → List A
update test change rows = map (λ r. if test r then change r else r) rows

-- DELETE
abbrev pub delete {ℓ} : {A : Type ℓ} → (A → Bool) → List A → List A
delete test rows = filter (λ r. not (test r)) rows

abbrev pub is_entry : String → String → RoomEntry → Bool
is_entry room_id participant_id e = e.room_id == room_id && e.participant_id == participant_id

-- INSERT … ON CONFLICT DO NOTHING
abbrev pub insert_entry : String → String → List RoomEntry → List RoomEntry
insert_entry room_id participant_id entries =
    if any (is_entry room_id participant_id) entries
    then entries
    else record { room_id = room_id; participant_id = participant_id } ∷ entries

unfoldable pub to_session : Settings → SessionRow → Session
to_session t r = record {
  id = r.id;
  code = r.code;
  name = r.name;
  created_at = r.created_at;
  waiting_room = r.waiting_room;
  kept = r.kept;
  retention_days = if r.kept then t.keep_days else t.ttl_days;
}

abbrev pub is_given {ℓ} : {A : Type ℓ} → Option A → Bool
is_given none = false
is_given (some a) = true

unfoldable pub to_room : RoomRow → Room
to_room r = record {
  id = r.id;
  session_id = r.session_id;
  name = r.name;
  is_main = r.is_main;
  is_locked = is_given r.access_code;
  owner_id = r.created_by;
  created_at = r.created_at;
}

unfoldable pub to_participant : ParticipantRow → Participant
to_participant r = record {
  id = r.id;
  session_id = r.session_id;
  display_name = r.display_name;
  current_room_id = r.current_room_id;
  connected = r.connected;
  joined_at = r.joined_at;
}

abbrev pub room_is : String → RoomRow → Bool
room_is id r = r.id == id

abbrev pub participant_is : String → ParticipantRow → Bool
participant_is id p = p.id == id

-- In the session, and let in: `removed_at IS NULL AND NOT waiting`.
abbrev pub is_current : ParticipantRow → Bool
is_current p = not p.removed && not p.waiting

-- The row of getRoom, and that of getParticipant.
unfoldable pub get_room : Database → String → Option RoomRow
get_room db id = find? (room_is id) db.rooms

unfoldable pub get_participant : Database → String → Option ParticipantRow
get_participant db id = find? (participant_is id) db.participants

unfoldable pub get_session_by_id : Database → String → Option SessionRow
get_session_by_id db id = find? (λ (s : SessionRow). s.id == id) db.sessions
