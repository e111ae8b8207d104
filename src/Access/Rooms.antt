-- ===== src/Access/Rooms.antt =====
-- gateway/src/db/repositories.ts: rooms, who may enter them, and what is said in them.
use rmcollab_model.Common.{
  ℕ, String, Bool, true, false, not, ◌&&◌, ◌||◌, Option, none, some, List, [], ◌∷◌, ◌++◌, map,
  filter, any, find?, if◌then◌else◌, ◌==◌, option_is, leb,
}
use rmcollab_model.Common.Sorting.{sort}
use rmcollab_model.Shared.Domain.{Room, Participant}
use rmcollab_model.Access.Database.{
  Database, Settings, RoomRow, ParticipantRow, RoomEntry, update, delete, is_entry, insert_entry,
  to_room, to_participant, participant_is, is_current, get_room,
}

-- `open_access` is "open".
pub data RoomAccess : Type 0 where
  open_access granted code_required code_invalid banned not_member : RoomAccess

-- A code presented for a room that is locked by one. An empty code is none.
unfoldable pub try_code :
    Settings → Database → String → String → String → Option String → Database × RoomAccess
try_code t db room_id participant_id key none = (db, code_required)
try_code t db room_id participant_id key (some code) =
    if code == ""
    then (db, code_required)
    else (if t.upper (t.trim code) == t.upper key
        then (record db { members = insert_entry room_id participant_id db.members }, granted)
        else (db, code_invalid))

-- The lock of a room, for a current participant who is not banned.
unfoldable pub try_lock :
    Settings → Database → String → String → Option String → Option String → Database × RoomAccess
unfolding try_code
try_lock t db room_id participant_id none code = (db, open_access)
try_lock t db room_id participant_id (some key) code =
    if any (is_entry room_id participant_id) db.members
    then (db, granted)
    else try_code t db room_id participant_id key code

unfoldable pub is_current_participant : Database → String → Bool
is_current_participant db id =
    any (λ (p : ParticipantRow). p.id == id && is_current p) db.participants

unfoldable pub is_banned : Database → String → String → Bool
is_banned db room_id participant_id = any (is_entry room_id participant_id) db.bans

unfoldable pub resolve_room_access :
    Settings → Database → String → String → Option String → Database × RoomAccess
unfolding get_room try_lock is_current_participant is_banned
resolve_room_access t db room_id participant_id code = elim (get_room db room_id) [
  | none ↦ (db, open_access)
  | some room ↦
      if not (is_current_participant db participant_id)
      then (db, not_member)
      else (if is_banned db room_id participant_id
          then (db, banned)
          else try_lock t db room_id participant_id room.access_code code)
]

abbrev pub lets_in : RoomAccess → Bool
lets_in open_access = true
lets_in granted = true
lets_in _ = false

unfoldable pub has_room_access : Settings → Database → String → String → Bool
unfolding resolve_room_access
has_room_access t db room_id participant_id =
    lets_in (resolve_room_access t db room_id participant_id none).1

-- ORDER BY is_main DESC, created_at ASC
abbrev listed_earlier : RoomRow → RoomRow → Bool
listed_earlier a b =
    if a.is_main
    then (not b.is_main || leb a.created_at b.created_at)
    else (not b.is_main && leb a.created_at b.created_at)

unfoldable pub list_rooms : Database → String → List Room
unfolding to_room
list_rooms db session_id =
    map to_room
      (sort listed_earlier (filter (λ (r : RoomRow). r.session_id == session_id) db.rooms))

abbrev joined_before : ParticipantRow → ParticipantRow → Bool
joined_before a b = leb a.joined_at b.joined_at

unfoldable pub list_room_participants : Database → String → List Participant
unfolding to_participant
list_room_participants db room_id = map to_participant (
    sort joined_before (
      filter (λ (p : ParticipantRow). option_is p.current_room_id room_id && p.connected)
        db.participants))

abbrev member_of_owner : String → Option String → List RoomEntry → List RoomEntry
member_of_owner room_id none members = members
member_of_owner room_id (some owner) members =
    if owner == "" then members else insert_entry room_id owner members

-- The id is fresh.
unfoldable pub create_room :
    Database → String → ℕ → String → String → Bool → Option String → Option String → Database
create_room db fresh now session_id name is_main access_code owner_id = record db {
  rooms =
      db.rooms
      ++ record {
        id = fresh;
        session_id = session_id;
        name = name;
        is_main = is_main;
        access_code = access_code;
        created_by = owner_id;
        created_at = now;
      }
        ∷ [];
  members = member_of_owner fresh owner_id db.members;
}

abbrev code_of : Option RoomRow → Option String
code_of none = none
code_of (some r) = r.access_code

unfoldable pub get_room_code_for_owner : Database → String → String → Option String
get_room_code_for_owner db room_id participant_id =
    code_of
      (find? (λ (r : RoomRow). r.id == room_id && option_is r.created_by participant_id) db.rooms)

unfoldable pub ban_from_room : Database → String → String → Database
ban_from_room db room_id participant_id = record db {
  bans = insert_entry room_id participant_id db.bans;
  members = delete (is_entry room_id participant_id) db.members;
}

unfoldable pub remove_from_session : Database → String → Database
remove_from_session db participant_id = record db {
  participants =
      update (participant_is participant_id)
        (λ p. record p { removed = true; connected = false; current_room_id = none })
        db.participants;
}
