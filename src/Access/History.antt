-- ===== src/Access/History.antt =====
-- gateway/src/db/repositories.ts: what the sockets and the requests do to the tables, one after the
-- other, whoever asks and for whatever reason.
pub mod Banned
pub mod StaysOut
mod Tests
use rmcollab_model.Common.{ℕ, String, Bool, Option, none, some, List, foldl}
use rmcollab_model.Access.Database.{Database, Settings}
use rmcollab_model.Access.Sessions.{
  upsert_participant, set_waiting, set_participant_connected, set_participant_room, claim_main_room,
}
use rmcollab_model.Access.Rooms.{
  resolve_room_access, create_room, ban_from_room, remove_from_session,
}
use rmcollab_model.Access.Changes.{
  rotate_session_code, set_session_owner, set_waiting_room, set_session_kept, delete_room,
  delete_session, insert_chat_message, delete_chat_message,
}

pub data Change : Type 0 where
  joined :
      (fresh : String)
      → (now : ℕ) → (id : Option String) → (session_id display_name : String) → Change
  waits : (id : String) → Bool → Change
  connects : (id : String) → Bool → Change
  moves : (id : String) → (room_id : Option String) → Change
  claims : (session_id id : String) → Change
  tries : (room_id id : String) → (code : Option String) → Change
  room_made :
      (fresh : String)
      → (now : ℕ) → (session_id name : String) → Bool
      → (access_code owner_id : Option String) → Change
  banned : (room_id id : String) → Change
  removed : (id : String) → Change
  code_changed : (session_id : String) → (codes : List String) → Change
  handed_over : (session_id id : String) → Change
  waiting_room_set : (session_id : String) → Bool → Change
  kept_set : (session_id : String) → Bool → Change
  room_deleted : (room_id : String) → Change
  session_deleted : (session_id : String) → Change
  said : (fresh : String) → (now : ℕ) → (room_id id body : String) → Change
  unsaid : (message_id : String) → Change

abbrev pub said_or_not {ℓ} : {A : Type ℓ} → Database → Option (Database × A) → Database
said_or_not db none = db
said_or_not db (some (db', message)) = db'

unfoldable pub apply_change : Settings → Database → Change → Database
unfolding upsert_participant set_waiting set_participant_connected set_participant_room
    claim_main_room create_room ban_from_room remove_from_session set_session_owner set_waiting_room
    set_session_kept delete_room delete_session delete_chat_message
apply_change t db (joined fresh now id session_id name) =
    (upsert_participant db fresh now id session_id name).0
apply_change t db (waits id waiting) = set_waiting db id waiting
apply_change t db (connects id connected) = set_participant_connected db id connected
apply_change t db (moves id room_id) = set_participant_room db id room_id
apply_change t db (claims session_id id) = claim_main_room db session_id id
apply_change t db (tries room_id id code) = (resolve_room_access t db room_id id code).0
apply_change t db (room_made fresh now session_id name is_main access_code owner_id) =
    create_room db fresh now session_id name is_main access_code owner_id
apply_change t db (banned room_id id) = ban_from_room db room_id id
apply_change t db (removed id) = remove_from_session db id
apply_change t db (code_changed session_id codes) = (rotate_session_code db session_id codes).0
apply_change t db (handed_over session_id id) = set_session_owner db session_id id
apply_change t db (waiting_room_set session_id on) = set_waiting_room db session_id on
apply_change t db (kept_set session_id kept) = set_session_kept db session_id kept
apply_change t db (room_deleted room_id) = delete_room db room_id
apply_change t db (session_deleted session_id) = delete_session db session_id
apply_change t db (said fresh now room_id id body) =
    said_or_not db (insert_chat_message db fresh now room_id id body)
apply_change t db (unsaid message_id) = delete_chat_message db message_id

unfoldable pub history : Settings → Database → List Change → Database
unfolding apply_change
history t db changes = foldl (apply_change t) db changes
