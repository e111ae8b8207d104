-- ===== src/Access/Moderation/KeptOut.antt =====
-- gateway/src/db/repositories.ts: who may enter a room, and that those who were taken out stay out.
use rmcollab_model.Common.{
  ◌≡◌, refl, String, Bool, true, false, not, ◌&&◌, ◌||◌, Option, none, some, any, arith, ◌==◌,
  Option-cases, inl, inr,
}
use rmcollab_model.Access.Database.{Database, Settings, RoomRow, is_entry, get_room}
use rmcollab_model.Access.Rooms.{
  lets_in, resolve_room_access, try_lock, try_code, is_current_participant, is_banned,
}

-- The code opens the lock.
abbrev pub is_right_code : Settings → String → Option String → Bool
is_right_code t key none = false
is_right_code t key (some code) = not (code == "") && t.upper (t.trim code) == t.upper key

abbrev pub unlocks : Settings → Option String → Bool → Option String → Bool
unlocks t none member code = true
unlocks t (some key) member code = member || is_right_code t key code

-- Who may enter a room: a current participant, of whatever session, who is not banned, and who was
-- let in before or presents the code where the room has one. A room that is gone keeps nobody out.
abbrev pub may_enter : Settings → Database → String → Option RoomRow → String → Option String → Bool
may_enter t db room_id none participant_id code = true
may_enter t db room_id (some room) participant_id code =
    is_current_participant db participant_id
    && not (is_banned db room_id participant_id)
    && unlocks t room.access_code (any (is_entry room_id participant_id) db.members) code

lock_lem :
    (t : Settings) (db : Database) (room_id participant_id : String) (key code : Option String)
    → lets_in (try_lock t db room_id participant_id key code).1
      ≡ unlocks t key (any (is_entry room_id participant_id) db.members) code
unfolding try_lock try_code
lock_lem t db room_id participant_id none code = refl
lock_lem t db room_id participant_id (some key) none = ground arith
lock_lem t db room_id participant_id (some key) (some code) = ground arith

-- Access is resolved to "open" or "granted" exactly for an id of some row of a participant, of
-- whatever session, that is neither removed nor waiting, not banned from the room, and let in before
-- or bringing the code where the room has one; a room that is gone keeps nobody out.
pub resolve_room_access_exact :
    (t : Settings) (db : Database) (room_id participant_id : String) (code : Option String)
    → lets_in (resolve_room_access t db room_id participant_id code).1
      ≡ may_enter t db room_id (get_room db room_id) participant_id code
unfolding resolve_room_access
resolve_room_access_exact t db room_id participant_id code =
    elim (Option-cases (get_room db room_id)) [
      | inl e ↦ rw (resolve_room_access, e) refl
      | inr (room, e) ↦
          rw (resolve_room_access, e)
            (ground (arith, lock_lem t db room_id participant_id room.access_code code))
    ]
