-- ===== src/Access/History/Banned.antt =====
-- gateway/src/db/repositories.ts: those who were banned from a room stay banned.
use rmcollab_model.Common.{
  ℕ, ◌≡◌, refl, ap, ◌∙◌, String, Bool, true, false, not, ◌&&◌, Option, some, List, [], ◌∷◌, any,
  All, arith, str_refl,
}
use rmcollab_model.Access.Database.{
  Database, Settings, RoomRow, RoomEntry, is_entry, insert_entry, get_room,
}
use rmcollab_model.Access.Rooms.{
  lets_in, resolve_room_access, try_lock, try_code, is_current_participant, is_banned,
  ban_from_room,
}
use rmcollab_model.Access.Changes.{rotate_session_code, with_retired, insert_chat_message}
use rmcollab_model.Access.History
use rmcollab_model.Access.History.{
  Change, joined, waits, connects, moves, claims, tries, room_made, code_changed, handed_over,
  waiting_room_set, kept_set, room_deleted, session_deleted, said, unsaid, apply_change, history,
  said_or_not,
}
use rmcollab_model.Access.Moderation.KeptOut.{may_enter, resolve_room_access_exact}

-- The change deletes no rooms, with which their bans go.
abbrev pub KeepsRooms : Change → Type 0
KeepsRooms (room_deleted room_id) = ⊥
KeepsRooms (session_deleted session_id) = ⊥
KeepsRooms _ = Unit {0}

any-insert_entry :
    (r x room_id id : String) (es : List RoomEntry)
    → any (is_entry r x) es ≡ true
    → any (is_entry r x) (insert_entry room_id id es) ≡ true
any-insert_entry r x room_id id es h = ground arith

same_bans :
    (t : Settings) (db : Database) (room_id id : String) (code : Option String)
    → (resolve_room_access t db room_id id code).0.bans ≡ db.bans
unfolding resolve_room_access try_lock try_code
same_bans t db room_id id code = ground arith

same_bans_code :
    (db : Database) (session_id : String) (codes : List String)
    → (rotate_session_code db session_id codes).0.bans ≡ db.bans
unfolding rotate_session_code
same_bans_code db session_id [] = refl
same_bans_code db session_id (code ∷ codes) = ground (
  arith,
  same_bans_code db session_id codes,
  same_bans_code (with_retired db session_id) session_id codes,
)

same_bans_said :
    (db : Database) (fresh : String) (now : ℕ) (room_id id body : String)
    → (said_or_not db (insert_chat_message db fresh now room_id id body)).bans ≡ db.bans
unfolding insert_chat_message
same_bans_said db fresh now room_id id body = ground arith

not_banned :
    (current banned unlocked : Bool) → banned ≡ true → (current && not banned && unlocked) ≡ false
not_banned current banned unlocked h = ground arith

change-banned :
    (t : Settings) (db : Database) (r x : String) (c : Change)
    → KeepsRooms c
    → is_banned db r x ≡ true
    → is_banned (apply_change t db c) r x ≡ true
unfolding apply_change is_banned
change-banned t db r x (joined fresh now id session_id name) keeps banned = ground arith
change-banned t db r x (tries room_id id code) keeps banned =
    rw (same_bans t db room_id id code) banned
change-banned t db r x (History.banned room_id id) keeps banned =
    any-insert_entry r x room_id id db.bans banned
change-banned t db r x (code_changed session_id codes) keeps banned =
    rw (same_bans_code db session_id codes) banned
change-banned t db r x (said fresh now room_id id body) keeps banned =
    rw (same_bans_said db fresh now room_id id body) banned
change-banned t db r x (room_deleted room_id) keeps banned = elim keeps [ ]
change-banned t db r x (session_deleted session_id) keeps banned = elim keeps [ ]
change-banned t db r x c keeps banned = banned

history-banned :
    (t : Settings) (r x : String) (changes : List Change) (db : Database)
    → All KeepsRooms changes
    → is_banned db r x ≡ true
    → is_banned (history t db changes) r x ≡ true
unfolding history
history-banned t r x [] db keeps banned = banned
history-banned t r x (c ∷ changes) db keeps banned =
    history-banned t r x changes (apply_change t db c) keeps.1
      (change-banned t db r x c keeps.0 banned)

ban_from_room-banned : (db : Database) (r x : String) → is_banned (ban_from_room db r x) r x ≡ true
unfolding ban_from_room is_banned
ban_from_room-banned db r x = ground (arith, str_refl r, str_refl x)

-- A person who was banned from a room may not enter it afterwards, whatever code they bring and
-- whatever changes were made in between, if none of them deletes rooms.
pub banned_stays_out :
    (t : Settings) (db : Database) (r x : String) (changes : List Change) (room : RoomRow)
    (code : Option String)
    → All KeepsRooms changes
    → get_room (history t (ban_from_room db r x) changes) r ≡ some room
    → lets_in (resolve_room_access t (history t (ban_from_room db r x) changes) r x code).1 ≡ false
banned_stays_out t db r x changes room code keeps found =
    let db' = history t (ban_from_room db r x) changes in
    let banned =
      history-banned t r x changes (ban_from_room db r x) keeps (ban_from_room-banned db r x) in
    resolve_room_access_exact t db' r x code
    ∙ ap (λ o. may_enter t db' r o x code) found
    ∙ not_banned (is_current_participant db' x) (is_banned db' r x) _ banned
