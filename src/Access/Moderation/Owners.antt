-- ===== src/Access/Moderation/Owners.antt =====
-- gateway/src/http/routes: only an owner changes who is in a session or a room.
use rmcollab_model.Common.{
  ◌≡◌, refl, String, Bool, false, ◌&&◌, Option, some, List, [], any, find?, find?-passes, any-find?,
  arith, eq_iff, ◌==◌, option_is, Bool-cases, Option-cases, inl, inr,
}
use rmcollab_model.Access.Database.{
  Database, Settings, SessionRow, RoomRow, ParticipantRow, get_room, get_participant, room_is,
  participant_is,
}
use rmcollab_model.Access.Sessions.{session_owner_id, get_session_by_code}
use rmcollab_model.Access.Moderation.{
  Answer, moderates, remove_person, delete_room_request, admission_request, owner_request,
  end_request, settings_request, as_owner,
}

-- A request for which the requester has to own the room or the session.
pub data Request : Type 0 where
  remove : (codes : List String) → (room_id target_id : String) → Request
  delete : (room_id : String) → Request
  admit : (code target_id : String) → Bool → Request
  give_away : (code target_id : String) → Request
  end : (code : String) → Request
  set : (code : String) → (waiting_room kept : Option Bool) → Request

unfoldable pub answer_to : Settings → Database → String → Request → Answer
unfolding remove_person delete_room_request admission_request owner_request end_request
    settings_request
answer_to t db who (remove codes room_id target_id) =
    remove_person t db codes room_id (some who) target_id
answer_to t db who (delete room_id) = delete_room_request db room_id who
answer_to t db who (admit code target_id admits) =
    admission_request t db code (some who) target_id admits
answer_to t db who (give_away code target_id) = owner_request t db code (some who) target_id
answer_to t db who (end code) = end_request t db code (some who)
answer_to t db who (set code waiting_room kept) =
    settings_request t db code (some who) waiting_room kept

abbrev pub owns : String → RoomRow → Bool
owns who r = option_is r.created_by who

abbrev pub owns_any : Database → String → Bool
owns_any db who = any (owns who) db.rooms

-- The tables are as before, and nothing is said.
abbrev pub ChangesNothing : Database → Answer → Type 0
ChangesNothing db a = (a.db ≡ db) × (a.published ≡ [])

no_owner_row :
    (p : RoomRow → Bool) (who : String) (rooms : List RoomRow) (r : RoomRow)
    → any (owns who) rooms ≡ false
    → find? p rooms ≡ some r
    → owns who r ≡ false
no_owner_row p who rooms r h e = elim (Bool-cases (owns who r)) [
  | inl k ↦ let some_owner = any-find? p (owns who) rooms r e k in cc
  | inr k ↦ k
]

not-owner :
    (db : Database) (who session_id : String)
    → owns_any db who ≡ false
    → option_is (session_owner_id db session_id) who ≡ false
unfolding session_owner_id
not-owner db who session_id h =
    elim (Option-cases
      (find? (λ (r : RoomRow). r.session_id == session_id && r.is_main) db.rooms)) [
        | inl e ↦ rw (e) refl
        | inr (r, e) ↦ rw (e) (no_owner_row _ who db.rooms r h e)
      ]

not-moderates :
    (db : Database) (who : String) (room_id : String) (room : RoomRow)
    → owns_any db who ≡ false
    → get_room db room_id ≡ some room
    → moderates db room who ≡ false
unfolding moderates get_room
not-moderates db who room_id room h e =
    let own = no_owner_row (room_is room_id) who db.rooms room h e in
    ground (arith, own, not-owner db who room.session_id h)

as_owner-ChangesNothing :
    (t : Settings) (db : Database) (code who : String) (act : SessionRow → ParticipantRow → Answer)
    → owns_any db who ≡ false
    → ChangesNothing db (as_owner t db code (some who) act)
unfolding as_owner
as_owner-ChangesNothing t db code who act h =
    elim (Option-cases (get_session_by_code t db code (some who))) [
      | inl e ↦ rw (as_owner, e) (refl, refl)
      | inr (session, e) ↦ rw (as_owner, e, not-owner db who session.id h) (refl, refl)
    ]

remove-ChangesNothing :
    (t : Settings) (db : Database) (codes : List String) (who room_id target_id : String)
    → owns_any db who ≡ false
    → ChangesNothing db (remove_person t db codes room_id (some who) target_id)
unfolding remove_person get_participant
remove-ChangesNothing t db codes who room_id target_id h =
    elim (Option-cases (get_room db room_id)) [
      | inl e ↦ rw (remove_person, e) (refl, refl)
      | inr (room, e) ↦ elim (Option-cases (get_participant db who)) [
        | inl f ↦ rw (remove_person, e, f) (refl, refl)
        | inr (owner, f) ↦
            let same : owner.id ≡ who =
              (eq_iff owner.id who).0 (find?-passes (participant_is who) db.participants owner f) in
            let refused : moderates db room owner.id ≡ false =
              rw same (not-moderates db who room_id room h e) in
            rw (remove_person, e, f, refused) (refl, refl)
      ]
    ]

delete-ChangesNothing :
    (db : Database) (who room_id : String)
    → owns_any db who ≡ false
    → ChangesNothing db (delete_room_request db room_id who)
unfolding delete_room_request
delete-ChangesNothing db who room_id h = elim (Option-cases (get_room db room_id)) [
  | inl e ↦ rw (delete_room_request, e) (refl, refl)
  | inr (room, e) ↦
      let refused = not-moderates db who room_id room h e in
      rw (delete_room_request, e) (ground (arith, refused))
]

-- A person who owns no room, so no session either, changes nothing in the tables and has nothing
-- published by a request to remove someone, delete a room, answer who waits, hand the session over,
-- end it or change its settings.
pub unowned-ChangesNothing :
    (t : Settings) (db : Database) (who : String) (request : Request)
    → owns_any db who ≡ false
    → ChangesNothing db (answer_to t db who request)
unfolding answer_to
unowned-ChangesNothing t db who (remove codes room_id target_id) h =
    remove-ChangesNothing t db codes who room_id target_id h
unowned-ChangesNothing t db who (delete room_id) h = delete-ChangesNothing db who room_id h
unowned-ChangesNothing t db who (admit code target_id admits) h =
    as_owner-ChangesNothing t db code who _ h
unowned-ChangesNothing t db who (give_away code target_id) h =
    as_owner-ChangesNothing t db code who _ h
unowned-ChangesNothing t db who (end code) h = as_owner-ChangesNothing t db code who _ h
unowned-ChangesNothing t db who (set code waiting_room kept) h =
    as_owner-ChangesNothing t db code who _ h
