-- ===== src/Access/Sessions.antt =====
-- gateway/src/db/repositories.ts: coming into a session.
use rmcollab_model.Common.{
  ℕ, String, Bool, true, false, not, ◌&&◌, Option, none, some, List, [], ◌∷◌, ◌++◌, any, find?,
  if◌then◌else◌, ◌==◌,
}
use rmcollab_model.Access.Database.{
  Database, Settings, SessionRow, RoomRow, ParticipantRow, RetiredCode, update, is_current,
  participant_is,
}

-- shared/src/domain.ts
unfoldable pub normalize_session_code : Settings → String → String
normalize_session_code t input = t.upper (t.letters_and_digits input)

-- An empty id is none.
unfoldable pub is_admitted_member : Database → String → Option String → Bool
is_admitted_member db session_id none = false
is_admitted_member db session_id (some id) =
    not (id == "")
    && any (λ (p : ParticipantRow). p.id == id && p.session_id == session_id && is_current p)
        db.participants

abbrev or_else_find {ℓ} : {A : Type ℓ} → Option A → Option A → Option A
or_else_find none other = other
or_else_find (some a) other = some a

-- A retired code opens its session for a current member.
abbrev retired_session : Database → String → Option String → List RetiredCode → Option SessionRow
retired_session db code id [] = none
retired_session db code id (r ∷ rs) =
    let rest = retired_session db code id rs in
    if r.code == code && is_admitted_member db r.session_id id
    then or_else_find (find? (λ (s : SessionRow). s.id == r.session_id) db.sessions) rest
    else rest

unfoldable pub get_session_by_code :
    Settings → Database → String → Option String → Option SessionRow
unfolding normalize_session_code is_admitted_member
get_session_by_code t db code participant_id =
    let normalized = normalize_session_code t code in
    or_else_find (find? (λ (s : SessionRow). s.code == normalized) db.sessions)
      (retired_session db normalized participant_id db.retired_codes)

unfoldable pub is_waiting : Database → String → Bool
is_waiting db id =
    any (λ (p : ParticipantRow). p.id == id && not p.removed && p.waiting) db.participants

unfoldable pub set_waiting : Database → String → Bool → Database
set_waiting db id waiting = record db {
  participants = update (participant_is id) (λ p. record p { waiting = waiting }) db.participants;
}

unfoldable pub set_participant_connected : Database → String → Bool → Database
set_participant_connected db id connected = record db {
  participants =
      update (participant_is id) (λ p. record p { connected = connected }) db.participants;
}

unfoldable pub set_participant_room : Database → String → Option String → Database
set_participant_room db id room_id = record db {
  participants =
      update (participant_is id) (λ p. record p { current_room_id = room_id }) db.participants;
}

-- `sessionOwnerId`: the main room's owner.
abbrev owner_of_row : Option RoomRow → Option String
owner_of_row none = none
owner_of_row (some r) = r.created_by

unfoldable pub session_owner_id : Database → String → Option String
session_owner_id db session_id =
    owner_of_row (find? (λ (r : RoomRow). r.session_id == session_id && r.is_main) db.rooms)

abbrev is_unowned : Option String → Bool
is_unowned none = true
is_unowned (some o) = false

unfoldable pub claim_main_room : Database → String → String → Database
claim_main_room db session_id participant_id = record db {
  rooms =
      update (λ (r : RoomRow). r.session_id == session_id && r.is_main && is_unowned r.created_by)
        (λ r. record r { created_by = some participant_id }) db.rooms;
}

-- `upsertParticipant`, whose new row takes a fresh id. A `joined_at` is a time.
abbrev pub may_return : String → String → ParticipantRow → Bool
may_return session_id id p = p.id == id && p.session_id == session_id && not p.removed

abbrev pub new_participant : String → String → String → ℕ → ParticipantRow
new_participant fresh session_id display_name now = record {
  id = fresh;
  session_id = session_id;
  display_name = display_name;
  current_room_id = none;
  connected = true;
  joined_at = now;
  removed = false;
  waiting = false;
}

abbrev pub returning : Database → String → Option String → Bool
returning db session_id none = false
returning db session_id (some id) = not (id == "") && any (may_return session_id id) db.participants

abbrev pub id_or : Option String → String → String
id_or none fresh = fresh
id_or (some id) fresh = id

-- The row's id comes with the tables.
unfoldable pub upsert_participant :
    Database → String → ℕ → Option String → String → String → Database × String
upsert_participant db fresh now participant_id session_id display_name =
    if returning db session_id participant_id
    then (
      record db {
        participants =
            update (may_return session_id (id_or participant_id fresh))
              (λ p. record p { display_name = display_name; connected = true }) db.participants;
      },
      id_or participant_id fresh,
    )
    else (
      record db {
        participants = db.participants ++ new_participant fresh session_id display_name now ∷ [];
      },
      fresh,
    )
