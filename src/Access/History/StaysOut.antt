-- ===== src/Access/History/StaysOut.antt =====
-- gateway/src/db/repositories.ts: those who were taken out stay out.
use rmcollab_model.Common.{
  ℕ, ◌≡◌, refl, ap, ◌∙◌, String, Bool, true, false, not, ◌&&◌, Option, none, some, List, [], ◌∷◌,
  map, any, none-map, none-filter, any-append, All, arith, if◌then◌else◌, ◌==◌, Bool-cases, inl,
  inr,
}
use rmcollab_model.Access.Database.{
  Database, Settings, RoomRow, ParticipantRow, is_current, participant_is, get_room,
}
use rmcollab_model.Access.Sessions.{upsert_participant, returning, new_participant}
use rmcollab_model.Access.Rooms.{
  lets_in, resolve_room_access, try_lock, try_code, is_current_participant, remove_from_session,
}
use rmcollab_model.Access.Changes.{rotate_session_code, with_retired, insert_chat_message}
use rmcollab_model.Access.History
use rmcollab_model.Access.History.{
  Change, joined, waits, connects, moves, claims, tries, room_made, code_changed, handed_over,
  waiting_room_set, kept_set, room_deleted, session_deleted, said, unsaid, apply_change, history,
  said_or_not,
}
use rmcollab_model.Access.Moderation.KeptOut.{may_enter, resolve_room_access_exact}

-- A row of the person that is still of the session.
abbrev pub is_in : String → ParticipantRow → Bool
is_in x p = p.id == x && not p.removed

abbrev pub IsOut : String → Database → Type 0
IsOut x db = any (is_in x) db.participants ≡ false

-- The change gives the id to no new person.
abbrev pub Spares : String → Change → Type 0
Spares x (joined fresh now id session_id name) = (fresh == x) ≡ false
Spares x _ = Unit {0}

pub same_people :
    (t : Settings) (db : Database) (room_id id : String) (code : Option String)
    → (resolve_room_access t db room_id id code).0.participants ≡ db.participants
unfolding resolve_room_access try_lock try_code
same_people t db room_id id code = ground arith

same_people_code :
    (db : Database) (session_id : String) (codes : List String)
    → (rotate_session_code db session_id codes).0.participants ≡ db.participants
unfolding rotate_session_code
same_people_code db session_id [] = refl
same_people_code db session_id (code ∷ codes) = ground (
  arith,
  same_people_code db session_id codes,
  same_people_code (with_retired db session_id) session_id codes,
)

same_people_said :
    (db : Database) (fresh : String) (now : ℕ) (room_id id body : String)
    → (said_or_not db (insert_chat_message db fresh now room_id id body)).participants
      ≡ db.participants
unfolding insert_chat_message
same_people_said db fresh now room_id id body = ground arith

joined-IsOut :
    (db : Database) (x fresh : String) (now : ℕ) (id : Option String) (session_id name : String)
    → (fresh == x) ≡ false
    → IsOut x db
    → IsOut x (upsert_participant db fresh now id session_id name).0
unfolding upsert_participant
joined-IsOut db x fresh now id session_id name spares out =
    elim (Bool-cases (returning db session_id id)) [
      | inl e ↦
          rw (upsert_participant, e)
            (none-map (is_in x) _ db.participants (λ (p : ParticipantRow) h. ground arith) out)
      | inr e ↦
          rw (upsert_participant, e)
            (any-append (is_in x) db.participants (new_participant fresh session_id name now ∷ [])
              ∙ ground arith)
    ]

-- No change brings a person back.
change-IsOut :
    (t : Settings) (db : Database) (x : String) (c : Change)
    → Spares x c
    → IsOut x db
    → IsOut x (apply_change t db c)
unfolding apply_change
change-IsOut t db x (joined fresh now id session_id name) spares out =
    joined-IsOut db x fresh now id session_id name spares out
change-IsOut t db x (waits id waiting) spares out =
    none-map (is_in x) _ db.participants (λ (p : ParticipantRow) h. ground arith) out
change-IsOut t db x (connects id connected) spares out =
    none-map (is_in x) _ db.participants (λ (p : ParticipantRow) h. ground arith) out
change-IsOut t db x (moves id room_id) spares out =
    none-map (is_in x) _ db.participants (λ (p : ParticipantRow) h. ground arith) out
change-IsOut t db x (tries room_id id code) spares out = rw (same_people t db room_id id code) out
change-IsOut t db x (History.removed id) spares out =
    none-map (is_in x) _ db.participants (λ (p : ParticipantRow) h. ground arith) out
change-IsOut t db x (code_changed session_id codes) spares out =
    rw (same_people_code db session_id codes) out
change-IsOut t db x (room_deleted room_id) spares out =
    none-map (is_in x) _ db.participants (λ (p : ParticipantRow) h. ground arith) out
change-IsOut t db x (session_deleted session_id) spares out =
    none-filter (is_in x) _ _
      (none-map (is_in x) _ db.participants (λ (p : ParticipantRow) h. ground arith) out)
change-IsOut t db x (said fresh now room_id id body) spares out =
    rw (same_people_said db fresh now room_id id body) out
change-IsOut t db x c spares out = out

history-IsOut :
    (t : Settings) (x : String) (changes : List Change) (db : Database)
    → All (Spares x) changes
    → IsOut x db
    → IsOut x (history t db changes)
unfolding history
history-IsOut t x [] db spares out = out
history-IsOut t x (c ∷ changes) db spares out =
    history-IsOut t x changes (apply_change t db c) spares.1 (change-IsOut t db x c spares.0 out)

out-not_current :
    (x : String) (ps : List ParticipantRow)
    → any (is_in x) ps ≡ false
    → any (λ (p : ParticipantRow). p.id == x && is_current p) ps ≡ false
out-not_current x [] out = refl
out-not_current x (p ∷ ps) out = ground (arith, out-not_current x ps)

removed-IsOut : (db : Database) (x : String) → IsOut x (remove_from_session db x)
unfolding remove_from_session
removed-IsOut db x = all_out db.participants
  where
    all_out :
        (ps : List ParticipantRow)
        → any (is_in x) (
            map
              (λ p.
                if participant_is x p
                then record p { removed = true; connected = false; current_room_id = none }
                else p)
              ps)
          ≡ false
    all_out [] = refl
    all_out (p ∷ ps) = ground (arith, all_out ps)

-- A person who was removed from the session may enter no room afterwards, whatever code they bring
-- and whatever changes were made in between, if no new person was given their id.
pub removed_stays_out :
    (t : Settings) (db : Database) (x : String) (changes : List Change) (room_id : String)
    (room : RoomRow) (code : Option String)
    → All (Spares x) changes
    → get_room (history t (remove_from_session db x) changes) room_id ≡ some room
    → lets_in
        (resolve_room_access t (history t (remove_from_session db x) changes) room_id x code).1
      ≡ false
unfolding is_current_participant
removed_stays_out t db x changes room_id room code spares found =
    let db' = history t (remove_from_session db x) changes in
    let out =
      out-not_current x db'.participants
        (history-IsOut t x changes (remove_from_session db x) spares (removed-IsOut db x)) in
    resolve_room_access_exact t db' room_id x code
    ∙ ap (λ r. may_enter t db' room_id r x code) found
    ∙ rw (out) refl
