-- ===== src/Socket/Server/Joining.antt =====
-- gateway/src/ws/server.ts: joining a session, through its waiting room where that is on.
use rmcollab_model.Common.{
  String, Bool, true, false, not, ◌&&◌, ◌||◌, Option, none, some, List, [], ◌∷◌, ◌++◌, find?,
  if◌then◌else◌, ◌==◌, option_is,
}
use Prim.Native.String
use rmcollab_model.Shared.Domain.{Room}
use rmcollab_model.Shared.Events.{session_joined, admission_waiting, admission_requested}
use rmcollab_model.Access.Database.{
  Database, SessionRow, ParticipantRow, get_participant, get_session_by_id, to_session,
  to_participant,
}
use rmcollab_model.Access.Sessions.{
  get_session_by_code, is_admitted_member, upsert_participant, set_participant_connected,
  claim_main_room, session_owner_id, is_waiting, set_waiting,
}
use rmcollab_model.Access.Rooms.{list_rooms, has_room_access}
use rmcollab_model.Limits.Guesses.{code_guesses_blocked, record_code_miss}
use rmcollab_model.Socket.Registry.{Group, add_member}
use rmcollab_model.Socket.Presence.{in_session, here}
use rmcollab_model.Socket.Server.{
  moment, Connection, Hub, Env, emit, send, fail, to_session_of, session_subscribed,
}
use rmcollab_model.Socket.Server.Rooms.{enter_room}

abbrev room_named : Option String → List Room → Option Room
room_named none rooms = none
room_named (some id) rooms = find? (λ (r : Room). r.id == id) rooms

abbrev head : List Room → Option Room
head [] = none
head (r ∷ rooms) = some r

abbrev or_room : Option Room → Option Room → Option Room
or_room none other = other
or_room (some r) other = some r

abbrev if_open : Env → Database → String → Option Room → Option Room
if_open env db participant_id none = none
if_open env db participant_id (some r) =
    if has_room_access env.settings db r.id participant_id then some r else none

-- The room asked for if it is open to the person, else the main room, else the first.
unfoldable pub room_to_enter : Env → Database → String → Option String → List Room → Option Room
unfolding has_room_access
room_to_enter env db participant_id preferred rooms =
    or_room (if_open env db participant_id (room_named preferred rooms))
      (or_room (find? (λ (r : Room). r.is_main) rooms) (head rooms))

unfoldable pub enter_first : Env → Option Room → Hub × Connection → Hub × Connection
unfolding enter_room
enter_first env none hc = hc
enter_first env (some room) hc = enter_room env room.id none hc

abbrev pub find_participant : Database → Option String → Option ParticipantRow
find_participant db none = none
find_participant db (some id) = get_participant db id

-- In the session: its rooms, then one of them.
unfoldable pub show_session :
    Env → SessionRow → ParticipantRow → Hub × Connection → Hub × Connection
unfolding to_session to_participant list_rooms room_to_enter enter_first
show_session env session participant (h, c) =
    let rooms = list_rooms h.db session.id in
    enter_first env (room_to_enter env h.db participant.id c.preferred_room_id rooms) (
      send c (session_joined (to_session env.settings session) (to_participant participant) rooms)
          h,
      record c { preferred_room_id = none },
    )

abbrev pub let_in : Connection → Connection
let_in c = record c { pending = false }

-- `completeJoin`
unfoldable pub complete_join : Env → String → Hub × Connection → Hub × Connection
unfolding get_session_by_id get_participant show_session
complete_join env session_id (h, c) = elim (get_session_by_id h.db session_id) [
  | none ↦ (h, let_in c)
  | some session ↦ elim (find_participant h.db c.participant_id) [
    | none ↦ (h, let_in c)
    | some participant ↦ show_session env session participant (h, let_in c)
  ]
]

abbrev pub owner_name : Option ParticipantRow → Option String
owner_name none = none
owner_name (some p) = some p.display_name

abbrev pub is_online : Option ParticipantRow → Bool
is_online none = false
is_online (some p) = p.connected

-- The session's owner is told of the one who waits.
unfoldable pub wait_outside :
    SessionRow → Option String → String → String → Hub × Connection → Hub × Connection
unfolding set_waiting get_participant
wait_outside session owner_id id name (h, c) =
    let h' = record h { db = set_waiting h.db id true } in
    let owner = find_participant h'.db owner_id in
    (
      emit
          (to_session_of session.id
            (admission_requested session.id (record { id = id; display_name = name })))
          (send c (admission_waiting session.name (owner_name owner) (some (is_online owner))) h'),
      record c { pending = true },
    )

-- Whether the person has to wait, in the tables after they came.
unfoldable pub must_wait : Database → SessionRow → String → Bool → Bool
unfolding session_owner_id is_waiting
must_wait db session id member =
    session.waiting_room
    && not (option_is (session_owner_id db session.id) id)
    && (not member || is_waiting db id)

abbrev pub subscribe_session : String → Hub → List Group × Bool → Hub
subscribe_session session_id h (groups, first) = record h {
  sessions = groups;
  outputs = if first then h.outputs ++ session_subscribed session_id ∷ [] else h.outputs;
}

-- The person's row, and the socket's place in the session's group.
unfoldable pub come_in : Env → String → String → Option String → String → Hub → Hub
unfolding upsert_participant set_participant_connected claim_main_room here
come_in env session_id conn_id participant_id name h =
    let u = upsert_participant h.db env.fresh env.now participant_id session_id name in
    record h {
      db = claim_main_room (set_participant_connected u.0 u.1 true) session_id u.1;
      presence = here h.presence (in_session session_id) u.1 conn_id (moment env);
    }

unfoldable pub join_as :
    Env → SessionRow → String → Option String → Option String → Hub × Connection → Hub × Connection
unfolding upsert_participant is_admitted_member come_in add_member must_wait wait_outside
    complete_join session_owner_id
join_as env session name participant_id room_id (h, c) =
    let id = (upsert_participant h.db env.fresh env.now participant_id session.id name).1 in
    let c' = record c {
      participant_id = some id;
      session_id = some session.id;
      display_name = some name;
      preferred_room_id = room_id;
    } in
    let h' =
      subscribe_session session.id (come_in env session.id c.conn_id participant_id name h)
        (add_member h.sessions session.id c.socket) in
    elim (must_wait h'.db session id (is_admitted_member h.db session.id participant_id)) [
      | true ↦ wait_outside session (session_owner_id h'.db session.id) id name (h', c')
      | false ↦ complete_join env session.id (h', c')
    ]

-- `handleJoinSession`
unfoldable pub handle_join_session :
    Env → String → String → Option String → Option String → Hub × Connection → Hub × Connection
unfolding code_guesses_blocked get_session_by_code record_code_miss join_as
handle_join_session env code name participant_id room_id (h, c) =
    if code_guesses_blocked env.code_misses h.misses c.address env.now
    then (
      fail c "too_many_wrong_codes"
          "Too many session codes that don't exist. Check the code and try again in a few minutes."
          h,
      c,
    )
    else elim (get_session_by_code env.settings h.db code participant_id) [
      | none ↦ (
        fail c "session_not_found" (String.◌++◌ "No session with code " (String.◌++◌ code "."))
            (record h { misses = record_code_miss h.misses c.address env.now }),
        c,
      )
      | some session ↦ join_as env session name participant_id room_id (h, c)
    ]
