-- ===== src/Socket/Server/Running/QuietJoins.antt =====
-- gateway/src/ws/server.ts: what joining sends to another socket, and to one that waits.
use rmcollab_model.Common.{
  ◌≡◌, refl, ◌⊎◌, String, Bool, true, false, not, ◌||◌, Option, none, some, [], ◌∷◌, eqb, arith,
  Bool-cases, Option-cases, inl, inr,
}
use rmcollab_model.Shared.Events.{error, admission_waiting, admission_requested}
use rmcollab_model.Shared.Domain.{Room}
use rmcollab_model.Shared.Events.{session_joined}
use rmcollab_model.Access.Rooms.{list_rooms}
use rmcollab_model.Access.Sessions.{set_waiting}
use rmcollab_model.Socket.Server.Joining.{let_in, room_to_enter, owner_name, is_online}
use rmcollab_model.Access.Database.{
  SessionRow, ParticipantRow, get_session_by_id, to_session, to_participant,
}
use rmcollab_model.Access.Sessions.{
  get_session_by_code, upsert_participant, is_admitted_member, session_owner_id,
}
use rmcollab_model.Limits.Guesses.{code_guesses_blocked, record_code_miss}
use rmcollab_model.Socket.Registry.{add_member}
use rmcollab_model.Socket.Server.{
  Connection, Hub, Env, send, fail, session_subscribed, to_session_of,
}
use rmcollab_model.Socket.Server.Rooms.{
  leave_room, leave_if, leave_other, move_in, enter_as, enter_given, enter_room,
}
use rmcollab_model.Socket.Server.Joining.{
  enter_first, show_session, complete_join, wait_outside, must_wait, come_in, join_as,
  handle_join_session, subscribe_session, find_participant,
}
use rmcollab_model.Socket.Server.Running.Quiet.{
  Listener, Quiet, add-Quiet, if-Quiet, send-Quiet, complete_join-Other,
}

pub or_true : (b : Bool) → (b || true) ≡ true
or_true b = ground arith

pub fail-Quiet :
    (x : Listener) (c : Connection) (code message : String) (h : Hub)
    → Quiet x h
    → Quiet x (fail c code message h)
fail-Quiet x c code message h q =
    send-Quiet x c (error code message) h (or_true (not (eqb c.socket x.socket))) q

enter_room-pending :
    (env : Env) (r : String) (code : Option String) (h : Hub) (c : Connection)
    → (enter_room env r code (h, c)).1.pending ≡ c.pending
unfolding enter_room enter_given enter_as move_in leave_other leave_if leave_room
enter_room-pending env r code h c = ground arith

enter_first-pending :
    (env : Env) (room : Option Room) (h : Hub) (c : Connection)
    → (enter_first env room (h, c)).1.pending ≡ c.pending
unfolding enter_first
enter_first-pending env none h c = refl
enter_first-pending env (some room) h c = enter_room-pending env room.id none h c

show_session-pending :
    (env : Env) (session : SessionRow) (p : ParticipantRow) (h : Hub) (c : Connection)
    → (show_session env session p (h, c)).1.pending ≡ c.pending
unfolding show_session
show_session-pending env session p h c =
    let rooms = list_rooms h.db session.id in
    enter_first-pending env (room_to_enter env h.db p.id c.preferred_room_id rooms)
      (send c (session_joined (to_session env.settings session) (to_participant p) rooms) h)
      (record c { preferred_room_id = none })

pub complete_join-pending :
    (env : Env) (session_id : String) (h : Hub) (c : Connection)
    → (complete_join env session_id (h, c)).1.pending ≡ false
unfolding complete_join
complete_join-pending env session_id h c = elim (Option-cases (get_session_by_id h.db session_id)) [
  | inl e ↦ rw (complete_join, e) refl
  | inr (session, e) ↦ elim (Option-cases (find_participant h.db c.participant_id)) [
    | inl f ↦ rw (complete_join, e, f) refl
    | inr (p, f) ↦ rw (complete_join, e, f) (show_session-pending env session p h (let_in c))
  ]
]

-- The socket is another one, or its connection still waits.
abbrev pub Away : Listener → Connection → Connection → Type 0
Away x c c' = (eqb c.socket x.socket ≡ false) ⊎ (c'.pending ≡ true)

wait-Quiet :
    (x : Listener) (session : SessionRow) (owner : Option String) (id name : String) (h : Hub)
    (c : Connection)
    → Quiet x h
    → Quiet x (wait_outside session owner id name (h, c)).0
unfolding wait_outside
wait-Quiet x session owner id name h c q =
    let h' = record h { db = set_waiting h.db id true } in
    let o = find_participant h'.db owner in
    let event = admission_waiting session.name (owner_name o) (some (is_online o)) in
    add-Quiet x (send c event h').outputs
      (to_session_of session.id
          (admission_requested session.id (record { id = id; display_name = name }))
        ∷ [])
      (send-Quiet x c event h' (or_true (not (eqb c.socket x.socket))) q) refl

join_as-Quiet :
    (x : Listener) (env : Env) (session : SessionRow) (name : String)
    (participant_id room_id : Option String) (h : Hub) (c : Connection)
    → Away x c (join_as env session name participant_id room_id (h, c)).1
    → Quiet x h
    → Quiet x (join_as env session name participant_id room_id (h, c)).0
unfolding join_as
join_as-Quiet x env session name participant_id room_id h c away q =
    let id = (upsert_participant h.db env.fresh env.now participant_id session.id name).1 in
    let c' = record c {
      participant_id = some id;
      session_id = some session.id;
      display_name = some name;
      preferred_room_id = room_id;
    } in
    let added = add_member h.sessions session.id c.socket in
    let h' =
      subscribe_session session.id (come_in env session.id c.conn_id participant_id name h) added in
    let q' : Quiet x h' =
      if-Quiet x added.1 h.outputs (session_subscribed session.id ∷ []) q refl in
    elim (Bool-cases
      (must_wait h'.db session id (is_admitted_member h.db session.id participant_id))) [
        | inl f ↦
            rw (join_as, f)
              (wait-Quiet x session (session_owner_id h'.db session.id) id name h' c' q')
        | inr f ↦
            rw (join_as, f)
              (elim away [
                | inl e ↦ (complete_join-Other x env session.id (h', c') (e, q')).1
                | inr waits ↦
                    let let_in = complete_join-pending env session.id h' c' in
                    let waits' : (complete_join env session.id (h', c')).1.pending ≡ true =
                      rw (join_as, f) at waits in
                    cc
              ])
      ]

pub handle_join-Quiet :
    (x : Listener) (env : Env) (code name : String) (participant_id room_id : Option String)
    (h : Hub) (c : Connection)
    → Away x c (handle_join_session env code name participant_id room_id (h, c)).1
    → Quiet x h
    → Quiet x (handle_join_session env code name participant_id room_id (h, c)).0
unfolding handle_join_session
handle_join-Quiet x env code name participant_id room_id h c away q =
    elim (Bool-cases (code_guesses_blocked env.code_misses h.misses c.address env.now)) [
      | inl f ↦ rw (handle_join_session, f) (fail-Quiet x c _ _ h q)
      | inr f ↦ elim (Option-cases (get_session_by_code env.settings h.db code participant_id)) [
        | inl g ↦
            rw (handle_join_session, f, g)
              (fail-Quiet x c _ _
                (record h { misses = record_code_miss h.misses c.address env.now }) q)
        | inr (session, g) ↦
            rw (handle_join_session, f, g)
              (join_as-Quiet x env session name participant_id room_id h c
                (rw (handle_join_session, f, g) at away) q)
      ]
    ]
