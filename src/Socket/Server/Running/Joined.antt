-- ===== src/Socket/Server/Running/Joined.antt =====
-- gateway/src/ws/server.ts: what joining a session keeps of the registries.
use rmcollab_model.Common.{
  ◌≡◌, refl, ap, ◌∙◌, String, true, false, Option, none, some, arith, Bool-cases, Option-cases, inl,
  inr,
}
use rmcollab_model.Shared.Domain.{Room}
use rmcollab_model.Shared.Events.{session_joined}
use rmcollab_model.Access.Rooms.{list_rooms}
use rmcollab_model.Access.Database.{
  is_given, SessionRow, ParticipantRow, get_session_by_id, to_session, to_participant,
}
use rmcollab_model.Access.Sessions.{
  get_session_by_code, upsert_participant, is_admitted_member, session_owner_id,
}
use rmcollab_model.Limits.Guesses.{code_guesses_blocked}
use rmcollab_model.Socket.Registry.{add_member}
use rmcollab_model.Socket.Server.{Connection, Hub, Env, send}
use rmcollab_model.Socket.Server.Joining.{
  let_in, enter_first, show_session, complete_join, wait_outside, must_wait, come_in, join_as,
  handle_join_session, subscribe_session, find_participant, room_to_enter,
}
use rmcollab_model.Socket.Registry.Members.{has_socket, has_socket-add}
use rmcollab_model.Socket.Server.Running.Keeps.{
  Keeps, hub-Keeps, Keeps-trans, eqb_refl, in_order, enter_room-Keeps,
}

-- The handler keeps what places the socket: its number, room, session and person, and its wait.
abbrev pub SamePlace : Connection → Connection → Type 0
SamePlace c c' =
    (c'.socket ≡ c.socket)
    × (c'.room_id ≡ c.room_id)
    × (c'.session_id ≡ c.session_id)
    × (c'.participant_id ≡ c.participant_id)
    × (c'.pending ≡ c.pending)

pub place-Keeps :
    (h h' : Hub) (c c' : Connection)
    → h'.rooms ≡ h.rooms
    → h'.sessions ≡ h.sessions
    → SamePlace c c'
    → Keeps (h, c) (h', c')
unfolding Keeps
place-Keeps h h' c c' e f (s, r, k, p, w) = (
  s,
  λ q x d. ap (λ g. has_socket g q x) e,
  λ q x d. ap (λ g. has_socket g q x) f,
  λ q a. rw (e, s, r) a,
  λ q a. rw (f, s, k) a,
  λ a. rw (r, k, p, w) a,
)

pub let_in-Keeps : (h : Hub) (c : Connection) → Keeps (h, c) (h, let_in c)
unfolding Keeps
let_in-Keeps h c = (refl, λ r x e. refl, λ k x e. refl, λ r a. a, λ k a. a, λ o. ground arith)

enter_first-Keeps :
    (env : Env) (room : Option Room) (h : Hub) (c : Connection)
    → c.pending ≡ false
    → Keeps (h, c) (enter_first env room (h, c))
unfolding enter_first
enter_first-Keeps env none h c e = hub-Keeps h h c refl refl
enter_first-Keeps env (some room) h c e = enter_room-Keeps env room.id none h c e

show_session-Keeps :
    (env : Env) (session : SessionRow) (p : ParticipantRow) (h : Hub) (c : Connection)
    → c.pending ≡ false
    → Keeps (h, c) (show_session env session p (h, c))
unfolding show_session
show_session-Keeps env session p h c e =
    let rooms = list_rooms h.db session.id in
    let h' = send c (session_joined (to_session env.settings session) (to_participant p) rooms) h in
    let c' = record c { preferred_room_id = none } in
    let target = room_to_enter env h.db p.id c.preferred_room_id rooms in
    Keeps-trans (h, c) (h', c') (enter_first env target (h', c'))
      (place-Keeps h h' c c' refl refl (refl, refl, refl, refl, refl))
      (enter_first-Keeps env target h' c' e)

pub complete_join-Keeps :
    (env : Env) (session_id : String) (h : Hub) (c : Connection)
    → Keeps (h, c) (complete_join env session_id (h, c))
unfolding complete_join
complete_join-Keeps env session_id h c = elim (Option-cases (get_session_by_id h.db session_id)) [
  | inl e ↦ rw (complete_join, e) (let_in-Keeps h c)
  | inr (session, e) ↦ elim (Option-cases (find_participant h.db c.participant_id)) [
    | inl f ↦ rw (complete_join, e, f) (let_in-Keeps h c)
    | inr (p, f) ↦
        rw (complete_join, e, f)
          (Keeps-trans (h, c) (h, let_in c) _ (let_in-Keeps h c)
            (show_session-Keeps env session p h (let_in c) refl))
  ]
]

wait-Keeps :
    (session : SessionRow) (owner : Option String) (id name : String) (h : Hub) (c : Connection)
    → is_given c.room_id ≡ false
    → Keeps (h, c) (wait_outside session owner id name (h, c))
unfolding wait_outside Keeps
wait-Keeps session owner id name h c e =
    (refl, λ r x k. refl, λ k x d. refl, λ r a. a, λ k a. a, λ o. ground (arith, e))

-- The socket takes its place in the session's group.
join-Keeps :
    (env : Env) (session_id conn_id : String) (participant_id : Option String) (name : String)
    (h : Hub) (c c' : Connection)
    → c.session_id ≡ none
    → is_given c.room_id ≡ false
    → c'.socket ≡ c.socket
    → c'.room_id ≡ c.room_id
    → c'.session_id ≡ some session_id
    → Keeps
        (h, c)
        (
          subscribe_session session_id
              (come_in env session_id conn_id participant_id name h)
              (add_member h.sessions session_id c.socket),
          c',
        )
unfolding Keeps come_in
join-Keeps env session_id conn_id participant_id name h c c' e out s r k = (
  s,
  λ q x d. refl,
  λ q x d. ground (arith, has_socket-add h.sessions session_id q c.socket x),
  λ q a. rw (s, r) a,
  λ q a.
      let before : has_socket h.sessions q c.socket ≡ false = a ∙ rw (e) refl in
      rw (s, k)
        (ground (
          arith,
          before,
          has_socket-add h.sessions session_id q c.socket c.socket,
          eqb_refl c.socket,
        )),
  λ o. ground (arith, out, r),
)

join_as-Keeps :
    (env : Env) (session : SessionRow) (name : String) (participant_id room_id : Option String)
    (h : Hub) (c : Connection)
    → c.session_id ≡ none
    → is_given c.room_id ≡ false
    → Keeps (h, c) (join_as env session name participant_id room_id (h, c))
unfolding join_as
join_as-Keeps env session name participant_id room_id h c e out =
    let id = (upsert_participant h.db env.fresh env.now participant_id session.id name).1 in
    let c' = record c {
      participant_id = some id;
      session_id = some session.id;
      display_name = some name;
      preferred_room_id = room_id;
    } in
    let h' =
      subscribe_session session.id (come_in env session.id c.conn_id participant_id name h)
        (add_member h.sessions session.id c.socket) in
    let joined : Keeps (h, c) (h', c') =
      join-Keeps env session.id c.conn_id participant_id name h c c' e out refl refl refl in
    elim (Bool-cases
      (must_wait h'.db session id (is_admitted_member h.db session.id participant_id))) [
        | inl f ↦
            rw (join_as, f)
              (Keeps-trans (h, c) (h', c') _ joined
                (wait-Keeps session (session_owner_id h'.db session.id) id name h' c' out))
        | inr f ↦
            rw (join_as, f)
              (Keeps-trans (h, c) (h', c') _ joined (complete_join-Keeps env session.id h' c'))
      ]

pub handle_join-Keeps :
    (env : Env) (code name : String) (participant_id room_id : Option String) (h : Hub)
    (c : Connection)
    → c.session_id ≡ none
    → in_order c ≡ true
    → Keeps (h, c) (handle_join_session env code name participant_id room_id (h, c))
unfolding handle_join_session
handle_join-Keeps env code name participant_id room_id h c e o =
    elim (Bool-cases (code_guesses_blocked env.code_misses h.misses c.address env.now)) [
      | inl f ↦ rw (handle_join_session, f) (hub-Keeps h _ c refl refl)
      | inr f ↦ elim (Option-cases (get_session_by_code env.settings h.db code participant_id)) [
        | inl g ↦ rw (handle_join_session, f, g) (hub-Keeps h _ c refl refl)
        | inr (session, g) ↦
            rw (handle_join_session, f, g)
              (join_as-Keeps env session name participant_id room_id h c e (ground (arith, e, o)))
      ]
    ]
