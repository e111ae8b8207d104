-- ===== src/Socket/Server/Running/Quiet.antt =====
-- gateway/src/ws/server.ts: what the handlers of one socket send to another, and to one that waits.
use rmcollab_model.Common.{
  ℕ, ◌≡◌, refl, String, Bool, true, false, not, ◌||◌, Option, none, some, List, [], ◌∷◌, ◌++◌, all,
  eqb, if◌then◌else◌, ◌==◌, option_is, arith, Bool-cases, Option-cases, inl, inr, all-append,
}
use rmcollab_model.Shared.Domain.{Room}
use rmcollab_model.Shared.Events.{
  ServerEvent, room_state, participant_joined, error, pong, session_joined, admission_waiting,
  admission_decided, participant_removed, session_ended,
}
use rmcollab_model.Access.Database.{
  SessionRow, RoomRow, ParticipantRow, get_room, get_participant, get_session_by_id, to_session,
  to_participant,
}
use rmcollab_model.Access.Sessions.{set_participant_room}
use rmcollab_model.Access.Rooms.{resolve_room_access, list_rooms, list_room_participants}
use rmcollab_model.Access.Changes.{list_recent_chat_messages}
use rmcollab_model.Socket.Registry.{add_member}
use rmcollab_model.Socket.Presence.{Moment, here, in_room}
use rmcollab_model.Socket.Server.{
  moment, Connection, Hub, Env, Output, sent, emit, send, docs_left, to_room, room_subscribed,
}
use rmcollab_model.Socket.Server.Rooms.{
  tell_left, unlist, leave_hub, leave_room, leave_if, leave_other, settle, move_in, enter_as,
  enter_given, enter_room, refusal, subscribe_room,
}
use rmcollab_model.Socket.Server.Joining.{
  enter_first, show_session, complete_join, let_in, find_participant, room_to_enter,
}

-- Someone who waits: the socket and the person, and whether the input tells of the end of their own
-- session.
pub record Listener : Type 0 where
  pub socket : ℕ
  pub participant_id : Option String
  pub may_end : Bool

-- What they may hear: about their own requests, and about being let in or out themselves.
abbrev pub is_answer : Listener → ServerEvent → Bool
is_answer x (error code message) = true
is_answer x pong = true
is_answer x (admission_waiting session_name owner_name online) = true
is_answer x (admission_decided session_id id admitted by_name) = option_is x.participant_id id
is_answer x (participant_removed room_id id scope by_name) = option_is x.participant_id id
is_answer x (session_ended session_id by_name room_ids) = x.may_end
is_answer x _ = false

-- The output is nothing else to the socket.
abbrev pub is_quiet : Listener → Output → Bool
is_quiet x (sent s event) = not (eqb s x.socket) || is_answer x event
is_quiet x _ = true

abbrev pub Quiet : Listener → Hub → Type 0
Quiet x h = all (is_quiet x) h.outputs ≡ true

pub add-Quiet :
    (x : Listener) (os new : List Output)
    → all (is_quiet x) os ≡ true
    → all (is_quiet x) new ≡ true
    → all (is_quiet x) (os ++ new) ≡ true
add-Quiet x os new h k = ground (arith, all-append (is_quiet x) os new, h, k)

pub if-Quiet :
    (x : Listener) (b : Bool) (os new : List Output)
    → all (is_quiet x) os ≡ true
    → all (is_quiet x) new ≡ true
    → all (is_quiet x) (if b then os ++ new else os) ≡ true
if-Quiet x true os new h k = add-Quiet x os new h k
if-Quiet x false os new h k = h

pub send-Quiet :
    (x : Listener) (c : Connection) (event : ServerEvent) (h : Hub)
    → (not (eqb c.socket x.socket) || is_answer x event) ≡ true
    → Quiet x h
    → Quiet x (send c event h)
send-Quiet x c event h k q =
    if-Quiet x c.is_open h.outputs (sent c.socket event ∷ []) q (ground (arith, k))

tell-Quiet :
    (x : Listener) (now : Moment) (r conn_id : String) (o : Option String) (h : Hub)
    → Quiet x h
    → Quiet x (tell_left now r conn_id o h)
unfolding tell_left
tell-Quiet x now r conn_id none h q = q
tell-Quiet x now r conn_id (some p) h q = if-Quiet x _ h.outputs _ q refl

pub leave-Quiet :
    (x : Listener) (now : Moment) (o : Option String) (c : Connection) (h : Hub)
    → Quiet x h
    → Quiet x (leave_hub now o c h)
unfolding leave_hub unlist
leave-Quiet x now none c h q = q
leave-Quiet x now (some r) c h q =
    let h' = emit (docs_left r c.conn_id) h in
    tell-Quiet x now r c.conn_id c.participant_id (unlist r c.socket h')
      (if-Quiet x _ h'.outputs _ (add-Quiet x h.outputs _ q refl) refl)

-- A handler of another socket sends nothing to this one.
module _ (x : Listener) where
  abbrev pub Other : Hub × Connection → Type 0
  Other (h, c) = (eqb c.socket x.socket ≡ false) × Quiet x h

  other_answer : (b e : Bool) → b ≡ false → (not b || e) ≡ true
  other_answer b e k = ground (arith, k)

  pub send-Other :
      (c : Connection) (event : ServerEvent) (h : Hub) → Other (h, c) → Quiet x (send c event h)
  send-Other c event h (e, q) =
      send-Quiet x c event h (other_answer (eqb c.socket x.socket) (is_answer x event) e) q

  leave_if-Other :
      (now : Moment) (q : String) (o : Option String) (hc : Hub × Connection)
      → Other hc
      → Other (leave_if now q o hc)
  unfolding leave_if leave_room
  leave_if-Other now q none hc k = k
  leave_if-Other now q (some r) hc k = elim (Bool-cases (r == q)) [
    | inl e ↦ rw (e) k
    | inr e ↦ rw (e) (k.0, leave-Quiet x now hc.1.room_id hc.1 hc.0 k.1)
  ]

  leave_other-Other :
      (now : Moment) (q : String) (hc : Hub × Connection) → Other hc → Other (leave_other now q hc)
  unfolding leave_other
  leave_other-Other now q (h, c) k = leave_if-Other now q c.room_id (h, c) k

  settle-Other :
      (env : Env) (r p : String) (row : ParticipantRow) (c : Connection) (h : Hub)
      → Other (h, c)
      → Quiet x (settle env r p row c h)
  unfolding settle
  settle-Other env r p row c h (e, q) =
      let added = add_member h.rooms r c.socket in
      let h' =
        subscribe_room r
          (record h { presence = here h.presence (in_room r) p c.conn_id (moment env) }) added in
      let state =
        room_state r (list_room_participants h'.db r)
          (list_recent_chat_messages h'.db r env.chat_history) (h'.db.media r) in
      add-Quiet x (send c state h').outputs
        (to_room r (participant_joined r (to_participant row)) ∷ [])
        (send-Other c state h' (e, if-Quiet x added.1 h.outputs (room_subscribed r ∷ []) q refl))
        refl

  move_in-Other :
      (env : Env) (r p : String) (hc : Hub × Connection) → Other hc → Other (move_in env r p hc)
  unfolding move_in
  move_in-Other env r p (h, c) k =
      let h' = record h { db = set_participant_room h.db p (some r) } in
      elim (Option-cases (get_participant h'.db p)) [
        | inl e ↦ rw (move_in, e) (k.0, send-Other c _ h' k)
        | inr (row, e) ↦ rw (move_in, e) (k.0, settle-Other env r p row c h' k)
      ]

  enter_as-Other :
      (env : Env) (room : RoomRow) (p : String) (code : Option String) (hc : Hub × Connection)
      → Other hc
      → Other (enter_as env room p code hc)
  unfolding enter_as
  enter_as-Other env room p code (h, c) k =
      let a = resolve_room_access env.settings h.db room.id p code in
      let h' = record h { db = a.0 } in
      elim (Option-cases (refusal room.name a.1)) [
        | inl e ↦
            rw (enter_as, e)
              (move_in-Other env room.id p (leave_other (moment env) room.id (h', c))
                (leave_other-Other (moment env) room.id (h', c) k))
        | inr (m, e) ↦ rw (enter_as, e) (k.0, send-Other c _ h' k)
      ]

  enter_given-Other :
      (env : Env) (room : RoomRow) (o code : Option String) (hc : Hub × Connection)
      → Other hc
      → Other (enter_given env room o code hc)
  unfolding enter_given
  enter_given-Other env room none code (h, c) k = (k.0, send-Other c _ h k)
  enter_given-Other env room (some p) code hc k = enter_as-Other env room p code hc k

  pub enter_room-Other :
      (env : Env) (room_id : String) (code : Option String) (hc : Hub × Connection)
      → Other hc
      → Other (enter_room env room_id code hc)
  unfolding enter_room
  enter_room-Other env room_id code (h, c) k = elim (Option-cases (get_room h.db room_id)) [
    | inl e ↦ rw (enter_room, e) (k.0, send-Other c _ h k)
    | inr (room, e) ↦ elim (Bool-cases (option_is c.session_id room.session_id)) [
      | inl f ↦ rw (enter_room, e, f) (enter_given-Other env room c.participant_id code (h, c) k)
      | inr f ↦ rw (enter_room, e, f) (k.0, send-Other c _ h k)
    ]
  ]

  enter_first-Other :
      (env : Env) (room : Option Room) (hc : Hub × Connection)
      → Other hc
      → Other (enter_first env room hc)
  unfolding enter_first
  enter_first-Other env none hc k = k
  enter_first-Other env (some room) hc k = enter_room-Other env room.id none hc k

  show_session-Other :
      (env : Env) (session : SessionRow) (p : ParticipantRow) (hc : Hub × Connection)
      → Other hc
      → Other (show_session env session p hc)
  unfolding show_session
  show_session-Other env session p (h, c) k =
      let rooms = list_rooms h.db session.id in
      let joined = session_joined (to_session env.settings session) (to_participant p) rooms in
      enter_first-Other env (room_to_enter env h.db p.id c.preferred_room_id rooms)
        (send c joined h, record c { preferred_room_id = none }) (k.0, send-Other c joined h k)

  pub complete_join-Other :
      (env : Env) (session_id : String) (hc : Hub × Connection)
      → Other hc
      → Other (complete_join env session_id hc)
  unfolding complete_join
  complete_join-Other env session_id (h, c) k =
      elim (Option-cases (get_session_by_id h.db session_id)) [
        | inl e ↦ rw (complete_join, e) k
        | inr (session, e) ↦ elim (Option-cases (find_participant h.db c.participant_id)) [
          | inl f ↦ rw (complete_join, e, f) k
          | inr (p, f) ↦ rw (complete_join, e, f) (show_session-Other env session p (h, let_in c) k)
        ]
      ]
