-- ===== src/Socket/Server/Told.antt =====
-- gateway/src/ws/server.ts: what the sockets of this replica are told of a room or a session.
use rmcollab_model.Socket.Presence.{Moment}
use rmcollab_model.Common.{
  ℕ, String, Bool, true, false, not, ◌&&◌, List, [], ◌∷◌, ◌++◌, map, filter, any, eqb,
  if◌then◌else◌, ◌==◌, option_is, or_else,
}
use rmcollab_model.Shared.Domain.{RoomDocument}
use rmcollab_model.Shared.Events.{
  ServerEvent, RemovalScope, participant_removed, documents_updated, room_deleted, doc,
  session_ended, admission_decided,
}
use rmcollab_model.Socket.Registry.{members}
use rmcollab_model.Socket.Server.{
  Connection, Hub, Output, emit, send, sent, docs_discarded, room_docs_discarded, doc_relayed,
}
use rmcollab_model.Socket.Server.Rooms.{leave_room}
use rmcollab_model.Socket.Server.Joining.{let_in}
use rmcollab_model.Socket.Server.Frames.{close_with, main_doc_id}

-- One after the other, over every connection.
unfoldable pub each :
    (Hub × Connection → Hub × Connection) → Hub → List Connection → Hub × List Connection
each act h [] = (h, [])
each act h (c ∷ cs) =
    let first = act (h, c) in let rest = each act first.0 cs in (rest.0, first.1 ∷ rest.1)

abbrev pub by_scope : Moment → RemovalScope → String → Hub × Connection → Hub × Connection
by_scope now RemovalScope.session room_id (h, c) = close_with 4001 c h
by_scope now RemovalScope.room room_id (h, c) =
    if option_is c.room_id room_id then leave_room now (h, c) else (h, c)

-- `removeLocally`, for one connection
unfoldable pub remove_one :
    Moment → String → String → RemovalScope → String → Hub × Connection → Hub × Connection
unfolding leave_room
remove_one now room_id participant_id scope by_name (h, c) =
    if option_is c.participant_id participant_id
    then by_scope now scope room_id
        (send c (participant_removed room_id participant_id scope by_name) h, c)
    else (h, c)

-- `forgetDeleted`, for one connection
unfoldable pub forget_one : String → List String → Hub × Connection → Hub × Connection
forget_one room_id kept (h, c) =
    if option_is c.room_id room_id
    then (h, record c { docs = filter (λ d. any (λ k. k == d) kept) c.docs })
    else (h, c)

abbrev pub can_hear : Bool → ℕ → Connection → Bool
can_hear skip_pending socket c = eqb c.socket socket && c.is_open && not (skip_pending && c.pending)

-- An event to each socket of a group that is open; those who wait are left out of their session's.
unfoldable pub heard : Bool → List Connection → ServerEvent → List ℕ → List Output
heard skip_pending cs event [] = []
heard skip_pending cs event (s ∷ sockets) =
    let rest = heard skip_pending cs event sockets in
    if any (can_hear skip_pending s) cs then sent s event ∷ rest else rest

abbrev pub broadcast : Bool → List Connection → ServerEvent → List ℕ → Hub → Hub
broadcast skip_pending cs event sockets h = record h {
  outputs = h.outputs ++ heard skip_pending cs event sockets;
}

unfoldable pub to_members : String → ServerEvent → Hub × List Connection → Hub × List Connection
unfolding members heard
to_members room_id event (h, cs) = (broadcast false cs event (members h.rooms room_id) h, cs)

abbrev pub ids_of : List RoomDocument → List String
ids_of documents = map (λ (d : RoomDocument). d.id) documents

-- `onRoomEvent`
unfoldable pub on_room_event :
    Moment → String → ServerEvent → Hub × List Connection → Hub × List Connection
unfolding to_members each remove_one forget_one
on_room_event now room_id (participant_removed r id scope by_name) (h, cs) =
    to_members room_id (participant_removed r id scope by_name)
      (each (remove_one now r id scope by_name) h cs)
on_room_event now room_id (documents_updated r documents) (h, cs) =
    let told = each (forget_one room_id (ids_of documents)) h cs in
    to_members room_id (documents_updated r documents)
      (emit (docs_discarded room_id (ids_of documents)) told.0, told.1)
on_room_event now room_id (room_deleted r name by_name) (h, cs) =
    to_members room_id (room_deleted r name by_name) (emit (room_docs_discarded room_id) h, cs)
on_room_event now room_id (doc r payload doc_id sender) (h, cs) =
    (emit (doc_relayed room_id (or_else doc_id main_doc_id) payload (or_else sender "")) h, cs)
on_room_event now room_id event (h, cs) = to_members room_id event (h, cs)

unfoldable pub end_one : String → ServerEvent → Hub × Connection → Hub × Connection
end_one session_id event (h, c) =
    if option_is c.session_id session_id then close_with 4003 c (send c event h) else (h, c)

abbrev pub is_asker : String → Connection → Bool
is_asker participant_id c = option_is c.participant_id participant_id && c.pending

-- One who waits is answered: the rest of an admission comes later, by `completeJoin`.
unfoldable pub decide_one : String → Bool → ServerEvent → Hub × Connection → Hub × Connection
decide_one participant_id admitted event (h, c) =
    if is_asker participant_id c
    then (if admitted then (send c event h, let_in c) else close_with 4002 c (send c event h))
    else (h, c)

unfoldable pub to_session_members :
    String → ServerEvent → Hub × List Connection → Hub × List Connection
unfolding members heard
to_session_members session_id event (h, cs) =
    (broadcast true cs event (members h.sessions session_id) h, cs)

abbrev pub discard_rooms : List String → Hub → Hub
discard_rooms rooms h = record h { outputs = h.outputs ++ map room_docs_discarded rooms }

-- `onSessionEvent`
unfoldable pub on_session_event :
    Moment → String → ServerEvent → Hub × List Connection → Hub × List Connection
unfolding to_session_members each remove_one end_one decide_one
on_session_event now session_id (participant_removed r id scope by_name) (h, cs) =
    to_session_members session_id (participant_removed r id scope by_name)
      (each (remove_one now r id scope by_name) h cs)
on_session_event now session_id (session_ended s by_name room_ids) (h, cs) =
    each (end_one session_id (session_ended s by_name room_ids)) (discard_rooms room_ids h) cs
on_session_event now session_id (admission_decided s id admitted by_name) (h, cs) =
    to_session_members session_id (admission_decided s id admitted by_name)
      (each (decide_one id admitted (admission_decided s id admitted by_name)) h cs)
on_session_event now session_id event (h, cs) = to_session_members session_id event (h, cs)

-- The sockets whose `completeJoin` an event starts.
unfoldable pub admits : ServerEvent → List Connection → List ℕ
admits (admission_decided s id true by_name) cs =
    map (λ (c : Connection). c.socket) (filter (is_asker id) cs)
admits event cs = []
