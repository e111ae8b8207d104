-- ===== src/Socket/Server/Frames.antt =====
-- gateway/src/ws/server.ts: the handling of one frame from a socket.
use rmcollab_model.Common.{
  ℕ, String, Bool, true, false, not, ◌&&◌, ◌||◌, Option, none, some, [], ◌∷◌, ◌++◌, any,
  if◌then◌else◌, ◌==◌, option_is, or_else,
}
use rmcollab_model.Shared.Events.{ServerEvent, pong}
use rmcollab_model.Shared.Events
use rmcollab_model.Access.Database.{Database, is_given}
use rmcollab_model.Access.Changes.{insert_chat_message}
use rmcollab_model.Shared.Domain.{ChatMessage}
use rmcollab_model.Socket.Bucket.{SocketLimits, take_tokens}
use rmcollab_model.Socket.Server.{
  ClientEvent, Connection, Hub, Env, join_session, join_room, chat_message, typing, doc, ask, ping,
  emit, send, fail, closed, to_room, doc_received, asked, touched,
}
use rmcollab_model.Socket.Server.Rooms.{enter_room}
use rmcollab_model.Socket.Server.Joining.{handle_join_session}

-- The people of a room are told who types, by the name they joined with.
unfoldable pub tell_typing : String → Bool → Option String → Option String → Hub → Hub
tell_typing room_id is_typing (some id) (some name) h =
    emit (to_room room_id (Events.typing room_id id name is_typing)) h
tell_typing room_id is_typing _ _ h = h

-- `handleTyping`
unfoldable pub handle_typing : String → Bool → Hub × Connection → Hub × Connection
unfolding tell_typing
handle_typing room_id is_typing (h, c) =
    if option_is c.room_id room_id
    then (tell_typing room_id is_typing c.participant_id c.display_name h, c)
    else (h, c)

abbrev pub tell_message : String → Connection → Hub → Option (Database × ChatMessage) → Hub
tell_message room_id c h none =
    fail c "internal_error" "The gateway could not process that event." h
tell_message room_id c h (some (db, message)) =
    emit (to_room room_id (Events.chat_message room_id message)) (record h { db = db })

-- `handleChatMessage`. An insertion that throws is answered where the frames are queued.
unfoldable pub handle_chat_message : Env → String → String → Hub × Connection → Hub × Connection
unfolding insert_chat_message
handle_chat_message env room_id body (h, c) = elim c.participant_id [
  | none ↦ (fail c "not_joined" "Join a session first." h, c)
  | some id ↦
      if option_is c.room_id room_id
      then (
        tell_message room_id c h (insert_chat_message h.db env.fresh env.now room_id id body),
        c,
      )
      else (fail c "not_in_room" "You are not in that room." h, c)
]

abbrev pub main_doc_id : String
main_doc_id = "main"

-- A document that the socket was checked into, or the main one, or one that exists in the room.
unfoldable pub may_edit : Env → Hub → Connection → String → String → Bool
may_edit env h c room_id doc_id =
    doc_id == main_doc_id
    || any (λ d. d == doc_id) c.docs
    || env.is_made_id doc_id && any (λ d. d == doc_id) (h.documents room_id)

abbrev with_doc : String → Connection → Connection
with_doc doc_id c =
    if doc_id == main_doc_id || any (λ d. d == doc_id) c.docs
    then c
    else record c { docs = c.docs ++ doc_id ∷ [] }

unfoldable pub handle_doc : Env → String → String → String → Hub × Connection → Hub × Connection
unfolding may_edit
handle_doc env room_id doc_id payload (h, c) =
    if option_is c.room_id room_id && may_edit env h c room_id doc_id
    then (emit (doc_received room_id doc_id c.conn_id payload) h, with_doc doc_id c)
    else (h, c)

unfoldable pub handle_ask : String → String → String → Hub × Connection → Hub × Connection
handle_ask room_id request_id question (h, c) = elim c.participant_id [
  | none ↦ (fail c "not_in_room" "Join the room before asking about it." h, c)
  | some id ↦
      if option_is c.room_id room_id
      then (emit (asked c.socket room_id id request_id question) h, c)
      else (fail c "not_in_room" "Join the room before asking about it." h, c)
]

abbrev with_limits : Connection → SocketLimits → Connection
with_limits c limits = record c { limits = limits }

-- The bytes are only taken of a frame that is let through.
unfoldable pub take_doc : SocketLimits → ℕ → ℕ → SocketLimits × Bool
unfolding take_tokens
take_doc l size now =
    let frames = take_tokens l.doc_frames 1 now in
    let bytes = take_tokens l.doc_bytes size now in
    if frames.1
    then (record l { doc_frames = frames.0; doc_bytes = bytes.0 }, bytes.1)
    else (record l { doc_frames = frames.0 }, false)

abbrev pub close_with : ℕ → Connection → Hub → Hub × Connection
close_with code c h = (emit (closed c.socket code) h, record c { closing = true; is_open = false })

-- `withinLimits`
unfoldable pub within_limits : Env → ClientEvent → Hub × Connection → (Hub × Connection) × Bool
unfolding take_tokens take_doc
within_limits env (chat_message room_id body) (h, c) =
    let t = take_tokens c.limits.chat 1 env.now in
    let c' = with_limits c (record c.limits { chat = t.0 }) in
    if t.1
    then ((h, c'), true)
    else ((fail c' "rate_limited" "You're sending messages very fast. Wait a moment." h, c'), false)
within_limits env (typing room_id is_typing) (h, c) =
    let t = take_tokens c.limits.typing 1 env.now in
    ((h, with_limits c (record c.limits { typing = t.0 })), t.1)
within_limits env (join_room room_id code) (h, c) =
    let t = take_tokens c.limits.joins 1 env.now in
    let c' = with_limits c (record c.limits { joins = t.0 }) in
    if t.1
    then ((h, c'), true)
    else ((fail c' "rate_limited" "Too many room switches at once. Wait a moment." h, c'), false)
within_limits env (doc room_id payload doc_id) (h, c) =
    let t = take_doc c.limits (env.text_length payload) env.now in
    let c' = with_limits c t.0 in if t.1 then ((h, c'), true) else (close_with 4008 c' h, false)
within_limits env event hc = (hc, true)

-- The handler of an event's own case.
unfoldable pub handle_case : Env → ClientEvent → Hub × Connection → Hub × Connection
unfolding handle_join_session enter_room handle_chat_message handle_typing handle_doc handle_ask
handle_case env (join_session code name participant_id room_id) hc =
    handle_join_session env code name participant_id room_id hc
handle_case env (join_room room_id code) hc = enter_room env room_id code hc
handle_case env (chat_message room_id body) hc = handle_chat_message env room_id body hc
handle_case env (typing room_id is_typing) hc = handle_typing room_id is_typing hc
handle_case env (doc room_id payload doc_id) hc =
    handle_doc env room_id (or_else doc_id main_doc_id) payload hc
handle_case env (ask room_id request_id question) hc = handle_ask room_id request_id question hc
handle_case env ping (h, c) = (send c pong h, c)

abbrev pub is_join : ClientEvent → Bool
is_join (join_session code name participant_id room_id) = true
is_join _ = false

abbrev pub is_ping : ClientEvent → Bool
is_ping ping = true
is_ping _ = false

abbrev pub has_joined : Connection → Bool
has_joined c = is_given c.session_id

abbrev pub touch_unless : Bool → Hub × Connection → Hub × Connection
touch_unless true hc = hc
touch_unless false (h, c) = (emit (touched c.session_id) h, c)

-- The frame is handled if it is within the limits.
abbrev pub if_within : Env → ClientEvent → (Hub × Connection) × Bool → Hub × Connection
if_within env event (hc, false) = hc
if_within env event (hc, true) = handle_case env event (touch_unless (is_ping event) hc)

-- `handleEvent`
unfoldable pub handle_event : Env → ClientEvent → Hub × Connection → Hub × Connection
unfolding within_limits handle_case
handle_event env event (h, c) =
    if c.closing
    then (h, c)
    else (if is_join event && has_joined c
        then (fail c "already_joined" "This connection has already joined a session." h, c)
        else (if c.pending && not (is_ping event) && not (is_join event)
            then (fail c "waiting_for_admission" "You are waiting to be let in." h, c)
            else if_within env event (within_limits env event (h, c))))
