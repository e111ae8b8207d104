-- ===== src/Socket/Server.antt =====
-- gateway/src/ws/server.ts: one replica's sockets, what they ask for and what they are told. A handler
-- runs to its end before the next one starts. Ids are not empty texts. What a handler sends,
-- publishes and closes is listed in its order; the calls on a room's documents and on the answering
-- of questions are listed too.
pub mod Rooms
pub mod Joining
pub mod Frames
pub mod Told
pub mod Entering
pub mod Leaving
pub mod Running
use rmcollab_model.Common.{
  ℕ, String, Bool, true, false, Option, none, some, List, [], ◌∷◌, ◌++◌, if◌then◌else◌,
}
use rmcollab_model.Shared.Events.{ServerEvent, error}
use rmcollab_model.Access.Database.{Database, Settings}
use rmcollab_model.Limits.Guesses.{CodeMiss}
use rmcollab_model.Socket.Bucket.{SocketLimits}
use rmcollab_model.Socket.Registry.{Group}
use rmcollab_model.Socket.Presence.{Reply, Moment, Present}

-- shared/src/events.ts
pub data ClientEvent : Type 0 where
  join_session :
      (session_code display_name : String) → (participant_id room_id : Option String) → ClientEvent
  join_room : (room_id : String) → (code : Option String) → ClientEvent
  chat_message : (room_id body : String) → ClientEvent
  typing : (room_id : String) → (is_typing : Bool) → ClientEvent
  doc : (room_id payload : String) → (doc_id : Option String) → ClientEvent
  ask : (room_id request_id question : String) → ClientEvent
  ping : ClientEvent

-- `ConnectionState`, with the socket that it is kept for. `is_open` is that the socket's `readyState`
-- is OPEN.
pub record Connection : Type 0 where
  pub socket : ℕ
  pub conn_id : String
  pub participant_id : Option String
  pub session_id : Option String
  pub display_name : Option String
  pub room_id : Option String
  pub alive : Bool
  pub address : String
  pub docs : List String
  pub pending : Bool
  pub preferred_room_id : Option String
  pub limits : SocketLimits
  pub closing : Bool
  pub is_open : Bool

-- What a handler does that others see.
pub data Output : Type 0 where
  sent : (socket : ℕ) → ServerEvent → Output
  closed : (socket code : ℕ) → Output
  pinged : (socket : ℕ) → Output
  terminated : (socket : ℕ) → Output
  to_room : (room_id : String) → ServerEvent → Output
  to_session_of : (session_id : String) → ServerEvent → Output
  room_subscribed : (room_id : String) → Output
  room_unsubscribed : (room_id : String) → Output
  session_subscribed : (session_id : String) → Output
  session_unsubscribed : (session_id : String) → Output
  docs_left : (room_id conn_id : String) → Output
  docs_dropped : (room_id : String) → Output
  docs_discarded : (room_id : String) → (kept : List String) → Output
  room_docs_discarded : (room_id : String) → Output
  doc_received : (room_id doc_id conn_id payload : String) → Output
  doc_relayed : (room_id doc_id payload sender : String) → Output
  asked : (socket : ℕ) → (room_id participant_id request_id question : String) → Output
  touched : (session_id : Option String) → Output

-- What all handlers of the replica share. `documents` is what `listDocuments` reads of a room: its ids.
pub record Hub : Type 0 where
  pub db : Database
  pub documents : String → List String
  pub rooms : List Group
  pub sessions : List Group
  pub presence : List Present
  pub misses : List CodeMiss
  pub outputs : List Output

-- The settings, what library functions do to texts, and the time, what becomes of the calls
-- on presence and the fresh id of one handler.
pub record Env : Type 0 where
  pub settings : Settings
  pub is_made_id : String → Bool
  pub text_length : String → ℕ
  pub code_misses : ℕ
  pub chat_history : ℕ
  pub connections_per_address : ℕ
  pub now : ℕ
  pub reply : Reply
  pub fresh : String

abbrev pub moment : Env → Moment
moment env = record { time = env.now; reply = env.reply }

abbrev pub emit : Output → Hub → Hub
emit o h = record h { outputs = h.outputs ++ o ∷ [] }

abbrev pub send : Connection → ServerEvent → Hub → Hub
send c e h = record h {
  outputs = if c.is_open then h.outputs ++ sent c.socket e ∷ [] else h.outputs;
}

abbrev pub fail : Connection → String → String → Hub → Hub
fail c code message h = send c (error code message) h
