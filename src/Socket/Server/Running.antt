-- ===== src/Socket/Server/Running.antt =====
-- gateway/src/ws/server.ts: the server as a whole, one input after the other.
pub mod Keeps
pub mod Joined
pub mod Handled
pub mod Consistent
pub mod Acts
pub mod Steps
pub mod Closing
pub mod Agreed
pub mod Quiet
pub mod QuietJoins
pub mod QuietFrames
pub mod Deaf
pub mod QuietEvents
pub mod Own
pub mod Hears
mod Tests
use rmcollab_model.Common.{
  ℕ, suc, ◌+◌, ◌-◌, String, Bool, true, false, not, ◌&&◌, ◌||◌, Option, none, some, List, [], ◌∷◌,
  ◌++◌, map, filter, foldl, any, find?, eqb, ltb, if◌then◌else◌, ◌==◌, option_is,
}
use rmcollab_model.Shared.Events.{ServerEvent, admission_withdrawn}
use rmcollab_model.Access.Database.{Database}
use rmcollab_model.Access.Sessions.{set_participant_connected}
use rmcollab_model.Limits.Guesses.{CodeMiss}
use rmcollab_model.Socket.Bucket.{socket_limits}
use rmcollab_model.Socket.Registry.{remove_member}
use rmcollab_model.Socket.Presence.{Moment, Present, in_room, in_session, here, gone}
use rmcollab_model.Socket.Server.{
  moment, ClientEvent, Connection, Hub, Env, emit, fail, closed, pinged, terminated, to_session_of,
  session_unsubscribed, touched,
}
use rmcollab_model.Socket.Server.Rooms.{leave_hub, out_of_room}
use rmcollab_model.Socket.Server.Joining.{complete_join}
use rmcollab_model.Socket.Server.Frames.{handle_event}
use rmcollab_model.Socket.Server.Told.{each, on_room_event, on_session_event, admits}

pub record AddressCount : Type 0 where
  pub address : String
  pub held : ℕ

-- `states` and `perAddress` with what the handlers share, the joins that are still to complete, and
-- the states of sockets that have closed, which the frames in their queues still act on. Sockets are
-- numbered in the order that they come.
pub record Server : Type 0 where
  pub hub : Hub
  pub conns : List Connection
  pub left : List Connection
  pub per_address : List AddressCount
  pub resuming : List (ℕ × String)
  pub next : ℕ

-- What the server is given to do. `elsewhere` is what requests and other replicas did meanwhile.
pub data Input : Type 0 where
  connects : (address : String) → Input
  frame : (socket : ℕ) → ClientEvent → Input
  bad_frame : (socket : ℕ) → (is_json : Bool) → Input
  closes : (socket : ℕ) → Input
  pongs : (socket : ℕ) → Input
  beats : Input
  resumes : Input
  room_event : (room_id : String) → ServerEvent → Input
  session_event : (session_id : String) → ServerEvent → Input
  elsewhere : Database → (documents : String → List String) → List Present → List CodeMiss → Input

abbrev pub open_of : String → List AddressCount → ℕ
open_of address [] = 0
open_of address (a ∷ counts) = if a.address == address then a.held else open_of address counts

abbrev set_open : String → ℕ → List AddressCount → List AddressCount
set_open address n counts =
    record { address = address; held = n }
    ∷ filter (λ (a : AddressCount). not (a.address == address)) counts

-- The last connection of an address goes with its count.
abbrev close_one : String → List AddressCount → List AddressCount
close_one address counts =
    let left = open_of address counts - 1 in
    if ltb 0 left
    then set_open address left counts
    else filter (λ (a : AddressCount). not (a.address == address)) counts

abbrev pub new_connection : Env → String → ℕ → Connection
new_connection env address socket = record {
  socket = socket;
  conn_id = env.fresh;
  participant_id = none;
  session_id = none;
  display_name = none;
  room_id = none;
  alive = true;
  address = address;
  docs = [];
  pending = false;
  preferred_room_id = none;
  limits = socket_limits env.now;
  closing = false;
  is_open = true;
}

-- "connection": refused where its address holds too many already
unfoldable pub connect : Env → String → Server → Server
connect env address s =
    let held = suc (open_of address s.per_address) in
    if ltb env.connections_per_address held
    then record s { hub = emit (closed s.next 1013) s.hub; next = suc s.next }
    else record s {
      conns = s.conns ++ new_connection env address s.next ∷ [];
      per_address = set_open address held s.per_address;
      next = suc s.next;
    }

abbrev pub is_socket : ℕ → Connection → Bool
is_socket socket c = eqb c.socket socket

abbrev pub put : ℕ → Connection → List Connection → List Connection
put socket c' cs = map (λ c. if is_socket socket c then c' else c) cs

-- A handler of one socket, which needs a socket that is open.
unfoldable pub on_socket : ℕ → (Hub × Connection → Hub × Connection) → Server → Server
on_socket socket act s = elim (find? (is_socket socket) s.conns) [
  | none ↦ s
  | some c ↦ let hc = act (s.hub, c) in record s { hub = hc.0; conns = put socket hc.1 s.conns }
]

-- A handler of one socket's state, which goes on once the socket has closed.
unfoldable pub on_state : ℕ → (Hub × Connection → Hub × Connection) → Server → Server
unfolding on_socket
on_state socket act s = elim (find? (is_socket socket) s.conns) [
  | none ↦ elim (find? (is_socket socket) s.left) [
    | none ↦ s
    | some c ↦ let hc = act (s.hub, c) in record s { hub = hc.0; left = put socket hc.1 s.left }
  ]
  | some c ↦ on_socket socket act s
]

unfoldable pub answer_bad : Bool → Hub × Connection → Hub × Connection
answer_bad true (h, c) = (fail c "bad_event" "Frame did not match any known client event." h, c)
answer_bad false (h, c) = (fail c "bad_json" "Frame was not valid JSON." h, c)

-- Disconnected with the last of the person's connections.
unfoldable pub disconnect : Moment → Connection → Option String → Option String → Hub → Hub
unfolding gone set_participant_connected
disconnect now c none session_id h = h
disconnect now c (some id) none h = record h { db = set_participant_connected h.db id false }
disconnect now c (some id) (some session_id) h =
    let g = gone h.presence (in_session session_id) id c.conn_id now in
    record h {
      presence = g.0;
      db = if eqb g.1 0 then set_participant_connected h.db id false else h.db;
    }

-- Gave up waiting, on the last connection that waited.
unfoldable pub withdraw : List Connection → Connection → Option String → Option String → Hub → Hub
withdraw others c (some id) (some session_id) h = record h {
  outputs =
      if c.pending
        && not (any (λ (o : Connection). o.pending && option_is o.participant_id id) others)
      then h.outputs ++ to_session_of session_id (admission_withdrawn session_id id) ∷ []
      else h.outputs;
}
withdraw others c _ _ h = h

unfoldable pub unlist_session : Option String → ℕ → Hub → Hub
unfolding remove_member
unlist_session none socket h = h
unlist_session (some session_id) socket h =
    let a = remove_member h.sessions session_id socket in
    record h {
      sessions = a.0;
      outputs = if a.1 then h.outputs ++ session_unsubscribed session_id ∷ [] else h.outputs;
    }

-- `handleClose`
unfoldable pub handle_close : Moment → List Connection → Connection → Hub → Hub
unfolding disconnect withdraw leave_hub unlist_session
handle_close now others c h = unlist_session c.session_id c.socket (
    leave_hub now c.room_id c (
      withdraw others c c.participant_id c.session_id
        (disconnect now c c.participant_id c.session_id h)))

unfoldable pub close : Moment → ℕ → Server → Server
unfolding handle_close
close now socket s = elim (find? (is_socket socket) s.conns) [
  | none ↦ s
  | some c ↦
      let others = filter (λ o. not (is_socket socket o)) s.conns in
      record s {
        hub = handle_close now others c s.hub;
        conns = others;
        left = record (out_of_room c) { is_open = false } ∷ s.left;
        per_address = close_one c.address s.per_address;
      }
]

abbrev here_in_session :
    Moment → Connection → Option String → Option String → List Present → List Present
here_in_session now c (some id) (some session_id) ps =
    here ps (in_session session_id) id c.conn_id now
here_in_session now c _ _ ps = ps

abbrev here_in_room :
    Moment → Connection → Option String → Option String → List Present → List Present
here_in_room now c (some id) (some room_id) ps = here ps (in_room room_id) id c.conn_id now
here_in_room now c _ _ ps = ps

-- "pong"
unfoldable pub on_pong : Moment → Hub × Connection → Hub × Connection
unfolding here
on_pong now (h, c) = (
  record h {
    presence =
        here_in_room now c c.participant_id c.room_id
          (here_in_session now c c.participant_id c.session_id h.presence);
    outputs =
        if not c.pending && not c.closing
        then h.outputs ++ touched c.session_id ∷ []
        else h.outputs;
  },
  record c { alive = true },
)

-- The heartbeat, for one connection
unfoldable pub beat : Hub × Connection → Hub × Connection
beat (h, c) =
    if c.alive
    then (emit (pinged c.socket) h, record c { alive = false })
    else (emit (terminated c.socket) h, record c { is_open = false })

abbrev pub on_all : Hub × List Connection → Server → Server
on_all hcs s = record s { hub = hcs.0; conns = hcs.1 }

-- The first of the joins that are still to complete
unfoldable pub resume : Env → List (ℕ × String) → Server → Server
unfolding on_state complete_join
resume env [] s = s
resume env ((socket, session_id) ∷ rest) s =
    on_state socket (complete_join env session_id) (record s { resuming = rest })

-- What an input does.
unfoldable pub apply_input : Env → Server → Input → Server
unfolding connect on_socket on_state handle_event answer_bad close on_pong beat resume each
    on_room_event on_session_event admits
apply_input env s (connects address) = connect env address s
apply_input env s (frame socket event) = on_state socket (handle_event env event) s
apply_input env s (bad_frame socket is_json) = on_socket socket (answer_bad is_json) s
apply_input env s (closes socket) = close (moment env) socket s
apply_input env s (pongs socket) = on_socket socket (on_pong (moment env)) s
apply_input env s beats = on_all (each beat s.hub s.conns) s
apply_input env s resumes = resume env s.resuming s
apply_input env s (room_event room_id event) =
    on_all (on_room_event (moment env) room_id event (s.hub, s.conns)) s
apply_input env s (session_event session_id event) =
    record (on_all (on_session_event (moment env) session_id event (s.hub, s.conns)) s) {
      resuming = s.resuming ++ map (λ socket. (socket, session_id)) (admits event s.conns);
    }
apply_input env s (elsewhere db documents presence misses) = record s {
  hub = record s.hub { db = db; documents = documents; presence = presence; misses = misses };
}

abbrev pub quiet : Server → Server
quiet s = record s { hub = record s.hub { outputs = [] } }

-- An input, whose outputs replace those before
unfoldable pub step : Env → Server → Input → Server
unfolding apply_input
step env s input = apply_input env (quiet s) input

unfoldable pub run : Server → List (Env × Input) → Server
unfolding step
run s [] = s
run s ((env, input) ∷ rest) = run (step env s input) rest

-- A replica that has just started
abbrev pub started : Database → Server
started db = record {
  hub = record {
    db = db;
    documents = λ r. [];
    rooms = [];
    sessions = [];
    presence = [];
    misses = [];
    outputs = [];
  };
  conns = [];
  left = [];
  per_address = [];
  resuming = [];
  next = 0;
}
