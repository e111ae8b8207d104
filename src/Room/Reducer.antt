-- ===== src/Room/Reducer.antt =====
-- client/src/state/roomReducer.ts: `applyServerEvent` and `roomReducer`. The source's function calls
-- itself on the held events of a snapshot; here that call is passed in, and unrolled by depth.
use rmcollab_model.Common.{
  ℕ, zero, suc, String, Bool, true, false, ◌&&◌, not, Option, none, some, List, [], ◌∷◌, ◌++◌,
  foldl, ltb, leb, if◌then◌else◌, ◌==◌, option_is, or_else, filter, length,
}
use rmcollab_model.Shared.Events.{
  ServerEvent, session_joined, room_state, rooms_updated, participant_joined, participant_left,
  chat_message, typing, media_uploaded, media_updated, media_deleted, room_deleted, session_updated,
  admission_waiting, admission_requested, admission_decided, session_ended, owner_changed,
  chat_message_deleted, admission_withdrawn, participant_removed, job_status_update, job_complete,
  doc, documents_updated, ask_sources, ask_delta, ask_done, pong, error,
}
use rmcollab_model.Room.State.{
  RoomState, RoomAction, server_event, invalid_event, room_requested, connection_lost, clear_error,
  prune_typing, reset, Typist, waiting, sort_rooms, initial_room_state,
}
use rmcollab_model.Room.Apply.{
  take_snapshot, join_participant, ask_admission, settle_admission, decide_admission,
  delete_message, set_documents, remove_participant, part_participant, add_message, set_typing,
  add_media, update_media, delete_media, delete_room, update_job_of, complete_job_of,
}

-- HELD_UNTIL_SNAPSHOT
abbrev pub is_held_kind : ServerEvent → Bool
is_held_kind (participant_joined r p) = true
is_held_kind (participant_left r p) = true
is_held_kind (chat_message r m) = true
is_held_kind (chat_message_deleted r m) = true
is_held_kind (media_uploaded r i j) = true
is_held_kind (media_updated r i j) = true
is_held_kind (media_deleted r i) = true
is_held_kind (job_status_update r u) = true
is_held_kind (job_complete r c) = true
is_held_kind (documents_updated r d) = true
is_held_kind _ = false

-- The event's `roomId`, where it has one.
abbrev pub room_of : ServerEvent → Option String
room_of (room_state r ps cs ms) = some r
room_of (participant_joined r p) = some r
room_of (participant_left r p) = some r
room_of (chat_message r m) = some r
room_of (typing r p n b) = some r
room_of (media_uploaded r i j) = some r
room_of (media_updated r i j) = some r
room_of (media_deleted r i) = some r
room_of (room_deleted r n b) = some r
room_of (chat_message_deleted r m) = some r
room_of (participant_removed r p c b) = some r
room_of (job_status_update r u) = some r
room_of (job_complete r c) = some r
room_of (doc r p d f) = some r
room_of (documents_updated r d) = some r
room_of _ = none

-- MAX_HELD
abbrev pub max_held : ℕ
max_held = 500

-- `event.roomId === roomId`, of an event and an id that may be missing.
abbrev pub same_room : Option String → Option String → Bool
same_room none r = false
same_room (some r) none = false
same_room (some r) (some q) = r == q

abbrev pub is_to_hold : RoomState → ServerEvent → Bool
is_to_hold s e =
    not s.synced
    && is_held_kind e
    && same_room (room_of e) s.active_room_id
    && ltb (length s.held_events) max_held

abbrev pub events_of : String → List ServerEvent → List ServerEvent
events_of room_id events = filter (λ (e : ServerEvent). option_is (room_of e) room_id) events

-- The switch; `again` is the function itself.
unfoldable pub apply_case :
    (RoomState → ServerEvent → RoomState) → ℕ → RoomState → ServerEvent → RoomState
apply_case again now s (session_joined session participant rooms) = record s {
  admission = none;
  session = some session;
  me = some participant;
  rooms = sort_rooms rooms;
}
apply_case again now s (rooms_updated session_id rooms) = record s { rooms = sort_rooms rooms }
apply_case again now s (room_state room_id participants history media) =
    foldl again (take_snapshot s room_id participants history media)
      (events_of room_id s.held_events)
apply_case again now s (error code message) = record s {
  last_error = some (record { code = code; message = message; at = now });
}
apply_case again now s pong = s
apply_case again now s (participant_joined room_id p) = join_participant s room_id p
apply_case again now s (session_updated session) = record s { session = some session }
apply_case again now s (admission_waiting session_name owner_name owner_online) = record s {
  admission = some (waiting session_name owner_name (or_else owner_online true));
}
apply_case again now s (admission_requested session_id w) = ask_admission s w
apply_case again now s (admission_decided session_id participant_id admitted by_name) =
    decide_admission s participant_id admitted by_name
apply_case again now s (session_ended session_id by_name room_ids) = record s {
  ended = some (record { by_name = by_name; at = now });
}
apply_case again now s (owner_changed session_id owner_id owner_name by_name) = record s {
  owner_change =
      some (record { owner_id = owner_id; owner_name = owner_name; by_name = by_name; at = now });
}
apply_case again now s (chat_message_deleted room_id message_id) =
    delete_message s room_id message_id
apply_case again now s (admission_withdrawn session_id participant_id) =
    settle_admission s participant_id
apply_case again now s (documents_updated room_id documents) = set_documents s room_id documents
apply_case again now s (participant_removed room_id participant_id scope by_name) =
    remove_participant now s room_id participant_id scope by_name
apply_case again now s (participant_left room_id participant_id) =
    part_participant s room_id participant_id
apply_case again now s (chat_message room_id m) = add_message s room_id m
apply_case again now s (typing room_id participant_id display_name is_typing) =
    set_typing now s room_id participant_id display_name is_typing
apply_case again now s (media_uploaded room_id item job) = add_media s room_id item job
apply_case again now s (media_updated room_id item job) = update_media s room_id item job
apply_case again now s (media_deleted room_id media_item_id) = delete_media s room_id media_item_id
apply_case again now s (room_deleted room_id room_name by_name) =
    delete_room now s room_id room_name by_name
apply_case again now s (job_status_update room_id u) = update_job_of now s room_id u
apply_case again now s (job_complete room_id c) = complete_job_of now s room_id c
apply_case again now s (doc room_id payload doc_id sender) = s
apply_case again now s (ask_sources request_id sources standalone) = s
apply_case again now s (ask_delta request_id text) = s
apply_case again now s (ask_done request_id cited fallback no_evidence model) = s

-- An event of the room being entered waits for the snapshot; any other is applied.
unfoldable pub apply_with :
    (RoomState → ServerEvent → RoomState) → ℕ → RoomState → ServerEvent → RoomState
apply_with again now s e =
    if is_to_hold s e
    then record s { held_events = s.held_events ++ e ∷ [] }
    else apply_case again now s e

-- The function with its own calls followed to a depth.
unfoldable pub apply_to_depth : ℕ → ℕ → RoomState → ServerEvent → RoomState
unfolding apply_with
apply_to_depth zero now s e = s
apply_to_depth (suc depth) now s e = apply_with (apply_to_depth depth now) now s e

-- A held event is no snapshot, so one call within the first is enough.
unfoldable pub apply_server_event : ℕ → RoomState → ServerEvent → RoomState
unfolding apply_to_depth
apply_server_event now s e = apply_to_depth 2 now s e

unfoldable pub request_room : RoomState → String → RoomState
request_room s room_id =
    if option_is s.active_room_id room_id
    then (if s.synced then s else record s {
      synced = false;
      loaded_room_id = if option_is s.loaded_room_id room_id then s.loaded_room_id else none;
    })
    else record s {
      active_room_id = some room_id;
      synced = false;
      loaded_room_id = if option_is s.loaded_room_id room_id then s.loaded_room_id else none;
      held_events = [];
      participants = [];
      chat = [];
      media = [];
      typing = [];
    }

abbrev is_empty : List Typist → Bool
is_empty [] = true
is_empty (t ∷ ts) = false

-- Where the source answers with the state object itself, the state here is an equal one.
unfoldable pub room_reducer : ℕ → RoomState → RoomAction → RoomState
room_reducer now s (server_event e) = apply_server_event now s e
room_reducer now s (invalid_event reason) = record s {
  last_error = some (record { code = "invalid_server_event"; message = reason; at = now });
}
room_reducer now s (room_requested room_id) = request_room s room_id
room_reducer now s connection_lost =
    if not s.synced && is_empty s.typing then s else record s { synced = false; typing = [] }
room_reducer now s (prune_typing older_than) = record s {
  typing = filter (λ (t : Typist). leb older_than t.at) s.typing;
}
room_reducer now s clear_error = record s { last_error = none }
room_reducer now s reset = initial_room_state
