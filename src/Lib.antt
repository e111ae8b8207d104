-- ===== src/Lib.antt =====
-- A model of RMcollab: rooms in which people of a session share uploads, chat and notes, while worker
-- pools enhance what they upload. A gateway (gateway/src) keeps sessions in PostgreSQL and Redis and
-- sends events to the pages (client/src), which show a room from them; the types of both are in
-- shared/src.
--
-- Files and the code they model (paths from the repository's root):
--   Common: lists, sorting, Boolean tests; no code of the program.
--   Shared/Domain, Shared/Events: shared/src/domain.ts and shared/src/events.ts, the types used below.
--   Room: client/src/state/roomReducer.ts, the state of a page. State holds RoomState, RoomAction and
--     the small helpers, Jobs `isStale`, `patchJob` and the two patches, Apply one function for each
--     case of `applyServerEvent`, Reducer the event switch, the holding of events and `roomReducer`.
--   Queue/Fair, Queue/Routing: gateway/src/queue/fair.ts and gateway/src/queue/routing.ts.
--   Limits/Window, Limits/Upload: gateway/src/limits.ts.
--   JobEvents: gateway/src/jobs/eventConsumer.ts, with `updateJobFromEvent` of
--     gateway/src/db/repositories.ts.
--   Diff: client/src/lib/diff.ts, what a rewrite changed.
--   Access: who is in a session and in its rooms. Database holds the tables of
--     gateway/src/db/schema.sql, Sessions, Rooms and Changes the queries of
--     gateway/src/db/repositories.ts on them, one function for each, Moderation the requests of
--     owners in gateway/src/http/routes (manage.ts, sessions.ts, rooms.ts), and History any run of
--     the queries that change the tables.
--   Socket/Bucket, Socket/Registry, Socket/Presence: gateway/src/ws/rateLimit.ts, registry.ts and
--     presence.ts.
--   Socket/Server: gateway/src/ws/server.ts. Server holds the state of a connection and what the
--     handlers share, Rooms `leaveRoom` and `enterRoom`, Joining `handleJoinSession` and
--     `completeJoin`, Frames `withinLimits` and `handleEvent`, Told `onRoomEvent` and
--     `onSessionEvent`, Running the server as a whole, one input after the other.
--   Limits/Guesses: the session codes that do not exist, of gateway/src/limits.ts.
--   Uploads/Sniff: gateway/src/http/sniff.ts.
--   Webhooks/Delivery: gateway/src/webhooks/delivery.ts, with the row that
--     gateway/src/db/repositories.ts writes.
--
-- The events of the gateway reach the page through `room_reducer`; `fair_order` orders the jobs that
-- `queue_for` sent to one pool's queue; an upload passes `check_upload` before its row is inserted by
-- `with_storage_reserved`. The socket server enters a person into a room by `resolve_room_access` on
-- the tables, takes their frames' tokens from the buckets, and keeps its sockets in the registries;
-- what the owners' requests publish comes to it as events of a room or a session.
--
-- Choices:
--   Times, counts and sizes are native numbers. `Date.now()` and `Math.random()` are arguments. A
--     number that the page receives is JsNumber: not a number, an infinity, or one of the finite
--     numbers in units of 2 ^ -1074, in which each of them is whole.
--   Sorted sets of Redis, the locale's order of strings, the patterns of the diff, the decoding of
--     UTF-8 and the answers of receivers are parameters.
--   `applyServerEvent` calls itself on held events. The model follows that call to a depth that is
--     shown to be enough, since no held event is a snapshot.
--   A query is a function on the tables, which are lists of rows, and does to them what the
--     statement and the schema's cascades say. Fresh ids, the codes that are drawn and the time are
--     arguments. Ids are not empty texts.
--   A handler of the socket server runs to its end before the next input, where the code may put other
--     work between two queries. The frames in the queue of a socket that has closed are still handled,
--     on the state that the socket left. What becomes of the calls on presence, which may fail, is one
--     for all those of a handler. Requests and other replicas change the tables, the presence and the
--     counts of wrong codes between inputs at will. An answer's body is left out of a request, but for
--     its status and error.
--   A replica that handles an entry of the stream of job events updates the row in one step and reads
--     it back in another, between which other replicas' steps may come.
--
-- Not modelled: the other queries, other than what the modelled code reads from and writes to its
-- rows; the room's documents and the answering of questions, whose calls the socket server lists;
-- the views; files, sockets and brokers; the Python workers.
pub mod Access
pub mod Common
pub mod Diff
pub mod JobEvents
pub mod Limits
pub mod Queue
pub mod Room
pub mod Shared
pub mod Socket
pub mod Uploads
pub mod Webhooks
