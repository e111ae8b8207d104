-- ===== src/Shared/Events.antt =====
-- shared/src/events.ts: the events that the gateway sends to a browser, and the queue of each media
-- type. A field that may be absent is an `Option`.
use rmcollab_model.Common.{ℕ, String, Bool, Option, List}
use rmcollab_model.Shared.Domain.{
  MediaType, JobStatus, Session, Room, Participant, ChatMessage, MediaItem, MediaItemWithJob,
  EnhancementJob, Artifact, RoomDocument,
}
use rmcollab_model.Shared.Domain

-- A number of JavaScript: a finite one has a sign and a size in units of 2 ^ -1074.
pub data JsNumber : Type 0 where
  not_a_number : JsNumber
  infinity : (negative : Bool) → JsNumber
  finite : (negative : Bool) → ℕ → JsNumber

-- "queued" | "processing", of an update
pub data RunStatus : Type 0 where
  queued processing : RunStatus

-- "done" | "failed", of a completion
pub data EndStatus : Type 0 where
  done failed : EndStatus

abbrev pub run_status : RunStatus → JobStatus
run_status queued = JobStatus.queued
run_status processing = JobStatus.processing

abbrev pub end_status : EndStatus → JobStatus
end_status EndStatus.done = JobStatus.done
end_status EndStatus.failed = JobStatus.failed

pub data RemovalScope : Type 0 where
  room session : RemovalScope

-- Somebody in the waiting room.
pub record Waiter : Type 0 where
  pub id : String
  pub display_name : String

pub record JobUpdate : Type 0 where
  pub job_id : String
  pub media_item_id : String
  pub status : RunStatus
  pub progress : JsNumber
  pub message : Option String

pub record JobCompletion : Type 0 where
  pub job_id : String
  pub media_item_id : String
  pub status : EndStatus
  pub artifacts : List Artifact
  pub message : Option String
  pub error : Option String

-- Why an answer could not be written.
pub data AskFallback : Type 0 where
  no_model quota failed timeout rate_limited : AskFallback

pub data SourceKind : Type 0 where
  transcript summary document notes : SourceKind

-- One passage that an answer may cite.
pub record AskSource : Type 0 where
  pub n : ℕ
  pub kind : SourceKind
  pub title : String
  pub excerpt : String
  pub media_item_id : Option String
  pub artifact_id : Option String
  pub at_seconds : Option ℕ
  pub notes_key : Option String
  pub doc_id : Option String

-- The first argument of an event about one room is that room's id.
pub data ServerEvent : Type 0 where
  session_joined : Session → Participant → (rooms : List Room) → ServerEvent
  room_state :
      (room_id : String) → List Participant → List ChatMessage → List MediaItemWithJob → ServerEvent
  rooms_updated : (session_id : String) → List Room → ServerEvent
  participant_joined : (room_id : String) → Participant → ServerEvent
  participant_left : (room_id participant_id : String) → ServerEvent
  chat_message : (room_id : String) → ChatMessage → ServerEvent
  typing : (room_id participant_id display_name : String) → (is_typing : Bool) → ServerEvent
  media_uploaded : (room_id : String) → MediaItem → EnhancementJob → ServerEvent
  media_updated : (room_id : String) → MediaItem → Option EnhancementJob → ServerEvent
  media_deleted : (room_id media_item_id : String) → ServerEvent
  room_deleted : (room_id : String) → (room_name by_name : Option String) → ServerEvent
  session_updated : Session → ServerEvent
  admission_waiting :
      (session_name owner_name : Option String) → (owner_online : Option Bool) → ServerEvent
  admission_requested : (session_id : String) → Waiter → ServerEvent
  admission_decided :
      (session_id participant_id : String) → (admitted : Bool) → (by_name : String) → ServerEvent
  session_ended : (session_id by_name : String) → (room_ids : List String) → ServerEvent
  owner_changed : (session_id owner_id owner_name by_name : String) → ServerEvent
  chat_message_deleted : (room_id message_id : String) → ServerEvent
  admission_withdrawn : (session_id participant_id : String) → ServerEvent
  participant_removed :
      (room_id participant_id : String) → RemovalScope → (by_name : String) → ServerEvent
  job_status_update : (room_id : String) → JobUpdate → ServerEvent
  job_complete : (room_id : String) → JobCompletion → ServerEvent
  doc : (room_id payload : String) → (doc_id sender : Option String) → ServerEvent
  documents_updated : (room_id : String) → List RoomDocument → ServerEvent
  ask_sources : (request_id : String) → List AskSource → (standalone : Option String) → ServerEvent
  ask_delta : (request_id text : String) → ServerEvent
  ask_done :
      (request_id : String)
      → (cited : List ℕ) → Option AskFallback
      → (no_evidence : Option Bool) → (model : Option String) → ServerEvent
  pong : ServerEvent
  error : (code message : String) → ServerEvent

-- QUEUES
unfoldable pub queues : MediaType → String
queues Domain.text = "enhance.text"
queues Domain.image = "enhance.image"
queues Domain.audio = "enhance.audio"
queues Domain.video = "enhance.video"
