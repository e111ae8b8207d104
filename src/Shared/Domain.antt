-- ===== src/Shared/Domain.antt =====
-- shared/src/domain.ts. `T | null` is `Option T`; an artifact's `meta`, which the code modelled
-- here carries unread, is the text of its JSON. A job's progress counts units of 2 ^ -1074, of which
-- every finite floating-point number is a multiple, so no rounding is left out.
use rmcollab_model.Common.{ℕ, String, Bool, true, false, Option, List}

pub data MediaType : Type 0 where
  text image audio video : MediaType

abbrev pub media_eq : MediaType → MediaType → Bool
media_eq text text = true
media_eq image image = true
media_eq audio audio = true
media_eq video video = true
media_eq _ _ = false

pub data JobStatus : Type 0 where
  queued processing done failed : JobStatus

pub record Session : Type 0 where
  pub id : String
  pub code : String
  pub name : Option String
  pub created_at : ℕ
  pub waiting_room : Bool
  pub kept : Bool
  pub retention_days : ℕ

pub record Room : Type 0 where
  pub id : String
  pub session_id : String
  pub name : String
  pub is_main : Bool
  pub is_locked : Bool
  pub owner_id : Option String
  pub created_at : ℕ

pub record Participant : Type 0 where
  pub id : String
  pub session_id : String
  pub display_name : String
  pub current_room_id : Option String
  pub connected : Bool
  pub joined_at : ℕ

pub record ChatMessage : Type 0 where
  pub id : String
  pub room_id : String
  pub participant_id : String
  pub display_name : String
  pub body : String
  pub created_at : ℕ

pub record MediaItem : Type 0 where
  pub id : String
  pub room_id : String
  pub uploader_id : String
  pub uploader_name : String
  pub media_type : MediaType
  pub original_filename : Option String
  pub title : Option String
  pub original_url : String
  pub mime_type : Option String
  pub size_bytes : Option ℕ
  pub created_at : ℕ

pub data ArtifactKind : Type 0 where
  enhanced transcript summary : ArtifactKind

pub record Artifact : Type 0 where
  pub id : String
  pub job_id : String
  pub kind : ArtifactKind
  pub label : String
  pub url : String
  pub mime_type : Option String
  pub size_bytes : Option ℕ
  pub meta : String
  pub created_at : ℕ

pub record EnhancementJob : Type 0 where
  pub id : String
  pub media_item_id : String
  pub media_type : MediaType
  pub strategy : String
  pub status : JobStatus
  pub progress : ℕ
  pub message : Option String
  pub artifacts : List Artifact
  pub error : Option String
  pub attempt_count : ℕ
  pub created_at : ℕ
  pub started_at : Option ℕ
  pub completed_at : Option ℕ

pub record MediaItemWithJob : Type 0 where
  pub media_item : MediaItem
  pub job : Option EnhancementJob

pub record StrategyDescriptor : Type 0 where
  pub media_type : MediaType
  pub name : String
  pub label : String
  pub description : String
  pub is_default : Bool
  pub available : Bool
  pub unavailable_reason : Option String

pub record RoomDocument : Type 0 where
  pub id : String
  pub room_id : String
  pub title : String
  pub is_main : Bool
  pub created_by : Option String
  pub created_by_name : Option String
  pub created_at : ℕ
  pub updated_at : ℕ
