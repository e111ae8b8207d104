-- ===== src/Room/Apply.antt =====
-- client/src/state/roomReducer.ts: one function for each case of `applyServerEvent` that computes a
-- new state. `now` is what `Date.now()` answers during the action.
use rmcollab_model.Common.{
  ℕ, String, Bool, true, false, ◌&&◌, not, Option, none, some, List, [], ◌∷◌, ◌++◌, map, leb,
  if◌then◌else◌, ◌==◌, option_is, or_else, filter, any,
}
use rmcollab_model.Common.Sorting.{sort}
use rmcollab_model.Shared.Domain.{
  Participant, ChatMessage, MediaItem, MediaItemWithJob, EnhancementJob, RoomDocument,
}
use rmcollab_model.Shared.Events.{Waiter, RemovalScope, JobUpdate, JobCompletion}
use rmcollab_model.Room.State.{
  RoomState, Admission, waiting, denied, Typist, upsert_participant, is_current_room,
}
use rmcollab_model.Room.Jobs.{patch_job, update_job, complete_job}

-- The comparators of the snapshot: chat oldest first, uploads newest first.
abbrev pub chat_le : ChatMessage → ChatMessage → Bool
chat_le a b = leb a.created_at b.created_at

abbrev pub media_le : MediaItemWithJob → MediaItemWithJob → Bool
media_le a b = leb b.media_item.created_at a.media_item.created_at

-- "room_state", before the held events are replayed.
unfoldable pub take_snapshot :
    RoomState → String → List Participant → List ChatMessage → List MediaItemWithJob → RoomState
take_snapshot s room_id participants history media = record s {
  active_room_id = some room_id;
  synced = true;
  loaded_room_id = some room_id;
  held_events = [];
  last_error = none;
  participants = participants;
  documents = if option_is s.active_room_id room_id then s.documents else none;
  chat = sort chat_le history;
  media = sort media_le media;
}

unfoldable pub join_participant : RoomState → String → Participant → RoomState
join_participant s room_id p =
    if is_current_room s room_id
    then record s { participants = upsert_participant s.participants p }
    else s

unfoldable pub ask_admission : RoomState → Waiter → RoomState
ask_admission s w = if any (λ (p : Waiter). p.id == w.id) s.waiting_list then s else record s {
  waiting_list = s.waiting_list ++ w ∷ [];
  admission_decided = filter (λ (id : String). not (id == w.id)) s.admission_decided;
}

abbrev pub is_waiting : Option Admission → Bool
is_waiting (some (waiting n o b)) = true
is_waiting _ = false

-- "admission_withdrawn", and "admission_decided" for one who is in.
unfoldable pub settle_admission : RoomState → String → RoomState
settle_admission s participant_id = record s {
  waiting_list = filter (λ (p : Waiter). not (p.id == participant_id)) s.waiting_list;
  admission_decided = s.admission_decided ++ participant_id ∷ [];
}

unfoldable pub decide_admission : RoomState → String → Bool → String → RoomState
unfolding settle_admission
decide_admission s participant_id admitted by_name =
    if is_waiting s.admission
    then (if admitted then s else record s { admission = some (denied by_name) })
    else settle_admission s participant_id

unfoldable pub delete_message : RoomState → String → String → RoomState
delete_message s room_id message_id =
    if is_current_room s room_id
    then record s { chat = filter (λ (m : ChatMessage). not (m.id == message_id)) s.chat }
    else s

unfoldable pub set_documents : RoomState → String → List RoomDocument → RoomState
set_documents s room_id documents =
    if is_current_room s room_id then record s { documents = some documents } else s

abbrev pub is_me : RoomState → String → Bool
is_me s participant_id = elim s.me [ none ↦ false | some p ↦ p.id == participant_id ]

abbrev pub without_participant : String → List Participant → List Participant
without_participant participant_id ps =
    filter (λ (p : Participant). not (p.id == participant_id)) ps

unfoldable pub remove_participant :
    ℕ → RoomState → String → String → RemovalScope → String → RoomState
remove_participant now s room_id participant_id scope by_name =
    if is_me s participant_id
    then record s {
      removed = some (record { scope = scope; room_id = room_id; by_name = by_name; at = now });
    }
    else record s { participants = without_participant participant_id s.participants }

unfoldable pub part_participant : RoomState → String → String → RoomState
part_participant s room_id participant_id =
    if is_current_room s room_id
    then record s { participants = without_participant participant_id s.participants }
    else s

abbrev pub without_typist : String → List Typist → List Typist
without_typist participant_id ts =
    filter (λ (t : Typist). not (t.participant_id == participant_id)) ts

unfoldable pub add_message : RoomState → String → ChatMessage → RoomState
add_message s room_id m =
    if is_current_room s room_id
    then (if any (λ (c : ChatMessage). c.id == m.id) s.chat then s else record s {
      chat = s.chat ++ m ∷ [];
      typing = without_typist m.participant_id s.typing;
    })
    else s

-- A key that is there keeps its place; a new one goes to the end.
unfoldable pub set_typist : List Typist → Typist → List Typist
set_typist [] t = t ∷ []
set_typist (u ∷ ts) t = if u.participant_id == t.participant_id then t ∷ ts else u ∷ set_typist ts t

unfoldable pub set_typing : ℕ → RoomState → String → String → String → Bool → RoomState
set_typing now s room_id participant_id display_name is_typing =
    if is_current_room s room_id && not (is_me s participant_id)
    then (if is_typing
        then record s {
          typing =
              set_typist s.typing
                (record { participant_id = participant_id; display_name = display_name; at = now });
        }
        else record s { typing = without_typist participant_id s.typing })
    else s

unfoldable pub add_media : RoomState → String → MediaItem → EnhancementJob → RoomState
add_media s room_id item job =
    if is_current_room s room_id
    then (if any (λ (e : MediaItemWithJob). e.media_item.id == item.id) s.media
        then s
        else record s { media = record { media_item = item; job = some job } ∷ s.media })
    else s

abbrev pub job_or : Option EnhancementJob → Option EnhancementJob → Option EnhancementJob
job_or none old = old
job_or (some job) old = some job

abbrev pub replace_media : MediaItem → Option EnhancementJob → MediaItemWithJob → MediaItemWithJob
replace_media item job e =
    if e.media_item.id == item.id then record { media_item = item; job = job_or job e.job } else e

unfoldable pub update_media : RoomState → String → MediaItem → Option EnhancementJob → RoomState
update_media s room_id item job =
    if is_current_room s room_id
    then record s { media = map (replace_media item job) s.media }
    else s

unfoldable pub delete_media : RoomState → String → String → RoomState
delete_media s room_id media_item_id =
    if is_current_room s room_id
    then record s {
      media = filter (λ (e : MediaItemWithJob). not (e.media_item.id == media_item_id)) s.media;
    }
    else s

unfoldable pub delete_room : ℕ → RoomState → String → Option String → Option String → RoomState
delete_room now s room_id room_name by_name =
    if is_current_room s room_id
    then record s {
      media = [];
      chat = [];
      synced = false;
      loaded_room_id = none;
      room_deleted =
          some (record { name = or_else room_name "This room"; by_name = by_name; at = now });
    }
    else s

unfoldable pub update_job_of : ℕ → RoomState → String → JobUpdate → RoomState
update_job_of now s room_id e =
    if is_current_room s room_id
    then record s { media = patch_job s.media e.media_item_id (update_job now e) }
    else s

unfoldable pub complete_job_of : ℕ → RoomState → String → JobCompletion → RoomState
complete_job_of now s room_id e =
    if is_current_room s room_id
    then record s { media = patch_job s.media e.media_item_id (complete_job now e) }
    else s
