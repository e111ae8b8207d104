-- ===== src/Room/Identity.antt =====
-- client/src/state/roomReducer.ts: no message, upload or participant is shown twice.
use rmcollab_model.Common.{
  ℕ, zero, suc, String, Option, List, [], ◌∷◌, foldl, ◌==◌, arith, inl, inr, Bool-cases, not, All,
  All-filter, All-append,
}
use rmcollab_model.Common.Distinct.{
  Distinct, Distinct-filter, Distinct-snoc, Distinct-sort, Distinct-map, IsFresh-of_any,
}
use rmcollab_model.Shared.Domain.{
  Participant, ChatMessage, MediaItem, MediaItemWithJob, EnhancementJob,
}
use rmcollab_model.Shared.Events.{
  ServerEvent, room_state, participant_joined, participant_left, chat_message, media_uploaded,
  media_updated, media_deleted, chat_message_deleted, participant_removed, job_status_update,
  job_complete, RemovalScope, JobUpdate, JobCompletion,
}
use rmcollab_model.Room.State.{
  RoomState, RoomAction, server_event, room_requested, initial_room_state,
}
use rmcollab_model.Room.Jobs.{update_job, complete_job}
use rmcollab_model.Room.Apply.{
  take_snapshot, join_participant, ask_admission, settle_admission, decide_admission,
  delete_message, set_documents, remove_participant, part_participant, add_message, set_typing,
  add_media, update_media, delete_media, delete_room, update_job_of, complete_job_of, replace_media,
  chat_le, media_le,
}
use rmcollab_model.Room.Reducer.{
  apply_case, apply_to_depth, apply_server_event, is_to_hold, events_of, request_room, room_reducer,
}
use rmcollab_model.Room.Coherence.{run}
use rmcollab_model.Room.Ids.{
  message_id, upload_id, person_id, upsert-Distinct, patch_job-Distinct, replace_media-id,
}

-- A snapshot lists each message, upload and participant once. No other event lists any.
abbrev pub IsPlain : ServerEvent → Type 0
IsPlain (room_state room_id participants history media) =
    Distinct person_id participants × Distinct message_id history × Distinct upload_id media
IsPlain _ = Unit

pub record HasUniqueIds (s : RoomState) : Type 0 where
  pub people : Distinct person_id s.participants
  pub messages : Distinct message_id s.chat
  pub uploads : Distinct upload_id s.media
  pub held : All IsPlain s.held_events

join_participant-ids :
    (s : RoomState) (r : String) (p : Participant)
    → HasUniqueIds s
    → HasUniqueIds (join_participant s r p)
unfolding join_participant
join_participant-ids s r p u = ground (arith, upsert-Distinct s.participants p u.people)

delete_message-ids :
    (s : RoomState) (r m : String) → HasUniqueIds s → HasUniqueIds (delete_message s r m)
unfolding delete_message
delete_message-ids s r m u =
    ground
      (arith, Distinct-filter message_id (λ (c : ChatMessage). not (c.id == m)) s.chat u.messages)

part_participant-ids :
    (s : RoomState) (r p : String) → HasUniqueIds s → HasUniqueIds (part_participant s r p)
unfolding part_participant
part_participant-ids s r p u = ground (
  arith,
  Distinct-filter person_id (λ (q : Participant). not (q.id == p)) s.participants u.people,
)

remove_participant-ids :
    (now : ℕ) (s : RoomState) (r p : String) (scope : RemovalScope) (by_name : String)
    → HasUniqueIds s
    → HasUniqueIds (remove_participant now s r p scope by_name)
unfolding remove_participant
remove_participant-ids now s r p scope by_name u = ground (
  arith,
  Distinct-filter person_id (λ (q : Participant). not (q.id == p)) s.participants u.people,
)

add_message-ids :
    (s : RoomState) (r : String) (m : ChatMessage)
    → HasUniqueIds s
    → HasUniqueIds (add_message s r m)
unfolding add_message
add_message-ids s r m u =
    ground (arith, Distinct-snoc message_id s.chat m, IsFresh-of_any message_id m.id s.chat)

add_media-ids :
    (s : RoomState) (r : String) (item : MediaItem) (job : EnhancementJob)
    → HasUniqueIds s
    → HasUniqueIds (add_media s r item job)
unfolding add_media
add_media-ids s r item job u = ground (arith, IsFresh-of_any upload_id item.id s.media)

update_media-ids :
    (s : RoomState) (r : String) (item : MediaItem) (job : Option EnhancementJob)
    → HasUniqueIds s
    → HasUniqueIds (update_media s r item job)
unfolding update_media
update_media-ids s r item job u = ground (
  arith,
  Distinct-map upload_id (replace_media item job) (replace_media-id item job) s.media u.uploads,
)

delete_media-ids :
    (s : RoomState) (r m : String) → HasUniqueIds s → HasUniqueIds (delete_media s r m)
unfolding delete_media
delete_media-ids s r m u = ground (
  arith,
  Distinct-filter upload_id (λ (x : MediaItemWithJob). not (x.media_item.id == m)) s.media
      u.uploads,
)

update_job_of-ids :
    (now : ℕ) (s : RoomState) (r : String) (e : JobUpdate)
    → HasUniqueIds s
    → HasUniqueIds (update_job_of now s r e)
unfolding update_job_of
update_job_of-ids now s r e u =
    ground (arith, patch_job-Distinct e.media_item_id (update_job now e) s.media u.uploads)

complete_job_of-ids :
    (now : ℕ) (s : RoomState) (r : String) (e : JobCompletion)
    → HasUniqueIds s
    → HasUniqueIds (complete_job_of now s r e)
unfolding complete_job_of
complete_job_of-ids now s r e u =
    ground (arith, patch_job-Distinct e.media_item_id (complete_job now e) s.media u.uploads)

take_snapshot-ids :
    (s : RoomState) (r : String) (ps : List Participant) (cs : List ChatMessage)
    (ms : List MediaItemWithJob)
    → IsPlain (room_state r ps cs ms)
    → HasUniqueIds (take_snapshot s r ps cs ms)
unfolding take_snapshot
take_snapshot-ids s r ps cs ms h = record {
  people = h.0;
  messages = Distinct-sort message_id chat_le cs h.1;
  uploads = Distinct-sort upload_id media_le ms h.2;
  held = tt;
}

abbrev KeepsIds : (RoomState → ServerEvent → RoomState) → Type 0
KeepsIds f = (s : RoomState) (e : ServerEvent) → IsPlain e → HasUniqueIds s → HasUniqueIds (f s e)

foldl-ids :
    (f : RoomState → ServerEvent → RoomState) (s : RoomState) (es : List ServerEvent)
    → KeepsIds f
    → All IsPlain es
    → HasUniqueIds s
    → HasUniqueIds (foldl f s es)
foldl-ids f s [] k h u = u
foldl-ids f s (e ∷ es) k h u = foldl-ids f (f s e) es k h.1 (k s e h.0 u)

apply_case-ids :
    (again : RoomState → ServerEvent → RoomState) (now : ℕ)
    → KeepsIds again
    → KeepsIds (apply_case again now)
unfolding apply_case set_typing delete_room ask_admission settle_admission decide_admission
    set_documents
apply_case-ids again now k s (room_state r ps cs ms) h u =
    foldl-ids again (take_snapshot s r ps cs ms) (events_of r s.held_events) k
      (All-filter IsPlain _ s.held_events u.held) (take_snapshot-ids s r ps cs ms h)
apply_case-ids again now k s (participant_joined r p) h u = join_participant-ids s r p u
apply_case-ids again now k s (participant_left r p) h u = part_participant-ids s r p u
apply_case-ids again now k s (participant_removed r p c b) h u =
    remove_participant-ids now s r p c b u
apply_case-ids again now k s (chat_message r m) h u = add_message-ids s r m u
apply_case-ids again now k s (chat_message_deleted r m) h u = delete_message-ids s r m u
apply_case-ids again now k s (media_uploaded r i j) h u = add_media-ids s r i j u
apply_case-ids again now k s (media_updated r i j) h u = update_media-ids s r i j u
apply_case-ids again now k s (media_deleted r i) h u = delete_media-ids s r i u
apply_case-ids again now k s (job_status_update r e) h u = update_job_of-ids now s r e u
apply_case-ids again now k s (job_complete r e) h u = complete_job_of-ids now s r e u
apply_case-ids again now k s e h u = ground arith

apply_to_depth-ids : (d now : ℕ) → KeepsIds (apply_to_depth d now)
unfolding apply_to_depth
apply_to_depth-ids zero now s e h u = u
apply_to_depth-ids (suc d) now s e h u = elim (Bool-cases (is_to_hold s e)) [
  | inl held ↦ rw held (record {
    people = u.people;
    messages = u.messages;
    uploads = u.uploads;
    held = All-append IsPlain s.held_events (e ∷ []) u.held (h, tt);
  })
  | inr other ↦
      rw other (apply_case-ids (apply_to_depth d now) now (apply_to_depth-ids d now) s e h u)
]

request_room-ids :
    (s : RoomState) (room_id : String) → HasUniqueIds s → HasUniqueIds (request_room s room_id)
unfolding request_room
request_room-ids s room_id u = ground arith

-- The snapshot that an action brings lists nothing twice.
abbrev pub IsPlainAction : RoomAction → Type 0
IsPlainAction (server_event e) = IsPlain e
IsPlainAction _ = Unit

-- Every action keeps the ids of people, messages and uploads different.
pub room_reducer-HasUniqueIds :
    (now : ℕ) (s : RoomState) (a : RoomAction)
    → IsPlainAction a
    → HasUniqueIds s
    → HasUniqueIds (room_reducer now s a)
unfolding room_reducer apply_server_event
room_reducer-HasUniqueIds now s (server_event e) h u = apply_to_depth-ids 2 now s e h u
room_reducer-HasUniqueIds now s (room_requested room_id) h u = request_room-ids s room_id u
room_reducer-HasUniqueIds now s a h u = ground arith

-- From the initial state, every sequence of actions, at any times, leads to a state that shows no
-- person, message or upload twice, if no snapshot among them lists one twice.
pub run-HasUniqueIds :
    (as' : List (ℕ × RoomAction))
    → All (λ (a : ℕ × RoomAction). IsPlainAction a.1) as'
    → HasUniqueIds (run initial_room_state as')
unfolding run
run-HasUniqueIds as' h =
    run_from as' initial_room_state h
      (record { people = tt; messages = tt; uploads = tt; held = tt })
  where
    run_from :
        (bs : List (ℕ × RoomAction)) (s : RoomState)
        → All (λ (a : ℕ × RoomAction). IsPlainAction a.1) bs
        → HasUniqueIds s
        → HasUniqueIds (run s bs)
    run_from [] s k u = u
    run_from ((now, a) ∷ bs) s k u =
        run_from bs (room_reducer now s a) k.1 (room_reducer-HasUniqueIds now s a k.0 u)
