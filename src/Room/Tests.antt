-- ===== src/Room/Tests.antt =====
-- The room reducer at concrete inputs.
use rmcollab_model.Common.{
  ◌≤◌, ◌≡◌, refl, true, false, none, some, [], ◌∷◌, arith, Pointwise, foldl,
}
use rmcollab_model.Shared.Domain.{
  Participant, ChatMessage, MediaItem, EnhancementJob, audio, JobStatus,
}
use rmcollab_model.Shared.Events.{
  ServerEvent, room_state, participant_joined, chat_message, job_status_update, job_complete,
  JobUpdate, JobCompletion, RunStatus, EndStatus, finite,
}
use rmcollab_model.Room.State.{RoomState, room_requested, server_event, initial_room_state}
use rmcollab_model.Room.Jobs.{one, update_job, patch_job, is_stale}
use rmcollab_model.Room.Apply.{take_snapshot, update_job_of}
use rmcollab_model.Room.Reducer.{
  apply_case, apply_server_event, apply_to_depth, room_reducer, request_room,
}
use rmcollab_model.Room.Progress.{update-Advances, completion-Advances, EntryAdvances}
use rmcollab_model.Room.Holding.{hold-then-snapshot, arrive}
use rmcollab_model.Room.Coherence.{
  IsCoherent, run, run-IsCoherent, initial-IsCoherent, apply_to_depth_enough,
}
use rmcollab_model.Room.Identity.{run-HasUniqueIds, HasUniqueIds}
use rmcollab_model.Room.Isolation.{foreign-SameContents, SameContents}

abbrev alice : Participant
alice = record {
  id = "p1";
  session_id = "s1";
  display_name = "Alice";
  current_room_id = some "r1";
  connected = true;
  joined_at = 5;
}

abbrev bob : Participant
bob = record {
  id = "p2";
  session_id = "s1";
  display_name = "Bob";
  current_room_id = some "r1";
  connected = true;
  joined_at = 6;
}

abbrev hello : ChatMessage
hello = record {
  id = "m1";
  room_id = "r1";
  participant_id = "p2";
  display_name = "Bob";
  body = "hello";
  created_at = 9;
}

abbrev lecture : MediaItem
lecture = record {
  id = "u1";
  room_id = "r1";
  uploader_id = "p1";
  uploader_name = "Alice";
  media_type = audio;
  original_filename = some "lecture.mp3";
  title = none;
  original_url = "/files/u1";
  mime_type = some "audio/mpeg";
  size_bytes = some 4096;
  created_at = 7;
}

abbrev finished_job : EnhancementJob
finished_job = record {
  id = "j1";
  media_item_id = "u1";
  media_type = audio;
  strategy = "transcribe";
  status = JobStatus.done;
  progress = 8;
  message = none;
  artifacts = [];
  error = none;
  attempt_count = 1;
  created_at = 7;
  started_at = some 8;
  completed_at = some 9;
}

abbrev late_update : JobUpdate
late_update = record {
  job_id = "j1";
  media_item_id = "u1";
  status = RunStatus.processing;
  progress = finite false 3;
  message = none;
}

abbrev completion : JobCompletion
completion = record {
  job_id = "j1";
  media_item_id = "u1";
  status = EndStatus.failed;
  artifacts = [];
  message = none;
  error = some "lost";
}

abbrev snapshot : ServerEvent
snapshot =
    room_state "r1" (alice ∷ []) [] (record { media_item = lecture; job = some finished_job } ∷ [])

-- The page has asked for the room.
abbrev asked : RoomState
asked = record initial_room_state { active_room_id = some "r1" }

-- And has its snapshot.
abbrev inside : RoomState
inside = record asked {
  synced = true;
  loaded_room_id = some "r1";
  participants = alice ∷ [];
  media = record { media_item = lecture; job = some finished_job } ∷ [];
}

entered : apply_server_event 10 asked snapshot ≡ inside
unfolding apply_server_event apply_case take_snapshot
entered = refl

asked_by_request : room_reducer 1 initial_room_state (room_requested "r1") ≡ asked
unfolding room_reducer request_room
asked_by_request = refl

late_update_ignored : (apply_server_event 10 inside (job_status_update "r1" late_update)) ≡ inside
unfolding apply_server_event apply_case update_job_of patch_job update_job is_stale
late_update_ignored = refl

hold-then-snapshot_example :
    apply_server_event 10
      (arrive asked ((2, chat_message "r1" hello) ∷ (3, participant_joined "r1" bob) ∷ []))
      snapshot
    ≡ foldl
        (apply_server_event 10)
        (apply_server_event 10 asked snapshot)
        (chat_message "r1" hello ∷ participant_joined "r1" bob ∷ [])
hold-then-snapshot_example =
    hold-then-snapshot 10 asked "r1"
      ((2, chat_message "r1" hello) ∷ (3, participant_joined "r1" bob) ∷ []) (alice ∷ []) []
      (record { media_item = lecture; job = some finished_job } ∷ []) refl refl refl refl
      (omega arith)

update-Advances_example :
    Pointwise EntryAdvances inside.media
      (apply_server_event 10 inside (job_status_update "r1" late_update)).media
update-Advances_example = update-Advances 10 inside "r1" late_update

one_large : 8 ≤ one
unfolding one
one_large = omega arith

completion-Advances_example :
    Pointwise EntryAdvances inside.media
      (apply_server_event 10 inside (job_complete "r1" completion)).media
completion-Advances_example = completion-Advances 10 inside "r1" completion (one_large, tt)

run-IsCoherent_example :
    IsCoherent (run initial_room_state ((1, room_requested "r1") ∷ (2, server_event snapshot) ∷ []))
run-IsCoherent_example =
    run-IsCoherent initial_room_state ((1, room_requested "r1") ∷ (2, server_event snapshot) ∷ [])
      initial-IsCoherent

run-HasUniqueIds_example : HasUniqueIds (
    run initial_room_state (
      (1, room_requested "r1")
      ∷ (2, server_event (chat_message "r1" hello))
      ∷ (3, server_event snapshot)
      ∷ (4, server_event (chat_message "r1" hello))
      ∷ []))
run-HasUniqueIds_example =
    run-HasUniqueIds
      ((1, room_requested "r1")
        ∷ (2, server_event (chat_message "r1" hello))
        ∷ (3, server_event snapshot)
        ∷ (4, server_event (chat_message "r1" hello))
        ∷ [])
      (tt, (tt, (((tt, tt), tt, (tt, tt)), (tt, tt))))

apply_to_depth_enough_example :
    apply_to_depth 4 9 asked snapshot ≡ apply_server_event 9 asked snapshot
apply_to_depth_enough_example =
    apply_to_depth_enough 2 9 asked snapshot
      (record { quiet = λ e. refl; of_room = refl; bounded = omega arith })

foreign-SameContents_example :
    SameContents inside (apply_server_event 9 inside (chat_message "r2" hello))
foreign-SameContents_example =
    foreign-SameContents 9 inside (chat_message "r2" hello) "r2" refl refl refl
