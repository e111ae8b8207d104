-- ===== src/Limits/Upload/Tests.antt =====
-- Uploads at small limits.
use rmcollab_model.Common.{◌≡◌, refl, true, false, not, ◌&&◌, [], ◌∷◌, foldl, arith}
use rmcollab_model.Limits.Window.Tests.{sorted_times, empty}
use rmcollab_model.Limits.Upload.{
  Limits, Upload, usage_of, with_storage_reserved, throws, answers, Counters, Calls, check_rates,
  check_upload, counted, usage_refusal, storage_refusal,
}
use rmcollab_model.Limits.Upload.Refusals.{check_upload-exact, is_none, is_limited, has_room}
use rmcollab_model.Limits.Upload.Storage.{Fits, uploaded, deleted, step, run-Fits}

abbrev small : Limits
small = record {
  uploads_per_person_per_minute = 2;
  uploads_per_person_per_hour = 5;
  uploads_per_session_per_hour = 9;
  active_jobs_per_session = 3;
  room_storage_bytes = 100;
  session_storage_bytes = 150;
  code_misses_per_10_minutes = 5;
  demos_per_address_per_hour = 1;
  sessions_per_address_per_hour = 1;
}

abbrev photo : Upload
photo = record { participant_id = "p"; session_id = "s"; room_id = "r"; bytes = 60 }

abbrev counters : Counters sorted_times
counters = record { minute = empty; hour = empty; session = empty }

abbrev outage : Calls sorted_times
outage = record { minute = throws empty; hour = throws empty; session = throws empty }

-- The second photo does not fit in the room.
second_refused :
    (with_storage_reserved small photo
      (record { session = "s"; room = "r"; size_bytes = 60 } ∷ [])
      []).0
    ≡ record { session = "s"; room = "r"; size_bytes = 60 } ∷ []
unfolding with_storage_reserved
second_refused = refl

empty-Fits : Fits small []
empty-Fits s r = (omega arith, omega arith)

run-Fits_example :
    Fits small
      (foldl (step small) [] (uploaded photo [] ∷ uploaded photo [] ∷ deleted (λ m. false) ∷ []))
run-Fits_example =
    run-Fits small (uploaded photo [] ∷ uploaded photo [] ∷ deleted (λ m. false) ∷ []) [] empty-Fits

-- Redis fails at the second count.
abbrev failing : Calls sorted_times
failing = record { minute = answers 100000; hour = throws empty; session = throws empty }

check_upload-exact_example :
    is_none (check_upload sorted_times small counters failing photo [] []).1 ≡ (
      not (is_limited sorted_times small counters failing)
      && has_room small (usage_of [] [] "s" "r") 60)
check_upload-exact_example = check_upload-exact sorted_times small counters failing photo [] []

let_through_failing :
    is_none (check_upload sorted_times small counters failing photo [] []).1 ≡ true
unfolding check_upload check_rates counted usage_of usage_refusal storage_refusal
let_through_failing = refl
