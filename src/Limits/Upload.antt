-- ===== src/Limits/Upload.antt =====
-- gateway/src/limits.ts: `checkUpload` and what it calls. Redis may fail in any of the three counts:
-- the call throws, and may leave its set changed or not. The text of a refusal's message is left out.
-- The rows of media_items and enhancement_jobs stand with the session and the room that the query
-- joins them to.
pub mod Refusals
pub mod Storage
mod Tests
use rmcollab_model.Common.{
  ℕ, ◌+◌, ◌≤◌, ◌≡◌, String, Bool, true, false, ◌&&◌, ◌||◌, not, Option, none, some, List, [], ◌∷◌,
  ◌++◌, ltb, leb, if◌then◌else◌, ◌==◌,
}
use rmcollab_model.Limits.Window.{EventSet, Verdict, within}

pub record Limits : Type 0 where
  pub uploads_per_person_per_minute : ℕ
  pub uploads_per_person_per_hour : ℕ
  pub uploads_per_session_per_hour : ℕ
  pub active_jobs_per_session : ℕ
  pub room_storage_bytes : ℕ
  pub session_storage_bytes : ℕ
  pub code_misses_per_10_minutes : ℕ
  pub demos_per_address_per_hour : ℕ
  pub sessions_per_address_per_hour : ℕ

pub data RefusalError : Type 0 where
  upload_rate_limited : RefusalError
  session_rate_limited : RefusalError
  too_many_jobs : RefusalError
  room_storage_full : RefusalError
  session_storage_full : RefusalError
  too_many_wrong_codes : RefusalError
  demo_rate_limited : RefusalError

pub record Refusal : Type 0 where
  pub status : ℕ
  pub error : RefusalError
  pub retry_after_s : Option ℕ

pub record Usage : Type 0 where
  pub room_bytes : ℕ
  pub session_bytes : ℕ
  pub active_jobs : ℕ

pub record Upload : Type 0 where
  pub participant_id : String
  pub session_id : String
  pub room_id : String
  pub bytes : ℕ

pub record MediaRow : Type 0 where
  pub session : String
  pub room : String
  pub size_bytes : ℕ

-- A row of enhancement_jobs: the session it belongs to, and its status.
pub record JobRow : Type 0 where
  pub session : String
  pub status : String

abbrev rate_refusal : RefusalError → ℕ → Refusal
rate_refusal e wait = record { status = 429; error = e; retry_after_s = some wait }

abbrev not_ok : Verdict → Bool
not_ok v = not v.ok

-- The refusal of a count of one hour, if it was made and is over its limit.
abbrev hourly {ℓ} : {S : Type ℓ} → RefusalError → S × Option Verdict → S × Option Refusal
hourly e (z, none) = (z, none)
hourly e (z, some v) = (z, if not_ok v then some (rate_refusal e v.retry_after_s) else none)

-- `sum(size_bytes)` of the rows that meet a condition.
abbrev pub sum_bytes : (MediaRow → Bool) → List MediaRow → ℕ
sum_bytes p [] = 0
sum_bytes p (m ∷ ms) = let rest = sum_bytes p ms in if p m then m.size_bytes + rest else rest

abbrev pub in_session : String → MediaRow → Bool
in_session s m = m.session == s

abbrev pub in_room : String → String → MediaRow → Bool
in_room s r m = m.session == s && m.room == r

abbrev pub is_active : String → JobRow → Bool
is_active s j = j.session == s && (j.status == "queued" || j.status == "processing")

abbrev pub count_active : String → List JobRow → ℕ
count_active s [] = 0
count_active s (j ∷ js) = let rest = count_active s js in if is_active s j then 1 + rest else rest

unfoldable pub usage_of : List MediaRow → List JobRow → String → String → Usage
usage_of media jobs session room = record {
  room_bytes = sum_bytes (in_room session room) media;
  session_bytes = sum_bytes (in_session session) media;
  active_jobs = count_active session jobs;
}

unfoldable pub storage_refusal : Limits → Usage → ℕ → Option Refusal
storage_refusal l u bytes =
    if ltb l.room_storage_bytes (u.room_bytes + bytes)
    then some (record { status = 413; error = room_storage_full; retry_after_s = none })
    else (if ltb l.session_storage_bytes (u.session_bytes + bytes)
        then some (record { status = 413; error = session_storage_full; retry_after_s = none })
        else none)

-- The part of `checkUpload` after the counts.
unfoldable pub usage_refusal : Limits → Usage → ℕ → Option Refusal
unfolding storage_refusal
usage_refusal l u bytes =
    if leb l.active_jobs_per_session u.active_jobs
    then some (record { status = 429; error = too_many_jobs; retry_after_s = some 30 })
    else storage_refusal l u bytes

-- The row inserted, unless there is a refusal.
abbrev pub committed : List MediaRow → MediaRow → Option Refusal → List MediaRow × Option Refusal
committed media row (some r) = (media, some r)
committed media row none = (media ++ row ∷ [], none)

-- `withStorageReserved`, whose lock makes the check and the row one step of the session. `commit`
-- inserts the row of the upload.
unfoldable pub with_storage_reserved :
    Limits → Upload → List MediaRow → List JobRow → List MediaRow × Option Refusal
unfolding storage_refusal usage_of
with_storage_reserved l up media jobs =
    committed media (record { session = up.session_id; room = up.room_id; size_bytes = up.bytes })
      (storage_refusal l (usage_of media jobs up.session_id up.room_id) up.bytes)

module _ (store : EventSet) where
  open store use {Store}

  -- A call of `within` at a time, or one that throws and leaves the set in some state.
  pub data Call : Type 0 where
    answers : (now : ℕ) → Call
    throws : (left : Store) → Call

  unfoldable pub counted : Store → ℕ → ℕ → Call → Store × Option Verdict
  unfolding within
  counted z window_s limit (answers now) =
      let r = within store z window_s limit now in (r.0, some r.1)
  counted z window_s limit (throws left) = (left, none)

  -- The sets of the three keys: the person's minute and hour, and the session's hour.
  pub record Counters : Type 0 where
    pub minute : Store
    pub hour : Store
    pub session : Store

  pub record Calls : Type 0 where
    pub minute : Call
    pub hour : Call
    pub session : Call

  -- What the counts come to: refused, or passed, which a failure of Redis also is.
  unfoldable pub check_rates : Limits → Counters → Calls → Counters × Option Refusal
  unfolding counted
  check_rates l c calls =
      let m = counted c.minute 60 l.uploads_per_person_per_minute calls.minute in
      let h = counted c.hour 3600 l.uploads_per_person_per_hour calls.hour in
      let s = counted c.session 3600 l.uploads_per_session_per_hour calls.session in
      elim m.1 [
        | none ↦ (record { minute = m.0; hour = c.hour; session = c.session }, none)
        | some vm ↦
            if not_ok vm
            then (
              record { minute = m.0; hour = c.hour; session = c.session },
              some (rate_refusal upload_rate_limited vm.retry_after_s),
            )
            else elim h.1 [
              | none ↦ (record { minute = m.0; hour = h.0; session = c.session }, none)
              | some vh ↦
                  if not_ok vh
                  then (
                    record { minute = m.0; hour = h.0; session = c.session },
                    some (rate_refusal upload_rate_limited vh.retry_after_s),
                  )
                  else elim s.1 [
                    | none ↦ (record { minute = m.0; hour = h.0; session = s.0 }, none)
                    | some vs ↦ (
                      record { minute = m.0; hour = h.0; session = s.0 },
                      if not_ok vs
                          then some (rate_refusal session_rate_limited vs.retry_after_s)
                          else none,
                    )
                  ]
            ]
      ]

  unfoldable pub check_upload :
      Limits → Counters → Calls → Upload → List MediaRow → List JobRow → Counters × Option Refusal
  unfolding check_rates usage_refusal
  check_upload l c calls up media jobs =
      let r = check_rates l c calls in
      elim r.1 [
        | some refusal ↦ (r.0, some refusal)
        | none ↦ (r.0, usage_refusal l (usage_of media jobs up.session_id up.room_id) up.bytes)
      ]

  -- `checkDemo` and `checkSessionCreate`: one window, of an hour.
  unfoldable pub check_demo : Limits → Store → Call → Store × Option Refusal
  unfolding counted
  check_demo l z call = hourly demo_rate_limited (counted z 3600 l.demos_per_address_per_hour call)

  unfoldable pub check_session_create : Limits → Store → Call → Store × Option Refusal
  unfolding counted
  check_session_create l z call =
      hourly session_rate_limited (counted z 3600 l.sessions_per_address_per_hour call)
