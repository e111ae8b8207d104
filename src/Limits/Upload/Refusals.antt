-- ===== src/Limits/Upload/Refusals.antt =====
-- gateway/src/limits.ts: what `checkUpload` lets through, with Redis and without.
use rmcollab_model.Common.{
  Bool, true, false, not, ◌&&◌, ◌||◌, ltb, leb, ap, ◌∙◌, ℕ, ◌+◌, ◌≤◌, ◌<◌, ◌≡◌, refl, Option, none,
  some, List, arith,
}
use rmcollab_model.Limits.Window.{EventSet, Verdict}
use rmcollab_model.Limits.Upload.{
  Limits, Refusal, Usage, Upload, MediaRow, JobRow, usage_of, usage_refusal, storage_refusal,
  Counters, Calls, check_rates, check_upload, counted,
}

-- There is room for the bytes, and for one more job.
abbrev pub HasRoom : Limits → Usage → ℕ → Type 0
HasRoom l u bytes =
    (u.active_jobs < l.active_jobs_per_session)
    × (u.room_bytes + bytes ≤ l.room_storage_bytes)
    × (u.session_bytes + bytes ≤ l.session_storage_bytes)

pub storage_refusal-none :
    (l : Limits) (u : Usage) (bytes : ℕ)
    → storage_refusal l u bytes ≡ none
    → (u.room_bytes + bytes ≤ l.room_storage_bytes)
      × (u.session_bytes + bytes ≤ l.session_storage_bytes)
unfolding storage_refusal
storage_refusal-none l u bytes h = ground arith

-- The same, as a test.
abbrev pub has_room : Limits → Usage → ℕ → Bool
has_room l u bytes =
    ltb u.active_jobs l.active_jobs_per_session
    && leb (u.room_bytes + bytes) l.room_storage_bytes
    && leb (u.session_bytes + bytes) l.session_storage_bytes

abbrev pub is_none {ℓ} : {A : Type ℓ} → Option A → Bool
is_none none = true
is_none (some a) = false

usage_refusal-exact :
    (l : Limits) (u : Usage) (bytes : ℕ) → is_none (usage_refusal l u bytes) ≡ has_room l u bytes
unfolding usage_refusal storage_refusal
usage_refusal-exact l u bytes = ground arith

-- A count is over its limit; then one is under it; any other was not answered.
abbrev pub is_over : Option Verdict → Bool
is_over none = false
is_over (some v) = not v.ok

abbrev pub is_under : Option Verdict → Bool
is_under none = false
is_under (some v) = v.ok

-- The answer to an upload, by what the counts come to.
abbrev after_rates {ℓ} : {C : Type ℓ} → C × Option Refusal → Option Refusal → C × Option Refusal
after_rates r usage = elim r.1 [ some refusal ↦ (r.0, some refusal) | none ↦ (r.0, usage) ]

after_rates-exact {ℓ} :
    {C : Type ℓ} (r : C × Option Refusal) (usage : Option Refusal)
    → is_none (after_rates r usage).1 ≡ (is_none r.1 && is_none usage)
after_rates-exact (c, none) usage = refl
after_rates-exact (c, some refusal) usage = refl

module _ (store : EventSet) where
  open store use {Store}

  -- The answers to the three counts of an upload, were they all made.
  abbrev pub minute_count : Limits → Counters store → Calls store → Option Verdict
  minute_count l c calls =
      (counted store c.minute 60 l.uploads_per_person_per_minute calls.minute).1

  abbrev pub hour_count : Limits → Counters store → Calls store → Option Verdict
  hour_count l c calls = (counted store c.hour 3600 l.uploads_per_person_per_hour calls.hour).1

  abbrev pub session_count : Limits → Counters store → Calls store → Option Verdict
  session_count l c calls =
      (counted store c.session 3600 l.uploads_per_session_per_hour calls.session).1

  -- Some count is over its limit, and Redis answered those before it.
  abbrev pub is_limited : Limits → Counters store → Calls store → Bool
  is_limited l c calls =
      is_over (minute_count l c calls)
      || is_under (minute_count l c calls)
        && (is_over (hour_count l c calls)
            || is_under (hour_count l c calls) && is_over (session_count l c calls))

  rates-exact :
      (l : Limits) (c : Counters store) (calls : Calls store)
      → is_none (check_rates store l c calls).1 ≡ not (is_limited l c calls)
  unfolding check_rates
  rates-exact l c calls = ground arith

  -- An upload is let through exactly if there is room for it and no count is over its limit with
  -- Redis having answered the counts before: a count that fails refuses nothing, nor do those after it.
  pub check_upload-exact :
      (l : Limits) (c : Counters store) (calls : Calls store) (up : Upload) (media : List MediaRow)
      (jobs : List JobRow)
      → is_none (check_upload store l c calls up media jobs).1 ≡ (
          not (is_limited l c calls)
          && has_room l (usage_of media jobs up.session_id up.room_id) up.bytes)
  unfolding check_upload
  check_upload-exact l c calls up media jobs =
      let u = usage_of media jobs up.session_id up.room_id in
      after_rates-exact (check_rates store l c calls) (usage_refusal l u up.bytes)
      ∙ ap (λ b. b && is_none (usage_refusal l u up.bytes)) (rates-exact l c calls)
      ∙ ap (λ b. not (is_limited l c calls) && b) (usage_refusal-exact l u up.bytes)
