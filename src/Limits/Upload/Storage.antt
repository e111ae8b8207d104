-- ===== src/Limits/Upload/Storage.antt =====
-- gateway/src/limits.ts: the storage limits over a run of uploads and deletions. The lock of
-- `withStorageReserved` makes each upload one step.
use rmcollab_model.Common.{
  ℕ, ◌+◌, ◌≤◌, ◌≡◌, refl, subst, String, Bool, true, Option, none, some, List, [], ◌∷◌, ◌++◌, foldl,
  eq_iff, arith, filter, Bool-cases, inl, inr,
}
use rmcollab_model.Limits.Upload.{
  Limits, Refusal, Upload, MediaRow, JobRow, usage_of, storage_refusal, with_storage_reserved,
  committed, sum_bytes, in_session, in_room,
}
use rmcollab_model.Limits.Upload.Refusals.{storage_refusal-none}

-- Every room and every session is within its limit.
abbrev pub Fits : Limits → List MediaRow → Type 0
Fits l media =
    (s r : String)
    → (sum_bytes (in_room s r) media ≤ l.room_storage_bytes)
      × (sum_bytes (in_session s) media ≤ l.session_storage_bytes)

pub data Step : Type 0 where
  -- an upload, with the jobs of the time
  uploaded : Upload → List JobRow → Step
  -- any rows deleted: those that do not meet the condition
  deleted : (keep : MediaRow → Bool) → Step

unfoldable pub step : Limits → List MediaRow → Step → List MediaRow
step l media (uploaded up jobs) = (with_storage_reserved l up media jobs).0
step l media (deleted keep) = filter keep media

sum_bytes-append :
    (p : MediaRow → Bool) (xs ys : List MediaRow)
    → sum_bytes p (xs ++ ys) ≡ sum_bytes p xs + sum_bytes p ys
sum_bytes-append p [] ys = omega arith
sum_bytes-append p (x ∷ xs) ys = ground (arith, sum_bytes-append p xs ys)

sum_bytes-filter :
    (p k : MediaRow → Bool) (xs : List MediaRow) → sum_bytes p (filter k xs) ≤ sum_bytes p xs
sum_bytes-filter p k [] = omega arith
sum_bytes-filter p k (x ∷ xs) = ground (arith, sum_bytes-filter p k xs)

abbrev row_of : Upload → MediaRow
row_of up = record { session = up.session_id; room = up.room_id; size_bytes = up.bytes }

-- A row more adds its bytes to the sums that count it.
sum_bytes-row :
    (p : MediaRow → Bool) (media : List MediaRow) (up : Upload) (limit : ℕ)
    → sum_bytes p media ≤ limit
    → (p (row_of up) ≡ true → sum_bytes p media + up.bytes ≤ limit)
    → sum_bytes p (media ++ row_of up ∷ []) ≤ limit
sum_bytes-row p media up limit h k = elim (Bool-cases (p (row_of up))) [
  | inl e ↦
      let room = k e in
      let sum : sum_bytes p (row_of up ∷ []) ≡ up.bytes + 0 = rw e refl in
      omega (arith, sum_bytes-append p media (row_of up ∷ []), sum, room)
  | inr e ↦
      let sum : sum_bytes p (row_of up ∷ []) ≡ 0 = rw e refl in
      omega (arith, sum_bytes-append p media (row_of up ∷ []), sum)
]

in_session-same : (s : String) (m : MediaRow) → in_session s m ≡ true → m.session ≡ s
in_session-same s m h = (eq_iff m.session s).0 h

in_room-same : (s r : String) (m : MediaRow) → in_room s r m ≡ true → (m.session ≡ s) × (m.room ≡ r)
in_room-same s r m h = ground (arith, eq_iff m.session s, eq_iff m.room r)

-- A row for which both its room and its session have the bytes keeps the limits.
row-Fits :
    (l : Limits) (media : List MediaRow) (up : Upload)
    → Fits l media
    → sum_bytes (in_room up.session_id up.room_id) media + up.bytes ≤ l.room_storage_bytes
    → sum_bytes (in_session up.session_id) media + up.bytes ≤ l.session_storage_bytes
    → Fits l (media ++ row_of up ∷ [])
row-Fits l media up fits room session s r = (
  sum_bytes-row (in_room s r) media up l.room_storage_bytes (fits s r).0 (λ e.
      let (es, er) = in_room-same s r (row_of up) e in
      subst (λ s'. sum_bytes (in_room s' r) media + up.bytes ≤ l.room_storage_bytes) es
        (subst (λ r'. sum_bytes (in_room up.session_id r') media + up.bytes ≤ l.room_storage_bytes)
          er room)),
  sum_bytes-row (in_session s) media up l.session_storage_bytes (fits s r).1 (λ e.
      subst (λ s'. sum_bytes (in_session s') media + up.bytes ≤ l.session_storage_bytes)
        (in_session-same s (row_of up) e) session),
)

commit-Fits :
    (l : Limits) (up : Upload) (media : List MediaRow) (o : Option Refusal)
    → Fits l media
    → (o ≡ none → Fits l (media ++ row_of up ∷ []))
    → Fits l (committed media (row_of up) o).0
commit-Fits l up media none fits added = added refl
commit-Fits l up media (some r) fits added = fits

reserved-Fits :
    (l : Limits) (up : Upload) (media : List MediaRow) (jobs : List JobRow)
    → Fits l media
    → Fits l (with_storage_reserved l up media jobs).0
unfolding with_storage_reserved usage_of
reserved-Fits l up media jobs fits =
    let u = usage_of media jobs up.session_id up.room_id in
    commit-Fits l up media (storage_refusal l u up.bytes) fits (λ e.
      let (room, session) = storage_refusal-none l u up.bytes e in
      row-Fits l media up fits room session)

deleted-Fits :
    (l : Limits) (media : List MediaRow) (keep : MediaRow → Bool)
    → Fits l media
    → Fits l (filter keep media)
deleted-Fits l media keep fits s r = (
  omega (arith, sum_bytes-filter (in_room s r) keep media, (fits s r).0),
  omega (arith, sum_bytes-filter (in_session s) keep media, (fits s r).1),
)

step-Fits : (l : Limits) (media : List MediaRow) (a : Step) → Fits l media → Fits l (step l media a)
unfolding step
step-Fits l media (uploaded up jobs) fits = reserved-Fits l up media jobs fits
step-Fits l media (deleted keep) fits = deleted-Fits l media keep fits

-- From rows within the limits, no sequence of reserved uploads and of deletions takes the rows of
-- any room past the room's limit, or those of any session past the session's.
pub run-Fits :
    (l : Limits) (steps : List Step) (media : List MediaRow)
    → Fits l media
    → Fits l (foldl (step l) media steps)
run-Fits l [] media fits = fits
run-Fits l (a ∷ steps) media fits = run-Fits l steps (step l media a) (step-Fits l media a fits)
