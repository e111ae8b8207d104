-- ===== src/Room/Ids.antt =====
-- client/src/state/roomReducer.ts: ids of what a room shows, and the list operations that keep
-- them different.
use rmcollab_model.Common.{
  ◌≡◌, ◌≢◌, String, Option, List, [], ◌∷◌, ◌==◌, eq_iff, arith, inl, inr, Bool-cases,
}
use rmcollab_model.Common.Distinct.{Distinct, IsFresh}
use rmcollab_model.Shared.Domain.{
  Participant, ChatMessage, MediaItem, MediaItemWithJob, EnhancementJob,
}
use rmcollab_model.Room.State.{upsert_participant}
use rmcollab_model.Room.Jobs.{patch_job}
use rmcollab_model.Room.Apply.{replace_media}

abbrev pub message_id : ChatMessage → String
message_id m = m.id

abbrev pub upload_id : MediaItemWithJob → String
upload_id x = x.media_item.id

abbrev pub person_id : Participant → String
person_id p = p.id

IsFresh-upsert :
    (k : String) (ps : List Participant) (p : Participant)
    → p.id ≢ k
    → IsFresh person_id k ps
    → IsFresh person_id k (upsert_participant ps p)
unfolding upsert_participant
IsFresh-upsert k [] p h f = (h, tt)
IsFresh-upsert k (q ∷ ps) p h f = elim (Bool-cases (q.id == p.id)) [
  | inl e ↦ rw e (h, f.1)
  | inr e ↦ rw e (f.0, IsFresh-upsert k ps p h f.1)
]

pub upsert-Distinct :
    (ps : List Participant) (p : Participant)
    → Distinct person_id ps
    → Distinct person_id (upsert_participant ps p)
unfolding upsert_participant
upsert-Distinct [] p d = (tt, tt)
upsert-Distinct (q ∷ ps) p d = elim (Bool-cases (q.id == p.id)) [
  | inl e ↦ rw e (rw (← (eq_iff q.id p.id).0 e) d.0, d.1)
  | inr e ↦ rw e (
    IsFresh-upsert q.id ps p (λ same. ground (arith, eq_iff q.id p.id)) d.0,
    upsert-Distinct ps p d.1,
  )
]

IsFresh-patch_job :
    (k id : String) (patch : Option EnhancementJob → Option EnhancementJob)
    (media : List MediaItemWithJob)
    → IsFresh upload_id k media
    → IsFresh upload_id k (patch_job media id patch)
unfolding patch_job
IsFresh-patch_job k id patch [] f = tt
IsFresh-patch_job k id patch (x ∷ media) f = elim (Bool-cases (x.media_item.id == id)) [
  | inl e ↦ rw e f
  | inr e ↦ rw e (f.0, IsFresh-patch_job k id patch media f.1)
]

pub patch_job-Distinct :
    (id : String) (patch : Option EnhancementJob → Option EnhancementJob)
    (media : List MediaItemWithJob)
    → Distinct upload_id media
    → Distinct upload_id (patch_job media id patch)
unfolding patch_job
patch_job-Distinct id patch [] d = tt
patch_job-Distinct id patch (x ∷ media) d = elim (Bool-cases (x.media_item.id == id)) [
  | inl e ↦ rw e d
  | inr e ↦
      rw e (
        IsFresh-patch_job x.media_item.id id patch media d.0,
        patch_job-Distinct id patch media d.1,
      )
]

pub replace_media-id :
    (item : MediaItem) (job : Option EnhancementJob) (x : MediaItemWithJob)
    → upload_id (replace_media item job x) ≡ upload_id x
replace_media-id item job x = ground (arith, eq_iff x.media_item.id item.id)
