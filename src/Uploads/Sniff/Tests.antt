-- ===== src/Uploads/Sniff/Tests.antt =====
-- A JPEG image that was declared as audio.
use rmcollab_model.Common.{ℕ, ◌≡◌, refl, true, some, List, [], ◌∷◌}
use rmcollab_model.Shared.Domain.{image, audio}
use rmcollab_model.Uploads.Sniff.{
  Sniffed, entry, looks_like_text, signatures, sniff_media, resolve_media_type,
}

abbrev jpeg : List ℕ
jpeg = 255 ∷ 216 ∷ 255 ∷ 224 ∷ 0 ∷ []

abbrev photo : Sniffed
photo = entry image "image/jpeg" "jpg"

jpeg_sniffed : sniff_media (λ bytes. true) jpeg ≡ some photo
unfolding sniff_media signatures looks_like_text
jpeg_sniffed = refl

-- It goes by what it is, and the declared kind is overridden.
kept_as_image :
    resolve_media_type photo (some audio) ≡ record { media_type = some image; overridden = true }
unfolding resolve_media_type
kept_as_image = refl
