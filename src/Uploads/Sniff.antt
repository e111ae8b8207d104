-- ===== src/Uploads/Sniff.antt =====
-- gateway/src/http/sniff.ts. A file is the list of its bytes; whether Node decodes bytes as UTF-8
-- without a replacement character is a parameter. The chain of tests is a table, tried in order.
mod Tests
use rmcollab_model.Common.{
  ℕ, zero, suc, ◌-◌, ◌/◌, String, Bool, true, false, ◌&&◌, ◌||◌, not, Option, none, some, List, [],
  ◌∷◌, ltb, leb, eqb, if◌then◌else◌, length, any, take, drop,
}
use rmcollab_model.Shared.Domain.{MediaType, text, image, audio, video, media_eq}

pub record Sniffed : Type 0 where
  pub kinds : List MediaType
  pub mime : String
  pub ext : String

abbrev pub starts_with : List ℕ → List ℕ → Bool
starts_with buf [] = true
starts_with [] (b ∷ bytes) = false
starts_with (c ∷ buf) (b ∷ bytes) = eqb c b && starts_with buf bytes

-- `ascii(buf, start, end) === "…"`, of the codes of a text that is as long
abbrev pub has_at : ℕ → List ℕ → List ℕ → Bool
has_at start codes buf = starts_with (drop start buf) codes

-- The first byte is 0xff, and the first three bits of the second are set.
abbrev pub is_mpeg_frame : List ℕ → Bool
is_mpeg_frame (a ∷ b ∷ buf) = eqb a 255 && eqb (b / 32) 7
is_mpeg_frame buf = false

abbrev pub entry : MediaType → String → String → Sniffed
entry kind mime ext = record { kinds = kind ∷ []; mime = mime; ext = ext }

abbrev pub first_match : List (Bool × Sniffed) → Option Sniffed
first_match [] = none
first_match ((test, s) ∷ rows) = let later = first_match rows in if test then some s else later

module _ (decodes : List ℕ → Bool) where
  unfoldable pub looks_like_text : List ℕ → Bool
  looks_like_text buf =
      let head = take 8192 buf in
      if eqb (length head) 0 || any (λ b. eqb b 0) head
      then false
      else any (λ trim. ltb trim (length head) && decodes (take (length head - trim) head))
          (0 ∷ 1 ∷ 2 ∷ 3 ∷ [])

  -- The tests of `sniffMedia`, in their order.
  unfoldable pub signatures : List ℕ → List (Bool × Sniffed)
  unfolding looks_like_text
  signatures buf =
      let riff = has_at 0 (82 ∷ 73 ∷ 70 ∷ 70 ∷ []) buf && leb 12 (length buf) in
      let ftyp = leb 12 (length buf) && has_at 4 (102 ∷ 116 ∷ 121 ∷ 112 ∷ []) buf in
      (starts_with buf (137 ∷ 80 ∷ 78 ∷ 71 ∷ 13 ∷ 10 ∷ 26 ∷ 10 ∷ []), entry image "image/png" "png")
      ∷ (starts_with buf (255 ∷ 216 ∷ 255 ∷ []), entry image "image/jpeg" "jpg")
      ∷ (
        has_at 0 (71 ∷ 73 ∷ 70 ∷ 56 ∷ 55 ∷ 97 ∷ []) buf
            || has_at 0 (71 ∷ 73 ∷ 70 ∷ 56 ∷ 57 ∷ 97 ∷ []) buf,
        entry image "image/gif" "gif",
      )
      ∷ (has_at 0 (66 ∷ 77 ∷ []) buf && ltb 26 (length buf), entry image "image/bmp" "bmp")
      ∷ (riff && has_at 8 (87 ∷ 69 ∷ 66 ∷ 80 ∷ []) buf, entry image "image/webp" "webp")
      ∷ (riff && has_at 8 (87 ∷ 65 ∷ 86 ∷ 69 ∷ []) buf, entry audio "audio/wav" "wav")
      ∷ (riff && has_at 8 (65 ∷ 86 ∷ 73 ∷ 32 ∷ []) buf, entry video "video/x-msvideo" "avi")
      ∷ (has_at 0 (73 ∷ 68 ∷ 51 ∷ []) buf, entry audio "audio/mpeg" "mp3")
      ∷ (is_mpeg_frame buf, entry audio "audio/mpeg" "mp3")
      ∷ (has_at 0 (102 ∷ 76 ∷ 97 ∷ 67 ∷ []) buf, entry audio "audio/flac" "flac")
      ∷ (
        has_at 0 (79 ∷ 103 ∷ 103 ∷ 83 ∷ []) buf,
        record { kinds = audio ∷ video ∷ []; mime = "audio/ogg"; ext = "ogg" },
      )
      ∷ (
        ftyp && (has_at 8 (77 ∷ 52 ∷ 65 ∷ 32 ∷ []) buf || has_at 8 (77 ∷ 52 ∷ 66 ∷ 32 ∷ []) buf),
        entry audio "audio/mp4" "m4a",
      )
      ∷ (ftyp && has_at 8 (113 ∷ 116 ∷ 32 ∷ 32 ∷ []) buf, entry video "video/quicktime" "mov")
      ∷ (ftyp, record { kinds = video ∷ audio ∷ []; mime = "video/mp4"; ext = "mp4" })
      ∷ (
        starts_with buf (26 ∷ 69 ∷ 223 ∷ 163 ∷ []),
        record { kinds = video ∷ audio ∷ []; mime = "video/webm"; ext = "webm" },
      )
      ∷ (looks_like_text buf, entry text "text/plain" "txt")
      ∷ []

  unfoldable pub sniff_media : List ℕ → Option Sniffed
  unfolding looks_like_text signatures
  sniff_media buf =
      if ltb (length buf) 4
      then (if looks_like_text buf then some (entry text "text/plain" "txt") else none)
      else first_match (signatures buf)

pub record Resolved : Type 0 where
  -- none where no kind is given, which reads past the end of the array
  pub media_type : Option MediaType
  pub overridden : Bool

abbrev pub first_kind : List MediaType → Option MediaType
first_kind [] = none
first_kind (k ∷ kinds) = some k

unfoldable pub resolve_media_type : Sniffed → Option MediaType → Resolved
resolve_media_type s none = record { media_type = first_kind s.kinds; overridden = false }
resolve_media_type s (some declared) =
    if any (λ k. media_eq k declared) s.kinds
    then record { media_type = some declared; overridden = false }
    else record { media_type = first_kind s.kinds; overridden = true }
