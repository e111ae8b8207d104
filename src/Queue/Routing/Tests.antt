-- ===== src/Queue/Routing/Tests.antt =====
-- Routing at what the pools advertise: comprehension of a video runs in the audio pool.
use Prim.Native.String
use rmcollab_model.Common.{
  ◌≡◌, ◌≢◌, refl, ◌⊎◌, String, Bool, true, false, ◌&&◌, none, some, List, [], ◌∷◌, arith, leb, any,
  All, eq_iff, ◌++◌,
}
use rmcollab_model.Shared.Domain.{MediaType, image, video, media_eq, StrategyDescriptor}
use rmcollab_model.Shared.Events.{queues}
use rmcollab_model.Queue.Routing.{StrategyAdvert, build_catalogue, chosen, queue_for}
use rmcollab_model.Queue.Routing.Defaults.{catalogue_one_default, AreOneDefault, default_can_run}
use rmcollab_model.Queue.Routing.Routes.{reaches, queue_for_advertised, queue_for_last}

by_length : String → String → Bool
by_length a b = leb (String.len a) (String.len b)

abbrev advert : MediaType → String → Bool → Bool → String → StrategyAdvert
advert media name is_default explicit queue = record {
  name = name;
  label = name;
  description = "";
  media_type = media;
  is_default = is_default;
  available = true;
  unavailable_reason = none;
  explicit_default = explicit;
  queue = some queue;
}

abbrev video_pool : List StrategyAdvert
video_pool =
    advert video "classical" true false "enhance.video"
    ∷ advert video "realesrgan" false false "enhance.video"
    ∷ []

abbrev comprehend : StrategyAdvert
comprehend = advert video "comprehend" true true "enhance.audio"

abbrev both : List StrategyAdvert
both = video_pool ++ comprehend ∷ []

auto_to_audio : queue_for (build_catalogue by_length both) video "auto" "auto" ≡ "enhance.audio"
unfolding queue_for build_catalogue by_length chosen
auto_to_audio = refl

unseen_to_video : queue_for (build_catalogue by_length both) video "unseen" "auto" ≡ "enhance.video"
unfolding queue_for build_catalogue by_length chosen queues
unseen_to_video = refl

chosen_auto : chosen (build_catalogue by_length both) video "auto" "auto" ≡ some "comprehend"
unfolding chosen build_catalogue by_length
chosen_auto = refl

chosen_nothing : chosen (build_catalogue by_length both) image "auto" "auto" ≡ none
unfolding chosen build_catalogue by_length
chosen_nothing = refl

catalogue_one_default_example :
    All
      (λ (s : StrategyDescriptor).
        All (AreOneDefault s) (build_catalogue by_length both).strategies)
      (build_catalogue by_length both).strategies
catalogue_one_default_example = catalogue_one_default by_length both

default_can_run_example :
    any
      (λ (s : StrategyDescriptor). media_eq s.media_type video && s.is_default && s.available)
      (build_catalogue by_length both).strategies
    ≡ true
default_can_run_example = default_can_run by_length both video refl

queue_for_advertised_example :
    (queue_for (build_catalogue by_length both) video "auto" "auto" ≡ queues video)
    ⊎ (any
          (reaches video "comprehend"
            (queue_for (build_catalogue by_length both) video "auto" "auto"))
          both
        ≡ true)
queue_for_advertised_example =
    queue_for_advertised by_length both video "auto" "auto" "comprehend" chosen_auto

not_auto : ◌≢◌ {A = String} "comprehend" "auto"
not_auto = ground (arith, eq_iff "comprehend" "auto")

not_empty : ◌≢◌ {A = String} "comprehend" ""
not_empty = ground (arith, eq_iff "comprehend" "")

queued : ◌≢◌ {A = String} "enhance.audio" ""
queued = ground (arith, eq_iff "enhance.audio" "")

queue_for_last_example :
    queue_for (build_catalogue by_length both) video "comprehend" "auto" ≡ "enhance.audio"
queue_for_last_example =
    queue_for_last by_length video_pool [] comprehend "auto" refl not_auto not_empty queued
