-- ===== src/Queue/Routing.antt =====
-- gateway/src/queue/routing.ts. The key of the queue map, `${mediaType}:${name}`, is the pair of its
-- parts: no media type has a colon. `localeCompare` is the parameter `locale_le`.
pub mod Defaults
pub mod Routes
mod Tests
use rmcollab_model.Common.{
  ℕ, String, Bool, true, false, ◌&&◌, not, Option, none, some, List, [], ◌∷◌, map, if◌then◌else◌,
  ◌==◌, option_is, or_else, filter, find?,
}
use rmcollab_model.Common.Sorting.{sort}
use rmcollab_model.Shared.Domain.{
  MediaType, text, image, audio, video, media_eq, StrategyDescriptor,
}
use rmcollab_model.Shared.Events.{queues}

-- An advert of an older worker has no queue and no reason.
pub record StrategyAdvert : Type 0 where
  pub name : String
  pub label : String
  pub description : String
  pub media_type : MediaType
  pub is_default : Bool
  pub available : Bool
  pub unavailable_reason : Option String
  pub explicit_default : Bool
  pub queue : Option String

pub record Route : Type 0 where
  pub media_type : MediaType
  pub name : String
  pub queue : String

-- The entry that was set last is first.
pub record Catalogue : Type 0 where
  pub strategies : List StrategyDescriptor
  pub queues : List Route

abbrev pub queue_of : StrategyAdvert → String
queue_of a = or_else a.queue (queues a.media_type)

abbrev pub is_route : MediaType → String → Route → Bool
is_route media name r = media_eq r.media_type media && (r.name == name)

-- `queues.set(…)` for each advert in turn.
unfoldable pub add_routes : List Route → List StrategyAdvert → List Route
add_routes routes [] = routes
add_routes routes (a ∷ adverts) =
    add_routes (record { media_type = a.media_type; name = a.name; queue = queue_of a } ∷ routes)
      adverts

abbrev pub is_of : MediaType → StrategyAdvert → Bool
is_of media a = media_eq a.media_type media

-- `??` of two searches.
abbrev pub or_find : Option StrategyAdvert → Option StrategyAdvert → Option StrategyAdvert
or_find none b = b
or_find (some a) b = some a

abbrev pub first_of : List StrategyAdvert → Option StrategyAdvert
first_of [] = none
first_of (a ∷ group) = some a

-- The default among the adverts of one media type.
unfoldable pub pick_default : List StrategyAdvert → Option StrategyAdvert
pick_default group =
    or_find (find? (λ (a : StrategyAdvert). a.explicit_default && a.available) group) (
      or_find (find? (λ (a : StrategyAdvert). a.is_default && a.available) group) (
        or_find (find? (λ (a : StrategyAdvert). a.available) group)
          (or_find (find? (λ (a : StrategyAdvert). a.explicit_default) group) (first_of group))))

abbrev name_of : Option StrategyAdvert → Option String
name_of none = none
name_of (some a) = some a.name

-- `defaults.get(media)`
unfoldable pub default_of : List StrategyAdvert → MediaType → Option String
unfolding pick_default
default_of adverts media = name_of (pick_default (filter (is_of media) adverts))

-- `a.unavailable_reason || null`
abbrev pub reason_or_null : Option String → Option String
reason_or_null none = none
reason_or_null (some r) = if r == "" then none else some r

unfoldable pub describe : List StrategyAdvert → StrategyAdvert → StrategyDescriptor
unfolding default_of
describe adverts a = record {
  media_type = a.media_type;
  name = a.name;
  label = a.label;
  description = a.description;
  is_default = option_is (default_of adverts a.media_type) a.name;
  available = a.available;
  unavailable_reason = if a.available then none else reason_or_null a.unavailable_reason;
}

abbrev pub media_name : MediaType → String
media_name text = "text"
media_name image = "image"
media_name audio = "audio"
media_name video = "video"

abbrev pub listed_before : (String → String → Bool) → StrategyDescriptor → StrategyDescriptor → Bool
listed_before locale_le a b =
    if media_eq a.media_type b.media_type
    then (if a.is_default
        then (if b.is_default then locale_le a.name b.name else true)
        else (if b.is_default then false else locale_le a.name b.name))
    else locale_le (media_name a.media_type) (media_name b.media_type)

unfoldable pub build_catalogue : (String → String → Bool) → List StrategyAdvert → Catalogue
unfolding add_routes describe
build_catalogue locale_le adverts = record {
  strategies = sort (listed_before locale_le) (map (describe adverts) adverts);
  queues = add_routes [] adverts;
}

abbrev is_default_of : MediaType → StrategyDescriptor → Bool
is_default_of media s = media_eq s.media_type media && s.is_default

abbrev name_found : Option StrategyDescriptor → Option String
name_found none = none
name_found (some s) = some s.name

abbrev pub queue_or : Option Route → MediaType → String
queue_or none media = queues media
queue_or (some r) media = if r.queue == "" then queues media else r.queue

abbrev pub route_named : Catalogue → MediaType → Option String → String
route_named c media none = queues media
route_named c media (some name) =
    if name == "" then queues media else queue_or (find? (is_route media name) c.queues) media

-- The strategy that a request for "auto", or for a strategy by name, stands for.
unfoldable pub chosen : Catalogue → MediaType → String → String → Option String
chosen c media strategy auto =
    if strategy == auto
    then name_found (find? (is_default_of media) c.strategies)
    else some strategy

unfoldable pub queue_for : Catalogue → MediaType → String → String → String
queue_for c media strategy auto = route_named c media (chosen c media strategy auto)
