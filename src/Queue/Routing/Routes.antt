-- ===== src/Queue/Routing/Routes.antt =====
-- gateway/src/queue/routing.ts: the queue that a job is sent to.
use rmcollab_model.Common.{
  ◌≡◌, refl, ap, ◌∙◌, false, ◌⊎◌, ◌≢◌, String, Bool, true, ◌&&◌, some, List, [], ◌∷◌, ◌++◌, arith,
  eq_iff, ◌==◌, find?, any, inl, inr, Bool-cases, Option-cases, str_refl,
}
use rmcollab_model.Shared.Domain.{MediaType, media_eq}
use rmcollab_model.Shared.Events.{queues}
use rmcollab_model.Queue.Routing.Defaults.{media_eq_refl}
use rmcollab_model.Queue.Routing.{
  StrategyAdvert, Route, Catalogue, is_of, is_route, queue_of, add_routes, build_catalogue,
  route_named, chosen, queue_for,
}

-- An advert of the strategy that names the queue.
abbrev pub reaches : MediaType → String → String → StrategyAdvert → Bool
reaches media name queue a = is_of media a && (a.name == name) && (queue_of a == queue)

add_routes_sound :
    (routes : List Route) (adverts : List StrategyAdvert) (media : MediaType) (name : String)
    (r : Route)
    → find? (is_route media name) (add_routes routes adverts) ≡ some r
    → (find? (is_route media name) routes ≡ some r)
      ⊎ (any (reaches media name r.queue) adverts ≡ true)
unfolding add_routes
add_routes_sound routes [] media name r e = inl e
add_routes_sound routes (a ∷ adverts) media name r e = ground (
  arith,
  add_routes_sound
      (record { media_type = a.media_type; name = a.name; queue = queue_of a } ∷ routes) adverts
      media name r e,
  eq_iff (queue_of a) r.queue,
)

routed :
    (c : Catalogue) (adverts : List StrategyAdvert) (media : MediaType) (name : String)
    → c.queues ≡ add_routes [] adverts
    → (route_named c media (some name) ≡ queues media)
      ⊎ (any (reaches media name (route_named c media (some name))) adverts ≡ true)
routed c adverts media name built =
    elim (Option-cases (find? (is_route media name) (add_routes [] adverts))) [
      | inl e ↦ inl (rw (built, e) (ground arith))
      | inr (r, e) ↦ elim (Bool-cases (r.queue == "")) [
        | inl empty ↦ inl (rw (built, e, empty) (ground arith))
        | inr full ↦ elim (Bool-cases (name == "")) [
          | inl empty ↦ inl (rw empty)
          | inr other ↦
              rw (other, built, e, full)
                (elim (add_routes_sound [] adverts media name r e) [
                  | inl bad ↦ absurd (cc (bad))
                  | inr ok ↦ inr ok
                ])
        ]
      ]
    ]

-- A job goes to its media type's own queue, or to one that an advert of the chosen strategy for that
-- media type names: never to a queue that nobody advertised for it.
pub queue_for_advertised :
    (locale_le : String → String → Bool) (adverts : List StrategyAdvert) (media : MediaType)
    (strategy auto name : String)
    → chosen (build_catalogue locale_le adverts) media strategy auto ≡ some name
    → (queue_for (build_catalogue locale_le adverts) media strategy auto ≡ queues media)
      ⊎ (any
            (reaches media name (queue_for (build_catalogue locale_le adverts) media strategy auto))
            adverts
          ≡ true)
unfolding queue_for build_catalogue
queue_for_advertised locale_le adverts media strategy auto name e =
    rw e (routed (build_catalogue locale_le adverts) adverts media name refl)

add_routes-append :
    (routes : List Route) (adverts more : List StrategyAdvert)
    → add_routes routes (adverts ++ more) ≡ add_routes (add_routes routes adverts) more
unfolding add_routes
add_routes-append routes [] more = refl
add_routes-append routes (b ∷ adverts) more =
    add_routes-append
      (record { media_type = b.media_type; name = b.name; queue = queue_of b } ∷ routes) adverts
      more

-- An advert of the strategy for the media type.
abbrev pub is_advert : MediaType → String → StrategyAdvert → Bool
is_advert media name a = media_eq a.media_type media && (a.name == name)

others_keep :
    (media : MediaType) (name : String) (routes : List Route) (adverts : List StrategyAdvert)
    → any (is_advert media name) adverts ≡ false
    → find? (is_route media name) (add_routes routes adverts) ≡ find? (is_route media name) routes
unfolding add_routes
others_keep media name routes [] h = refl
others_keep media name routes (a ∷ adverts) h = ground (
  arith,
  others_keep media name
      (record { media_type = a.media_type; name = a.name; queue = queue_of a } ∷ routes) adverts,
  h,
)

last_route :
    (before later : List StrategyAdvert) (a : StrategyAdvert)
    → any (is_advert a.media_type a.name) later ≡ false
    → find? (is_route a.media_type a.name) (add_routes [] (before ++ a ∷ later))
      ≡ some (record { media_type = a.media_type; name = a.name; queue = queue_of a })
unfolding add_routes
last_route before later a h =
    ap (find? (is_route a.media_type a.name)) (add_routes-append [] before (a ∷ later))
    ∙ others_keep a.media_type a.name
        (record { media_type = a.media_type; name = a.name; queue = queue_of a }
          ∷ add_routes [] before)
        later h
    ∙ ground (arith, media_eq_refl a.media_type, str_refl a.name)

-- Of the adverts of one strategy for one media type, the last in the list decides: a job that names
-- the strategy, which is neither empty nor the automatic one, goes to its queue, if that has a name,
-- wherever in the list the other adverts stand.
pub queue_for_last :
    (locale_le : String → String → Bool) (before later : List StrategyAdvert) (a : StrategyAdvert)
    (auto : String)
    → any (is_advert a.media_type a.name) later ≡ false
    → a.name ≢ auto
    → a.name ≢ ""
    → queue_of a ≢ ""
    → queue_for (build_catalogue locale_le (before ++ a ∷ later)) a.media_type a.name auto
      ≡ queue_of a
unfolding queue_for chosen build_catalogue
queue_for_last locale_le before later a auto last other named queued = ground (
  arith,
  last_route before later a last,
  eq_iff a.name auto,
  eq_iff a.name "",
  eq_iff (queue_of a) "",
)
