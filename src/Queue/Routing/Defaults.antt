-- ===== src/Queue/Routing/Defaults.antt =====
-- gateway/src/queue/routing.ts: the default of each media type.
use rmcollab_model.Common.{
  ◌≡◌, refl, sym, ap, ◌∙◌, String, Bool, true, ◌&&◌, some, List, [], ◌∷◌, map, arith, eq_iff, ◌==◌,
  filter, find?, any, inl, inr, All, Option-cases, option_is→eq, str_refl, find?-passes, any-find?,
  find?-any, any-filter, any-map, any_mono,
}
use rmcollab_model.Common.Sorting.{any-sort, All-sort}
use rmcollab_model.Shared.Domain.{MediaType, text, media_eq, StrategyDescriptor}
use rmcollab_model.Queue.Routing.{
  StrategyAdvert, is_of, pick_default, name_of, default_of, describe, build_catalogue,
  listed_before,
}

pub media_eq_refl : (m : MediaType) → media_eq m m ≡ true
media_eq_refl text = refl
media_eq_refl _ = refl

media_eq→eq : (m n : MediaType) → media_eq m n ≡ true → m ≡ n
media_eq→eq m n h = ground arith

-- The default of each media type is one name: two strategies of a type that are both marked as its
-- default have the same name.
abbrev pub AreOneDefault : StrategyDescriptor → StrategyDescriptor → Type 0
AreOneDefault s t =
    s.media_type ≡ t.media_type → s.is_default ≡ true → t.is_default ≡ true → s.name ≡ t.name

describe-is_default :
    (adverts : List StrategyAdvert) (a : StrategyAdvert)
    → (describe adverts a).is_default ≡ true
    → default_of adverts (describe adverts a).media_type ≡ some (describe adverts a).name
unfolding describe
describe-is_default adverts a h = option_is→eq (default_of adverts a.media_type) a.name h

abbrev IsTheDefault : List StrategyAdvert → StrategyDescriptor → Type 0
IsTheDefault adverts s = s.is_default ≡ true → default_of adverts s.media_type ≡ some s.name

All-described :
    (adverts group : List StrategyAdvert)
    → All (IsTheDefault adverts) (map (describe adverts) group)
All-described adverts [] = tt
All-described adverts (a ∷ group) = (describe-is_default adverts a, All-described adverts group)

one_default :
    (adverts : List StrategyAdvert) (s t : StrategyDescriptor)
    → IsTheDefault adverts s
    → IsTheDefault adverts t
    → AreOneDefault s t
one_default adverts s t p q same ds dt = cc (p ds, q dt)

All-one :
    (adverts : List StrategyAdvert) (s : StrategyDescriptor) (ts : List StrategyDescriptor)
    → IsTheDefault adverts s
    → All (IsTheDefault adverts) ts
    → All (AreOneDefault s) ts
All-one adverts s [] p h = tt
All-one adverts s (t ∷ ts) p h = (one_default adverts s t p h.0, All-one adverts s ts p h.1)

All-ones :
    (adverts : List StrategyAdvert) (ss ts : List StrategyDescriptor)
    → All (IsTheDefault adverts) ss
    → All (IsTheDefault adverts) ts
    → All (λ (s : StrategyDescriptor). All (AreOneDefault s) ts) ss
All-ones adverts [] ts p h = tt
All-ones adverts (s ∷ ss) ts p h = (All-one adverts s ts p.0 h, All-ones adverts ss ts p.1 h)

-- In the catalogue, strategies of one media type that are marked as its default have one name,
-- whatever the pools claim.
pub catalogue_one_default :
    (locale_le : String → String → Bool) (adverts : List StrategyAdvert)
    → All
        (λ (s : StrategyDescriptor).
          All (AreOneDefault s) (build_catalogue locale_le adverts).strategies)
        (build_catalogue locale_le adverts).strategies
unfolding build_catalogue
catalogue_one_default locale_le adverts =
    let marked =
      All-sort (listed_before locale_le) (IsTheDefault adverts) (map (describe adverts) adverts)
        (All-described adverts adverts) in
    All-ones adverts _ _ marked marked

-- The pick is in the group; what it is, the group has.
abbrev IsIn : StrategyAdvert → List StrategyAdvert → Type 0
IsIn a group = (q : StrategyAdvert → Bool) → q a ≡ true → any q group ≡ true

found :
    (p : StrategyAdvert → Bool) (group : List StrategyAdvert) (a : StrategyAdvert)
    → find? p group ≡ some a
    → IsIn a group
found p group a e q h = any-find? p q group a e h

pick_available :
    (group : List StrategyAdvert)
    → any (λ (a : StrategyAdvert). a.available) group ≡ true
    → (a : StrategyAdvert) × (pick_default group ≡ some a) × (a.available ≡ true) × IsIn a group
unfolding pick_default
pick_available group h =
    elim (Option-cases (find? (λ (a : StrategyAdvert). a.explicit_default && a.available) group)) [
      | inr (a, e) ↦ (
        a,
        rw e,
        ground (
          arith,
          find?-passes (λ (b : StrategyAdvert). b.explicit_default && b.available) group a e,
        ),
        found _ group a e,
      )
      | inl none1 ↦
          elim (Option-cases (find? (λ (a : StrategyAdvert). a.is_default && a.available) group)) [
            | inr (a, e) ↦ (
              a,
              rw (none1, e),
              ground (
                arith,
                find?-passes (λ (b : StrategyAdvert). b.is_default && b.available) group a e,
              ),
              found _ group a e,
            )
            | inl none2 ↦
                let (a, e) = find?-any (λ (b : StrategyAdvert). b.available) group h in
                (
                  a,
                  rw (none1, none2, e),
                  find?-passes (λ (b : StrategyAdvert). b.available) group a e,
                  found _ group a e,
                )
          ]
    ]

-- An available advert with the name of the default is listed as the default, available.
listed_default :
    (adverts : List StrategyAdvert) (media : MediaType) (name : String) (b : StrategyAdvert)
    → default_of adverts media ≡ some name
    → (is_of media b && (b.available && (b.name == name))) ≡ true
    → (media_eq (describe adverts b).media_type media
        && (describe adverts b).is_default
        && (describe adverts b).available)
      ≡ true
unfolding describe
listed_default adverts media name b e h =
    let same : media_eq b.media_type media ≡ true = ground arith in
    let is : b.name ≡ name = ground (arith, eq_iff b.name name) in
    let m = media_eq→eq b.media_type media same in
    let d : default_of adverts b.media_type ≡ some name = rw m e in
    rw (d, same, is, str_refl name) (ground arith)

default_of-pick :
    (adverts : List StrategyAdvert) (media : MediaType) (a : StrategyAdvert)
    → pick_default (filter (is_of media) adverts) ≡ some a
    → default_of adverts media ≡ some a.name
unfolding default_of
default_of-pick adverts media a e = ap name_of e

-- Where a pool can run some strategy of a media type, the catalogue's default of that type is one
-- that can run.
pub default_can_run :
    (locale_le : String → String → Bool) (adverts : List StrategyAdvert) (media : MediaType)
    → any (λ (a : StrategyAdvert). is_of media a && a.available) adverts ≡ true
    → any
        (λ (s : StrategyDescriptor). media_eq s.media_type media && s.is_default && s.available)
        (build_catalogue locale_le adverts).strategies
      ≡ true
unfolding build_catalogue
default_can_run locale_le adverts media h =
    let group = filter (is_of media) adverts in
    let (a, picked, runs, isin) =
      pick_available group
        (any-filter (is_of media) (λ (b : StrategyAdvert). b.available) adverts ∙ h) in
    let q = λ (b : StrategyAdvert). b.available && (b.name == a.name) in
    let here : q a ≡ true = rw (runs, str_refl a.name) in
    let some_advert = sym (any-filter (is_of media) q adverts) ∙ isin q here in
    any-sort (listed_before locale_le) _ (map (describe adverts) adverts)
    ∙ any-map _ (describe adverts) adverts
    ∙ any_mono (λ b. is_of media b && q b) _ adverts
        (λ b. listed_default adverts media a.name b (default_of-pick adverts media a picked))
        some_advert
