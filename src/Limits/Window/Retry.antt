-- ===== src/Limits/Window/Retry.antt =====
-- gateway/src/limits.ts: the wait that a refusal names is long enough.
use rmcollab_model.Common.{
  ℕ, zero, suc, ◌+◌, ◌-◌, ◌*◌, ◌≤◌, ◌<◌, ◌≡◌, refl, ◌∙◌, ap, true, false, some, List, [], ◌∷◌, leb,
  if◌then◌else◌, filter, length, arith, All, length-filter-le,
}
use rmcollab_model.Common.Sorting.{IsSorted}
use rmcollab_model.Limits.Window.{EventSet, retry_after, within, get_elem?}
use rmcollab_model.Limits.Window.Admitted.{after, verdict_no, within-room}

-- In a sorted list, what lies up to an element is at most that element.
at-index :
    (xs : List ℕ) (x i e : ℕ) → All (λ (y : ℕ). leb x y ≡ true) xs → get_elem? xs i ≡ some e → x ≤ e
at-index [] x i e h g = cc
at-index (y ∷ xs) x zero e h g = let first = h.0 in ground arith
at-index (y ∷ xs) x (suc i) e h g = at-index xs x i e h.1 g

-- When the event at an index has left, so have all before it.
left-by :
    (xs : List ℕ) (i e since : ℕ)
    → IsSorted leb xs
    → get_elem? xs i ≡ some e
    → e ≤ since
    → length (filter (after since) xs) + i + 1 ≤ length xs
left-by [] i e since s g h = cc
left-by (x ∷ xs) zero e since s g h = ground (arith, length-filter-le (after since) xs)
left-by (x ∷ xs) (suc i) e since s g h =
    ground (arith, left-by xs i e since s.1 g h, at-index xs x i e s.0 g)

has-index : (xs : List ℕ) (i : ℕ) → i < length xs → (e : ℕ) × (get_elem? xs i ≡ some e)
has-index [] i h = absurd (omega arith)
has-index (x ∷ xs) zero h = (x, refl)
has-index (x ∷ xs) (suc i) h = has-index xs i (omega arith)

-- The answer to a call that is refused.
no-verdict :
    (n limit wait : ℕ)
    → (if leb n limit then record { ok = true; retry_after_s = 0 } else verdict_no wait).ok ≡ false
    → ((if leb n limit
          then record { ok = true; retry_after_s = 0 }
          else verdict_no wait).retry_after_s
        ≡ wait)
      × (limit < n)
no-verdict n limit wait e = ground arith

leb_of_le : (a b : ℕ) → a ≤ b → leb a b ≡ true
leb_of_le a b h = ground arith

module _ (store : EventSet) where
  open store use {Store, scores, score_at, card, card_lem, score_at_lem, sorted}

  refused :
      (z : Store) (window_s limit now : ℕ)
      → (within store z window_s limit now).1.ok ≡ false
      → let z' = (within store z window_s limit now).0 in
        ((within store z window_s limit now).1.retry_after_s
          ≡ retry_after (score_at z' (card z' - limit)) window_s now)
        × (limit < card z')
  unfolding within
  refused z window_s limit now e = no-verdict _ limit _ e

  -- After a refusal, the wait that it names is enough: with no other call in between, the next one
  -- is let through, if the limit lets any through.
  pub retry_succeeds :
      (z : Store) (window_s limit now : ℕ)
      → 1 ≤ limit
      → (within store z window_s limit now).1.ok ≡ false
      → (within store
          (within store z window_s limit now).0
          window_s
          limit
          (now + (within store z window_s limit now).1.retry_after_s * 1000)).1.ok
        ≡ true
  unfolding retry_after
  retry_succeeds z window_s limit now positive refusal =
      let z' = (within store z window_s limit now).0 in
      let (wait, over) = refused z window_s limit now refusal in
      let n = card z' - limit in
      let (e, at) = has-index (scores z') n (omega (arith, card_lem z', over)) in
      let wait' = wait ∙ ap (λ o. retry_after o window_s now) (score_at_lem z' n ∙ at) in
      let later = now + (within store z window_s limit now).1.retry_after_s * 1000 in
      let gone =
        left-by (scores z') n e (later - window_s * 1000) (sorted z') at (omega (arith, wait')) in
      within-room store z' window_s limit later
      ∙ leb_of_le _ limit (omega (arith, gone, over, card_lem z'))
