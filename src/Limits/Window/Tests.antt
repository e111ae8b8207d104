-- ===== src/Limits/Window/Tests.antt =====
-- The window over sorted lists of times, an instance of the store.
use rmcollab_model.Common.{
  ℕ, ◌+◌, ◌*◌, ◌≡◌, refl, Bool, true, false, List, [], ◌∷◌, ltb, leb, filter, length, arith, ◌-◌,
  All-filter,
}
use rmcollab_model.Common.Sorting.{insert, IsSorted, IsOrder, insert-IsSorted, count}
use rmcollab_model.Limits.Window.{EventSet, within, get_elem?}
use rmcollab_model.Limits.Window.Admitted.{after, calls, window_exact}
use rmcollab_model.Limits.Window.Retry.{retry_succeeds}

pub leb-IsOrder : IsOrder leb
leb-IsOrder = record { total = λ a b h. ground arith; trans = λ a b c h k. ground arith }

pub filter-IsSorted : (p : ℕ → Bool) (xs : List ℕ) → IsSorted leb xs → IsSorted leb (filter p xs)
filter-IsSorted p [] s = tt
filter-IsSorted p (x ∷ xs) s =
    ground (arith, filter-IsSorted p xs s.1, All-filter (λ (y : ℕ). leb x y ≡ true) p xs s.0)

abbrev pub sorted_times : EventSet
sorted_times = record {
  Store = (xs : List ℕ) × IsSorted leb xs;
  scores = λ z. z.0;
  remove_until =
      λ since z. (filter (λ t. ltb since t) z.0, filter-IsSorted (λ t. ltb since t) z.0 z.1);
  add = λ at z. (insert leb at z.0, insert-IsSorted leb leb-IsOrder at z.0 z.1);
  card = λ z. length z.0;
  score_at = λ z i. get_elem? z.0 i;
  sorted = λ z. z.1;
  remove_until_lem = λ since z. refl;
  add_lem = λ at z. refl;
  card_lem = λ z. refl;
  score_at_lem = λ z i. refl;
}

abbrev pub empty : sorted_times.Store
empty = ([], tt)

abbrev full : sorted_times.Store
full = (61000 ∷ 62000 ∷ [], ((refl, tt), (tt, tt)))

third_refused : (within sorted_times full 60 2 63000).1 ≡ record { ok = false; retry_after_s = 59 }
unfolding within
third_refused = refl

refusal : (within sorted_times full 60 2 63000).1.ok ≡ false
unfolding within
refusal = refl

retry_succeeds_example :
    (within sorted_times
      (within sorted_times full 60 2 63000).0
      60
      2
      (63000 + (within sorted_times full 60 2 63000).1.retry_after_s * 1000)).1.ok
    ≡ true
retry_succeeds_example = retry_succeeds sorted_times full 60 2 63000 (omega arith) refusal

window_exact_example :
    (within sorted_times (calls sorted_times empty 60 2 (61000 ∷ 62000 ∷ [])) 60 2 63000).1.ok
    ≡ leb (count (after (63000 - 60 * 1000)) (61000 ∷ 62000 ∷ []) + 1) 2
window_exact_example =
    window_exact sorted_times empty 60 2 63000 (61000 ∷ 62000 ∷ []) refl (omega arith)
