-- ===== src/Limits/Window/Admitted.antt =====
-- gateway/src/limits.ts: exactly which calls of `within` are let through.
use rmcollab_model.Common.{
  ℕ, ◌+◌, ◌-◌, ◌*◌, ◌≤◌, ◌≡◌, refl, ◌∙◌, ap, Bool, true, false, List, [], ◌∷◌, ◌++◌, append-nil,
  append_assoc, ltb, leb, if◌then◌else◌, filter, length, arith, Bool-cases, inl, inr,
}
use rmcollab_model.Common.Sorting.{insert, count, count-insert, count-append}
use rmcollab_model.Limits.Window.{EventSet, Verdict, within}

-- The event is after the time.
abbrev pub after : ℕ → ℕ → Bool
after since t = ltb since t

pub length-filter : (p : ℕ → Bool) (xs : List ℕ) → length (filter p xs) ≡ count p xs
length-filter p [] = refl
length-filter p (x ∷ xs) = ground (arith, length-filter p xs)

count-filter :
    (b t : ℕ) (xs : List ℕ) → b ≤ t → count (after t) (filter (after b) xs) ≡ count (after t) xs
count-filter b t [] h = refl
count-filter b t (x ∷ xs) h = ground (arith, count-filter b t xs h)

pub length-insert : (t : ℕ) (xs : List ℕ) → length (insert leb t xs) ≡ length xs + 1
length-insert t [] = omega arith
length-insert t (x ∷ xs) = ground (arith, length-insert t xs)

abbrev pub verdict_no : ℕ → Verdict
verdict_no wait = record { ok = false; retry_after_s = wait }

ok-verdict :
    (n limit wait : ℕ)
    → (if leb n limit then record { ok = true; retry_after_s = 0 } else verdict_no wait).ok
      ≡ leb n limit
ok-verdict n limit wait = elim (Bool-cases (leb n limit)) [ inl e ↦ rw e | inr e ↦ rw e ]

module _ (store : EventSet) where
  open store use {Store, scores, remove_until, add, card, remove_until_lem, add_lem, card_lem}

  -- The set holds every call since the bound.
  abbrev Tracks : Store → List ℕ → ℕ → Type 0
  Tracks z history b = (t : ℕ) → b ≤ t → count (after t) (scores z) ≡ count (after t) history

  -- The store after calls at these times, all with one window and limit.
  pub calls : Store → ℕ → ℕ → List ℕ → Store
  calls z window_s limit [] = z
  calls z window_s limit (now ∷ times) =
      calls (within store z window_s limit now).0 window_s limit times

  within-scores :
      (z : Store) (window_s limit now : ℕ)
      → scores (within store z window_s limit now).0
        ≡ insert leb now (filter (after (now - window_s * 1000)) (scores z))
  unfolding within
  within-scores z window_s limit now =
      add_lem now (remove_until (now - window_s * 1000) z)
      ∙ ap (insert leb now) (remove_until_lem (now - window_s * 1000) z)

  within-Tracks :
      (z : Store) (window_s limit now b : ℕ) (history : List ℕ)
      → b ≤ now - window_s * 1000
      → Tracks z history b
      → Tracks (within store z window_s limit now).0 (history ++ now ∷ []) (now - window_s * 1000)
  within-Tracks z window_s limit now b history h tracks t k =
      rw (within-scores z window_s limit now) (
        omega (
          arith,
          count-insert (after t) leb now (filter (after (now - window_s * 1000)) (scores z)),
          count-filter (now - window_s * 1000) t (scores z) k,
          count-append (after t) history (now ∷ []),
          tracks t (omega arith),
        ))

  -- A call is let through if what is left of the window has room for it.
  pub within-room :
      (z : Store) (window_s limit now : ℕ)
      → (within store z window_s limit now).1.ok
        ≡ leb (length (filter (after (now - window_s * 1000)) (scores z)) + 1) limit
  unfolding within
  within-room z window_s limit now =
      ok-verdict (card (add now (remove_until (now - window_s * 1000) z))) limit _
      ∙ ap (λ n. leb n limit)
          (card_lem (add now (remove_until (now - window_s * 1000) z))
            ∙ ap length (
                add_lem now (remove_until (now - window_s * 1000) z)
                ∙ ap (insert leb now) (remove_until_lem (now - window_s * 1000) z))
            ∙ length-insert now (filter (after (now - window_s * 1000)) (scores z)))

  within-ok :
      (z : Store) (window_s limit now b : ℕ) (history : List ℕ)
      → b ≤ now - window_s * 1000
      → Tracks z history b
      → (within store z window_s limit now).1.ok
        ≡ leb (count (after (now - window_s * 1000)) history + 1) limit
  within-ok z window_s limit now b history h tracks =
      within-room z window_s limit now
      ∙ ap (λ n. leb (n + 1) limit)
          (length-filter (after (now - window_s * 1000)) (scores z)
            ∙ tracks (now - window_s * 1000) h)

  -- The calls are in the order of time, none before the bound.
  abbrev pub InOrder : ℕ → List ℕ → Type 0
  InOrder b [] = Unit {0}
  InOrder b (t ∷ ts) = (b ≤ t) × InOrder t ts

  calls-Tracks :
      (z : Store) (window_s limit now p : ℕ) (times history : List ℕ)
      → InOrder p (times ++ now ∷ [])
      → Tracks z history (p - window_s * 1000)
      → Tracks (calls z window_s limit times) (history ++ times) (now - window_s * 1000)
  unfolding calls
  calls-Tracks z window_s limit now p [] history order tracks t k =
      rw (append-nil history) (tracks t (omega arith))
  calls-Tracks z window_s limit now p (u ∷ times) history order tracks t k =
      let ih =
        calls-Tracks (within store z window_s limit u).0 window_s limit now u times
          (history ++ u ∷ []) order.1
          (within-Tracks z window_s limit u (p - window_s * 1000) history (omega arith) tracks) in
      rw (append_assoc history (u ∷ []) times) at (ih t k)

  -- From an empty window, with calls made in the order of time, a call is let through exactly when
  -- those in the last `window_s` seconds, refused ones included, make at most `limit` with it.
  pub window_exact :
      (z : Store) (window_s limit now : ℕ) (times : List ℕ)
      → scores z ≡ []
      → InOrder 0 (times ++ now ∷ [])
      → (within store (calls z window_s limit times) window_s limit now).1.ok
        ≡ leb (count (after (now - window_s * 1000)) times + 1) limit
  window_exact z window_s limit now times empty order =
      within-ok (calls z window_s limit times) window_s limit now (now - window_s * 1000) times
        (omega arith) (calls-Tracks z window_s limit now 0 times [] order (λ t k. rw empty))
