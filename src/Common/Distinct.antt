-- ===== src/Common/Distinct.antt =====
-- Lists whose elements have different ids, and the operations that keep them so.
use Prim.Native.String.{String}
use mathlib.Core.Path.{◌≡◌, sym, ◌∙◌}
use mathlib.Core.Logic.{◌≢◌, inl, inr}
use mathlib.Core.Bool.{Bool, false}
use mathlib.Core.List.{List, [], ◌∷◌, ◌++◌, map}
use native.Mathlib.Omega.{arith}
use text.Mathlib.Text.{◌==◌}
use text.Mathlib.TextEquality.{eq_iff}
use rmcollab_model.Common.Tests.{Bool-cases}
use rmcollab_model.Common.Lists.{All, All-filter, any, filter}
use rmcollab_model.Common.Sorting.{insert, sort}

module _ {A : Type 0} (id : A → String) where
  -- No element has this id.
  abbrev pub IsFresh : String → List A → Type 0
  IsFresh k xs = All (λ (y : A). id y ≢ k) xs

  -- No two elements share their id.
  abbrev pub Distinct : List A → Type 0
  Distinct [] = Unit {0}
  Distinct (x ∷ xs) = IsFresh (id x) xs × Distinct xs

  pub Distinct-filter : (p : A → Bool) (xs : List A) → Distinct xs → Distinct (filter p xs)
  Distinct-filter p [] d = tt
  Distinct-filter p (x ∷ xs) d =
      ground (arith, Distinct-filter p xs d.1, All-filter (λ (y : A). id y ≢ id x) p xs d.0)

  pub IsFresh-of_any :
      (k : String) (xs : List A) → any (λ (c : A). id c == k) xs ≡ false → IsFresh k xs
  IsFresh-of_any k [] h = tt
  IsFresh-of_any k (x ∷ xs) h =
      ((λ e. ground (arith, eq_iff (id x) k)), IsFresh-of_any k xs (ground arith))

  IsFresh-snoc :
      (k : String) (xs : List A) (m : A) → id m ≢ k → IsFresh k xs → IsFresh k (xs ++ m ∷ [])
  IsFresh-snoc k [] m h f = (h, tt)
  IsFresh-snoc k (x ∷ xs) m h f = (f.0, IsFresh-snoc k xs m h f.1)

  pub Distinct-snoc :
      (xs : List A) (m : A) → IsFresh (id m) xs → Distinct xs → Distinct (xs ++ m ∷ [])
  Distinct-snoc [] m f d = (tt, tt)
  Distinct-snoc (x ∷ xs) m f d =
      (IsFresh-snoc (id x) xs m (λ e. f.0 (sym e)) d.0, Distinct-snoc xs m f.1 d.1)

  IsFresh-insert :
      (le : A → A → Bool) (k : String) (x : A) (xs : List A)
      → id x ≢ k
      → IsFresh k xs
      → IsFresh k (insert le x xs)
  IsFresh-insert le k x [] h f = (h, tt)
  IsFresh-insert le k x (y ∷ ys) h f = elim (Bool-cases (le x y)) [
    | inl e ↦ rw e (h, f)
    | inr e ↦ rw e (f.0, IsFresh-insert le k x ys h f.1)
  ]

  Distinct-insert :
      (le : A → A → Bool) (x : A) (xs : List A)
      → IsFresh (id x) xs
      → Distinct xs
      → Distinct (insert le x xs)
  Distinct-insert le x [] f d = (tt, tt)
  Distinct-insert le x (y ∷ ys) f d = elim (Bool-cases (le x y)) [
    | inl e ↦ rw e (f, d)
    | inr e ↦
        rw e (IsFresh-insert le (id y) x ys (λ q. f.0 (sym q)) d.0, Distinct-insert le x ys f.1 d.1)
  ]

  IsFresh-sort :
      (le : A → A → Bool) (k : String) (xs : List A) → IsFresh k xs → IsFresh k (sort le xs)
  IsFresh-sort le k [] f = tt
  IsFresh-sort le k (x ∷ xs) f = IsFresh-insert le k x (sort le xs) f.0 (IsFresh-sort le k xs f.1)

  pub Distinct-sort : (le : A → A → Bool) (xs : List A) → Distinct xs → Distinct (sort le xs)
  Distinct-sort le [] d = tt
  Distinct-sort le (x ∷ xs) d =
      Distinct-insert le x (sort le xs) (IsFresh-sort le (id x) xs d.0) (Distinct-sort le xs d.1)

  IsFresh-map :
      (f : A → A) (same : (x : A) → id (f x) ≡ id x) (k : String) (xs : List A)
      → IsFresh k xs
      → IsFresh k (map f xs)
  IsFresh-map f same k [] h = tt
  IsFresh-map f same k (x ∷ xs) h = ((λ e. h.0 (sym (same x) ∙ e)), IsFresh-map f same k xs h.1)

  pub Distinct-map :
      (f : A → A) (same : (x : A) → id (f x) ≡ id x) (xs : List A)
      → Distinct xs
      → Distinct (map f xs)
  Distinct-map f same [] d = tt
  Distinct-map f same (x ∷ xs) d =
      (rw (same x) (IsFresh-map f same (id x) xs d.0), Distinct-map f same xs d.1)
