-- ===== src/Common/Sorting.antt =====
-- `Array.prototype.sort`: stable, by a comparator whose result is at most 0 where `le` is true.
use Prim.Native.Nat.{ℕ, ◌+◌}
use mathlib.Core.Path.{◌≡◌, refl, ◌∙◌}
use mathlib.Core.Bool.{Bool, true, false, ◌||◌}
use mathlib.Core.Logic.{inl, inr}
use mathlib.Core.List.{List, [], ◌∷◌, ◌++◌, Perm}
use mathlib.Core.List.Perm
use native.Mathlib.Omega.{arith}
use rmcollab_model.Common.Tests.{if◌then◌else◌, Bool-cases}
use rmcollab_model.Common.Lists.{All, any}

module _ {ℓ} {A : Type ℓ} (le : A → A → Bool) where
  abbrev pub insert : A → List A → List A
  insert x [] = x ∷ []
  insert x (y ∷ ys) = if le x y then x ∷ y ∷ ys else y ∷ insert x ys

  abbrev pub sort : List A → List A
  sort [] = []
  sort (x ∷ xs) = insert x (sort xs)

  insert-perm : (x : A) (xs : List A) → Perm (insert x xs) (x ∷ xs)
  insert-perm x [] = Perm.refl _
  insert-perm x (y ∷ ys) = elim (Bool-cases (le x y)) [
    | inl e ↦ rw e (Perm.refl _)
    | inr e ↦ rw e (Perm.trans (Perm.cons y (insert-perm x ys)) (Perm.swap x y ys))
  ]

  pub sort-perm : (xs : List A) → Perm (sort xs) xs
  sort-perm [] = Perm.refl _
  sort-perm (x ∷ xs) = Perm.trans (insert-perm x (sort xs)) (Perm.cons x (sort-perm xs))

  -- Every element is at most each of those after it.
  abbrev pub IsSorted : List A → Type ℓ
  IsSorted [] = Unit
  IsSorted (x ∷ xs) = All (λ y. le x y ≡ true) xs × IsSorted xs

-- What sorting relies on in a comparator: any two elements compare, and the order is transitive.
pub record IsOrder {ℓ} {A : Type ℓ} (le : A → A → Bool) : Type ℓ where
  pub total : (x y : A) → le x y ≡ false → le y x ≡ true
  pub trans : (x y z : A) → le x y ≡ true → le y z ≡ true → le x z ≡ true

module _ {ℓ} {A : Type ℓ} (le : A → A → Bool) (order : IsOrder le) where
  All-le_trans :
      (x y : A) (zs : List A)
      → le x y ≡ true
      → All (λ z. le y z ≡ true) zs
      → All (λ z. le x z ≡ true) zs
  All-le_trans x y [] h a = tt
  All-le_trans x y (z ∷ zs) h a = (order.trans x y z h a.0, All-le_trans x y zs h a.1)

  All-insert :
      (w x : A) (xs : List A)
      → le w x ≡ true
      → All (λ z. le w z ≡ true) xs
      → All (λ z. le w z ≡ true) (insert le x xs)
  All-insert w x [] h a = (h, tt)
  All-insert w x (y ∷ ys) h a = elim (Bool-cases (le x y)) [
    | inl e ↦ rw e (h, a)
    | inr e ↦ rw e (a.0, All-insert w x ys h a.1)
  ]

  pub insert-IsSorted : (x : A) (xs : List A) → IsSorted le xs → IsSorted le (insert le x xs)
  insert-IsSorted x [] s = (tt, tt)
  insert-IsSorted x (y ∷ ys) s = elim (Bool-cases (le x y)) [
    | inl e ↦ rw e ((e, All-le_trans x y ys e s.0), s)
    | inr e ↦ rw e (All-insert y x ys (order.total x y e) s.0, insert-IsSorted x ys s.1)
  ]

  pub sort-IsSorted : (xs : List A) → IsSorted le (sort le xs)
  sort-IsSorted [] = tt
  sort-IsSorted (x ∷ xs) = insert-IsSorted x (sort le xs) (sort-IsSorted xs)

module _ {ℓ} {A : Type ℓ} (p : A → Bool) where
  -- How many elements pass the test.
  abbrev pub count : List A → ℕ
  count [] = 0
  count (x ∷ xs) = (if p x then 1 else 0) + count xs

  pub count-insert :
      (le : A → A → Bool) (x : A) (xs : List A)
      → count (insert le x xs) ≡ (if p x then 1 else 0) + count xs
  count-insert le x [] = refl
  count-insert le x (y ∷ ys) = elim (Bool-cases (le x y)) [
    | inl e ↦ rw e
    | inr e ↦ rw e (omega (arith, count-insert le x ys))
  ]

  -- Sorting loses and adds nothing.
  pub count-sort : (le : A → A → Bool) (xs : List A) → count (sort le xs) ≡ count xs
  count-sort le [] = refl
  count-sort le (x ∷ xs) = omega (arith, count-insert le x (sort le xs), count-sort le xs)

  pub count-append : (xs ys : List A) → count (xs ++ ys) ≡ count xs + count ys
  count-append [] ys = omega arith
  count-append (x ∷ xs) ys = omega (arith, count-append xs ys)

module _ {ℓ} {A : Type ℓ} (le : A → A → Bool) where
  any-insert : (q : A → Bool) (x : A) (xs : List A) → any q (insert le x xs) ≡ (q x || any q xs)
  any-insert q x [] = refl
  any-insert q x (y ∷ ys) = elim (Bool-cases (le x y)) [
    | inl e ↦ rw e
    | inr e ↦ rw (e, any-insert q x ys) (ground arith)
  ]

  pub any-sort : (q : A → Bool) (xs : List A) → any q (sort le xs) ≡ any q xs
  any-sort q [] = refl
  any-sort q (x ∷ xs) = any-insert q x (sort le xs) ∙ rw (any-sort q xs)

  insert-All {κ} : (P : A → Type κ) (x : A) (xs : List A) → P x → All P xs → All P (insert le x xs)
  insert-All P x [] p h = (p, tt)
  insert-All P x (y ∷ ys) p h = elim (Bool-cases (le x y)) [
    | inl e ↦ rw e (p, h)
    | inr e ↦ rw e (h.0, insert-All P x ys p h.1)
  ]

  pub All-sort {κ} : (P : A → Type κ) (xs : List A) → All P xs → All P (sort le xs)
  All-sort P [] h = tt
  All-sort P (x ∷ xs) h = insert-All P x (sort le xs) h.0 (All-sort P xs h.1)
