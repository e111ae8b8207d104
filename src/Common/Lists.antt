-- ===== src/Common/Lists.antt =====
-- Lists by Boolean tests and native numbers: the array methods that the source calls.
use Prim.Native.Nat.{ℕ, zero, suc, ◌+◌, ◌≤◌}
use mathlib.Core.Path.{◌≡◌, refl, subst}
use mathlib.Core.Logic.{inl, inr}
use mathlib.Core.Bool.{Bool, true, false, ◌&&◌, ◌||◌}
use mathlib.Core.Option.{Option, none, some}
use mathlib.Core.List.{List, [], ◌∷◌, ◌++◌, map}
use native.Mathlib.Omega.{arith}
use rmcollab_model.Common.Tests.{if◌then◌else◌, Bool-cases}

module _ {ℓ} {A : Type ℓ} where
  abbrev pub length : List A → ℕ
  length [] = 0
  length (x ∷ xs) = suc (length xs)

  abbrev pub filter : (A → Bool) → List A → List A
  filter p [] = []
  filter p (x ∷ xs) = if p x then x ∷ filter p xs else filter p xs

  -- `some` of an array.
  abbrev pub any : (A → Bool) → List A → Bool
  any p [] = false
  any p (x ∷ xs) = p x || any p xs

  -- `every` of an array.
  abbrev pub all : (A → Bool) → List A → Bool
  all p [] = true
  all p (x ∷ xs) = p x && all p xs

  -- `find` of an array.
  abbrev pub find? : (A → Bool) → List A → Option A
  find? p [] = none
  find? p (x ∷ xs) = if p x then some x else find? p xs

  abbrev pub take : ℕ → List A → List A
  take zero xs = []
  take (suc n) [] = []
  take (suc n) (x ∷ xs) = x ∷ take n xs

  abbrev pub drop : ℕ → List A → List A
  drop zero xs = xs
  drop (suc n) [] = []
  drop (suc n) (x ∷ xs) = drop n xs

  pub length-append : (xs ys : List A) → length (xs ++ ys) ≡ length xs + length ys
  length-append [] ys = omega arith
  length-append (x ∷ xs) ys = omega (arith, length-append xs ys)

  pub length-filter-le : (p : A → Bool) (xs : List A) → length (filter p xs) ≤ length xs
  length-filter-le p [] = omega arith
  length-filter-le p (x ∷ xs) = ground (arith, length-filter-le p xs)

  -- A test that every element meets keeps the whole list.
  pub filter-eq_self : (p : A → Bool) (xs : List A) → all p xs ≡ true → filter p xs ≡ xs
  filter-eq_self p [] h = refl
  filter-eq_self p (x ∷ xs) h = ground (arith, filter-eq_self p xs)

  pub all-append : (p : A → Bool) (xs ys : List A) → all p (xs ++ ys) ≡ (all p xs && all p ys)
  all-append p [] ys = refl
  all-append p (x ∷ xs) ys = ground (arith, all-append p xs ys)

-- Every element has the property.
abbrev pub All {ℓ κ} : {A : Type ℓ} → (A → Type κ) → List A → Type κ
All P [] = Unit
All P (x ∷ xs) = P x × All P xs

module _ {ℓ κ} {A : Type ℓ} (P : A → Type κ) where
  pub All-filter : (p : A → Bool) (xs : List A) → All P xs → All P (filter p xs)
  All-filter p [] h = tt
  All-filter p (x ∷ xs) h = ground (arith, All-filter p xs h.1)

  pub All-append : (xs ys : List A) → All P xs → All P ys → All P (xs ++ ys)
  All-append [] ys h k = k
  All-append (x ∷ xs) ys h k = (h.0, All-append xs ys h.1 k)

-- Two lists of one length, related element by element.
abbrev pub Pointwise {ℓ κ} : {A : Type ℓ} → (A → A → Type κ) → List A → List A → Type κ
Pointwise R [] [] = Unit
Pointwise R [] (y ∷ ys) = ⊥ × Unit
Pointwise R (x ∷ xs) [] = ⊥ × Unit
Pointwise R (x ∷ xs) (y ∷ ys) = R x y × Pointwise R xs ys

pub Pointwise-refl {ℓ κ} :
    {A : Type ℓ} (R : A → A → Type κ) (r : (x : A) → R x x) (xs : List A) → Pointwise R xs xs
Pointwise-refl R r [] = tt
Pointwise-refl R r (x ∷ xs) = (r x, Pointwise-refl R r xs)

-- What a search finds passes its test, and so does something that the tests see.
module _ {ℓ} {A : Type ℓ} (p : A → Bool) where
  pub find?-passes : (xs : List A) (a : A) → find? p xs ≡ some a → p a ≡ true
  find?-passes [] a e = cc
  find?-passes (x ∷ xs) a e = elim (Bool-cases (p x)) [
    | inl h ↦ let same : x ≡ a = ground arith in subst (λ y. p y ≡ true) same h
    | inr h ↦ find?-passes xs a (ground arith)
  ]

  pub any-find? :
      (q : A → Bool) (xs : List A) (a : A) → find? p xs ≡ some a → q a ≡ true → any q xs ≡ true
  any-find? q [] a e h = cc
  any-find? q (x ∷ xs) a e h = elim (Bool-cases (p x)) [
    | inl k ↦ let same : x ≡ a = ground arith in rw same (rw h)
    | inr k ↦ ground (arith, any-find? q xs a (ground arith) h)
  ]

  pub find?-any : (xs : List A) → any p xs ≡ true → (a : A) × (find? p xs ≡ some a)
  find?-any [] e = cc
  find?-any (x ∷ xs) e = elim (Bool-cases (p x)) [
    | inl h ↦ (x, rw h)
    | inr h ↦ let (a, found) = find?-any xs (rw h at e) in (a, rw h found)
  ]

  pub All-find? {κ} : (P : A → Type κ) (xs : List A) (a : A) → All P xs → find? p xs ≡ some a → P a
  All-find? P [] a h e = cc
  All-find? P (x ∷ xs) a (h, hs) e = elim (Bool-cases (p x)) [
    | inl k ↦ let same : x ≡ a = ground arith in subst P same h
    | inr k ↦ All-find? P xs a hs (ground arith)
  ]

  pub any-filter : (q : A → Bool) (xs : List A) → any q (filter p xs) ≡ any (λ x. p x && q x) xs
  any-filter q [] = refl
  any-filter q (x ∷ xs) = elim (Bool-cases (p x)) [
    | inl h ↦ rw (h, any-filter q xs)
    | inr h ↦ rw (h, any-filter q xs)
  ]

pub any-map {ℓ κ} :
    {A : Type ℓ} {B : Type κ} (q : B → Bool) (f : A → B) (xs : List A)
    → any q (map f xs) ≡ any (λ x. q (f x)) xs
any-map q f [] = refl
any-map q f (x ∷ xs) = rw (any-map q f xs)

pub any_mono {ℓ} :
    {A : Type ℓ} (p q : A → Bool) (xs : List A)
    → ((x : A) → p x ≡ true → q x ≡ true)
    → any p xs ≡ true
    → any q xs ≡ true
any_mono p q [] h e = e
any_mono p q (x ∷ xs) h e = elim (Bool-cases (p x)) [
  | inl k ↦ rw (h x k)
  | inr k ↦ let rest = any_mono p q xs h (rw k at e) in ground arith
]

-- No element that a list is mapped to meets a test that none met before.
pub none-map {ℓ} :
    {A : Type ℓ} (p : A → Bool) (f : A → A) (xs : List A)
    → ((x : A) → p (f x) ≡ true → p x ≡ true)
    → any p xs ≡ false
    → any p (map f xs) ≡ false
none-map p f [] h e = refl
none-map p f (x ∷ xs) h e = elim (Bool-cases (p (f x))) [
  | inl k ↦ let before = h x k in ground (arith, e)
  | inr k ↦ let rest = none-map p f xs h in ground (arith, rest)
]

pub none-filter {ℓ} :
    {A : Type ℓ} (p q : A → Bool) (xs : List A) → any p xs ≡ false → any p (filter q xs) ≡ false
none-filter p q [] e = refl
none-filter p q (x ∷ xs) e = ground (arith, none-filter p q xs)

pub any-append {ℓ} :
    {A : Type ℓ} (p : A → Bool) (xs ys : List A) → any p (xs ++ ys) ≡ (any p xs || any p ys)
any-append p [] ys = refl
any-append p (x ∷ xs) ys = ground (arith, any-append p xs ys)
