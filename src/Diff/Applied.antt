-- ===== src/Diff/Applied.antt =====
-- client/src/lib/diff.ts: what a diff puts together again is the rewrite, whatever the patterns
-- take for equal.
use rmcollab_model.Common.{
  ℕ, zero, suc, ◌+◌, ◌≤◌, ◌≡◌, refl, sym, ap, ◌∙◌, String, Bool, true, false, not, List, [], ◌∷◌,
  ltb, leb, ◌==◌, eq_iff, length, take, drop, ◌-◌, ◌*◌, ◌&&◌, ◌++◌, arith, Bool-cases, inl, inr,
  ◌⊎◌,
}
use text.Mathlib.TextLemmas
use mathlib.Core.List.{reverse}
use rmcollab_model.Diff.{
  append_part, is_edit, DiffOp, equal, insert, delete, DiffPart, op_eq, concat, join, push, applied,
  next_op, walk, align, lengths, at_or_zero, row_or_empty, fold_spaces, flush, regroup, tidy,
  Patterns, same_token, diff_middle, diff_words, common, max_cells,
}

-- What a part with the operation adds to the rewrite.
abbrev pub kept : DiffOp → String → String
kept delete t = ""
kept op t = t

pub concat-nil : (s : String) → concat s "" ≡ s
concat-nil s = TextLemmas.append-nil s

pub nil-concat : (s : String) → concat "" s ≡ s
nil-concat s = TextLemmas.nil-append s

pub concat_assoc : (s t u : String) → concat (concat s t) u ≡ concat s (concat t u)
concat_assoc s t u = TextLemmas.append_assoc s t u

op_eq→eq : (a b : DiffOp) → op_eq a b ≡ true → a ≡ b
op_eq→eq equal equal h = refl
op_eq→eq insert insert h = refl
op_eq→eq delete delete h = refl
op_eq→eq equal insert h = cc
op_eq→eq equal delete h = cc
op_eq→eq insert equal h = cc
op_eq→eq insert delete h = cc
op_eq→eq delete equal h = cc
op_eq→eq delete insert h = cc

kept-nil : (op : DiffOp) (t : String) → (t == "") ≡ true → kept op t ≡ ""
kept-nil equal t h = (eq_iff t "").0 h
kept-nil insert t h = (eq_iff t "").0 h
kept-nil delete t h = refl

kept-concat : (op : DiffOp) (s t : String) → kept op (concat s t) ≡ concat (kept op s) (kept op t)
kept-concat equal s t = refl
kept-concat insert s t = refl
kept-concat delete s t = sym (nil-concat "")

pub applied-cons :
    (op : DiffOp) (t : String) (ps : List DiffPart)
    → applied (record { op = op; text = t } ∷ ps) ≡ concat (kept op t) (applied ps)
unfolding applied
applied-cons equal t ps = refl
applied-cons insert t ps = refl
applied-cons delete t ps = sym (nil-concat (applied ps))

pub applied_nil : (t : String) → t ≡ concat (applied []) t
unfolding applied
applied_nil t = sym (nil-concat t)

-- A part merged with one of its operation, or put after one.
applied-append_part :
    (p : DiffPart) (op : DiffOp) (t : String)
    → applied (append_part p op t) ≡ concat (applied (p ∷ [])) (kept op t)
unfolding applied
applied-append_part p op t = elim (Bool-cases (op_eq p.op op)) [
  | inl e ↦ rw e (
      applied-cons p.op (concat p.text t) []
      ∙ concat-nil (kept p.op (concat p.text t))
      ∙ kept-concat p.op p.text t
      ∙ ap (λ o. concat (kept p.op p.text) (kept o t)) (op_eq→eq p.op op e)
      ∙ ap (λ u. concat u (kept op t))
          (sym (applied-cons p.op p.text [] ∙ concat-nil (kept p.op p.text))))
  | inr e ↦ rw e (
      applied-cons p.op p.text (record { op = op; text = t } ∷ [])
      ∙ ap (concat (kept p.op p.text)) (applied-cons op t [] ∙ concat-nil (kept op t))
      ∙ ap (λ u. concat u (kept op t))
          (sym (applied-cons p.op p.text [] ∙ concat-nil (kept p.op p.text))))
]

applied-same :
    (ps : List DiffPart) (op : DiffOp) (t : String)
    → (t == "") ≡ true
    → applied ps ≡ concat (applied ps) (kept op t)
applied-same ps op t h = sym (ap (concat (applied ps)) (kept-nil op t h) ∙ concat-nil (applied ps))

-- What a list with one more part puts together.
pub applied-push :
    (ps : List DiffPart) (op : DiffOp) (t : String)
    → applied (push ps op t) ≡ concat (applied ps) (kept op t)
unfolding push applied
applied-push [] op t = elim (Bool-cases (t == "")) [
  | inl e ↦ rw (push, e) (applied-same [] op t e)
  | inr e ↦ rw (push, e) (applied-cons op t [] ∙ concat-nil (kept op t) ∙ applied_nil (kept op t))
]
applied-push (p ∷ []) op t = elim (Bool-cases (t == "")) [
  | inl e ↦ rw (push, e) (applied-same (p ∷ []) op t e)
  | inr e ↦ rw (push, e) (applied-append_part p op t)
]
applied-push (p ∷ q ∷ ps) op t =
    applied-cons p.op p.text (push (q ∷ ps) op t)
    ∙ ap (concat (kept p.op p.text)) (applied-push (q ∷ ps) op t)
    ∙ sym (concat_assoc (kept p.op p.text) (applied (q ∷ ps)) (kept op t))
    ∙ ap (λ u. concat u (kept op t)) (sym (applied-cons p.op p.text (q ∷ ps)))

-- Where each step of a walk adds what it keeps to a text, the walk adds all that comes after.
module _ {ℓ} {S : Type ℓ} (same : String → String → Bool) (emit : S → DiffOp → String → S)
    (view : S → String)
    (emit_lem : (s : S) (op : DiffOp) (t : String)
      → view (emit s op t) ≡ concat (view s) (kept op t)) where
  taken :
      (s : S) (op : DiffOp) (y r : String)
      → kept op (concat y "") ≡ concat y ""
      → concat (view (emit s op (concat y ""))) r ≡ concat (view s) (concat y r)
  taken s op y r k =
      ap (λ u. concat u r) (emit_lem s op (concat y "") ∙ ap (concat (view s)) (k ∙ concat-nil y))
      ∙ concat_assoc (view s) y r

  dropped : (s : S) (x r : String) → concat (view (emit s delete x)) r ≡ concat (view s) r
  dropped s x r = ap (λ u. concat u r) (emit_lem s delete x ∙ concat-nil (view s))

  walk-view :
      (fuel : ℕ) (s : S) (xs ys : List String) (j : ℕ) (rows : List (List ℕ))
      → length xs + length ys ≤ fuel
      → view (walk same emit fuel s (record { before = xs; after = ys; column = j; rows = rows }))
        ≡ concat (view s) (join ys)
  unfolding walk next_op
  walk-view zero s [] [] j rows h = sym (concat-nil (view s))
  walk-view zero s (x ∷ xs) ys j rows h = absurd (omega (arith, h))
  walk-view zero s [] (y ∷ ys) j rows h = absurd (omega (arith, h))
  walk-view (suc fuel) s [] [] j rows h = sym (concat-nil (view s))
  walk-view (suc fuel) s [] (y ∷ ys) j rows h =
      walk-view fuel (emit s insert (concat y "")) [] ys (j + 1) rows (omega (arith, h))
      ∙ taken s insert y (join ys) refl
  walk-view (suc fuel) s (x ∷ xs) [] j rows h =
      walk-view fuel (emit s delete (concat x "")) xs [] j (drop 1 rows) (omega (arith, h))
      ∙ dropped s (concat x "") ""
  walk-view (suc fuel) s (x ∷ xs) (y ∷ ys) j rows h = elim (Bool-cases (same x y)) [
    | inl e ↦
        rw (walk, next_op, e)
          (walk-view fuel (emit s equal (concat y "")) xs ys (j + 1) (drop 1 rows)
              (omega (arith, h))
            ∙ taken s equal y (join ys) refl)
    | inr e ↦
        elim (Bool-cases (
          leb (at_or_zero (row_or_empty (drop 1 rows)) j)
            (at_or_zero (row_or_empty rows) (j + 1)))) [
              | inl f ↦
                  rw (walk, next_op, e, f)
                    (walk-view fuel (emit s insert (concat y "")) (x ∷ xs) ys (j + 1) rows
                        (omega (arith, h))
                      ∙ taken s insert y (join ys) refl)
              | inr f ↦
                  rw (walk, next_op, e, f)
                    (walk-view fuel (emit s delete (concat x "")) xs (y ∷ ys) j (drop 1 rows)
                        (omega (arith, h))
                      ∙ dropped s (concat x "") (join (y ∷ ys)))
            ]
  ]

  pub align-view :
      (s : S) (xs ys : List String) → view (align same emit s xs ys) ≡ concat (view s) (join ys)
  unfolding align
  align-view s xs ys =
      walk-view (length xs + length ys) s xs ys 0 (lengths same xs ys) (omega arith)

applied-flush :
    (out : List DiffPart) (removed added : String)
    → applied (flush out removed added) ≡ concat (applied out) added
applied-flush out removed added =
    applied-push (push out delete removed) insert added
    ∙ ap (λ u. concat u added) (applied-push out delete removed ∙ concat-nil (applied out))

op-cases : (op : DiffOp) → (op ≡ delete) ⊎ ((op ≡ insert) ⊎ (op ≡ equal))
op-cases delete = inl refl
op-cases insert = inr (inl refl)
op-cases equal = inr (inr refl)

applied-of :
    (p : DiffPart) (op : DiffOp) (ps : List DiffPart)
    → p.op ≡ op
    → applied (p ∷ ps) ≡ concat (kept op p.text) (applied ps)
applied-of p op ps e = applied-cons p.op p.text ps ∙ ap (λ o. concat (kept o p.text) (applied ps)) e

applied-regroup_nil :
    (out : List DiffPart) (removed added : String)
    → applied (regroup out removed added []) ≡ concat (applied out) (concat added (applied []))
unfolding regroup applied
applied-regroup_nil out removed added =
    applied-flush out removed added ∙ ap (concat (applied out)) (sym (concat-nil added))

regroup-delete :
    (p : DiffPart) (ps out : List DiffPart) (removed added : String)
    → p.op ≡ delete
    → regroup out removed added (p ∷ ps) ≡ regroup out (concat removed p.text) added ps
unfolding regroup
regroup-delete p ps out removed added e = rw (regroup, e) refl

regroup-insert :
    (p : DiffPart) (ps out : List DiffPart) (removed added : String)
    → p.op ≡ insert
    → regroup out removed added (p ∷ ps) ≡ regroup out removed (concat added p.text) ps
unfolding regroup
regroup-insert p ps out removed added e = rw (regroup, e) refl

regroup-equal :
    (p : DiffPart) (ps out : List DiffPart) (removed added : String)
    → p.op ≡ equal
    → regroup out removed added (p ∷ ps)
      ≡ regroup (push (flush out removed added) equal p.text) "" "" ps
unfolding regroup
regroup-equal p ps out removed added e = rw (regroup, e) refl

applied-regroup :
    (ps out : List DiffPart) (removed added : String)
    → applied (regroup out removed added ps) ≡ concat (applied out) (concat added (applied ps))
applied-regroup [] out removed added = applied-regroup_nil out removed added
applied-regroup (p ∷ ps) out removed added = elim (op-cases p.op) [
  | inl e ↦
      (ap applied (regroup-delete p ps out removed added e)
        ∙ applied-regroup ps out (concat removed p.text) added
        ∙ ap (λ r. concat (applied out) (concat added r))
            (sym (applied-of p delete ps e ∙ nil-concat (applied ps))))
  | inr (inl e) ↦
      (ap applied (regroup-insert p ps out removed added e)
        ∙ applied-regroup ps out removed (concat added p.text)
        ∙ ap (concat (applied out)) (
            concat_assoc added p.text (applied ps)
            ∙ ap (concat added) (sym (applied-of p insert ps e))))
  | inr (inr e) ↦
      (ap applied (regroup-equal p ps out removed added e)
        ∙ applied-regroup ps (push (flush out removed added) equal p.text) "" ""
        ∙ ap (concat (applied (push (flush out removed added) equal p.text)))
            (nil-concat (applied ps))
        ∙ ap (λ u. concat u (applied ps))
            (applied-push (flush out removed added) equal p.text
              ∙ ap (λ u. concat u p.text) (applied-flush out removed added))
        ∙ concat_assoc (concat (applied out) added) p.text (applied ps)
        ∙ concat_assoc (applied out) added (concat p.text (applied ps))
        ∙ ap (λ r. concat (applied out) (concat added r)) (sym (applied-of p equal ps e)))
]

first_of_and : (a b c d : Bool) → (a && b && c && d) ≡ true → a ≡ true
first_of_and a b c d h = ground arith

applied-fold_spaces :
    (is_space : String → Bool) (after_edit : Bool) (ps : List DiffPart)
    → applied (fold_spaces is_space after_edit ps) ≡ applied ps
unfolding fold_spaces
applied-fold_spaces is_space after_edit [] = refl
applied-fold_spaces is_space after_edit (p ∷ ps) =
    let rest = fold_spaces is_space (not (op_eq p.op equal)) ps in
    let ih = applied-fold_spaces is_space (not (op_eq p.op equal)) ps in
    elim (Bool-cases (op_eq p.op equal && is_space p.text && after_edit && is_edit ps)) [
      | inl e ↦
          rw (fold_spaces, e)
            (applied-cons delete p.text (record { op = insert; text = p.text } ∷ rest)
              ∙ nil-concat (applied (record { op = insert; text = p.text } ∷ rest))
              ∙ applied-cons insert p.text rest
              ∙ ap (concat p.text) ih
              ∙ sym (
                  applied-of p equal ps (
                    op_eq→eq p.op equal
                      (first_of_and _ (is_space p.text) after_edit (is_edit ps) e))))
      | inr e ↦
          rw (fold_spaces, e)
            (applied-cons p.op p.text rest
              ∙ ap (concat (kept p.op p.text)) ih
              ∙ sym (applied-cons p.op p.text ps))
    ]

applied-tidy :
    (is_space : String → Bool) (ps : List DiffPart) → applied (tidy is_space ps) ≡ applied ps
unfolding tidy
applied-tidy is_space ps =
    applied-regroup (fold_spaces is_space false ps) [] "" ""
    ∙ sym (applied_nil (concat "" (applied (fold_spaces is_space false ps))))
    ∙ nil-concat (applied (fold_spaces is_space false ps))
    ∙ applied-fold_spaces is_space false ps

join-append : (xs ys : List String) → join (xs ++ ys) ≡ concat (join xs) (join ys)
join-append [] ys = sym (nil-concat (join ys))
join-append (x ∷ xs) ys =
    ap (concat x) (join-append xs ys) ∙ sym (concat_assoc x (join xs) (join ys))

join-split : (n : ℕ) (xs : List String) → concat (join (take n xs)) (join (drop n xs)) ≡ join xs
join-split zero xs = nil-concat (join xs)
join-split (suc n) [] = nil-concat ""
join-split (suc n) (x ∷ xs) =
    concat_assoc x (join (take n xs)) (join (drop n xs)) ∙ ap (concat x) (join-split n xs)

applied-diff_middle :
    (p : Patterns) (parts : List DiffPart) (xs ys : List String)
    → applied (diff_middle p parts xs ys) ≡ concat (applied parts) (join ys)
unfolding diff_middle
applied-diff_middle p parts xs ys = elim (Bool-cases (ltb max_cells (length xs * length ys))) [
  | inl e ↦ rw (diff_middle, e) (applied-flush parts (join xs) (join ys))
  | inr e ↦ rw (diff_middle, e) (align-view (same_token p) push applied applied-push parts xs ys)
]

-- If the tokens of the rewrite make up the rewrite, the parts of its word diff that are not deleted
-- make up the rewrite, whatever the original and whichever tokens have one key.
pub applied-diff_words :
    (p : Patterns) (before after : String)
    → join (p.tokenize after) ≡ after
    → applied (diff_words p before after) ≡ after
unfolding diff_words
applied-diff_words p before after whole =
    let a = p.tokenize before in
    let b = p.tokenize after in
    let start = common (same_token p) a b in
    let rest_a = drop start a in
    let rest_b = drop start b in
    let kept_end = common (same_token p) (reverse rest_a) (reverse rest_b) in
    let n = length rest_a - kept_end in
    let m = length rest_b - kept_end in
    let first = push [] equal (join (take start b)) in
    let middle = diff_middle p first (take n rest_a) (take m rest_b) in
    applied-tidy p.is_space (push middle equal (join (drop m rest_b)))
    ∙ applied-push middle equal (join (drop m rest_b))
    ∙ ap (λ u. concat u (join (drop m rest_b)))
        (applied-diff_middle p first (take n rest_a) (take m rest_b))
    ∙ concat_assoc (applied first) (join (take m rest_b)) (join (drop m rest_b))
    ∙ ap (concat (applied first)) (join-split m rest_b)
    ∙ ap (λ u. concat u (join rest_b))
        (applied-push [] equal (join (take start b)) ∙ sym (applied_nil (join (take start b))))
    ∙ join-split start b
    ∙ whole
