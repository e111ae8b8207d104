-- ===== src/Diff.antt =====
-- client/src/lib/diff.ts: the word diff and the paragraph diff. The patterns that cut a text into
-- tokens and paragraphs, that make the key of a token or a paragraph and that test for whitespace are
-- parameters. The table of lengths is kept by rows, the last one first made; the integers that stand
-- for paragraphs are compared as the keys that they number.
pub mod Applied
pub mod Paragraphs
mod Tests
use rmcollab_model.Common.{
  ℕ, zero, suc, ◌+◌, ◌-◌, ◌*◌, max, String, Bool, true, false, ◌&&◌, ◌||◌, not, Option, none, some,
  List, [], ◌∷◌, ltb, leb, eqb, if◌then◌else◌, ◌==◌, length, take, drop, foldl,
}
use mathlib.Core.List.{reverse}
use Prim.Native.String

pub data DiffOp : Type 0 where
  equal insert delete : DiffOp

pub record DiffPart : Type 0 where
  pub op : DiffOp
  pub text : String

-- The most cells of a table.
abbrev pub max_cells : ℕ
max_cells = 2500000

abbrev pub op_eq : DiffOp → DiffOp → Bool
op_eq equal equal = true
op_eq insert insert = true
op_eq delete delete = true
op_eq a b = false

abbrev pub concat : String → String → String
concat s t = String.◌++◌ s t

-- `join("")`
abbrev pub join : List String → String
join [] = ""
join (s ∷ ss) = concat s (join ss)

abbrev pub append_part : DiffPart → DiffOp → String → List DiffPart
append_part p op t =
    if op_eq p.op op
    then record { op = p.op; text = concat p.text t } ∷ []
    else p ∷ record { op = op; text = t } ∷ []

unfoldable pub push : List DiffPart → DiffOp → String → List DiffPart
push [] op t = if t == "" then [] else record { op = op; text = t } ∷ []
push (p ∷ []) op t = if t == "" then p ∷ [] else append_part p op t
push (p ∷ q ∷ ps) op t = p ∷ push (q ∷ ps) op t

-- The texts of the parts whose operation is kept.
abbrev pub texts : (DiffOp → Bool) → List DiffPart → String
texts keep [] = ""
texts keep (p ∷ ps) = let rest = texts keep ps in if keep p.op then concat p.text rest else rest

unfoldable pub applied : List DiffPart → String
applied ps = texts (λ op. not (op_eq op delete)) ps

unfoldable pub reverted : List DiffPart → String
reverted ps = texts (λ op. not (op_eq op insert)) ps

abbrev pub at_or_zero : List ℕ → ℕ → ℕ
at_or_zero [] j = 0
at_or_zero (n ∷ ns) zero = n
at_or_zero (n ∷ ns) (suc j) = at_or_zero ns j

abbrev pub row_or_empty : List (List ℕ) → List ℕ
row_or_empty [] = []
row_or_empty (r ∷ rs) = r

abbrev zeros : List String → List ℕ
zeros [] = 0 ∷ []
zeros (y ∷ ys) = 0 ∷ zeros ys

abbrev pub is_edit : List DiffPart → Bool
is_edit [] = false
is_edit (p ∷ ps) = not (op_eq p.op equal)

-- The first pass of `tidy`: a space between two edits is folded into both. The flag says whether the
-- part before is an edit.
unfoldable pub fold_spaces : (String → Bool) → Bool → List DiffPart → List DiffPart
fold_spaces is_space after_edit [] = []
fold_spaces is_space after_edit (p ∷ ps) =
    let rest = fold_spaces is_space (not (op_eq p.op equal)) ps in
    if op_eq p.op equal && is_space p.text && after_edit && is_edit ps
    then record { op = delete; text = p.text } ∷ record { op = insert; text = p.text } ∷ rest
    else p ∷ rest

abbrev pub flush : List DiffPart → String → String → List DiffPart
flush out removed added = push (push out delete removed) insert added

-- The second pass: what is removed goes before what is added.
unfoldable pub regroup : List DiffPart → String → String → List DiffPart → List DiffPart
regroup out removed added [] = flush out removed added
regroup out removed added (p ∷ ps) = elim p.op [
  | delete ↦ regroup out (concat removed p.text) added ps
  | insert ↦ regroup out removed (concat added p.text) ps
  | equal ↦ regroup (push (flush out removed added) equal p.text) "" "" ps
]

unfoldable pub tidy : (String → Bool) → List DiffPart → List DiffPart
unfolding fold_spaces regroup
tidy is_space ps = regroup [] "" "" (fold_spaces is_space false ps)

module _ (same : String → String → Bool) where
  -- How many tokens agree from the start.
  unfoldable pub common : List String → List String → ℕ
  common [] ys = 0
  common (x ∷ xs) [] = 0
  common (x ∷ xs) (y ∷ ys) = let rest = common xs ys in if same x y then rest + 1 else 0

  -- A row of the table, from the one below it.
  unfoldable pub row_for : String → List String → List ℕ → List ℕ
  row_for x [] below = 0 ∷ []
  row_for x (y ∷ ys) below =
      let rest = row_for x ys (drop 1 below) in
      (if same x y then at_or_zero below 1 + 1 else max (at_or_zero below 0) (at_or_zero rest 0))
      ∷ rest

  unfoldable pub lengths : List String → List String → List (List ℕ)
  unfolding row_for
  lengths [] ys = zeros ys ∷ []
  lengths (x ∷ xs) ys = let rest = lengths xs ys in row_for x ys (row_or_empty rest) ∷ rest

  -- What the loop does next, at the first row of those left and at the column.
  unfoldable pub next_op : List String → List String → ℕ → List (List ℕ) → Option DiffOp
  next_op [] [] j rows = none
  next_op [] (y ∷ ys) j rows = some insert
  next_op (x ∷ xs) [] j rows = some delete
  next_op (x ∷ xs) (y ∷ ys) j rows =
      if same x y
      then some equal
      else (if leb (at_or_zero (row_or_empty (drop 1 rows)) j)
            (at_or_zero (row_or_empty rows) (j + 1))
          then some insert
          else some delete)

  -- What the loop has yet to go over, and its rows and its column.
  pub record Walk : Type 0 where
    pub before : List String
    pub after : List String
    pub column : ℕ
    pub rows : List (List ℕ)

  -- The loop, which hands each operation with its token to `emit`.
  unfoldable pub walk {ℓ} : {S : Type ℓ} → (S → DiffOp → String → S) → ℕ → S → Walk → S
  unfolding next_op
  walk emit zero s w = s
  walk emit (suc fuel) s w = elim (next_op w.before w.after w.column w.rows) [
    | none ↦ s
    | some equal ↦ walk emit fuel (emit s equal (join (take 1 w.after))) (record {
      before = drop 1 w.before;
      after = drop 1 w.after;
      column = w.column + 1;
      rows = drop 1 w.rows;
    })
    | some insert ↦
        walk emit fuel (emit s insert (join (take 1 w.after))) (record {
          before = w.before;
          after = drop 1 w.after;
          column = w.column + 1;
          rows = w.rows;
        })
    | some delete ↦ walk emit fuel (emit s delete (join (take 1 w.before))) (record {
      before = drop 1 w.before;
      after = w.after;
      column = w.column;
      rows = drop 1 w.rows;
    })
  ]

  unfoldable pub align {ℓ} :
      {S : Type ℓ} → (S → DiffOp → String → S) → S → List String → List String → S
  unfolding walk lengths
  align emit s xs ys =
      walk emit (length xs + length ys) s
        (record { before = xs; after = ys; column = 0; rows = lengths xs ys })

-- The patterns of the source, and what they make of a text.
pub record Patterns : Type 0 where
  pub tokenize : String → List String
  pub is_space : String → Bool
  pub key : String → String
  -- `split(PARAGRAPH)` and `normalise`
  pub paragraphs : String → List String
  pub normalise : String → String

abbrev pub same_token : Patterns → String → String → Bool
same_token p x y = p.key x == p.key y

-- The parts that the middle, without the common start and end, adds.
unfoldable pub diff_middle : Patterns → List DiffPart → List String → List String → List DiffPart
unfolding align
diff_middle p parts xs ys =
    if ltb max_cells (length xs * length ys)
    then push (push parts delete (join xs)) insert (join ys)
    else align (same_token p) push parts xs ys

unfoldable pub diff_words : Patterns → String → String → List DiffPart
unfolding diff_middle common tidy
diff_words p before after =
    let a = p.tokenize before in
    let b = p.tokenize after in
    let start = common (same_token p) a b in
    let rest_a = drop start a in
    let rest_b = drop start b in
    let kept = common (same_token p) (reverse rest_a) (reverse rest_b) in
    let n = length rest_a - kept in
    let m = length rest_b - kept in
    tidy p.is_space (
      push (diff_middle p (push [] equal (join (take start b))) (take n rest_a) (take m rest_b))
        equal (join (drop m rest_b)))

-- The stretches between equal paragraphs, and the parts so far.
pub record Gaps : Type 0 where
  pub parts : List DiffPart
  pub gap_a : String
  pub gap_b : String

abbrev pub push_all : List DiffPart → List DiffPart → List DiffPart
push_all parts [] = parts
push_all parts (q ∷ qs) = push_all (push parts q.op q.text) qs

-- `flushGap`
unfoldable pub flush_gap : Patterns → Gaps → List DiffPart
unfolding diff_words
flush_gap p g =
    if g.gap_a == "" && g.gap_b == ""
    then g.parts
    else push_all g.parts (diff_words p g.gap_a g.gap_b)

unfoldable pub add_paragraph : Patterns → Gaps → DiffOp → String → Gaps
unfolding flush_gap
add_paragraph p g equal t = record { parts = push (flush_gap p g) equal t; gap_a = ""; gap_b = "" }
add_paragraph p g insert t = record { parts = g.parts; gap_a = g.gap_a; gap_b = concat g.gap_b t }
add_paragraph p g delete t = record { parts = g.parts; gap_a = concat g.gap_a t; gap_b = g.gap_b }

-- Blank paragraphs equal none.
abbrev pub same_paragraph : Patterns → String → String → Bool
same_paragraph p x y = not (p.normalise x == "") && p.normalise x == p.normalise y

unfoldable pub diff_text : Patterns → String → String → List DiffPart
unfolding diff_words add_paragraph flush_gap align
diff_text p before after =
    let a = p.paragraphs before in
    let b = p.paragraphs after in
    if eqb (length a) 1 || eqb (length b) 1
    then diff_words p before after
    else flush_gap p (
        align (same_paragraph p) (add_paragraph p) (record { parts = []; gap_a = ""; gap_b = "" }) a
          b)
