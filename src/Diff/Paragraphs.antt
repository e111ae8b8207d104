-- ===== src/Diff/Paragraphs.antt =====
-- client/src/lib/diff.ts: what the paragraph diff puts together again is the rewrite.
use rmcollab_model.Common.{
  ◌≡◌, refl, sym, ap, ◌∙◌, String, Bool, true, ◌&&◌, ◌||◌, List, [], ◌∷◌, eqb, ◌==◌, eq_iff, length,
  arith, Bool-cases, inl, inr,
}
use rmcollab_model.Diff.{
  DiffOp, equal, insert, delete, DiffPart, concat, join, push, applied, align, Patterns, diff_words,
  Gaps, push_all, flush_gap, add_paragraph, same_paragraph, diff_text,
}
use rmcollab_model.Diff.Applied.{
  kept, concat-nil, nil-concat, concat_assoc, applied_nil, applied-cons, applied-push, align-view,
  applied-diff_words,
}

second_of_and : (a b : Bool) → (a && b) ≡ true → b ≡ true
second_of_and a b h = ground arith

applied_empty : applied [] ≡ ""
unfolding applied
applied_empty = refl

applied-push_all :
    (parts qs : List DiffPart) → applied (push_all parts qs) ≡ concat (applied parts) (applied qs)
applied-push_all parts [] =
    sym (ap (concat (applied parts)) applied_empty ∙ concat-nil (applied parts))
applied-push_all parts (q ∷ qs) =
    applied-push_all (push parts q.op q.text) qs
    ∙ ap (λ u. concat u (applied qs)) (applied-push parts q.op q.text)
    ∙ concat_assoc (applied parts) (kept q.op q.text) (applied qs)
    ∙ ap (concat (applied parts)) (sym (applied-cons q.op q.text qs))

-- The rewrite so far.
abbrev so_far : Gaps → String
so_far g = concat (applied g.parts) g.gap_b

module _ (p : Patterns) (whole : (s : String) → join (p.tokenize s) ≡ s) where
  applied-flush_gap : (g : Gaps) → applied (flush_gap p g) ≡ so_far g
  unfolding flush_gap
  applied-flush_gap g = elim (Bool-cases (g.gap_a == "" && g.gap_b == "")) [
    | inl e ↦
        rw (flush_gap, e)
          (sym (
            ap (concat (applied g.parts))
              ((eq_iff g.gap_b "").0 (second_of_and (g.gap_a == "") _ e))
            ∙ concat-nil (applied g.parts)))
    | inr e ↦
        rw (flush_gap, e)
          (applied-push_all g.parts (diff_words p g.gap_a g.gap_b)
            ∙ ap (concat (applied g.parts)) (applied-diff_words p g.gap_a g.gap_b (whole g.gap_b)))
  ]

  so_far-add_paragraph :
      (g : Gaps) (op : DiffOp) (t : String)
      → so_far (add_paragraph p g op t) ≡ concat (so_far g) (kept op t)
  unfolding add_paragraph
  so_far-add_paragraph g equal t =
      concat-nil (applied (push (flush_gap p g) equal t))
      ∙ applied-push (flush_gap p g) equal t
      ∙ ap (λ u. concat u t) (applied-flush_gap g)
  so_far-add_paragraph g insert t = sym (concat_assoc (applied g.parts) g.gap_b t)
  so_far-add_paragraph g delete t = sym (concat-nil (so_far g))

  -- If the tokens of every text and the paragraphs of the rewrite make them up, then the parts of
  -- the diff that are not deleted make up the rewrite, whatever the original.
  pub applied-diff_text :
      (before after : String)
      → join (p.paragraphs after) ≡ after
      → applied (diff_text p before after) ≡ after
  unfolding diff_text
  applied-diff_text before after all =
      let a = p.paragraphs before in
      let b = p.paragraphs after in
      let start : Gaps = record { parts = []; gap_a = ""; gap_b = "" } in
      elim (Bool-cases (eqb (length a) 1 || eqb (length b) 1)) [
        | inl e ↦ rw (diff_text, e) (applied-diff_words p before after (whole after))
        | inr e ↦
            rw (diff_text, e)
              (applied-flush_gap (align (same_paragraph p) (add_paragraph p) start a b)
                ∙ align-view (same_paragraph p) (add_paragraph p) so_far so_far-add_paragraph start
                    a b
                ∙ ap (λ u. concat u (join b)) (sym (applied_nil ""))
                ∙ nil-concat (join b)
                ∙ all)
      ]
