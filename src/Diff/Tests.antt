-- ===== src/Diff/Tests.antt =====
-- Diffs with letters as tokens, and as paragraphs.
use rmcollab_model.Common.{◌≡◌, refl, ap, ◌∙◌, String, List, [], ◌∷◌, ◌==◌}
use text.Mathlib.TextLemmas
use rmcollab_model.Diff.{
  equal, insert, delete, concat, join, applied, Patterns, diff_words, diff_text, push, common,
  diff_middle, align, walk, lengths, row_for, next_op, tidy, fold_spaces, regroup,
}
use rmcollab_model.Diff.Applied.{applied-diff_words}
use rmcollab_model.Diff.Paragraphs.{applied-diff_text}

abbrev letters : String → List String
letters String.[] = []
letters (String.◌∷◌ c s) = String.◌∷◌ c "" ∷ letters s

join-letters : (s : String) → join (letters s) ≡ s
join-letters String.[] = refl
join-letters (String.◌∷◌ c s) =
    ap (concat (String.◌∷◌ c "")) (join-letters s)
    ∙ TextLemmas.cons-append c "" s
    ∙ ap (String.◌∷◌ c) (TextLemmas.nil-append s)

abbrev by_letters : Patterns
by_letters = record {
  tokenize = letters;
  is_space = λ s. s == " ";
  key = λ s. s;
  paragraphs = letters;
  normalise = λ s. s;
}

one_letter_replaced :
    diff_words by_letters "abc" "axc"
    ≡ record { op = equal; text = "a" }
      ∷ record { op = delete; text = "b" }
      ∷ record { op = insert; text = "x" }
      ∷ record { op = equal; text = "c" }
      ∷ []
unfolding diff_words diff_middle common align walk lengths row_for next_op tidy fold_spaces regroup
    push
one_letter_replaced = refl

applied-diff_words_example : applied (diff_words by_letters "abc d" "axc e") ≡ "axc e"
applied-diff_words_example = applied-diff_words by_letters "abc d" "axc e" (join-letters "axc e")

applied-diff_text_example : applied (diff_text by_letters "abc d" "xbc e") ≡ "xbc e"
applied-diff_text_example =
    applied-diff_text by_letters join-letters "abc d" "xbc e" (join-letters "xbc e")
