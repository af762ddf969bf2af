-- ===== src/Comparison/Align/Examples.antt =====
-- Runs of `_word_alignment` on short transcripts, and the theorems at them.
use egyptian_arabic_annotati.Base.{
  ℕ, ◌+◌, ◌≤◌, ◌≡◌, refl, List, [], ◌∷◌, none, some, ok, count, for_range, text_eq,
}
use egyptian_arabic_annotati.Comparison.Types.{Token, match, replace, delete, EditOp, edit_op}
use egyptian_arabic_annotati.Comparison.Align.{
  Alignment, word_alignment, table, borders, fill_row, fill_cell, walk, walk_step, try_diagonal,
  try_delete, try_insert, token_before, read, write, is_op,
}
use egyptian_arabic_annotati.Comparison.Align.Spec.{Aligns, done, matched, replaced, deleted, cost}
use egyptian_arabic_annotati.Comparison.Align.Optimal.{word_alignment-Aligns, word_alignment_least}

abbrev token : ℕ → Token
token w = record {
  word = w ∷ [];
  mapping = record { segment_id = 1; text_start = 0; text_end = 1; start_s = 0; end_s = 1000 };
}

abbrev first : List Token
first = token 7 ∷ token 8 ∷ token 9 ∷ []

abbrev second : List Token
second = token 7 ∷ token 9 ∷ []

-- One word of three is left out.
abbrev one_deletion : Alignment
one_deletion = record {
  edit_distance = 1;
  ops =
      edit_op match (some (token 7)) (some (token 7))
      ∷ edit_op delete (some (token 8)) none
      ∷ edit_op match (some (token 9)) (some (token 9))
      ∷ [];
  substitutions = 0;
  insertions = 0;
  deletions = 1;
}

run : word_alignment first second ≡ ok one_deletion
unfolding word_alignment table borders fill_row fill_cell walk walk_step try_diagonal try_delete
    try_insert token_before read write is_op count for_range text_eq edit_op
run = refl

word_alignment-Aligns_example :
    (r : Alignment) × (word_alignment first second ≡ ok r)
    × Aligns r.ops first second
    × (r.edit_distance ≡ r.substitutions + r.insertions + r.deletions)
word_alignment-Aligns_example = word_alignment-Aligns first second

-- A longer way round: two replacements and a deletion.
abbrev detour : List EditOp
detour =
    edit_op delete (some (token 7)) none
    ∷ edit_op replace (some (token 8)) (some (token 7))
    ∷ edit_op match (some (token 9)) (some (token 9))
    ∷ []

detour-Aligns : Aligns detour first second
detour-Aligns =
    deleted (token 7)
      (replaced (token 8) (token 7) (λ p. cc) (matched (token 9) (token 9) refl done))

word_alignment_least_example :
    Aligns one_deletion.ops first second
    × (cost one_deletion.ops ≡ 1)
    × ((ops : List EditOp) → Aligns ops first second → 1 ≤ cost ops)
word_alignment_least_example = word_alignment_least first second run

-- A longer way costs more.
detour-le : 1 ≤ cost detour
detour-le = (word_alignment_least first second run).2 detour detour-Aligns
