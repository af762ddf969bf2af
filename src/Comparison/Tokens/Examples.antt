-- ===== src/Comparison/Tokens/Examples.antt =====
-- Runs of the tokenizer on ASCII text, and the theorems at them.
use egyptian_arabic_annotati.Base.{
  ℕ, ◌≡◌, refl, false, List, [], ◌∷◌, All, ok, Returns, any, text_eq,
}
use egyptian_arabic_annotati.Comparison.Types.{Text, Segment, Token}
use egyptian_arabic_annotati.Comparison.Ascii.{ascii}
use egyptian_arabic_annotati.Comparison.Tokens.{Folded, tokenize_segment}
use egyptian_arabic_annotati.Comparison.Tokens.Spans.{IsSpan, tokenize_segment-IsSpan}

-- "Can't go", in which the apostrophe joins two letters.
abbrev cant_go : Text
cant_go = 67 ∷ 97 ∷ 110 ∷ 39 ∷ 116 ∷ 32 ∷ 103 ∷ 111 ∷ []

abbrev segment : Segment
segment = record {
  segment_id = 4;
  start_s = 0;
  end_s = 1000000;
  text = cant_go;
  exclude_from_training = false;
}

abbrev token : Text → ℕ → ℕ → Token
token word start end_at = record {
  word = word;
  mapping = record {
    segment_id = 4;
    text_start = start;
    text_end = end_at;
    start_s = 0;
    end_s = 1000000;
  };
}

tokens_run :
    tokenize_segment ascii segment
    ≡ ok (token (99 ∷ 97 ∷ 110 ∷ 116 ∷ []) 0 5 ∷ token (103 ∷ 111 ∷ []) 6 8 ∷ [])
unfolding tokenize_segment text_eq any
tokens_run = refl

abbrev folded : List Folded
folded =
    record { char = 97; raw_start = 0; raw_end = 1 }
    ∷ record { char = 32; raw_start = 1; raw_end = 2 }
    ∷ record { char = 98; raw_start = 2; raw_end = 3 }
    ∷ []

tokenize_segment-IsSpan_example : Returns (All (IsSpan 8)) (tokenize_segment ascii segment)
tokenize_segment-IsSpan_example = tokenize_segment-IsSpan ascii segment refl
