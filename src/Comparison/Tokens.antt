-- ===== src/Comparison/Tokens.antt =====
-- `_nfd_with_sources`, `_nfc_with_raw_spans`, `_tokenize_segment` and `_tokenize_transcript`.
pub mod Words
pub mod Spans
mod Examples
use egyptian_arabic_annotati.Base.{
  ℕ, zero, suc, ◌+◌, min, max, Bool, true, false, not, ◌&&◌, ◌||◌, List, [], ◌∷◌, ◌++◌, map, Option,
  none, some, length, set, get_elem?, replicate, ltb, leb, ◌==◌, if◌then◌else◌, text_eq, sort,
  Result, ok, err, ◌>>=◌, any,
}
use egyptian_arabic_annotati.Comparison.Types.{
  Fault, value_error, index_error, Text, Segment, Token,
}
use egyptian_arabic_annotati.Comparison.Unicode.{Unicode}

-- `_WORD_JOINERS`
abbrev pub word_joiners : List ℕ
word_joiners = 0x27 ∷ 0x2018 ∷ 0x2019 ∷ 0x2bc ∷ 0xff07 ∷ 0x2d ∷ 0xad ∷ 0x2010 ∷ 0x2011 ∷ 0xff0d ∷ []

unfoldable pub is_joiner : ℕ → Bool
is_joiner c = any (λ j. j == c) word_joiners

-- A character with the place of the raw character that it comes from.
abbrev pub Sourced : Type 0
Sourced = ℕ × ℕ

-- A folded character with the span of raw characters that it comes from.
pub record Folded : Type 0 where
  pub char : ℕ
  pub raw_start : ℕ
  pub raw_end : ℕ

-- `buf`, `span_start` and `span_end`.
pub record Buffer : Type 0 where
  pub buf : Text
  pub span_start : Option ℕ
  pub span_end : Option ℕ

abbrev pub empty : Buffer
empty = record { buf = []; span_start = none; span_end = none }

abbrev pub get_or : Option ℕ → ℕ → ℕ
get_or none d = d
get_or (some n) d = n

-- `x if b is None else min(b, x)`
abbrev pub least : Option ℕ → ℕ → ℕ
least none x = x
least (some b) x = min b x

unfoldable pub append_char : Buffer → Folded → Buffer
append_char b f = record {
  buf = b.buf ++ f.char ∷ [];
  span_start = some (least b.span_start f.raw_start);
  span_end = some (max (get_or b.span_end 0) f.raw_end);
}

unfoldable pub widen : Buffer → Folded → Buffer
widen b f = record b { span_end = some (max (get_or b.span_end 0) f.raw_end) }

token_of : Segment → Text → ℕ → ℕ → Token
token_of segment word start end_at = record {
  word = word;
  mapping = record {
    segment_id = segment.segment_id;
    text_start = start;
    text_end = end_at;
    start_s = segment.start_s;
    end_s = segment.end_s;
  };
}

flush_word : Segment → Text → ℕ → ℕ → List Token
unfolding token_of
flush_word segment [] start end_at = []
flush_word segment (c ∷ cs) start end_at = token_of segment (c ∷ cs) start end_at ∷ []

-- `flush`: a word in the buffer is a token. Both ends of its span are set whenever the word is not
-- empty, which the source asserts.
unfoldable pub flush : Segment → Buffer → List Token
unfolding flush_word
flush segment b = flush_word segment b.buf (get_or b.span_start 0) (get_or b.span_end 0)

abbrev pub last? : Text → Option ℕ
last? [] = none
last? (c ∷ []) = some c
last? (c ∷ d ∷ cs) = last? (d ∷ cs)

-- The loop that pairs the two streams and widens the span of each composed character.
unfoldable pub pair_spans : List Sourced → List Sourced → List (ℕ × ℕ) → Result Fault (List (ℕ × ℕ))
pair_spans [] [] spans = ok spans
pair_spans ((_, raw_index) ∷ raw) ((_, nfc_index) ∷ composed) spans =
    elim (get_elem? spans nfc_index) [
      | none ↦ err index_error
      | some (start, end_at) ↦
          pair_spans raw composed
            (set spans nfc_index (min start raw_index, max end_at (raw_index + 1)))
    ]
pair_spans _ _ spans = err value_error

unfoldable pub identity_spans : ℕ → Text → List (ℕ × ℕ)
identity_spans index [] = []
identity_spans index (c ∷ text) = (index, index + 1) ∷ identity_spans (suc index) text

-- The comprehension that folds the case of each character.
unfoldable pub fold_char : Text → ℕ → ℕ → List Folded
fold_char [] start end_at = []
fold_char (c ∷ cs) start end_at =
    record { char = c; raw_start = start; raw_end = end_at } ∷ fold_char cs start end_at

module _ (u : Unicode) where
  -- The key of `sorted(marks, key=combining)`.
  abbrev pub mark_before : Sourced → Sourced → Bool
  mark_before a b = leb (u.combining a.0) (u.combining b.0)

  -- The inner loop: the marks that wait, and what is yielded.
  unfoldable pub decompose : ℕ → Text → List Sourced → List Sourced × List Sourced
  decompose index [] marks = (marks, [])
  decompose index (c ∷ cs) marks =
      let waits = decompose index cs (marks ++ (c, index) ∷ []) in
      let (marks', out) = decompose index cs [] in
      if u.combining c == 0 then (marks', sort mark_before marks ++ ((c, index) ∷ out)) else waits

  unfoldable pub sources : ℕ → Text → List Sourced → List Sourced
  sources index [] marks = sort mark_before marks
  sources index (c ∷ text) marks =
      let (marks', out) = decompose index (u.nfd c) marks in out ++ sources (suc index) text marks'

  unfoldable pub nfd_with_sources : Text → List Sourced
  unfolding sources decompose
  nfd_with_sources text = sources 0 text []

  unfoldable pub nfc_with_raw_spans : Text → Result Fault (Text × List (ℕ × ℕ))
  unfolding identity_spans pair_spans nfd_with_sources
  nfc_with_raw_spans text =
      let nfc = u.nfc text in
      if text_eq nfc text then ok (nfc, identity_spans 0 text) else do
        spans ←
            pair_spans (nfd_with_sources text) (nfd_with_sources nfc)
              (replicate (length nfc) (length text, 0))
        ok (nfc, spans)

  unfoldable pub fold_case : Text → List (ℕ × ℕ) → Result Fault (List Folded)
  unfolding fold_char
  fold_case [] [] = ok []
  fold_case (c ∷ text) ((start, end_at) ∷ spans) = do
    rest ← fold_case text spans
    ok (fold_char (u.casefold c) start end_at ++ rest)
  fold_case _ _ = err value_error

  -- `_next_is_letter`
  unfoldable pub next_is_letter : List Folded → Bool
  next_is_letter [] = false
  next_is_letter (f ∷ rest) = u.is_alpha f.char

  abbrev pub last_is_letter : Text → Bool
  last_is_letter cs = elim (last? cs) [ none ↦ false | some c ↦ u.is_alpha c ]

  -- The characters that end a word, or join two parts of one.
  unfoldable pub separates : ℕ → Bool
  unfolding is_joiner
  separates c = is_joiner c || u.is_punctuation c || u.is_space c

  -- The `while` loop: the folded characters left, and the buffer.
  unfoldable pub scan : Segment → List Folded → Buffer → List Token
  unfolding flush append_char widen next_is_letter separates
  scan segment [] b = flush segment b
  scan segment (f ∷ rest) b =
      let joined = scan segment rest (widen b f) in
      let flushed = flush segment b ++ scan segment rest empty in
      let appended = scan segment rest (append_char b f) in
      if is_joiner f.char && last_is_letter b.buf && next_is_letter rest
      then joined
      else if separates f.char
      then flushed
      else appended

  unfoldable pub fold_segment : Segment → Result Fault (List Folded)
  unfolding nfc_with_raw_spans fold_case
  fold_segment segment = do (nfc, spans) ← nfc_with_raw_spans segment.text; fold_case nfc spans

  unfoldable pub tokenize_segment : Segment → Result Fault (List Token)
  unfolding fold_segment scan
  tokenize_segment segment = do folded ← fold_segment segment; ok (scan segment folded empty)

  unfoldable pub tokenize_transcript : List Segment → Result Fault (List Token)
  unfolding tokenize_segment
  tokenize_transcript [] = ok []
  tokenize_transcript (segment ∷ rest) =
      let others = tokenize_transcript rest in
      if segment.exclude_from_training
      then others
      else do tokens ← tokenize_segment segment; more ← others; ok (tokens ++ more)
