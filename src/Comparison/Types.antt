-- ===== src/Comparison/Types.antt =====
-- The value types of annotation_quality/comparison.py. Times are whole microseconds, texts are
-- lists of code points, and a segment's id is the number that the database gives it.
use egyptian_arabic_annotati.Base.{ℕ, Bool, List, Option, none, some}

-- What the module raises: `ValueError`, `TypeError`, `IndexError`, `RuntimeError` and `MemoryError`.
-- `out_of_fuel` is raised by no run (it ends a walk that the model would not finish).
pub data Fault : Type 0 where
  value_error type_error index_error reconstruction_failed memory_error out_of_fuel : Fault

abbrev pub Text : Type 0
Text = List ℕ

pub record TimeInterval : Type 0 where
  pub start_ms : ℕ
  pub end_ms : ℕ

pub record WordMapping : Type 0 where
  pub segment_id : ℕ
  pub text_start : ℕ
  pub text_end : ℕ
  pub start_s : ℕ
  pub end_s : ℕ

pub record Segment : Type 0 where
  pub segment_id : ℕ
  pub start_s : ℕ
  pub end_s : ℕ
  pub text : Text
  pub exclude_from_training : Bool

pub record Token : Type 0 where
  pub word : Text
  pub mapping : WordMapping

pub data OpName : Type 0 where
  match replace delete insert : OpName

pub record EditOp : Type 0 where
  pub op : OpName
  pub original_word : Option Text
  pub secondary_word : Option Text
  pub original : Option WordMapping
  pub secondary : Option WordMapping

word_of : Option Token → Option Text
word_of none = none
word_of (some t) = some t.word

mapping_of : Option Token → Option WordMapping
mapping_of none = none
mapping_of (some t) = some t.mapping

-- `_edit_op`
unfoldable pub edit_op : OpName → Option Token → Option Token → EditOp
unfolding word_of mapping_of
edit_op op original secondary = record {
  op = op;
  original_word = word_of original;
  secondary_word = word_of secondary;
  original = mapping_of original;
  secondary = mapping_of secondary;
}
