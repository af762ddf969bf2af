-- ===== src/Comparison/Unicode.antt =====
-- What annotation_quality/comparison.py asks of Python's Unicode tables (`unicodedata`, `casefold`,
-- `isalpha`, `isspace`): an argument of the functions that use it, since the tables are data of the
-- interpreter. A character is its code point.
use egyptian_arabic_annotati.Base.{ℕ, Bool}
use egyptian_arabic_annotati.Comparison.Types.{Text}

pub record Unicode : Type 0 where
  -- `unicodedata.normalize("NFD", char)` and `unicodedata.normalize("NFC", text)`
  pub nfd : ℕ → Text
  pub nfc : Text → Text
  -- `unicodedata.combining`
  pub combining : ℕ → ℕ
  pub casefold : ℕ → Text
  pub is_alpha : ℕ → Bool
  pub is_space : ℕ → Bool
  -- `unicodedata.category(char).startswith("P")`
  pub is_punctuation : ℕ → Bool
