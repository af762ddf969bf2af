-- ===== src/Comparison/Ascii.antt =====
-- Python's tables on ASCII: an instance of the parameter for tests.
use egyptian_arabic_annotati.Base.{◌+◌, ◌&&◌, ◌||◌, [], ◌∷◌, leb, ◌==◌, if◌then◌else◌}
use egyptian_arabic_annotati.Comparison.Unicode.{Unicode}

abbrev pub ascii : Unicode
ascii = record {
  nfd = λ c. c ∷ [];
  nfc = λ text. text;
  combining = λ c. 0;
  casefold = λ c. (if leb b'A' c && leb c b'Z' then c + 32 else c) ∷ [];
  is_alpha = λ c. (leb b'A' c && leb c b'Z') || (leb b'a' c && leb c b'z');
  is_space = λ c. c == 32;
  is_punctuation = λ c. (leb 33 c && leb c 47) || c == b'?';
}
