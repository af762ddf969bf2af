-- ===== src/Comparison/Tokens/Words.antt =====
-- The words that `_tokenize_segment` finds: nothing is lost, added or reordered but separators.
use egyptian_arabic_annotati.Base.{
  ℕ, ◌≡◌, ◌≢◌, refl, ◌∙◌, ap, true, false, not, Bool-cases, inl, inr, ◌⊎◌, sym, All-append, ◌&&◌,
  List, [], ◌∷◌, ◌++◌, map, append-nil, append_assoc, filter, All, arith,
}
use egyptian_arabic_annotati.Comparison.Types.{Text, Segment, Token}
use egyptian_arabic_annotati.Comparison.Unicode.{Unicode}
use egyptian_arabic_annotati.Comparison.Tokens.{
  Folded, Buffer, empty, append_char, widen, flush, flush_word, last_is_letter, next_is_letter,
  separates, scan, is_joiner,
}

-- The letters of the words, one after another.
pub letters : List Token → Text
letters [] = []
letters (t ∷ ts) = t.word ++ letters ts

letters-append : (xs ys : List Token) → letters (xs ++ ys) ≡ letters xs ++ letters ys
unfolding letters
letters-append [] ys = refl
letters-append (x ∷ xs) ys = simp (letters-append xs ys, append_assoc)

abbrev pub IsWord : Unicode → Text → Type 0
IsWord u word = (word ≢ []) × All (λ c. separates u c ≡ false) word

-- The three branches of the loop.
pub scan_cases :
    (u : Unicode) (segment : Segment) (f : Folded) (fs : List Folded) (b : Buffer)
    → ((is_joiner f.char ≡ true) × (scan u segment (f ∷ fs) b ≡ scan u segment fs (widen b f)))
      ⊎ ((separates u f.char ≡ true)
          × (scan u segment (f ∷ fs) b ≡ flush segment b ++ scan u segment fs empty))
      ⊎ ((separates u f.char ≡ false)
          × (scan u segment (f ∷ fs) b ≡ scan u segment fs (append_char b f)))
unfolding scan
scan_cases u segment f fs b =
    elim (Bool-cases (is_joiner f.char && last_is_letter u b.buf && next_is_letter u fs)) [
      | inl t ↦ inl (ground arith, rw t)
      | inr t ↦ elim (Bool-cases (separates u f.char)) [
        | inl sep ↦ inr (inl (sep, rw (t, sep)))
        | inr letter ↦ inr (inr (letter, rw (t, letter)))
      ]
    ]

module _ (u : Unicode) (segment : Segment) where
  abbrev pub kept : List Folded → Text
  kept fs = filter (λ c. not (separates u c)) (map (λ f. f.char) fs)

  letters-flush_word :
      (word : Text) (start end_at : ℕ) → letters (flush_word segment word start end_at) ≡ word
  unfolding flush_word letters
  letters-flush_word [] start end_at = refl
  letters-flush_word (c ∷ cs) start end_at = append-nil (c ∷ cs)

  letters-flush : (b : Buffer) → letters (flush segment b) ≡ b.buf
  unfolding flush
  letters-flush b = letters-flush_word b.buf _ _

  joiner-separates : (c : ℕ) → is_joiner c ≡ true → separates u c ≡ true
  unfolding separates
  joiner-separates c e = rw e

  kept-separator :
      (f : Folded) (fs : List Folded) → separates u f.char ≡ true → kept (f ∷ fs) ≡ kept fs
  unfolding filter
  kept-separator f fs e = rw e

  kept-letter :
      (f : Folded) (fs : List Folded)
      → separates u f.char ≡ false
      → kept (f ∷ fs) ≡ f.char ∷ kept fs
  unfolding filter
  kept-letter f fs e = rw e

  letters-scan_from :
      (fs : List Folded) (b : Buffer) → letters (scan u segment fs b) ≡ b.buf ++ kept fs
  unfolding scan filter widen append_char
  letters-scan_from [] b = letters-flush b ∙ sym (append-nil b.buf)
  letters-scan_from (f ∷ fs) b = elim (scan_cases u segment f fs b) [
    | inl (joiner, e) ↦
        rw (e, kept-separator f fs (joiner-separates f.char joiner))
          (letters-scan_from fs (widen b f))
    | inr (inl (sep, e)) ↦
        rw (e, kept-separator f fs sep, letters-append, letters-flush b)
          (ap (λ t. b.buf ++ t) (letters-scan_from fs empty))
    | inr (inr (letter, e)) ↦
        rw (e, kept-letter f fs letter)
          (letters-scan_from fs (append_char b f) ∙ append_assoc b.buf (f.char ∷ []) (kept fs))
  ]

  -- The words that the loop of `_tokenize_segment` finds hold, one after another, the folded
  -- characters that are no joiner, punctuation or space: none is lost, repeated or moved.
  pub letters-scan : (fs : List Folded) → letters (scan u segment fs empty) ≡ kept fs
  letters-scan fs = letters-scan_from fs empty

  flush-IsWord :
      (b : Buffer)
      → All (λ c. separates u c ≡ false) b.buf
      → All (λ t. IsWord u t.word) (flush segment b)
  unfolding flush
  flush-IsWord b h = go b.buf _ _ h
    where
      go :
          (word : Text) (start end_at : ℕ)
          → All (λ c. separates u c ≡ false) word
          → All (λ t. IsWord u t.word) (flush_word segment word start end_at)
      go [] start end_at h = tt
      go (c ∷ cs) start end_at h = ((λ e. cc e, h), tt)

  scan_from-IsWord :
      (fs : List Folded) (b : Buffer)
      → All (λ c. separates u c ≡ false) b.buf
      → All (λ t. IsWord u t.word) (scan u segment fs b)
  unfolding scan widen append_char
  scan_from-IsWord [] b h = flush-IsWord b h
  scan_from-IsWord (f ∷ fs) b h = elim (scan_cases u segment f fs b) [
    | inl (joiner, e) ↦ rw e (scan_from-IsWord fs (widen b f) h)
    | inr (inl (sep, e)) ↦ rw e (All-append _ _ _ (flush-IsWord b h) (scan_from-IsWord fs empty tt))
    | inr (inr (letter, e)) ↦
        rw e (scan_from-IsWord fs (append_char b f) (All-append _ b.buf _ h (letter, tt)))
  ]

  -- Every word that the loop finds is non-empty and holds no joiner, punctuation or space.
  pub scan-IsWord : (fs : List Folded) → All (λ t. IsWord u t.word) (scan u segment fs empty)
  scan-IsWord fs = scan_from-IsWord fs empty tt
