-- ===== src/Tokenizer/Words.antt =====
-- The words of a text, and how the loop of the tokenizer finds the next one.
use dlna.Prelude.{
  ℕ, ◌+◌, ◌<◌, ◌≡◌, refl, ap, true, false, List, [], ◌∷◌, ◌++◌, arith, append_assoc, append-nil,
  Bytes, length, length-append, ◌==◌, Bool-cases, inl, inr,
}
use dlna.Text.Search.{is_one_of}
use dlna.Text.Trim.{strltrim}
use dlna.Tokenizer.{Found, nothing, cut, last, scan}

-- a word that is over, if it has begun
abbrev pub close : Bytes → List Bytes → List Bytes
close [] more = more
close (x ∷ word) more = (x ∷ word) ∷ more

module _ (delim : Bytes) (n : ℕ) where
  -- The words of a text: what stands between the delimiters. `word` is the one that has begun.
  abbrev pub words_from : Bytes → Bytes → List Bytes
  words_from word [] = close word []
  words_from word (c ∷ s) = elim (is_one_of c delim n) [
    | true ↦ close word (words_from [] s)
    | false ↦ words_from (word ++ c ∷ []) s
  ]

  pub words_from-hit :
      (word : Bytes) (c : ℕ) (s : Bytes)
      → is_one_of c delim n ≡ true
      → words_from word (c ∷ s) ≡ close word (words_from [] s)
  words_from-hit word c s hit = rw (words_from, hit) refl

  pub words_from-miss :
      (word : Bytes) (c : ℕ) (s : Bytes)
      → is_one_of c delim n ≡ false
      → words_from word (c ∷ s) ≡ words_from (word ++ c ∷ []) s
  words_from-miss word c s miss = rw (words_from, miss) refl

  scan-skip :
      (c : ℕ) (s : Bytes) (i start : ℕ)
      → is_one_of c delim n ≡ true
      → scan delim n (c ∷ s) i 0 start ≡ scan delim n s (i + 1) 0 (i + 1)
  unfolding scan
  scan-skip c s i start hit = rw (scan, hit) refl

  scan-cut :
      (c : ℕ) (s : Bytes) (i token_cnt start : ℕ)
      → is_one_of c delim n ≡ true
      → 0 < token_cnt
      → scan delim n (c ∷ s) i token_cnt start ≡ cut start i c
  unfolding scan
  scan-cut c s i token_cnt start hit some_bytes =
      let begun : (token_cnt == 0) ≡ false = ground arith in rw (scan, hit, begun) refl

  scan-count :
      (c : ℕ) (s : Bytes) (i token_cnt start : ℕ)
      → is_one_of c delim n ≡ false
      → scan delim n (c ∷ s) i token_cnt start ≡ scan delim n s (i + 1) (token_cnt + 1) start
  unfolding scan
  scan-count c s i token_cnt start miss = rw (scan, miss) refl

  -- What the loop finds in the text from index `start` on: its first word, and the rest.
  abbrev pub Finds : ℕ → Bytes → List Bytes → Found → Type 0
  Finds start whole words (nothing end) = (words ≡ []) × (strltrim whole delim n ≡ [])
  Finds start whole words (cut from pos c) =
      (gap word more : Bytes) × (whole ≡ gap ++ (word ++ c ∷ more))
      × (from ≡ start + length gap)
      × (pos ≡ from + length word)
      × (words ≡ word ∷ words_from [] more)
      × (strltrim whole delim n ≡ word ++ c ∷ more)
  Finds start whole words (last from) =
      (gap word : Bytes) × (whole ≡ gap ++ word)
      × (from ≡ start + length gap)
      × (words ≡ word ∷ [])
      × (strltrim whole delim n ≡ word)

  -- a delimiter in front
  Finds-skip :
      (start c : ℕ) (whole : Bytes) (words : List Bytes) (found : Found)
      → is_one_of c delim n ≡ true
      → Finds (start + 1) whole words found
      → Finds start (c ∷ whole) words found
  unfolding strltrim
  Finds-skip start c whole words (nothing end) hit (e, l) = (e, rw hit l)
  Finds-skip start c whole words (cut from pos d) hit (gap, word, more, e, at, to, w, l) =
      (c ∷ gap, word, more, ap (◌∷◌ c) e, omega arith, to, w, rw hit l)
  Finds-skip start c whole words (last from) hit (gap, word, e, at, w, l) =
      (c ∷ gap, word, ap (◌∷◌ c) e, omega arith, w, rw hit l)

  -- what the loop finds once a word has begun
  scan-inside :
      (s : Bytes) (x : ℕ) (word : Bytes) (i token_cnt start : ℕ)
      → is_one_of x delim n ≡ false
      → token_cnt ≡ length (x ∷ word)
      → i ≡ start + token_cnt
      → Finds start ((x ∷ word) ++ s) (words_from (x ∷ word) s) (scan delim n s i token_cnt start)
  unfolding scan strltrim
  scan-inside [] x word i token_cnt start miss cnt at =
      let begun : (token_cnt == 0) ≡ false = ground arith in
      rw begun
        ([], x ∷ word, append-nil (x ∷ word), omega arith, refl, rw miss (append-nil (x ∷ word)))
  scan-inside (c ∷ s) x word i token_cnt start miss cnt at =
      elim (Bool-cases (is_one_of c delim n)) [
        | inl hit ↦
            rw (words_from-hit (x ∷ word) c s hit, scan-cut c s i token_cnt start hit (omega arith))
              ([], x ∷ word, s, refl, omega arith, omega arith, refl, rw miss refl)
        | inr in_word ↦
            let next =
              scan-inside s x (word ++ c ∷ []) (i + 1) (token_cnt + 1) start miss
                (omega (arith, length-append word (c ∷ []))) (omega arith) in
            rw
              (
                words_from-miss (x ∷ word) c s in_word,
                scan-count c s i token_cnt start in_word,
                ← append_assoc word (c ∷ []) s,
              )
              next
      ]

  pub scan-words : (s : Bytes) (i : ℕ) → Finds i s (words_from [] s) (scan delim n s i 0 i)
  unfolding scan strltrim
  scan-words [] i = (refl, refl)
  scan-words (c ∷ s) i = elim (Bool-cases (is_one_of c delim n)) [
    | inl hit ↦
        rw (words_from-hit [] c s hit, scan-skip c s i i hit)
          (Finds-skip i c s (words_from [] s) (scan delim n s (i + 1) 0 (i + 1)) hit
            (scan-words s (i + 1)))
    | inr miss ↦
        rw (words_from-miss [] c s miss, scan-count c s i 0 i miss)
          (scan-inside s c [] (i + 1) 1 i miss refl (omega arith))
  ]
