-- ===== src/Text/Trim/Core.antt =====
-- Trimming of a text whose parts are known.
use dlna.Prelude.{ℕ, ◌≡◌, refl, sym, true, some, [], ◌∷◌, ◌++◌, Bytes, length}
use dlna.Text.Search.{is_one_of}
use dlna.Text.Trim.{strltrim, strrtrim}
use dlna.Text.Trim.Laws.{get_last?, AllDelim, StartsClean, EndsClean, rtrim_from-split}

module _ (delim : Bytes) (n : ℕ) where
  pub strltrim-front :
      (front s : Bytes)
      → AllDelim delim n front
      → strltrim (front ++ s) delim n ≡ strltrim s delim n
  unfolding strltrim
  strltrim-front [] s all = refl
  strltrim-front (c ∷ front) s (hit, all) = rw hit (strltrim-front front s all)

  pub strltrim-clean : (s : Bytes) → StartsClean delim n s → strltrim s delim n ≡ s
  unfolding strltrim
  strltrim-clean [] clean = refl
  strltrim-clean (c ∷ s) clean = rw clean refl

  get_last?-AllDelim :
      (s : Bytes) (c : ℕ) → AllDelim delim n s → get_last? s ≡ some c → is_one_of c delim n ≡ true
  get_last?-AllDelim [] c all e = absurd (cc)
  get_last?-AllDelim (x ∷ []) c (hit, all) e = let same : x ≡ c = cc in rw (← same) hit
  get_last?-AllDelim (x ∷ y ∷ s) c (_, all) e = get_last?-AllDelim (y ∷ s) c all e

  last_exists : (x : ℕ) (s : Bytes) → (c : ℕ) × (get_last? (x ∷ s) ≡ some c)
  last_exists x [] = (x, refl)
  last_exists x (y ∷ s) = last_exists y s

  AllDelim-suffix : (front s : Bytes) → AllDelim delim n (front ++ s) → AllDelim delim n s
  AllDelim-suffix [] s all = all
  AllDelim-suffix (x ∷ front) s (_, all) = AllDelim-suffix front s all

  AllDelim-prefix : (front s : Bytes) → AllDelim delim n (front ++ s) → AllDelim delim n front
  AllDelim-prefix [] s all = tt
  AllDelim-prefix (x ∷ front) s (hit, all) = (hit, AllDelim-prefix front s all)

  EndsClean-tail : (x y : ℕ) (s : Bytes) → EndsClean delim n (x ∷ y ∷ s) → EndsClean delim n (y ∷ s)
  EndsClean-tail x y s clean c e = clean c e

  -- a text of delimiters that ends clean is empty
  clean_delims : (s : Bytes) → AllDelim delim n s → EndsClean delim n s → s ≡ []
  clean_delims [] all clean = refl
  clean_delims (x ∷ s) all clean =
      let (c, e) = last_exists x s in
      let hit = get_last?-AllDelim (x ∷ s) c all e in let miss = clean c e in absurd (cc)

  EndsClean-rest : (x : ℕ) (s : Bytes) → EndsClean delim n (x ∷ s) → EndsClean delim n s
  EndsClean-rest x [] clean c e = absurd (cc)
  EndsClean-rest x (y ∷ s) clean c e = clean c e

  AllDelim-cong : (xs ys : Bytes) → xs ≡ ys → AllDelim delim n ys → AllDelim delim n xs
  AllDelim-cong xs ys e all = rw e all

  -- There is one way to cut the delimiters off at the end.
  split_unique :
      (r s back end : Bytes)
      → r ++ back ≡ s ++ end
      → AllDelim delim n back
      → AllDelim delim n end
      → EndsClean delim n r
      → EndsClean delim n s
      → r ≡ s
  split_unique [] s back end e all all' clean clean' =
      sym (clean_delims s (AllDelim-prefix s end (rw (← e) all)) clean')
  split_unique (x ∷ r) [] back end e all all' clean clean' =
      clean_delims (x ∷ r)
        (AllDelim-prefix (x ∷ r) back (AllDelim-cong ((x ∷ r) ++ back) end e all')) clean
  split_unique (x ∷ r) (y ∷ s) back end e all all' clean clean' =
      let same : x ≡ y = cc in
      let rest : r ++ back ≡ s ++ end = cc in
      let tail =
        split_unique r s back end rest all all' (EndsClean-rest x r clean)
          (EndsClean-rest y s clean') in
      cc

  pub strrtrim-back :
      (r back : Bytes)
      → AllDelim delim n back
      → EndsClean delim n r
      → strrtrim (r ++ back) delim n ≡ r
  unfolding strrtrim
  strrtrim-back r back all clean =
      let (end, e, cut, ends) = rtrim_from-split delim n (length (r ++ back)) (r ++ back) refl in
      sym (split_unique r _ back end e all cut clean ends)
