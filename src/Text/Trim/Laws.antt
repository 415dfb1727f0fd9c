-- ===== src/Text/Trim/Laws.antt =====
-- `cg_strtrim` removes delimiters from both ends and nothing else.
use dlna.Prelude.{
  ℕ, zero, suc, ◌≡◌, refl, ap, sym, ◌∙◌, true, false, Option, none, some, [], ◌∷◌, ◌++◌,
  append_assoc, append-nil, arith, Bytes, length, take, get_elem?, All, Bool-cases, inl, inr,
  All-append, length-take_of_le,
}
use dlna.Text.Search.{is_one_of}
use dlna.Text.Trim.{strltrim, rtrim_from, cg_strtrim}

abbrev pub get_last? : Bytes → Option ℕ
get_last? [] = none
get_last? (x ∷ []) = some x
get_last? (x ∷ y ∷ s) = get_last? (y ∷ s)

get_last?-append : (t : Bytes) (x : ℕ) (s : Bytes) → get_last? (t ++ x ∷ s) ≡ get_last? (x ∷ s)
get_last?-append [] x s = refl
get_last?-append (y ∷ []) x s = refl
get_last?-append (y ∷ z ∷ t) x s = get_last?-append (z ∷ t) x s

snoc_view :
    (i : ℕ) (s : Bytes)
    → length s ≡ suc i
    → (c : ℕ) × (get_elem? s i ≡ some c) × (s ≡ take i s ++ c ∷ [])
snoc_view i [] h = absurd (omega arith)
snoc_view zero (x ∷ []) h = (x, refl, refl)
snoc_view zero (x ∷ y ∷ s) h = absurd (omega arith)
snoc_view (suc i) (x ∷ s) h = let (c, at, e) = snoc_view i s (omega arith) in (c, at, ap (◌∷◌ x) e)

module _ (delim : Bytes) (n : ℕ) where
  abbrev pub AllDelim : Bytes → Type 0
  AllDelim = All (λ c. is_one_of c delim n ≡ true)

  -- the text is empty or begins with another byte
  abbrev pub StartsClean : Bytes → Type 0
  StartsClean [] = Unit
  StartsClean (c ∷ s) = is_one_of c delim n ≡ false

  abbrev pub EndsClean : Bytes → Type 0
  EndsClean s = (c : ℕ) → get_last? s ≡ some c → is_one_of c delim n ≡ false

  pub strltrim-split :
      (s : Bytes)
      → (front : Bytes) × (s ≡ front ++ strltrim s delim n)
        × AllDelim front
        × StartsClean (strltrim s delim n)
  unfolding strltrim
  strltrim-split [] = ([], refl, tt, tt)
  strltrim-split (c ∷ s) = elim (Bool-cases (is_one_of c delim n)) [
    | inl hit ↦
        let (front, e, all, clean) = strltrim-split s in
        (c ∷ front, rw hit (ap (◌∷◌ c) e), (hit, all), rw hit clean)
    | inr miss ↦ ([], rw miss refl, tt, rw miss miss)
  ]

  -- what `cg_strrtrim` leaves, and what it cuts off
  abbrev pub RightSplit : Bytes → Bytes → Type 0
  RightSplit s r = (back : Bytes) × (s ≡ r ++ back) × AllDelim back × EndsClean r

  pub rtrim_from-split : (i : ℕ) (s : Bytes) → length s ≡ i → RightSplit s (rtrim_from i s delim n)
  unfolding rtrim_from
  rtrim_from-split zero [] h = ([], refl, tt, λ c e. absurd (cc))
  rtrim_from-split zero (x ∷ s) h = absurd (omega arith)
  rtrim_from-split (suc i) s h =
      let (c, at, e) = snoc_view i s h in
      rw (at, rtrim_from)
        (elim (Bool-cases (is_one_of c delim n)) [
          | inl hit ↦
              let shorter : length (take i s) ≡ i = length-take_of_le i s (omega arith) in
              let (back, e', all, clean) = rtrim_from-split i (take i s) shorter in
              rw hit (
                back ++ c ∷ [],
                e ∙ ap (λ t. t ++ c ∷ []) e' ∙ append_assoc _ back (c ∷ []),
                All-append _ back (c ∷ []) all (hit, tt),
                clean,
              )
          | inr miss ↦ rw miss (
            [],
            sym (append-nil s),
            tt,
            λ d last.
                let same : get_last? s ≡ some c =
                  ap get_last? e ∙ get_last?-append (take i s) c [] in
                ground arith,
          )
        ])

  EndsClean-suffix : (front r : Bytes) → EndsClean (front ++ r) → EndsClean r
  EndsClean-suffix front [] h c e = absurd (cc)
  EndsClean-suffix front (x ∷ r) h c e = h c (get_last?-append front x r ∙ e)

  -- cg_strtrim cuts delimiters off at both ends and nothing else, and what it leaves neither
  -- begins nor ends with a delimiter.
  pub cg_strtrim-split :
      (s : Bytes)
      → (r front back : Bytes) × (cg_strtrim (some s) (some delim) n ≡ some r)
        × (s ≡ front ++ (r ++ back))
        × AllDelim front
        × AllDelim back
        × StartsClean r
        × EndsClean r
  unfolding cg_strtrim
  cg_strtrim-split s =
      let (back, e, cut, clean) = rtrim_from-split (length s) s refl in
      let rest = rtrim_from (length s) s delim n in
      let (front, e', cut', clean') = strltrim-split rest in
      (
        strltrim rest delim n,
        front,
        back,
        refl,
        e ∙ ap (λ t. t ++ back) e' ∙ append_assoc front _ back,
        cut',
        cut,
        clean',
        EndsClean-suffix front _ (rw e' at clean),
      )
