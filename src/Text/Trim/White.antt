-- ===== src/Text/Trim/White.antt =====
-- What `cg_strtrimwhite` does: it cuts off as many bytes as there are spaces anywhere in the text.
use dlna.Prelude.{
  ℕ, zero, suc, ◌+◌, ◌-◌, ◌≤◌, ◌≡◌, refl, ap, sym, ◌∙◌, append_assoc, true, false, [], ◌∷◌, ◌++◌,
  arith, Bytes, length, take, drop, take-append-drop, All, length-append, take-length_append,
}
use dlna.Text.Trim.{isspace, count_space, leading_space, strtrimwhite}

pub count_space-le : (s : Bytes) → count_space s ≤ length s
unfolding count_space
count_space-le [] = omega arith
count_space-le (c ∷ s) = ground (arith, count_space-le s)

count_space-append : (a b : Bytes) → count_space (a ++ b) ≡ count_space a + count_space b
unfolding count_space
count_space-append [] b = omega arith
count_space-append (c ∷ a) b = ground (arith, count_space-append a b)

abbrev pub NoSpace : Bytes → Type 0
NoSpace = All (λ c. isspace c ≡ false)

abbrev pub IsBlank : Bytes → Type 0
IsBlank = All (λ c. isspace c ≡ true)

count_space-NoSpace : (s : Bytes) → NoSpace s → count_space s ≡ 0
unfolding count_space
count_space-NoSpace [] h = refl
count_space-NoSpace (c ∷ s) (x, h) = ground (arith, count_space-NoSpace s h)

count_space-IsBlank : (s : Bytes) → IsBlank s → count_space s ≡ length s
unfolding count_space
count_space-IsBlank [] h = refl
count_space-IsBlank (c ∷ s) (x, h) = ground (arith, count_space-IsBlank s h)

leading_space-zero : (n c : ℕ) (s : Bytes) → isspace c ≡ false → leading_space n (c ∷ s) ≡ 0
unfolding leading_space
leading_space-zero zero c s h = refl
leading_space-zero (suc n) c s h = ground arith

take-take : (n m : ℕ) (s : Bytes) → take n (take m s ++ drop m s) ≡ take n s
take-take n m s = ap (take n) (take-append-drop m s)

-- Of a text that begins with no space, cg_strtrimwhite keeps a prefix that is shorter than the
-- text by the number of spaces in all of it.
pub strtrimwhite-take :
    (c : ℕ) (s : Bytes)
    → isspace c ≡ false
    → strtrimwhite (c ∷ s) ≡ take (length (c ∷ s) - count_space (c ∷ s)) (c ∷ s)
unfolding strtrimwhite
strtrimwhite-take c s h =
    let n = length (c ∷ s) - count_space (c ∷ s) in
    let z : leading_space n (c ∷ s) ≡ 0 = leading_space-zero n c s h in
    rw z (take-take n (n - 0) (c ∷ s))

-- Spaces that all stand at the end are cut off, and nothing else.
pub strtrimwhite_trailing :
    (c : ℕ) (s back : Bytes)
    → NoSpace (c ∷ s)
    → IsBlank back
    → strtrimwhite ((c ∷ s) ++ back) ≡ c ∷ s
strtrimwhite_trailing c s back h blank =
    let kept : length (c ∷ (s ++ back)) - count_space (c ∷ (s ++ back)) ≡ length (c ∷ s) = omega (
      arith,
      count_space-append (c ∷ s) back,
      count_space-NoSpace (c ∷ s) h,
      count_space-IsBlank back blank,
      length-append (c ∷ s) back,
    ) in
    strtrimwhite-take c (s ++ back) h.0
    ∙ ap (λ n. take n (c ∷ (s ++ back))) kept
    ∙ take-length_append (c ∷ s) back

-- One space between two words without spaces makes cg_strtrimwhite drop the last byte of the
-- second word.
pub strtrimwhite_inner :
    (c : ℕ) (s back : Bytes) (d : ℕ)
    → NoSpace (c ∷ s)
    → NoSpace (back ++ d ∷ [])
    → strtrimwhite ((c ∷ s) ++ (32 ∷ (back ++ d ∷ []))) ≡ (c ∷ s) ++ 32 ∷ back
unfolding count_space isspace
strtrimwhite_inner c s back d h clean =
    let whole = (c ∷ s) ++ (32 ∷ (back ++ d ∷ [])) in
    let kept : length whole - count_space whole ≡ length ((c ∷ s) ++ 32 ∷ back) = omega (
      arith,
      count_space-append (c ∷ s) (32 ∷ (back ++ d ∷ [])),
      count_space-NoSpace (c ∷ s) h,
      count_space-NoSpace (back ++ d ∷ []) clean,
      length-append (c ∷ s) (32 ∷ (back ++ d ∷ [])),
      length-append (c ∷ s) (32 ∷ back),
      length-append back (d ∷ []),
    ) in
    strtrimwhite-take c _ h.0
    ∙ ap (λ n. take n whole) kept
    ∙ ap (take (length ((c ∷ s) ++ 32 ∷ back))) (sym (append_assoc (c ∷ s) (32 ∷ back) (d ∷ [])))
    ∙ take-length_append ((c ∷ s) ++ 32 ∷ back) (d ∷ [])
