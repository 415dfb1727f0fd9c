-- ===== src/Text/Compare.antt =====
-- The comparisons of clinkc/src/cybergarage/util/cstring_function.c decide equality, except on NULL.
use dlna.Prelude.{◌≡◌, ◌↔◌, refl, true, none, some, [], ◌∷◌, ◌++◌, arith, Bytes, length}
use dlna.Prelude.Int.{pos, eqb_ℤ}
use dlna.Text.{CStr, strcmp, strncmp, cg_strcmp, cg_streq}

pub strcmp_iff : (a b : Bytes) → (eqb_ℤ (strcmp a b) (pos 0) ≡ true) ↔ (a ≡ b)
unfolding strcmp
strcmp_iff [] [] = ground arith
strcmp_iff [] (y ∷ b) = ground arith
strcmp_iff (x ∷ a) [] = ground arith
strcmp_iff (x ∷ a) (y ∷ b) = ground (arith, strcmp_iff a b)

-- cg_streq holds exactly of two strings that are both there and have the same bytes; NULL is not
-- equal to NULL.
pub cg_streq_iff :
    (a b : CStr) → (cg_streq a b ≡ true) ↔ ((s : Bytes) × (a ≡ some s) × (b ≡ some s))
unfolding cg_streq cg_strcmp
cg_streq_iff none b = (λ h. absurd (cc), λ (s, p, q). absurd (cc))
cg_streq_iff (some a) none = (λ h. absurd (cc), λ (s, p, q). absurd (cc))
cg_streq_iff (some a) (some b) =
    (λ h. (a, refl, ground (arith, strcmp_iff a b)), λ (s, p, q). ground (arith, strcmp_iff a b))

pub strncmp_prefix : (p s : Bytes) → eqb_ℤ (strncmp p (p ++ s) (length p)) (pos 0) ≡ true
unfolding strncmp
strncmp_prefix [] s = refl
strncmp_prefix (x ∷ p) s = ground (arith, strncmp_prefix p s)

-- Comparing as many bytes as `p` has finds out whether `p` is a prefix.
pub strncmp-eq_prefix :
    (p s : Bytes) → eqb_ℤ (strncmp p s (length p)) (pos 0) ≡ true → (rest : Bytes) × (s ≡ p ++ rest)
unfolding strncmp
strncmp-eq_prefix [] s h = (s, refl)
strncmp-eq_prefix (x ∷ p) [] h = absurd (cc)
strncmp-eq_prefix (x ∷ p) (y ∷ s) h =
    let (rest, e) = strncmp-eq_prefix p s (ground arith) in (rest, ground arith)
