-- ===== src/Text/Search/Find.antt =====
-- What the searches find.
use mathlib.Core.Option
use dlna.Prelude.{
  ℕ, zero, suc, ◌<◌, ◌≡◌, ◌≢◌, refl, inl, inr, true, false, Option, none, some, [], ◌∷◌, ◌++◌,
  arith, Bytes, length, drop, All, Bool-cases,
}
use dlna.Text.Search.{is_prefix, strstr, is_one_of, strchr, strrchr}

abbrev pub Lacks : ℕ → Bytes → Type 0
Lacks b = All (λ c. c ≢ b)

pub is_prefix-append : (p s : Bytes) → is_prefix p (p ++ s) ≡ true
unfolding is_prefix
is_prefix-append [] s = refl
is_prefix-append (x ∷ p) s = ground (arith, is_prefix-append p s)

pub is_prefix-eq_append : (p s : Bytes) → is_prefix p s ≡ true → (rest : Bytes) × (s ≡ p ++ rest)
unfolding is_prefix
is_prefix-eq_append [] s h = (s, refl)
is_prefix-eq_append (x ∷ p) [] h = absurd (cc)
is_prefix-eq_append (x ∷ p) (y ∷ s) h =
    let (rest, e) = is_prefix-eq_append p s (ground arith) in (rest, ground arith)

-- `needle` stands in `s` at offset `i`, and at no smaller offset.
pub record IsFirst (s needle : Bytes) (i : ℕ) : Type 0 where
  pub found : is_prefix needle (drop i s) ≡ true
  pub least : (j : ℕ) → j < i → is_prefix needle (drop j s) ≡ false

IsFirst-suc :
    (x : ℕ) (s needle : Bytes) {i : ℕ}
    → is_prefix needle (x ∷ s) ≡ false
    → IsFirst s needle i
    → IsFirst (x ∷ s) needle (suc i)
IsFirst-suc x s needle {i} miss f = record { found = f.found; least = earlier }
  where
    earlier : (j : ℕ) → j < suc i → is_prefix needle (drop j (x ∷ s)) ≡ false
    earlier zero h = miss
    earlier (suc j) h = f.least j (omega arith)

map-suc-eq_some :
    (o : Option ℕ) {i : ℕ} → Option.map suc o ≡ some i → (j : ℕ) × (o ≡ some j) × (i ≡ suc j)
map-suc-eq_some none h = absurd (cc)
map-suc-eq_some (some j) h = (j, refl, ground arith)

-- An index from `strstr` is that of the first occurrence.
pub strstr-IsFirst : (s needle : Bytes) {i : ℕ} → strstr s needle ≡ some i → IsFirst s needle i
unfolding strstr
strstr-IsFirst [] needle {i} h =
    let at : i ≡ 0 = ground arith in
    record { found = rw at (ground arith); least = λ j lt. absurd (omega arith) }
strstr-IsFirst (x ∷ s) needle {i} h = elim (Bool-cases (is_prefix needle (x ∷ s))) [
  | inl hit ↦
      let at : i ≡ 0 = ground arith in
      record { found = rw at hit; least = λ j lt. absurd (omega arith) }
  | inr miss ↦
      let (j, e, at) = map-suc-eq_some (strstr s needle) (rw miss at h) in
      rw at (IsFirst-suc x s needle miss (strstr-IsFirst s needle e))
]

-- `strstr` finds nothing only where there is no occurrence.
pub strstr-none :
    (s needle : Bytes) → strstr s needle ≡ none → (i : ℕ) → is_prefix needle (drop i s) ≡ false
unfolding strstr
strstr-none [] needle h zero = ground arith
strstr-none [] needle h (suc i) = ground arith
strstr-none (x ∷ s) needle h zero = ground arith
strstr-none (x ∷ s) needle h (suc i) = strstr-none s needle (ground arith) i

-- The first `c` is behind all bytes before it.
pub strstr-byte : (a b : Bytes) (c : ℕ) → Lacks c a → strstr (a ++ c ∷ b) (c ∷ []) ≡ some (length a)
unfolding strstr is_prefix
strstr-byte [] b c h = ground arith
strstr-byte (x ∷ a) b c (ne, h) = ground (arith, strstr-byte a b c h)

pub strstr-byte_none : (a : Bytes) (c : ℕ) → Lacks c a → strstr a (c ∷ []) ≡ none
unfolding strstr is_prefix
strstr-byte_none [] c h = refl
strstr-byte_none (x ∷ a) c (ne, h) = ground (arith, strstr-byte_none a c h)

-- The same for a longer needle whose first byte does not occur earlier.
pub strstr-needle :
    (a b n : Bytes) (c : ℕ) → Lacks c a → strstr (a ++ ((c ∷ n) ++ b)) (c ∷ n) ≡ some (length a)
unfolding strstr is_prefix
strstr-needle [] b n c h = ground (arith, is_prefix-append n b)
strstr-needle (x ∷ a) b n c (ne, h) = ground (arith, strstr-needle a b n c h)

pub strstr-needle_none : (a n : Bytes) (c : ℕ) → Lacks c a → strstr a (c ∷ n) ≡ none
unfolding strstr is_prefix
strstr-needle_none [] n c h = refl
strstr-needle_none (x ∷ a) n c (ne, h) = ground (arith, strstr-needle_none a n c h)

pub is_one_of_byte : (x c : ℕ) → x ≢ c → is_one_of x (c ∷ []) 1 ≡ false
unfolding is_one_of
is_one_of_byte x c ne = ground arith

pub strchr-byte :
    (a b : Bytes) (c : ℕ) → Lacks c a → strchr (a ++ c ∷ b) (c ∷ []) 1 ≡ some (length a)
unfolding strchr is_one_of
strchr-byte [] b c h = ground arith
strchr-byte (x ∷ a) b c (ne, h) = ground (arith, strchr-byte a b c h)

pub strchr-byte_none : (a : Bytes) (c : ℕ) → Lacks c a → strchr a (c ∷ []) 1 ≡ none
unfolding strchr is_one_of
strchr-byte_none [] c h = refl
strchr-byte_none (x ∷ a) c (ne, h) = ground (arith, strchr-byte_none a c h)

pub strrchr-byte_none : (a : Bytes) (c : ℕ) → Lacks c a → strrchr a (c ∷ []) 1 ≡ none
unfolding strrchr is_one_of
strrchr-byte_none [] c h = refl
strrchr-byte_none (x ∷ a) c (ne, h) = ground (arith, strrchr-byte_none a c h)

-- The last `c` stands before all bytes that lack it.
pub strrchr-byte :
    (a b : Bytes) (c : ℕ) → Lacks c b → strrchr (a ++ c ∷ b) (c ∷ []) 1 ≡ some (length a)
unfolding strrchr is_one_of
strrchr-byte [] b c h = ground (arith, strrchr-byte_none b c h)
strrchr-byte (x ∷ a) b c h = ground (arith, strrchr-byte a b c h)
