-- ===== src/Ring/Distinct.antt =====
-- Membership in lists of pointers, and lists without repetition.
use dlna.Prelude.{
  ℕ, ◌≡◌, refl, Bool, true, false, ◌||◌, List, [], ◌∷◌, ◌++◌, arith, ◌==◌, Bool-cases, inl, inr,
  ◌⊎◌,
}

abbrev pub has : ℕ → List ℕ → Bool
has y [] = false
has y (x ∷ xs) = (y == x) || has y xs

abbrev pub Distinct : List ℕ → Type 0
Distinct [] = Unit
Distinct (x ∷ xs) = (has x xs ≡ false) × Distinct xs

pub has-append : (y : ℕ) (xs ys : List ℕ) → has y (xs ++ ys) ≡ (has y xs || has y ys)
has-append y [] ys = refl
has-append y (x ∷ xs) ys = ground (arith, has-append y xs ys)

pub mem_snoc : (y x : ℕ) (xs : List ℕ) → has y (xs ++ x ∷ []) ≡ true → (has y xs ≡ true) ⊎ (y ≡ x)
mem_snoc y x xs i = elim (Bool-cases (has y xs)) [
  | inl old ↦ inl old
  | inr other ↦ inr (ground (arith, has-append y xs (x ∷ [])))
]

pub Distinct-snoc : (x : ℕ) (xs : List ℕ) → has x xs ≡ false → Distinct xs → Distinct (xs ++ x ∷ [])
Distinct-snoc x [] out d = (refl, tt)
Distinct-snoc x (y ∷ xs) out (o, d) =
    (ground (arith, has-append y xs (x ∷ [])), Distinct-snoc x xs (ground arith) d)

pub Distinct-drop :
    (x : ℕ) (xs ys : List ℕ)
    → Distinct (xs ++ x ∷ ys)
    → Distinct (xs ++ ys) × (has x (xs ++ ys) ≡ false)
Distinct-drop x [] ys (o, d) = (d, o)
Distinct-drop x (y ∷ xs) ys (o, d) =
    let (d', o') = Distinct-drop x xs ys d in
    (
      (ground (arith, has-append y xs ys, has-append y xs (x ∷ ys)), d'),
      ground (arith, has-append y xs (x ∷ ys)),
    )

pub Distinct-left : (xs ys : List ℕ) → Distinct (xs ++ ys) → Distinct xs
Distinct-left [] ys d = tt
Distinct-left (x ∷ xs) ys (o, d) = (ground (arith, has-append x xs ys), Distinct-left xs ys d)

pub Distinct-right : (xs ys : List ℕ) → Distinct (xs ++ ys) → Distinct ys
Distinct-right [] ys d = d
Distinct-right (x ∷ xs) ys (o, d) = Distinct-right xs ys d

pub Distinct-apart :
    (z : ℕ) (xs ys : List ℕ) → Distinct (xs ++ ys) → has z xs ≡ true → has z ys ≡ false
Distinct-apart z [] ys d i = absurd (cc)
Distinct-apart z (x ∷ xs) ys (o, d) i = elim (Bool-cases (z == x)) [
  | inl hit ↦ ground (arith, has-append x xs ys)
  | inr miss ↦ Distinct-apart z xs ys d (ground arith)
]
