-- ===== src/Ring/Links.antt =====
-- What a chain of nodes is, and how it survives changes of the store.
use dlna.Prelude.{ℕ, ◌≡◌, ◌≢◌, ap, sym, ◌∙◌, true, List, [], ◌∷◌, ◌++◌, arith}
use dlna.Ring.{Store}
use dlna.Ring.Distinct.{has, Distinct}

-- From `a` the pointers lead through `xs` to `b`, and back.
abbrev pub Links : Store → ℕ → List ℕ → ℕ → Type 0
Links s a [] b = ((s a).next ≡ b) × ((s b).prev ≡ a)
Links s a (x ∷ xs) b = ((s a).next ≡ x) × ((s x).prev ≡ a) × Links s x xs b

pub Links-append :
    (s : Store) (a b c : ℕ) (xs ys : List ℕ)
    → Links s a xs b
    → Links s b ys c
    → Links s a (xs ++ b ∷ ys) c
Links-append s a b c [] ys (n, p) l = (n, p, l)
Links-append s a b c (x ∷ xs) ys (n, p, k) l = (n, p, Links-append s x b c xs ys k l)

pub Links-split :
    (s : Store) (a b c : ℕ) (xs ys : List ℕ)
    → Links s a (xs ++ b ∷ ys) c
    → Links s a xs b × Links s b ys c
Links-split s a b c [] ys (n, p, l) = ((n, p), l)
Links-split s a b c (x ∷ xs) ys (n, p, k) =
    let (l, r) = Links-split s x b c xs ys k in ((n, p, l), r)

-- the node in front of the end is one of the chain
pub has-prev : (s : Store) (a b : ℕ) (xs : List ℕ) → Links s a xs b → has (s b).prev (a ∷ xs) ≡ true
has-prev s a b [] (n, p) = ground arith
has-prev s a b (x ∷ xs) (n, p, l) = ground (arith, has-prev s x b xs l)

-- and it leads to the end
pub next-prev : (s : Store) (a b : ℕ) (xs : List ℕ) → Links s a xs b → (s (s b).prev).next ≡ b
next-prev s a b [] (n, p) = rw p n
next-prev s a b (x ∷ xs) (n, p, l) = next-prev s x b xs l

-- a chain of which nothing changes
pub Links-frame :
    (s t : Store) (a b : ℕ) (xs : List ℕ)
    → ((y : ℕ) → has y (a ∷ xs) ≡ true → (t y).next ≡ (s y).next)
    → ((y : ℕ) → has y (b ∷ xs) ≡ true → (t y).prev ≡ (s y).prev)
    → Links s a xs b
    → Links t a xs b
Links-frame s t a b [] nexts prevs (n, p) = (nexts a (ground arith) ∙ n, prevs b (ground arith) ∙ p)
Links-frame s t a b (x ∷ xs) nexts prevs (n, p, l) = (
  nexts a (ground arith) ∙ n,
  prevs x (ground arith) ∙ p,
  Links-frame s t x b xs (λ y h. nexts y (ground arith)) (λ y h. prevs y (ground arith)) l,
)

-- a chain whose last node is led to another end
pub Links-retarget :
    (s t : Store) (a b c : ℕ) (xs : List ℕ)
    → Distinct (a ∷ xs)
    → ((y : ℕ) → has y (a ∷ xs) ≡ true → y ≢ (s b).prev → (t y).next ≡ (s y).next)
    → ((y : ℕ) → has y xs ≡ true → (t y).prev ≡ (s y).prev)
    → (t (s b).prev).next ≡ c
    → (t c).prev ≡ (s b).prev
    → Links s a xs b
    → Links t a xs c
Links-retarget s t a b c [] d nexts prevs to from (n, p) =
    (ap (λ q. (t q).next) (sym p) ∙ to, from ∙ p)
Links-retarget s t a b c (x ∷ xs) (out, d) nexts prevs to from (n, p, l) =
    let inner : has (s b).prev (x ∷ xs) ≡ true = has-prev s x b xs l in
    (
      nexts a (ground arith) (λ e. absurd (ground arith)) ∙ n,
      prevs x (ground arith) ∙ p,
      Links-retarget s t x b c xs d (λ y h ne. nexts y (ground arith) ne)
          (λ y h. prevs y (ground arith)) to from l,
    )
