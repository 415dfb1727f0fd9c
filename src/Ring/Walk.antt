-- ===== src/Ring/Walk.antt =====
-- The loops over a ring end, and visit its nodes in their order.
use dlna.Prelude.{
  ℕ, zero, suc, ◌+◌, ◌<◌, ◌≡◌, ◌≢◌, refl, ap, ◌∙◌, true, false, some, List, [], ◌∷◌, arith, length,
  ◌==◌,
}
use dlna.Ring.{
  Store, null, cg_list_next, count_from, cg_list_size, step_from, cg_list_get, cg_list_remove,
  cg_list_clear,
}
use dlna.Ring.Distinct.{has}
use dlna.Ring.Links.{Links}
use dlna.Ring.Change.{IsRing, IsRing-frame}
use dlna.Ring.Removal.{remove-IsRing}

-- the element at an index, or NULL
abbrev pub get_or_null : List ℕ → ℕ → ℕ
get_or_null [] i = null
get_or_null (x ∷ xs) zero = x
get_or_null (x ∷ xs) (suc i) = get_or_null xs i

module _ (s : Store) (h : ℕ) (flag : (s h).head_flag ≡ true) where
  -- the nodes of a chain that ends at the header
  abbrev AreNodes : List ℕ → Type 0
  AreNodes xs = (y : ℕ) → has y xs ≡ true → (y ≢ 0) × ((s y).head_flag ≡ false)

  tail-AreNodes : (x : ℕ) (xs : List ℕ) → AreNodes (x ∷ xs) → AreNodes xs
  tail-AreNodes x xs n y i = n y (ground arith)

  next-Links :
      (a : ℕ) (xs : List ℕ)
      → a ≢ 0
      → Links s a xs h
      → AreNodes xs
      → cg_list_next s a ≡ get_or_null xs 0
  unfolding cg_list_next
  next-Links a [] a_0 (n, p) nodes = ground arith
  next-Links a (x ∷ xs) a_0 (n, p, l) nodes =
      let (ne, no_head) = nodes x (ground arith) in ground arith

  count_from-length :
      (fuel a count : ℕ) (xs : List ℕ)
      → a ≢ 0
      → Links s a xs h
      → AreNodes xs
      → length xs < fuel
      → count_from fuel s (cg_list_next s a) count ≡ some (count + length xs)
  unfolding count_from
  count_from-length zero a count xs a_0 l nodes lt = absurd (omega arith)
  count_from-length (suc fuel) a count [] a_0 l nodes lt =
      rw (next-Links a [] a_0 l nodes) (ap some (omega arith))
  count_from-length (suc fuel) a count (x ∷ xs) a_0 l nodes lt =
      let (ne, no_head) = nodes x (ground arith) in
      let more : (x == null) ≡ false = ground arith in
      rw (next-Links a (x ∷ xs) a_0 l nodes, more)
        (count_from-length fuel x (count + 1) xs ne l.2 (tail-AreNodes x xs nodes) (omega arith)
          ∙ ap some (omega arith))

  step_from-get :
      (i a : ℕ) (xs : List ℕ)
      → a ≢ 0
      → Links s a xs h
      → AreNodes xs
      → step_from i s (cg_list_next s a) ≡ get_or_null xs i
  unfolding step_from
  step_from-get zero a xs a_0 l nodes = next-Links a xs a_0 l nodes
  step_from-get (suc i) a [] a_0 l nodes = rw (next-Links a [] a_0 l nodes) refl
  step_from-get (suc i) a (x ∷ xs) a_0 l nodes =
      let (ne, no_head) = nodes x (ground arith) in
      let more : (x == null) ≡ false = ground arith in
      rw (next-Links a (x ∷ xs) a_0 l nodes, more)
        (step_from-get i x xs ne l.2 (tail-AreNodes x xs nodes))

module _ {s : Store} {h : ℕ} {xs : List ℕ} (r : IsRing s h xs) where
  nodes : AreNodes s h r.head_flag xs
  nodes y i = (r.node_ne y i, r.node_flag y i)

  pub size-length : (fuel : ℕ) → length xs < fuel → cg_list_size fuel s h ≡ some (length xs)
  unfolding cg_list_size
  size-length fuel lt =
      let there : (h == null) ≡ false = let n = r.head_ne in ground arith in
      rw there (
        count_from-length s h r.head_flag fuel h 0 xs r.head_ne r.links nodes lt
        ∙ ap some (omega arith))

  pub get-IsRing : (i : ℕ) → cg_list_get s h i ≡ get_or_null xs i
  unfolding cg_list_get
  get-IsRing i =
      let there : (h == null) ≡ false = let n = r.head_ne in ground arith in
      rw there (step_from-get s h r.head_flag i h xs r.head_ne r.links nodes)

-- cg_list_clear of a ring ends after as many rounds as the ring has nodes and leaves the empty
-- ring, with any destructor that changes no other node than the one it is given.
pub clear-IsRing :
    (destructor : Store → ℕ → Store) (h : ℕ)
    → ((s : Store) (y q : ℕ) → q ≢ y → destructor s y q ≡ s q)
    → (fuel : ℕ) (s : Store) (xs : List ℕ) → IsRing s h xs
    → length xs < fuel
    → (t : Store) × (cg_list_clear fuel destructor s h ≡ some t) × IsRing t h []
unfolding cg_list_clear
clear-IsRing destructor h keeps zero s xs r lt = absurd (omega arith)
clear-IsRing destructor h keeps (suc fuel) s [] r lt =
    let there : (h == null) ≡ false = let n = r.head_ne in ground arith in
    (s, rw (there, next-Links s h r.head_flag h [] r.head_ne r.links (nodes r)) refl, r)
clear-IsRing destructor h keeps (suc fuel) s (x ∷ xs) r lt =
    let there : (h == null) ≡ false = let n = r.head_ne in ground arith in
    let x_0 = r.node_ne x (ground arith) in
    let more : (x == null) ≡ false = ground arith in
    let out : has x (h ∷ xs) ≡ false = let d = r.distinct in ground arith in
    let rest = remove-IsRing x [] xs r in
    let (t, e, empty) =
      clear-IsRing destructor h keeps fuel (destructor (cg_list_remove s x) x) xs
        (IsRing-frame (cg_list_remove s x) (destructor (cg_list_remove s x) x) h xs
          (λ y i. keeps (cg_list_remove s x) x y (λ e. absurd (ground arith))) rest)
        (omega arith) in
    (
      t,
      rw (there, next-Links s h r.head_flag h (x ∷ xs) r.head_ne r.links (nodes r), more) e,
      empty,
    )
