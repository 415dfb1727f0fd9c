-- ===== src/Ring/Change.antt =====
-- Adding of a node.
use dlna.Prelude.{
  ℕ, ◌≡◌, ◌≢◌, refl, ap, ◌∙◌, true, false, List, [], ◌∷◌, ◌++◌, arith, ◌==◌, inl, inr,
  if◌then◌else◌,
}
use dlna.Ring.{CgList, Store, cg_list_add}
use dlna.Ring.Distinct.{has, has-append, mem_snoc, Distinct, Distinct-snoc}
use dlna.Ring.Links.{Links, Links-append, has-prev, next-prev, Links-frame, Links-retarget}

-- The ring of the header `h` holds the nodes `xs`, in this order.
pub record IsRing (s : Store) (h : ℕ) (xs : List ℕ) : Type 0 where
  pub head_ne : h ≢ 0
  pub head_flag : (s h).head_flag ≡ true
  pub node_ne : (y : ℕ) → has y xs ≡ true → y ≢ 0
  pub node_flag : (y : ℕ) → has y xs ≡ true → (s y).head_flag ≡ false
  pub distinct : Distinct (h ∷ xs)
  pub links : Links s h xs h

-- A ring none of whose nodes changes.
pub IsRing-frame :
    (s t : Store) (h : ℕ) (xs : List ℕ)
    → ((y : ℕ) → has y (h ∷ xs) ≡ true → t y ≡ s y)
    → IsRing s h xs
    → IsRing t h xs
IsRing-frame s t h xs same r = record {
  head_ne = r.head_ne;
  head_flag = ap (λ (n : CgList). n.head_flag) (same h (ground arith)) ∙ r.head_flag;
  node_ne = r.node_ne;
  node_flag = λ y i. ap (λ (n : CgList). n.head_flag) (same y (ground arith)) ∙ r.node_flag y i;
  distinct = r.distinct;
  links =
      Links-frame s t h h xs (λ y i. ap (λ (n : CgList). n.next) (same y i))
        (λ y i. ap (λ (n : CgList). n.prev) (same y i)) r.links;
}

module _ (s : Store) (h x p : ℕ) (back : p ≡ (s h).prev) (next : (s p).next ≡ h) (x_p : x ≢ p)
    (x_h : x ≢ h) (x_0 : x ≢ 0) (h_0 : h ≢ 0) (p_0 : p ≢ 0) where
  add-next :
      (y : ℕ)
      → (cg_list_add s h x y).next ≡ (if y == p then x else if y == x then h else (s y).next)
  unfolding cg_list_add
  add-next y = rw (← back) (ground arith)

  add-prev :
      (y : ℕ)
      → (cg_list_add s h x y).prev ≡ (if y == h then x else if y == x then p else (s y).prev)
  unfolding cg_list_add
  add-prev y = ground arith

  add-flag : (y : ℕ) → (cg_list_add s h x y).head_flag ≡ (s y).head_flag
  unfolding cg_list_add
  add-flag y = ground arith

module _ {s : Store} {h : ℕ} {xs : List ℕ} (r : IsRing s h xs) where
  prev-ne : (s h).prev ≢ 0
  prev-ne = λ e. absurd (
      let i = has-prev s h h xs r.links in
      let n = r.head_ne in let m = r.node_ne (s h).prev in ground arith)

  -- A new node comes to the end.
  pub add-IsRing :
      (x : ℕ)
      → x ≢ 0
      → (s x).head_flag ≡ false
      → has x (h ∷ xs) ≡ false
      → IsRing (cg_list_add s h x) h (xs ++ x ∷ [])
  add-IsRing x x_0 flag out =
      let p = (s h).prev in
      let member : has p (h ∷ xs) ≡ true = has-prev s h h xs r.links in
      let x_p : x ≢ p = λ e. absurd (ground arith) in
      let x_h : x ≢ h = λ e. absurd (ground arith) in
      let t = cg_list_add s h x in
      let nexts =
        add-next s h x p refl (next-prev s h h xs r.links) x_p x_h x_0 r.head_ne prev-ne in
      let prevs =
        add-prev s h x p refl (next-prev s h h xs r.links) x_p x_h x_0 r.head_ne prev-ne in
      let flags =
        add-flag s h x p refl (next-prev s h h xs r.links) x_p x_h x_0 r.head_ne prev-ne in
      record {
        head_ne = r.head_ne;
        head_flag = flags h ∙ r.head_flag;
        node_ne =
            λ y i. elim (mem_snoc y x xs i) [ inl old ↦ r.node_ne y old | inr new ↦ rw new x_0 ];
        node_flag = λ y i.
            flags y
            ∙ elim (mem_snoc y x xs i) [ inl old ↦ r.node_flag y old | inr new ↦ rw new flag ];
        distinct = (
          ground (arith, has-append h xs (x ∷ []), r.distinct),
          Distinct-snoc x xs (ground arith) r.distinct.1,
        );
        links =
            Links-append t h x h xs []
              (Links-retarget s t h h x xs r.distinct (λ y i ne. ground (arith, nexts y))
                (λ y i. ground (arith, prevs y)) (ground (arith, nexts p)) (ground (arith, prevs x))
                r.links)
              (ground (arith, nexts x), ground (arith, prevs h));
      }
