-- ===== src/Ring/Removal.antt =====
-- Removing of a node.
use dlna.Prelude.{
  ℕ, ◌≡◌, ◌≢◌, refl, ◌∙◌, true, false, List, [], ◌∷◌, ◌++◌, arith, ◌==◌, Bool-cases, inl, inr,
  if◌then◌else◌, append-nil,
}
use dlna.Ring.{Store, cg_list_remove}
use dlna.Ring.Distinct.{
  has, has-append, Distinct, Distinct-drop, Distinct-left, Distinct-right, Distinct-apart,
}
use dlna.Ring.Change.{IsRing}
use dlna.Ring.Links.{Links, Links-append, Links-split, has-prev, Links-frame, Links-retarget}

module _ (s : Store) (x a b : ℕ) (at_prev : (s x).prev ≡ a) (at_next : (s x).next ≡ b) (a_x : a ≢ x)
    (b_x : b ≢ x) (x_0 : x ≢ 0) (a_0 : a ≢ 0) (b_0 : b ≢ 0) where
  remove-next :
      (y : ℕ)
      → (cg_list_remove s x y).next ≡ (if y == x then x else if y == a then b else (s y).next)
  unfolding cg_list_remove
  remove-next y = ground arith

  remove-prev :
      (y : ℕ)
      → (cg_list_remove s x y).prev ≡ (if y == x then x else if y == b then a else (s y).prev)
  unfolding cg_list_remove
  remove-prev y = ground arith

remove-flag : (s : Store) (x y : ℕ) → (cg_list_remove s x y).head_flag ≡ (s y).head_flag
unfolding cg_list_remove
remove-flag s x y = ground arith

module _ (s : Store) (h x : ℕ) (xs : List ℕ) (h_0 : h ≢ 0) (x_0 : x ≢ 0)
    (ne : (y : ℕ) → has y xs ≡ true → y ≢ 0) (front : Links s h xs x) where
  -- the chain in front of `x` after the removal, up to the node behind `x`
  remove-front :
      (b : ℕ) (ys : List ℕ)
      → b ≢ 0
      → (s x).next ≡ b
      → b ≢ x
      → has b xs ≡ false
      → Distinct ((h ∷ xs) ++ x ∷ ys)
      → Links (cg_list_remove s x) h xs b
  remove-front b ys b_0 to b_x out d =
      let a = (s x).prev in
      let member : has a (h ∷ xs) ≡ true = has-prev s h x xs front in
      let here : has x (h ∷ xs) ≡ false = elim (Bool-cases (has x (h ∷ xs))) [
        | inl i ↦ absurd (let e = Distinct-apart x (h ∷ xs) (x ∷ ys) d i in ground arith)
        | inr o ↦ o
      ] in
      let a_x : a ≢ x = λ e. absurd (ground arith) in
      let a_0 : a ≢ 0 = λ e. absurd (let n = ne a in ground arith) in
      let nexts = remove-next s x a b refl to a_x b_x x_0 a_0 b_0 in
      let prevs = remove-prev s x a b refl to a_x b_x x_0 a_0 b_0 in
      Links-retarget s (cg_list_remove s x) h x b xs (Distinct-left (h ∷ xs) (x ∷ ys) d)
        (λ y i n. let y_x : y ≢ x = λ e. absurd (ground arith) in ground (arith, nexts y))
        (λ y i.
          let y_x : y ≢ x = λ e. absurd (ground arith) in
          let y_b : y ≢ b = λ e. absurd (ground arith) in ground (arith, prevs y))
        (ground (arith, nexts a)) (ground (arith, prevs b)) front

  -- and the chain behind that node
  remove-back :
      (b : ℕ) (ys : List ℕ)
      → b ≢ 0
      → (s x).next ≡ b
      → Distinct ((h ∷ xs) ++ x ∷ b ∷ ys)
      → Links s b ys h
      → Links (cg_list_remove s x) b ys h
  remove-back b ys b_0 to d behind =
      let a = (s x).prev in
      let member : has a (h ∷ xs) ≡ true = has-prev s h x xs front in
      let (x_out, (b_out, rest)) = Distinct-right (h ∷ xs) (x ∷ b ∷ ys) d in
      let far : has a (x ∷ b ∷ ys) ≡ false = Distinct-apart a (h ∷ xs) (x ∷ b ∷ ys) d member in
      let top : has h (x ∷ b ∷ ys) ≡ false =
        Distinct-apart h (h ∷ xs) (x ∷ b ∷ ys) d (ground arith) in
      let a_x : a ≢ x = λ e. absurd (ground arith) in
      let b_x : b ≢ x = λ e. absurd (ground arith) in
      let a_0 : a ≢ 0 = λ e. absurd (let n = ne a in ground arith) in
      let nexts = remove-next s x a b refl to a_x b_x x_0 a_0 b_0 in
      let prevs = remove-prev s x a b refl to a_x b_x x_0 a_0 b_0 in
      Links-frame s (cg_list_remove s x) b h ys
        (λ y i.
          let y_x : y ≢ x = λ e. absurd (ground arith) in
          let y_a : y ≢ a = λ e. absurd (ground arith) in ground (arith, nexts y))
        (λ y i.
          let y_x : y ≢ x = λ e. absurd (ground arith) in
          let y_b : y ≢ b = λ e. absurd (ground arith) in ground (arith, prevs y))
        behind

-- an element of a list without `x` is one of the list with it
kept : (y x : ℕ) (xs ys : List ℕ) → has y (xs ++ ys) ≡ true → has y (xs ++ x ∷ ys) ≡ true
kept y x xs ys i = ground (arith, has-append y xs ys, has-append y xs (x ∷ ys))

node-ne : {s : Store} {h : ℕ} (x : ℕ) (xs ys : List ℕ) → IsRing s h (xs ++ x ∷ ys) → x ≢ 0
node-ne x xs ys r = r.node_ne x (ground (arith, has-append x xs (x ∷ ys)))

front-ne :
    {s : Store} {h : ℕ} (x : ℕ) (xs ys : List ℕ)
    → IsRing s h (xs ++ x ∷ ys)
    → (y : ℕ) → has y xs ≡ true
    → y ≢ 0
front-ne x xs ys r y i = r.node_ne y (ground (arith, has-append y xs (x ∷ ys)))

remove-Links :
    {s : Store} {h : ℕ} (x : ℕ) (xs ys : List ℕ)
    → IsRing s h (xs ++ x ∷ ys)
    → Links (cg_list_remove s x) h (xs ++ ys) h
remove-Links {s} {h} x xs [] r =
    let (front, link) = Links-split s h x h xs [] r.links in
    let top : has h (x ∷ []) ≡ false =
      Distinct-apart h (h ∷ xs) (x ∷ []) r.distinct (ground arith) in
    let out : has h xs ≡ false = (Distinct-left (h ∷ xs) (x ∷ []) r.distinct).0 in
    rw (append-nil xs) (
      remove-front s h x xs r.head_ne (node-ne x xs [] r) (front-ne x xs [] r) front h [] r.head_ne
        link.0 (λ e. absurd (ground arith)) out r.distinct)
remove-Links {s} {h} x xs (b ∷ ys) r =
    let (front, (to, back, behind)) = Links-split s h x h xs (b ∷ ys) r.links in
    let b_0 : b ≢ 0 = r.node_ne b (ground (arith, has-append b xs (x ∷ b ∷ ys))) in
    let (out_x, out_b) = Distinct-right (h ∷ xs) (x ∷ b ∷ ys) r.distinct in
    let out : has b xs ≡ false = elim (Bool-cases (has b (h ∷ xs))) [
      | inl i ↦
          absurd (let far = Distinct-apart b (h ∷ xs) (x ∷ b ∷ ys) r.distinct i in ground arith)
      | inr o ↦ ground arith
    ] in
    Links-append (cg_list_remove s x) h b h xs ys
      (remove-front s h x xs r.head_ne (node-ne x xs (b ∷ ys) r) (front-ne x xs (b ∷ ys) r) front b
        (b ∷ ys) b_0 to (λ e. absurd (ground arith)) out r.distinct)
      (remove-back s h x xs r.head_ne (node-ne x xs (b ∷ ys) r) (front-ne x xs (b ∷ ys) r) front b
        ys b_0 to r.distinct behind)

module _ {s : Store} {h : ℕ} (x : ℕ) (xs ys : List ℕ) (r : IsRing s h (xs ++ x ∷ ys)) where
  -- A node that is taken out leaves the others as they are.
  pub remove-IsRing : IsRing (cg_list_remove s x) h (xs ++ ys)
  remove-IsRing =
      let (d, out) = Distinct-drop x (h ∷ xs) ys r.distinct in
      record {
        head_ne = r.head_ne;
        head_flag = remove-flag s x h ∙ r.head_flag;
        node_ne = λ y i. r.node_ne y (kept y x xs ys i);
        node_flag = λ y i. remove-flag s x y ∙ r.node_flag y (kept y x xs ys i);
        distinct = d;
        links = remove-Links x xs ys r;
      }
