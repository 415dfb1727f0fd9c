-- ===== src/Ring/Refine.antt =====
-- A ring implements a list of distinct nodes.
use dlna.Prelude.{
  ℕ, ◌+◌, ◌≡◌, ◌≢◌, refl, ap, sym, ◌∙◌, true, false, ◌||◌, Option, none, some, List, [], ◌∷◌, ◌++◌,
  arith, length, ◌==◌, if◌then◌else◌, Bool-cases, Option-cases, inl, inr,
}
use dlna.Uri.{◌>>=◌}
use dlna.Ring.{
  Store, null, cg_list_header_init, cg_list_node_init, cg_list_add, cg_list_remove, cg_list_size,
  cg_list_get,
}
use dlna.Ring.Distinct.{has}
use dlna.Ring.Change.{IsRing, IsRing-frame, add-IsRing}
use dlna.Ring.Removal.{remove-IsRing}
use dlna.Ring.Walk.{get_or_null, size-length, get-IsRing}

-- what a user of a list does: append a new node, or take one out
pub data Op : Type 0 where
  add : ℕ → Op
  remove : ℕ → Op

abbrev pub erase : ℕ → List ℕ → List ℕ
erase y [] = []
erase y (x ∷ xs) = if y == x then xs else x ∷ erase y xs

-- The list that an operation leaves; `none` if it is not allowed: a new node is neither NULL, nor
-- the header, nor in the list, and only a node of the list is taken out.
abbrev pub change : ℕ → Op → List ℕ → Option (List ℕ)
change h (add x) xs = if (x == null) || has x (h ∷ xs) then none else some (xs ++ x ∷ [])
change h (remove x) xs = if has x xs then some (erase x xs) else none

abbrev pub change_all : ℕ → List Op → List ℕ → Option (List ℕ)
change_all h [] xs = some xs
change_all h (op ∷ ops) xs = change h op xs >>= λ ys. change_all h ops ys

-- the same by the code, where a new node is initialised first
abbrev pub perform : ℕ → Op → Store → Store
perform h (add x) s = cg_list_add (cg_list_node_init s x) h x
perform h (remove x) s = cg_list_remove s x

abbrev pub perform_all : ℕ → List Op → Store → Store
perform_all h [] s = s
perform_all h (op ∷ ops) s = perform_all h ops (perform h op s)

header-IsRing : (s : Store) (h : ℕ) → h ≢ 0 → IsRing (cg_list_header_init s h) h []
unfolding cg_list_header_init
header-IsRing s h h_0 = record {
  head_ne = h_0;
  head_flag = ground arith;
  node_ne = λ y i. absurd (cc);
  node_flag = λ y i. absurd (cc);
  distinct = (refl, tt);
  links = (ground arith, ground arith);
}

init-other : (s : Store) (x y : ℕ) → y ≢ x → cg_list_node_init s x y ≡ s y
unfolding cg_list_node_init
init-other s x y ne = ground arith

init-flag : (s : Store) (x : ℕ) → x ≢ 0 → (cg_list_node_init s x x).head_flag ≡ false
unfolding cg_list_node_init
init-flag s x ne = ground arith

init-IsRing :
    {s : Store} {h : ℕ} (x : ℕ) (xs : List ℕ)
    → IsRing s h xs
    → has x (h ∷ xs) ≡ false
    → IsRing (cg_list_node_init s x) h xs
init-IsRing {s} {h} x xs r out =
    IsRing-frame s (cg_list_node_init s x) h xs
      (λ y i. init-other s x y (λ e. absurd (ground arith))) r

-- a node of a list stands somewhere in it
find_split :
    (x : ℕ) (xs : List ℕ)
    → has x xs ≡ true
    → (front back : List ℕ) × (xs ≡ front ++ x ∷ back) × (erase x xs ≡ front ++ back)
find_split x [] i = absurd (cc)
find_split x (y ∷ xs) i = elim (Bool-cases (x == y)) [
  | inl hit ↦ ([], xs, ground arith, rw hit refl)
  | inr miss ↦
      let (front, back, e, e') = find_split x xs (ground arith) in
      (y ∷ front, back, ap (λ l. y ∷ l) e, rw miss (ap (λ l. y ∷ l) e'))
]

change-add :
    (h x : ℕ) (xs : List ℕ) {ys : List ℕ}
    → change h (add x) xs ≡ some ys
    → (x ≢ 0) × (has x (h ∷ xs) ≡ false) × (ys ≡ xs ++ x ∷ [])
change-add h x xs e = ground arith

change-remove :
    (h x : ℕ) (xs : List ℕ) {ys : List ℕ}
    → change h (remove x) xs ≡ some ys
    → (has x xs ≡ true) × (ys ≡ erase x xs)
change-remove h x xs e = ground arith

perform-IsRing :
    {s : Store} {h : ℕ} (op : Op) (xs : List ℕ) {ys : List ℕ}
    → IsRing s h xs
    → change h op xs ≡ some ys
    → IsRing (perform h op s) h ys
perform-IsRing {s} {h} (add x) xs {ys} r e =
    let (x_0, out, same) = change-add h x xs e in
    rw same (add-IsRing (init-IsRing x xs r out) x x_0 (init-flag s x x_0) out)
perform-IsRing {s} {h} (remove x) xs {ys} r e =
    let (there, same) = change-remove h x xs e in
    let (front, back, whole, cut) = find_split x xs there in
    let split : IsRing s h (front ++ x ∷ back) = rw (← whole) r in
    rw (same, cut) (remove-IsRing x front back split)

perform_all-IsRing :
    {h : ℕ} (s : Store) (ops : List Op) (xs : List ℕ) {ys : List ℕ}
    → IsRing s h xs
    → change_all h ops xs ≡ some ys
    → IsRing (perform_all h ops s) h ys
perform_all-IsRing {h} s [] xs {ys} r e = let same : xs ≡ ys = cc in rw (← same) r
perform_all-IsRing {h} s (op ∷ ops) xs {ys} r e = elim (Option-cases (change h op xs)) [
  | inl none_left ↦ absurd (let f : change_all h (op ∷ ops) xs ≡ none = rw none_left refl in cc)
  | inr (zs, left) ↦
      let f : change_all h (op ∷ ops) xs ≡ change_all h ops zs = rw left refl in
      perform_all-IsRing (perform h op s) ops zs (perform-IsRing op xs r left) (sym f ∙ e)
]

-- From any memory, after the initialisation of a header that is not NULL, any sequence of
-- operations that a list of distinct nodes allows - appending a node that is neither NULL, nor the
-- header, nor in the list, and removing a node of the list - leaves a ring that holds exactly the
-- nodes of that list in their order, linked forwards and backwards; cg_list_size ends and returns
-- their number, and cg_list_get returns the node at each index, or NULL behind the last.
pub perform_all-change_all :
    (s : Store) (h : ℕ) (ops : List Op) {xs : List ℕ}
    → h ≢ 0
    → change_all h ops [] ≡ some xs
    → IsRing (perform_all h ops (cg_list_header_init s h)) h xs
      × (cg_list_size (length xs + 1) (perform_all h ops (cg_list_header_init s h)) h
          ≡ some (length xs))
      × ((i : ℕ) → cg_list_get (perform_all h ops (cg_list_header_init s h)) h i ≡ get_or_null xs i)
perform_all-change_all s h ops {xs} h_0 e =
    let r = perform_all-IsRing (cg_list_header_init s h) ops [] (header-IsRing s h h_0) e in
    (r, size-length r (length xs + 1) (omega arith), get-IsRing r)
