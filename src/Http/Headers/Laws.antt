-- ===== src/Http/Headers/Laws.antt =====
-- A header list is a map of names that are compared without case.
use dlna.Prelude.{
  ◌≡◌, refl, sym, ◌∙◌, Bool, true, false, none, some, List, [], ◌∷◌, ◌++◌, arith, Bytes, Bool-cases,
  Option-cases, inl, inr, if◌then◌else◌,
}
use dlna.Prelude.Int.{pos, eqb_ℤ}
use dlna.Text.{strcasecmp, cg_strcasecmp, cg_strcaseeq}
use dlna.Http.Headers.{
  HttpHeader, is_named, get, set_found, value_of, cg_http_header_setvalue, cg_http_headerlist_set,
  cg_http_headerlist_getvalue,
}

abbrev same : Bytes → Bytes → Bool
same a b = eqb_ℤ (strcasecmp a b) (pos 0)

same-cong : (k n m : Bytes) → same k n ≡ true → same k m ≡ same n m
unfolding strcasecmp
same-cong [] [] m h = refl
same-cong [] (y ∷ n) m h = absurd (cc)
same-cong (x ∷ k) [] m h = absurd (cc)
same-cong (x ∷ k) (y ∷ n) [] h = refl
same-cong (x ∷ k) (y ∷ n) (z ∷ m) h = ground (arith, same-cong k n m)

same_refl : (n : Bytes) → same n n ≡ true
unfolding strcasecmp
same_refl [] = refl
same_refl (x ∷ n) = ground (arith, same_refl n)

named_cong :
    (h : HttpHeader) (n m : Bytes) → is_named (some n) h ≡ true → is_named (some m) h ≡ same n m
unfolding is_named cg_strcasecmp
named_cong h n m e = elim (Option-cases h.name) [
  | inl null ↦ absurd (cc)
  | inr (k, is) ↦ rw is (same-cong k n m (rw is at e))
]

named_other :
    (h : HttpHeader) (n m : Bytes)
    → is_named (some n) h ≡ false
    → same n m ≡ true
    → is_named (some m) h ≡ false
named_other h n m miss s =
    let back : same m n ≡ true = sym (same-cong n m n s) ∙ same_refl n in
    elim (Bool-cases (is_named (some m) h)) [
      | inl hit ↦ absurd (let c = named_cong h m n hit in cc)
      | inr other ↦ other
    ]

-- the value behind a header that `n` does not name
skip :
    (h : HttpHeader) (n m v : Bytes) (front back : List HttpHeader)
    → is_named (some n) h ≡ false
    → value_of (get front (some m)) ≡ (if same n m then some v else value_of (get back (some m)))
    → value_of (get (h ∷ front) (some m))
      ≡ (if same n m then some v else value_of (get (h ∷ back) (some m)))
unfolding get
skip h n m v front back miss e = elim (Bool-cases (same n m)) [
  | inl s ↦ rw (s, named_other h n m miss s) (rw s at e)
  | inr d ↦ elim (Bool-cases (is_named (some m) h)) [
    | inl hit ↦ rw (d, hit) refl
    | inr other ↦ rw (d, other) (rw d at e)
  ]
]

set_header :
    (h : HttpHeader) (list : List HttpHeader) (n m v : Bytes)
    → is_named (some n) h ≡ true
    → value_of (get (cg_http_header_setvalue h (some v) ∷ list) (some m))
      ≡ (if same n m then some v else value_of (get (h ∷ list) (some m)))
unfolding get is_named cg_http_header_setvalue
set_header h list n m v hit =
    let c = named_cong h n m hit in
    let kept : is_named (some m) (cg_http_header_setvalue h (some v)) ≡ same n m =
      unfold cg_http_header_setvalue in c in
    elim (Bool-cases (same n m)) [ inl s ↦ rw (kept, s) refl | inr d ↦ rw (kept, d) refl ]

-- the header that a list has under a name when it is set
get-set_found :
    (list : List HttpHeader) (n m v : Bytes) {header : HttpHeader}
    → get list (some n) ≡ some header
    → value_of (get (set_found list (some n) (some v)) (some m))
      ≡ (if same n m then some v else value_of (get list (some m)))
unfolding get set_found
get-set_found [] n m v e = absurd (cc)
get-set_found (h ∷ list) n m v {header} e = elim (Bool-cases (is_named (some n) h)) [
  | inl hit ↦ rw hit (set_header h list n m v hit)
  | inr miss ↦ rw miss (
      skip h n m v (set_found list (some n) (some v)) list miss
        (get-set_found list n m v (rw miss at e)))
]

get-append :
    (list : List HttpHeader) (n m v : Bytes)
    → get list (some n) ≡ none
    → value_of (get (list ++ record { name = some n; value = some v } ∷ []) (some m))
      ≡ (if same n m then some v else value_of (get list (some m)))
unfolding get is_named cg_strcasecmp
get-append [] n m v e = ground arith
get-append (h ∷ list) n m v e = elim (Bool-cases (is_named (some n) h)) [
  | inl hit ↦ absurd (ground arith)
  | inr miss ↦
      skip h n m v (list ++ record { name = some n; value = some v } ∷ []) list miss
        (get-append list n m v (rw miss at e))
]

-- After a header has been set, its value is found under every spelling of its name that differs in
-- case only, and the values of all other headers are as before.
pub getvalue-set :
    (list : List HttpHeader) (n m v : Bytes)
    → cg_http_headerlist_getvalue (cg_http_headerlist_set list (some n) (some v)) (some m) ≡ (
        if cg_strcaseeq (some n) (some m)
        then some v
        else cg_http_headerlist_getvalue list (some m))
unfolding cg_http_headerlist_getvalue cg_http_headerlist_set cg_strcaseeq cg_strcasecmp
getvalue-set list n m v = elim (Option-cases (get list (some n))) [
  | inl new ↦ rw (cg_http_headerlist_set, new) (get-append list n m v new)
  | inr (header, old) ↦ rw (cg_http_headerlist_set, old) (get-set_found list n m v old)
]
