-- ===== src/Dictionary/Laws.antt =====
-- A dictionary is a map from keys that are not empty.
use dlna.Prelude.{
  ◌<◌, ◌≡◌, refl, ap, sym, ◌∙◌, Bool, true, false, ◌&&◌, none, some, List, [], ◌∷◌, ◌++◌, arith,
  Bytes, Bool-cases, Option-cases, inl, inr, if◌then◌else◌, length, ltb,
}
use dlna.Text.{CStr, cg_strlen, cg_streq}
use dlna.Text.Compare.{cg_streq_iff}
use dlna.Dictionary.{
  CgDictionaryElement, has_key, find_key, change_found, set_element, store,
  cg_dictionary_element_new, element_value, cg_dictionary_element_setkey,
  cg_dictionary_element_setvalue, cg_dictionary_getelement, cg_dictionary_setvalue,
  cg_dictionary_getvalue,
}

abbrev same : Bytes → Bytes → Bool
same n m = cg_streq (some n) (some m)

long_key : (n : Bytes) → 0 < length n → ltb 0 (cg_strlen (some n)) ≡ true
unfolding cg_strlen
long_key n lt = ground arith

-- what an element with the key `n` answers to `m`
has_key-some :
    (h : CgDictionaryElement) (n m : Bytes)
    → 0 < length n
    → h.key ≡ some n
    → has_key (some m) h ≡ same n m
unfolding has_key
has_key-some h n m lt e = rw (has_key, e, long_key n lt) refl

and_right : (a b : Bool) → (a && b) ≡ true → b ≡ true
and_right true b h = h
and_right false b h = absurd (cc)

same-equal : (n m : Bytes) → same n m ≡ true → n ≡ m
same-equal n m h = let (s, p, q) = (cg_streq_iff (some n) (some m)).0 h in cc

same_refl : (n : Bytes) → same n n ≡ true
same_refl n = (cg_streq_iff (some n) (some n)).1 (n, refl, refl)

key_of : (h : CgDictionaryElement) (n : Bytes) → has_key (some n) h ≡ true → h.key ≡ some n
unfolding has_key
key_of h n hit =
    let equal = and_right (ltb 0 (cg_strlen h.key)) (cg_streq h.key (some n)) hit in
    let (s, p, q) = (cg_streq_iff h.key (some n)).0 equal in p ∙ sym q

-- An element with one key has no other.
one_key :
    (h : CgDictionaryElement) (n m : Bytes)
    → has_key (some n) h ≡ false
    → has_key (some m) h ≡ true
    → same n m ≡ false
one_key h n m miss hit = elim (Bool-cases (same n m)) [
  | inl e ↦ let equal : has_key (some n) h ≡ true = rw (same-equal n m e) hit in absurd (cc)
  | inr d ↦ d
]

-- the value under `m` behind an element without the key `n`
skip :
    (h : CgDictionaryElement) (n m v : Bytes) (front back : List CgDictionaryElement)
    → has_key (some n) h ≡ false
    → element_value (find_key front (some m))
      ≡ (if same n m then some v else element_value (find_key back (some m)))
    → element_value (find_key (h ∷ front) (some m))
      ≡ (if same n m then some v else element_value (find_key (h ∷ back) (some m)))
unfolding find_key
skip h n m v front back miss e = elim (Bool-cases (has_key (some m) h)) [
  | inl hit ↦ rw (one_key h n m miss hit, hit) refl
  | inr other ↦ rw (find_key, other) e
]

set_element-key :
    (h : CgDictionaryElement) (n v : Bytes) → (set_element h (some n) (some v)).key ≡ some n
unfolding cg_dictionary_element_setkey cg_dictionary_element_setvalue
set_element-key h n v = refl

set_element-value :
    (h : CgDictionaryElement) (n v : Bytes) → (set_element h (some n) (some v)).value ≡ some v
unfolding cg_dictionary_element_setkey cg_dictionary_element_setvalue
set_element-value h n v = refl

getelement-find :
    (dir : List CgDictionaryElement) (n : Bytes)
    → 0 < length n
    → cg_dictionary_getelement dir (some n) ≡ find_key dir (some n)
unfolding cg_dictionary_getelement
getelement-find dir n lt = ap (λ b. if b then find_key dir (some n) else none) (long_key n lt)

module _ (n m v : Bytes) (long : 0 < length n) where
  -- an element that now has the key, in front of others
  at_set :
      (h : CgDictionaryElement) (dir : List CgDictionaryElement) (before : CStr)
      → (same n m ≡ false → element_value (find_key dir (some m)) ≡ before)
      → element_value (find_key (set_element h (some n) (some v) ∷ dir) (some m))
        ≡ (if same n m then some v else before)
  unfolding find_key
  at_set h dir before rest =
      let key = has_key-some (set_element h (some n) (some v)) n m long (set_element-key h n v) in
      elim (Bool-cases (same n m)) [
        | inl e ↦ rw (find_key, key, e) (set_element-value h n v)
        | inr d ↦ rw (find_key, key, d) (rest d)
      ]

  find-change_found :
      (dir : List CgDictionaryElement) {elem : CgDictionaryElement}
      → find_key dir (some n) ≡ some elem
      → element_value (find_key (change_found dir (some n) (some v)) (some m))
        ≡ (if same n m then some v else element_value (find_key dir (some m)))
  unfolding find_key change_found
  find-change_found [] e = absurd (cc)
  find-change_found (h ∷ dir) {elem} e = elim (Bool-cases (has_key (some n) h)) [
    | inl hit ↦
        rw (change_found, hit)
          (at_set h dir (element_value (find_key (h ∷ dir) (some m))) (λ d.
            let other = has_key-some h n m long (key_of h n hit) ∙ d in rw (find_key, other) refl))
    | inr miss ↦
        rw (change_found, miss)
          (skip h n m v (change_found dir (some n) (some v)) dir miss
            (find-change_found dir (rw (find_key, miss) at e)))
  ]

  find-append :
      (dir : List CgDictionaryElement) (h : CgDictionaryElement)
      → find_key dir (some n) ≡ none
      → element_value (find_key (dir ++ set_element h (some n) (some v) ∷ []) (some m))
        ≡ (if same n m then some v else element_value (find_key dir (some m)))
  unfolding find_key
  find-append [] h e = at_set h [] none (λ d. refl)
  find-append (x ∷ dir) h e = elim (Bool-cases (has_key (some n) x)) [
    | inl hit ↦
        absurd (let found : find_key (x ∷ dir) (some n) ≡ some x = rw (find_key, hit) refl in cc)
    | inr miss ↦
        skip x n m v (dir ++ set_element h (some n) (some v) ∷ []) dir miss
          (find-append dir h (rw (find_key, miss) at e))
  ]

  -- After a value has been set under a key that is not empty, cg_dictionary_getvalue returns it
  -- under this key, and under every other key that is not empty it returns what it returned
  -- before.
  pub getvalue-setvalue :
      (dir : List CgDictionaryElement)
      → 0 < length m
      → cg_dictionary_getvalue (cg_dictionary_setvalue dir (some n) (some v)) (some m)
        ≡ (if same n m then some v else cg_dictionary_getvalue dir (some m))
  unfolding cg_dictionary_getvalue cg_dictionary_setvalue store
  getvalue-setvalue dir m_long =
      let kept = ap element_value (getelement-find dir m m_long) in
      elim (Option-cases (find_key dir (some n))) [
        | inl e ↦
            let set_is : cg_dictionary_setvalue dir (some n) (some v)
                ≡ dir ++ set_element cg_dictionary_element_new (some n) (some v) ∷ [] =
              ap (λ o. store o dir (some n) (some v)) (getelement-find dir n long ∙ e) in
            ap (λ l. cg_dictionary_getvalue l (some m)) set_is
            ∙ ap element_value (getelement-find _ m m_long)
            ∙ find-append dir cg_dictionary_element_new e
            ∙ ap (λ w. if same n m then some v else w) (sym kept)
        | inr (h, e) ↦
            let set_is : cg_dictionary_setvalue dir (some n) (some v)
                ≡ change_found dir (some n) (some v) =
              ap (λ o. store o dir (some n) (some v)) (getelement-find dir n long ∙ e) in
            ap (λ l. cg_dictionary_getvalue l (some m)) set_is
            ∙ ap element_value (getelement-find _ m m_long)
            ∙ find-change_found dir e
            ∙ ap (λ w. if same n m then some v else w) (sym kept)
      ]
