-- ===== src/Str/Value.antt =====
-- The text of a `CgString` of clinkc/src/cybergarage/util/cstring.c, as its callers see it.
use dlna.Prelude.{
  ℕ, zero, suc, ◌+◌, ◌≤◌, ◌≡◌, ◌≢◌, refl, ap, sym, ◌∙◌, true, false, none, some, [], ◌++◌, arith,
  Bytes, length, take, length-append, length-take_of_le, ◌==◌, take-all, append-nil, append_assoc,
  ◌∷◌,
}
use dlna.Text.{CStr, strlen}
use dlna.Text.Length.{strlen-le, take-strlen}
use dlna.Text.Search.Find.{Lacks}
use dlna.Str.{
  Memory, CgString, realloc_extra, cg_string_setvalue, cg_string_setnvalue, cg_string_naddvalue,
  grow, kept, cg_string_addvalue, cg_string_addrepvalue,
}

-- the bytes of the string; a NULL value has none
abbrev pub text_of : CStr → Bytes
text_of none = []
text_of (some b) = b

abbrev pub text : CgString → Bytes
text str = text_of str.value

-- The sizes belong to the value.
abbrev pub Agrees : CStr → ℕ → Type 0
Agrees none value_size = value_size ≡ 0
Agrees (some b) value_size = length b ≡ value_size

abbrev pub IsValid : CgString → Type 0
IsValid str = Agrees str.value str.value_size

abbrev pub Succeeds : Memory → Type 0
Succeeds mem = (n : ℕ) → mem.alloc n ≡ true

length_zero : (b : Bytes) → length b ≡ 0 → b ≡ []
length_zero [] h = refl
length_zero (x ∷ b) h = absurd (omega arith)

module _ (mem : Memory) where
  -- In a valid string the old bytes are its text.
  pub kept-text : (str : CgString) → IsValid str → kept mem str ≡ text str
  unfolding kept
  kept-text str h = go str.value refl
    where
      go :
          (v : CStr)
          → str.value ≡ v
          → (elim str.value [ none ↦ mem.fresh str.value_size | some b ↦ b ]) ≡ text str
      go none e = rw e (length_zero _ (mem.length-fresh str.value_size ∙ rw e at h))
      go (some b) e = rw e

  module _ (ok : Succeeds mem) where
    grow-text :
        (str : CgString) (s : Bytes) (len : ℕ)
        → (grow mem str s len).0.value ≡ some (kept mem str ++ take len s)
    unfolding grow kept
    grow-text str s len = ground (arith, ok (str.value_size + len + 1 + realloc_extra))

    grow-size :
        (str : CgString) (s : Bytes) (len : ℕ)
        → (grow mem str s len).0.value_size ≡ str.value_size + len
    unfolding grow
    grow-size str s len = ground (arith, ok (str.value_size + len + 1 + realloc_extra))

    naddvalue-grow :
        (str : CgString) (s : Bytes) (len : ℕ)
        → cg_string_naddvalue mem str (some s) (suc len) ≡ grow mem str s (suc len)
    unfolding cg_string_naddvalue
    naddvalue-grow str s len = let more : (suc len == 0) ≡ false = ground arith in rw more

    -- Where allocations succeed, appending the first len bytes of a text to a valid string yields
    -- the old text followed by those bytes.
    pub naddvalue-text :
        (str : CgString) (s : Bytes) (len : ℕ)
        → IsValid str
        → text (cg_string_naddvalue mem str (some s) len).0 ≡ text str ++ take len s
    naddvalue-text str s zero h = unfold cg_string_naddvalue in sym (append-nil (text str))
    naddvalue-text str s (suc len) h =
        ap (λ (r : CgString × CStr). text r.0) (naddvalue-grow str s len)
        ∙ ap text_of (grow-text str s (suc len))
        ∙ ap (λ b. b ++ take (suc len) s) (kept-text str h)

    grow-IsValid :
        (str : CgString) (s : Bytes) (len : ℕ)
        → IsValid str
        → len ≤ length s
        → IsValid (grow mem str s len).0
    grow-IsValid str s len h p = agrees (grow mem str s len).0 (grow-text str s len) (
        grow-size str s len
        ∙ omega (
          arith,
          length-append (kept mem str) (take len s),
          length-take_of_le len s,
          length-kept,
        ))
      where
        length-text : (v : CStr) (n : ℕ) → Agrees v n → length (text_of v) ≡ n
        length-text none n e = sym e
        length-text (some b) n e = e

        length-kept : length (kept mem str) ≡ str.value_size
        length-kept = ap length (kept-text str h) ∙ length-text str.value str.value_size h

        agrees : (r : CgString) {b : Bytes} → r.value ≡ some b → r.value_size ≡ length b → IsValid r
        agrees r e n = rw e (sym n)

    pub naddvalue-IsValid :
        (str : CgString) (s : Bytes) (len : ℕ)
        → IsValid str
        → len ≤ length s
        → IsValid (cg_string_naddvalue mem str (some s) len).0
    naddvalue-IsValid str s zero h p = unfold cg_string_naddvalue in h
    naddvalue-IsValid str s (suc len) h p =
        rw (naddvalue-grow str s len) (grow-IsValid str s (suc len) h p)

    -- `cg_string_addvalue` appends a text without a byte 0; NULL appends nothing.
    pub addvalue-text :
        (str : CgString) (v : CStr)
        → IsValid str
        → Lacks 0 (text_of v)
        → text (cg_string_addvalue mem str v).0 ≡ text str ++ text_of v
    unfolding cg_string_addvalue
    addvalue-text str none h lacks = sym (append-nil (text str))
    addvalue-text str (some s) h lacks =
        naddvalue-text str s (strlen s) h ∙ ap (λ t. text str ++ t) (take-strlen s lacks)

    pub addvalue-IsValid :
        (str : CgString) (v : CStr) → IsValid str → IsValid (cg_string_addvalue mem str v).0
    unfolding cg_string_addvalue
    addvalue-IsValid str none h = h
    addvalue-IsValid str (some s) h = naddvalue-IsValid str s (strlen s) h (strlen-le s)

    -- Setting a text without a byte 0 replaces the old one.
    pub setvalue-text :
        (str : CgString) (s : Bytes)
        → Lacks 0 s
        → (cg_string_setvalue mem str (some s)).value ≡ some s
    unfolding cg_string_setvalue
    setvalue-text str s lacks = rw (ok (strlen s + 1)) (ap some (take-strlen s lacks))

    pub setvalue-IsValid :
        (str : CgString) (v : CStr) → IsValid str → IsValid (cg_string_setvalue mem str v)
    unfolding cg_string_setvalue
    setvalue-IsValid str none h = h
    setvalue-IsValid str (some s) h =
        rw (ok (strlen s + 1)) (omega (arith, length-take_of_le (strlen s) s, strlen-le s))

    -- `n` copies of a text, in a row
    abbrev pub copies : ℕ → Bytes → Bytes
    copies zero s = []
    copies (suc n) s = s ++ copies n s

    -- Where allocations succeed, cg_string_addrepvalue returns the old text of a valid string
    -- followed by the given text, which holds no byte 0, as often as asked; NULL counts as the
    -- empty text.
    pub addrepvalue-text :
        (n : ℕ) (str : CgString) (v : CStr)
        → IsValid str
        → Lacks 0 (text_of v)
        → text_of (cg_string_addrepvalue mem str v n).1 ≡ text str ++ copies n (text_of v)
    unfolding cg_string_addrepvalue
    addrepvalue-text zero str v h lacks = sym (append-nil (text str))
    addrepvalue-text (suc n) str v h lacks =
        let str' = (cg_string_addvalue mem str v).0 in
        addrepvalue-text n str' v (addvalue-IsValid str v h) lacks
        ∙ ap (λ t. t ++ copies n (text_of v)) (addvalue-text str v h lacks)
        ∙ append_assoc (text str) (text_of v) (copies n (text_of v))

  -- A cg_string_setnvalue that gets no memory leaves NULL behind with the size of the lost text; a
  -- later append of bytes that are not empty, which does get memory, puts as many bytes of unset
  -- memory in front of them.
  pub naddvalue_after_failure :
      (str : CgString) (s t : Bytes)
      → mem.alloc (length s + 1) ≡ false
      → mem.alloc (length s + length t + 1 + realloc_extra) ≡ true
      → t ≢ []
      → (cg_string_naddvalue mem
          (cg_string_setnvalue mem str (some s) (length s))
          (some t)
          (length t)).0.value
        ≡ some (mem.fresh (length s) ++ t)
  unfolding cg_string_naddvalue cg_string_setnvalue kept
  naddvalue_after_failure str s [] lost got ne = absurd (ne refl)
  naddvalue_after_failure str s (x ∷ t) lost got ne =
      let all = take-all (length (x ∷ t)) (x ∷ t) (omega arith) in ground arith
