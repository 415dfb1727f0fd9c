-- ===== src/Uri/BasePath.antt =====
-- `cg_net_uri_getupnpbasepath` of clinkc/src/cybergarage/net/curi.c: the path of a description's
-- location without its last part. The argument stands as its path.
use dlna.Prelude.{
  ℕ, zero, suc, ◌+◌, ◌≤◌, ◌<◌, ◌≡◌, ◌≢◌, refl, ap, sym, ◌∙◌, false, none, some, [], ◌∷◌, ◌++◌,
  append_assoc, arith, Bytes, length, take, get_elem?, take-length_append, length-append, ◌==◌,
  if◌then◌else◌,
}
use dlna.Text.{CStr}
use dlna.Text.Search.Find.{Lacks}
use dlna.Uri.Escape.RoundTrip.{get_elem?-append}

-- the loop at index `i - 1`, going down
unfoldable base_from : ℕ → Bytes → Bytes
base_from zero s = s
base_from (suc i) s = elim (get_elem? s i) [
  | none ↦ s
  | some c ↦ let lower = base_from i s in if c == b'/' then take (suc i) s else lower
]

unfoldable pub cg_net_uri_getupnpbasepath : CStr → CStr
unfolding base_from
cg_net_uri_getupnpbasepath none = none
cg_net_uri_getupnpbasepath (some []) = none
cg_net_uri_getupnpbasepath (some (c ∷ s)) = some (base_from (length (c ∷ s)) (c ∷ s))

get_elem-Lacks :
    (s : Bytes) (b j : ℕ) → Lacks b s → j < length s → (c : ℕ) × (get_elem? s j ≡ some c) × (c ≢ b)
get_elem-Lacks [] b j h lt = absurd (omega arith)
get_elem-Lacks (x ∷ s) b zero (ne, h) lt = (x, refl, ne)
get_elem-Lacks (x ∷ s) b (suc j) (ne, h) lt = get_elem-Lacks s b j h (omega arith)

base_from-slash :
    (i : ℕ) (s : Bytes) → get_elem? s i ≡ some b'/' → base_from (suc i) s ≡ take (suc i) s
unfolding base_from
base_from-slash i s e = rw (base_from, e) refl

base_from-other :
    (i c : ℕ) (s : Bytes) → get_elem? s i ≡ some c → c ≢ b'/' → base_from (suc i) s ≡ base_from i s
unfolding base_from
base_from-other i c s e ne =
    let other : (c == b'/') ≡ false = ground arith in rw (base_from, e, other) refl

module _ (dir file : Bytes) (lacks : Lacks b'/' file) where
  abbrev whole : Bytes
  whole = dir ++ b'/' ∷ file

  take-dir : (n : ℕ) → n ≡ length (dir ++ b'/' ∷ []) → take n whole ≡ dir ++ b'/' ∷ []
  take-dir n e =
      ap (λ m. take m whole) e
      ∙ ap (take (length (dir ++ b'/' ∷ []))) (sym (append_assoc dir (b'/' ∷ []) file))
      ∙ take-length_append (dir ++ b'/' ∷ []) file

  -- the loop from the byte behind the first `k` of the file down
  base_from-file :
      (k : ℕ) → k ≤ length file → base_from (suc (length dir + k)) whole ≡ dir ++ b'/' ∷ []
  base_from-file zero h =
      base_from-slash (length dir + 0) whole (get_elem?-append dir (b'/' ∷ file) 0)
      ∙ take-dir (suc (length dir + 0)) (omega (arith, length-append dir (b'/' ∷ [])))
  base_from-file (suc k) h =
      let (c, e, ne) = get_elem-Lacks file b'/' k lacks (omega arith) in
      let down : length dir + suc k ≡ suc (length dir + k) = omega arith in
      base_from-other (length dir + suc k) c whole (get_elem?-append dir (b'/' ∷ file) (suc k) ∙ e)
        ne
      ∙ ap (λ i. base_from i whole) down
      ∙ base_from-file k (omega arith)

  from_end : base_from (length whole) whole ≡ dir ++ b'/' ∷ []
  from_end =
      let all : length whole ≡ suc (length dir + length file) =
        omega (arith, length-append dir (b'/' ∷ file)) in
      ap (λ i. base_from i whole) all ∙ base_from-file (length file) (omega arith)

-- The base path of a path is all of it up to its last slash, which is kept.
pub getupnpbasepath-file :
    (dir file : Bytes)
    → Lacks b'/' file
    → cg_net_uri_getupnpbasepath (some (dir ++ b'/' ∷ file)) ≡ some (dir ++ b'/' ∷ [])
unfolding cg_net_uri_getupnpbasepath
getupnpbasepath-file [] file h = ap some (from_end [] file h)
getupnpbasepath-file (c ∷ dir) file h = ap some (from_end (c ∷ dir) file h)
