-- ===== src/Text/Search.antt =====
-- `cg_strstr`, `cg_strchr` and `cg_strrchr` of clinkc/src/cybergarage/util/cstring_function.c.
pub mod Find
use mathlib.Core.Option
use dlna.Prelude.{
  ℕ, zero, suc, ◌-◌, Bool, true, false, ◌&&◌, ◌||◌, Option, none, some, [], ◌∷◌, Bytes, length,
  take, ◌==◌, if◌then◌else◌,
}
use dlna.Text.{CStr}

unfoldable pub is_prefix : Bytes → Bytes → Bool
is_prefix [] s = true
is_prefix (x ∷ p) [] = false
is_prefix (x ∷ p) (y ∷ s) = x == y && is_prefix p s

-- the C library's `strstr`, as the offset of the result
unfoldable pub strstr : Bytes → Bytes → Option ℕ
strstr [] needle = if is_prefix needle [] then some 0 else none
strstr (x ∷ s) needle =
    if is_prefix needle (x ∷ s) then some 0 else Option.map suc (strstr s needle)

unfoldable pub cg_strstr : CStr → CStr → Option ℕ
cg_strstr none needle = none
cg_strstr (some s) none = none
cg_strstr (some s) (some needle) = strstr s needle

-- the inner loop: is the byte among the first `nchars` of `chars`?
unfoldable pub is_one_of : ℕ → Bytes → ℕ → Bool
is_one_of c chars zero = false
is_one_of c [] (suc n) = false
is_one_of c (d ∷ chars) (suc n) = c == d || is_one_of c chars n

unfoldable pub strchr : Bytes → Bytes → ℕ → Option ℕ
strchr [] chars n = none
strchr (c ∷ s) chars n = if is_one_of c chars n then some 0 else Option.map suc (strchr s chars n)

unfoldable pub cg_strchr : CStr → CStr → ℕ → Option ℕ
cg_strchr none chars n = none
cg_strchr (some s) none n = none
cg_strchr (some s) (some chars) n = strchr s chars n

-- the later of two finds
later : Option ℕ → Bool → Option ℕ
later (some i) here = some (suc i)
later none true = some 0
later none false = none

-- the loop from the last byte down returns the last find
unfoldable pub strrchr : Bytes → Bytes → ℕ → Option ℕ
unfolding later
strrchr [] chars n = none
strrchr (c ∷ s) chars n = later (strrchr s chars n) (is_one_of c chars n)

unfoldable pub cg_strrchr : CStr → CStr → ℕ → Option ℕ
cg_strrchr none chars n = none
cg_strrchr (some s) none n = none
cg_strrchr (some s) (some chars) n = strrchr s chars n
