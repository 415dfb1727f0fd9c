-- ===== src/Text.antt =====
-- clinkc/src/cybergarage/util/cstring_function.c: the string helpers. A `char *` is `none` for NULL
-- and otherwise the bytes before the terminator. An index that is -1 when nothing is found is an
-- option.
pub mod Search
pub mod Trim
pub mod Decimal
pub mod Compare
pub mod Length
use dlna.Prelude.{
  ℕ, zero, suc, ◌-◌, Bool, false, ◌&&◌, Option, none, some, [], ◌∷◌, Bytes, length, ltb, leb, ◌==◌,
  if◌then◌else◌,
}
use dlna.Prelude.Int.{ℤ, pos, negsuc, eqb_ℤ}

abbrev pub CStr : Type 0
CStr = Option Bytes

-- the sign that `strcmp` promises; the terminator compares below every byte
unfoldable pub strcmp : Bytes → Bytes → ℤ
strcmp [] [] = pos 0
strcmp [] (y ∷ ys) = negsuc 0
strcmp (x ∷ xs) [] = pos 1
strcmp (x ∷ xs) (y ∷ ys) = if ltb x y then negsuc 0 else if ltb y x then pos 1 else strcmp xs ys

unfoldable pub strncmp : Bytes → Bytes → ℕ → ℤ
strncmp xs ys zero = pos 0
strncmp [] [] (suc n) = pos 0
strncmp [] (y ∷ ys) (suc n) = negsuc 0
strncmp (x ∷ xs) [] (suc n) = pos 1
strncmp (x ∷ xs) (y ∷ ys) (suc n) =
    if ltb x y then negsuc 0 else if ltb y x then pos 1 else strncmp xs ys n

-- `toupper` in the C locale
unfoldable pub toupper : ℕ → ℕ
toupper c = if leb b'a' c && leb c b'z' then c - 32 else c

unfoldable pub strcasecmp : Bytes → Bytes → ℤ
strcasecmp [] [] = pos 0
strcasecmp [] (y ∷ ys) = negsuc 0
strcasecmp (x ∷ xs) [] = pos 1
strcasecmp (x ∷ xs) (y ∷ ys) =
    if ltb (toupper x) (toupper y)
    then negsuc 0
    else if ltb (toupper y) (toupper x)
    then pos 1
    else strcasecmp xs ys

-- `strlen` of a buffer, which may hold a byte 0 in front of its terminator
unfoldable pub strlen : Bytes → ℕ
strlen [] = 0
strlen (c ∷ s) = let rest = strlen s in if c == 0 then 0 else suc rest

unfoldable pub cg_strlen : CStr → ℕ
cg_strlen none = 0
cg_strlen (some s) = length s

unfoldable pub cg_strcmp : CStr → CStr → ℤ
cg_strcmp none b = negsuc 0
cg_strcmp (some a) none = pos 1
cg_strcmp (some a) (some b) = strcmp a b

unfoldable pub cg_strncmp : CStr → CStr → ℕ → ℤ
cg_strncmp none b n = negsuc 0
cg_strncmp (some a) none n = pos 1
cg_strncmp (some a) (some b) n = strncmp a b n

unfoldable pub cg_strcasecmp : CStr → CStr → ℤ
cg_strcasecmp none b = negsuc 0
cg_strcasecmp (some a) none = negsuc 0
cg_strcasecmp (some a) (some b) = strcasecmp a b

unfoldable pub cg_streq : CStr → CStr → Bool
cg_streq none b = false
cg_streq (some a) none = false
cg_streq (some a) (some b) = eqb_ℤ (cg_strcmp (some a) (some b)) (pos 0)

unfoldable pub cg_strcaseeq : CStr → CStr → Bool
cg_strcaseeq none b = false
cg_strcaseeq (some a) none = false
cg_strcaseeq (some a) (some b) = eqb_ℤ (cg_strcasecmp (some a) (some b)) (pos 0)
