-- ===== src/Text/Trim.antt =====
-- `cg_strtrimwhite`, `cg_strltrim`, `cg_strrtrim` and `cg_strtrim` of
-- clinkc/src/cybergarage/util/cstring_function.c. A write of a terminator cuts the bytes off there.
pub mod Laws
pub mod White
pub mod Core
use dlna.Prelude.{
  ℕ, zero, suc, ◌+◌, ◌-◌, Bool, true, false, ◌&&◌, ◌||◌, Option, none, some, [], ◌∷◌, ◌++◌, Bytes,
  length, take, drop, get_elem?, leb, ◌==◌, if◌then◌else◌,
}
use dlna.Text.{CStr}
use dlna.Text.Search.{is_one_of}

-- `isspace` in the C locale
unfoldable pub isspace : ℕ → Bool
isspace c = c == 32 || leb 9 c && leb c 13

-- the first loop: `strLen` falls by one for every space, wherever it stands
unfoldable pub count_space : Bytes → ℕ
count_space [] = 0
count_space (c ∷ s) = if isspace c then suc (count_space s) else count_space s

-- the second loop: the spaces in front, among the first `n` bytes
unfoldable pub leading_space : ℕ → Bytes → ℕ
leading_space zero s = 0
leading_space (suc n) [] = 0
leading_space (suc n) (c ∷ s) = if isspace c then suc (leading_space n s) else 0

-- `memmove(str, str + i, n - i)` over a buffer that begins with `s`, then `str[n] = 0`
unfoldable pub strtrimwhite : Bytes → Bytes
unfolding count_space leading_space isspace
strtrimwhite [] = []
strtrimwhite (c ∷ s) =
    let n = length (c ∷ s) - count_space (c ∷ s) in
    let i = leading_space n (c ∷ s) in
    take n (take (n - i) (drop i (c ∷ s)) ++ drop (n - i) (c ∷ s))

unfoldable pub strltrim : Bytes → Bytes → ℕ → Bytes
strltrim [] delim n = []
strltrim (c ∷ s) delim n = if is_one_of c delim n then strltrim s delim n else c ∷ s

-- the loop at index `i - 1`, going down
unfoldable pub rtrim_from : ℕ → Bytes → Bytes → ℕ → Bytes
rtrim_from zero s delim n = s
rtrim_from (suc i) s delim n = elim (get_elem? s i) [
  | none ↦ s
  | some c ↦
      let shorter = rtrim_from i (take i s) delim n in if is_one_of c delim n then shorter else s
]

unfoldable pub strrtrim : Bytes → Bytes → ℕ → Bytes
unfolding rtrim_from
strrtrim s delim n = rtrim_from (length s) s delim n

unfoldable pub cg_strtrim : CStr → CStr → ℕ → CStr
unfolding strltrim strrtrim
cg_strtrim none delim n = none
cg_strtrim (some s) none n = none
cg_strtrim (some s) (some delim) n = some (strltrim (strrtrim s delim n) delim n)
