-- ===== src/Text/Decimal.antt =====
-- `cg_int2str` and `cg_long2str` of clinkc/src/cybergarage/util/cstring_function.c (`snprintf` with
-- "%d" and "%ld"), and the C library's `atoi` and `atol`, which the macros `cg_str2int` and
-- `cg_str2long` of clinkc/include/cybergarage/util/cstring.h call. `atoi` and `cg_str2long` are the
-- number that the text spells; `to_long` and `to_int` are what the types of C hold of it.
pub mod RoundTrip
use dlna.Prelude.{
  ℕ, zero, suc, ◌+◌, ◌-◌, ◌*◌, ◌/◌, ◌%◌, ◌^◌, Bool, true, false, ◌&&◌, none, some, [], ◌∷◌, Bytes,
  length, take, ltb, leb, ◌==◌, if◌then◌else◌,
}
use dlna.Prelude.Int.{ℤ, pos, negsuc, neg}
use dlna.Text.{CStr}
use dlna.Text.Trim.{isspace}

-- the decimal digits of `n` in front of `out`; more fuel than digits is enough
unfoldable pub digits : ℕ → ℕ → Bytes → Bytes
digits zero n out = out
digits (suc fuel) n out =
    let rest = digits fuel (n / 10) ((b'0' + n % 10) ∷ out) in
    if ltb n 10 then (b'0' + n) ∷ out else rest

unfoldable pub print_int : ℤ → Bytes
unfolding digits
print_int (pos n) = digits (n + 1) n []
print_int (negsuc n) = b'-' ∷ digits (n + 2) (n + 1) []

-- `snprintf` writes at most `buf_size - 1` bytes
unfoldable pub cg_int2str : ℤ → ℕ → Bytes
unfolding print_int
cg_int2str value buf_size = take (buf_size - 1) (print_int value)

unfoldable pub cg_long2str : ℤ → ℕ → Bytes
unfolding print_int
cg_long2str value buf_size = take (buf_size - 1) (print_int value)

unfoldable pub is_digit : ℕ → Bool
is_digit c = leb b'0' c && leb c b'9'

-- the number that the leading digits spell behind `n`
unfoldable pub scan : ℕ → Bytes → ℕ
unfolding is_digit
scan n [] = n
scan n (c ∷ s) = if is_digit c then scan (n * 10 + (c - b'0')) s else n

-- an optional sign and digits
unfoldable pub signed : Bytes → ℤ
unfolding scan
signed [] = pos 0
signed (c ∷ s) =
    if c == b'-' then neg (scan 0 s) else if c == b'+' then pos (scan 0 s) else pos (scan 0 (c ∷ s))

unfoldable pub atoi : Bytes → ℤ
unfolding signed isspace
atoi [] = signed []
atoi (c ∷ s) = if isspace c then atoi s else signed (c ∷ s)

-- the macro tests the pointer first
unfoldable pub cg_str2long : CStr → ℤ
unfolding atoi
cg_str2long none = pos 0
cg_str2long (some s) = atoi s

-- What a `long` of 64 bits holds of a number that a text spells: `atol` is `strtol`, which answers
-- with the nearest `long`.
unfoldable pub to_long : ℤ → ℤ
to_long (pos n) = if ltb n (2 ^ 63) then pos n else pos (2 ^ 63 - 1)
to_long (negsuc n) = if ltb n (2 ^ 63) then negsuc n else negsuc (2 ^ 63 - 1)

-- A `long` stored in an `int` of 32 bits keeps its lower bits.
unfoldable pub to_int : ℤ → ℤ
to_int (pos n) =
    let low = n % 2 ^ 32 in if ltb low (2 ^ 31) then pos low else negsuc (2 ^ 32 - 1 - low)
to_int (negsuc n) =
    let low = n % 2 ^ 32 in if ltb low (2 ^ 31) then negsuc low else pos (2 ^ 32 - 1 - low)

-- CG_STRING_INTEGER_BUFLEN and CG_STRING_LONG_BUFLEN
abbrev pub integer_buflen : ℕ
integer_buflen = 16

abbrev pub long_buflen : ℕ
long_buflen = 32
