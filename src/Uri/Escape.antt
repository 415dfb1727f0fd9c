-- ===== src/Uri/Escape.antt =====
-- The percent escapes of clinkc/src/cybergarage/net/curi.c, for builds without libcurl. A buffer
-- holds a text and its terminator, which is the byte 0. `retBuf` stands as its bytes, since a 0
-- may be appended to it; a buffer size below 1 stands as 0.
pub mod RoundTrip
use dlna.Prelude.{
  ℕ, zero, suc, ◌+◌, ◌-◌, ◌*◌, ◌/◌, ◌%◌, Bool, true, false, not, ◌&&◌, ◌||◌, Option, none, some, [],
  ◌∷◌, ◌++◌, Bytes, codes, length, take, get_elem?, ltb, leb, ◌==◌, if◌then◌else◌,
}
use dlna.Text.Search.{strstr}

unfoldable pub cg_net_uri_isalphanumchar : ℕ → Bool
cg_net_uri_isalphanumchar c =
    leb b'a' c && leb c b'z' || (leb b'A' c && leb c b'Z' || leb b'0' c && leb c b'9')

unfoldable pub is_in : ℕ → Bytes → Bool
is_in c [] = false
is_in c (d ∷ s) = c == d || is_in c s

unfoldable pub cg_net_uri_isreservedchar : ℕ → Bool
unfolding is_in
cg_net_uri_isreservedchar c = is_in c (codes ";/?:@&=+$,")

unfoldable pub cg_net_uri_isunreservedchar : ℕ → Bool
unfolding is_in cg_net_uri_isalphanumchar
cg_net_uri_isunreservedchar c = cg_net_uri_isalphanumchar c || is_in c (codes "-_.!~*^()")

unfoldable pub cg_net_uri_isescapechar : ℕ → Bool
unfolding cg_net_uri_isreservedchar cg_net_uri_isunreservedchar
cg_net_uri_isescapechar c = not (cg_net_uri_isreservedchar c) && not (cg_net_uri_isunreservedchar c)

unfoldable pub is_hex : ℕ → Bool
is_hex c = leb b'0' c && leb c b'9' || (leb b'a' c && leb c b'f' || leb b'A' c && leb c b'F')

-- a test of the byte at an index; the terminator, and nothing behind it, fails it
unfoldable pub passes : (ℕ → Bool) → Bytes → ℕ → Bool
passes test buf i = elim (get_elem? buf i) [ none ↦ false | some c ↦ test c ]

-- `bufSize`, or the length with the terminator in its place
unfoldable pub size_of : Bytes → ℕ → ℕ
size_of buf size = if ltb size 1 then length buf + 1 else size

unfoldable pub cg_net_uri_isescapedstring : Bytes → ℕ → Bool
unfolding passes size_of
cg_net_uri_isescapedstring buf size = elim (strstr buf (codes "%")) [
  | none ↦ false
  | some i ↦
      leb (i + 4) (size_of buf size) && (passes is_hex buf (i + 1) && passes is_hex buf (i + 2))
]

-- one digit of "%02X"
unfoldable pub hex_digit : ℕ → ℕ
hex_digit d = if ltb d 10 then b'0' + d else b'A' + (d - 10)

unfoldable pub escape_byte : ℕ → Bytes
unfolding cg_net_uri_isalphanumchar hex_digit
escape_byte c =
    if cg_net_uri_isalphanumchar c
    then c ∷ []
    else b'%' ∷ hex_digit (c / 16) ∷ hex_digit (c % 16) ∷ []

unfoldable pub escape_loop : Bytes → Bytes
unfolding escape_byte
escape_loop [] = []
escape_loop (c ∷ s) = escape_byte c ++ escape_loop s

-- The new content of `retBuf`; `none` is a read behind the terminator.
unfoldable pub cg_net_uri_escapestring : Bytes → ℕ → Bytes → Option Bytes
unfolding escape_loop size_of
cg_net_uri_escapestring buf size ret =
    if leb (size_of buf size) (length buf + 1)
    then some (ret ++ escape_loop (take (size_of buf size) (buf ++ 0 ∷ [])))
    else none

-- the value of a digit for `strtol` in base 16
unfoldable pub digit_value : ℕ → ℕ
digit_value c = if leb b'a' c then c - b'a' + 10 else if leb b'A' c then c - b'A' + 10 else c - b'0'

-- `strtol` of two letters or digits in base 16, which stops at the first that is no digit
unfoldable pub hex_value : ℕ → ℕ → ℕ
unfolding is_hex digit_value
hex_value d e =
    if is_hex d then if is_hex e then 16 * digit_value d + digit_value e else digit_value d else 0

-- the byte of an escape, for what stands behind its percent sign
unfoldable pub escape_of : Bytes → Option ℕ
unfolding cg_net_uri_isalphanumchar hex_value
escape_of [] = none
escape_of (d ∷ []) = none
escape_of (d ∷ e ∷ s) =
    if cg_net_uri_isalphanumchar d && cg_net_uri_isalphanumchar e
    then some (hex_value d e)
    else none

-- The loop, with the number of bytes left to the size, and of those that an escape has used up.
unfoldable pub unescape_loop : ℕ → ℕ → Bytes → Bytes
unfolding escape_of
unescape_loop left used [] = []
unescape_loop zero used (c ∷ s) = []
unescape_loop (suc left) (suc used) (c ∷ s) = unescape_loop left used s
unescape_loop (suc left) zero (c ∷ s) =
    let plain = unescape_loop left 0 s in
    let behind = unescape_loop left 2 s in
    if c == b'%' then elim (escape_of s) [ none ↦ c ∷ plain | some d ↦ d ∷ behind ] else c ∷ plain

-- The new content of `retBuf`, and the returned text.
unfoldable pub cg_net_uri_unescapestring : Bytes → ℕ → Bytes → Option (Bytes × Bytes)
unfolding cg_net_uri_isescapedstring unescape_loop size_of
cg_net_uri_unescapestring buf size ret =
    if cg_net_uri_isescapedstring buf size
    then some (ret, buf)
    else if leb (size_of buf size) (length buf + 1)
    then (let all = ret ++ unescape_loop (size_of buf size) 0 (buf ++ 0 ∷ []) in some (all, all))
    else none
