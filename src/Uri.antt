-- ===== src/Uri.antt =====
-- clinkc/src/cybergarage/net/curi.c: parsing, printing and escaping of URIs. The strings of a URI
-- stand as their texts (Str.Value shows what the string functions do to those); a text is never
-- NULL when it is set. `Option` marks what C leaves undefined: `none` is a read outside a buffer,
-- or a copy of -1 bytes.
pub mod Escape
pub mod Printing
pub mod BasePath
pub mod Address
pub mod Resource
pub mod Parts
pub mod Parse
pub mod Rebuild
pub mod Faults
use dlna.Prelude.{
  ℕ, zero, suc, ◌+◌, ◌-◌, Bool, true, false, not, ◌&&◌, Option, none, some, [], ◌∷◌, ◌++◌, Bytes,
  codes, length, take, drop, get_elem?, ltb, leb, ◌==◌, if◌then◌else◌,
}
use dlna.Prelude.Int.{ℤ, pos, negsuc, neg, eqb_ℤ}
use dlna.Text.{CStr, cg_strlen, cg_strcmp}
use dlna.Text.Search.{cg_strstr, cg_strchr, cg_strrchr}
use dlna.Text.Decimal.{atoi, to_int, to_long, cg_int2str}
use dlna.Str.Value.{text_of}

pub record CgNetUri : Type 0 where
  pub uri : CStr
  pub protocol : CStr
  pub user : CStr
  pub password : CStr
  pub host : CStr
  pub port : ℤ
  pub path : CStr
  pub query : CStr
  pub fragment : CStr
  pub request : CStr

-- CG_NET_URI_KNKOWN_PORT
abbrev pub unknown_port : ℤ
unknown_port = negsuc 0

-- the state that `cg_net_uri_clear` leaves
abbrev pub cleared : CgNetUri
cleared = record {
  uri = none;
  protocol = none;
  user = none;
  password = none;
  host = none;
  port = pos 0;
  path = none;
  query = none;
  fragment = none;
  request = none;
}

abbrev pub cg_net_uri_new : CgNetUri
cg_net_uri_new = record cleared { path = some (codes "/") }

unfoldable pub cg_net_uri_clear : CgNetUri → CgNetUri
cg_net_uri_clear u = cleared

infixl 5 ◌>>=◌
abbrev pub ◌>>=◌ : {A B : Type 0} → Option A → (A → Option B) → Option B
none >>= f = none
some a >>= f = f a

-- `cg_string_setnvalue` with a signed length: `malloc` refuses a negative size, and for -1 it is
-- asked for 0 bytes, into which the copy then runs.
unfoldable pub copy_n : Bytes → ℤ → Option CStr
copy_n s (pos n) = some (some (take n s))
copy_n s (negsuc zero) = none
copy_n s (negsuc (suc n)) = some none

-- `a - b` of two non-negative `int`s
unfoldable pub minus : ℕ → ℕ → ℤ
minus a b = if leb b a then pos (a - b) else neg (b - a)

-- `cg_string_addvalue` to an empty string
unfoldable pub appended : CStr → CStr → CStr
appended none none = none
appended none (some []) = none
appended none (some (c ∷ s)) = some (c ∷ s)
appended (some a) none = some a
appended (some a) (some b) = some (a ++ b)

-- 0 < index, where -1 stands for nothing found
abbrev pub found : Option ℕ → Bool
found none = false
found (some zero) = false
found (some (suc i)) = true

abbrev pub index : Option ℕ → ℕ
index none = 0
index (some i) = i

-- i < j
abbrev pub before : Option ℕ → Option ℕ → Bool
before i none = false
before none (some j) = true
before (some i) (some j) = ltb i j

-- the macro `cg_net_uri_isabsolute`
unfoldable pub cg_net_uri_isabsolute : CgNetUri → Bool
cg_net_uri_isabsolute u = ltb 0 (cg_strlen u.protocol)

-- a URI under construction, with `currIdx`
abbrev pub Parsing : Type 0
Parsing = CgNetUri × ℕ

unfoldable pub set_protocol : Bytes → CgNetUri → Parsing
set_protocol value u =
    let i = cg_strstr (some value) (some (codes "://")) in
    if found i then (record u { protocol = some (take (index i) value) }, index i + 3) else (u, 0)

unfoldable pub set_user : Bytes → Parsing → Option Parsing
unfolding copy_n minus
set_user value (u, curr) =
    let rest = drop curr value in
    let at = cg_strstr (some rest) (some (codes "@")) in
    let colon = cg_strstr (some rest) (some (codes ":")) in
    if found at
    then if found colon && before colon at
      then some (
        record u {
          user = some (take (index colon) rest);
          password = some (take (index at - (index colon + 1)) (drop (index colon + 1) rest));
        },
        curr + index at + 1,
      )
      else (copy_n rest (minus (index at) curr)
          >>= (λ name. some (record u { user = name }, curr + index at + 1)))
    else some (u, curr)

-- `shashIdx`, the slash behind the host
abbrev pub slash_index : Bytes → ℕ → Option ℕ
slash_index value curr = cg_strstr (some (drop curr value)) (some (codes "/"))

unfoldable pub set_host : Bytes → Parsing → CgNetUri
unfolding cg_net_uri_isabsolute
set_host value (u, curr) =
    let slash = slash_index value curr in
    if found slash
    then record u { host = some (take (index slash) (drop curr value)) }
    else if cg_net_uri_isabsolute u
    then record u { host = some (take (length value - curr) (drop curr value)) }
    else u

-- `host[0] == '[' && host[hostLen-1] == ']'`, where `host` has been cut at the colon and `hostLen`
-- is the length from before
unfoldable pub bracketed : Bytes → ℕ → Option Bool
bracketed host host_len = elim (get_elem? host 0) [
  | none ↦ some false
  | some c ↦
      if c == b'['
      then elim (get_elem? host (host_len - 1)) [
        | none ↦ if host_len - 1 == length host then some false else none
        | some d ↦ some (d == b']')
      ]
      else some false
]

-- the branch for a host that ends in a colon and a port
unfoldable pub split_port : Bytes → ℕ → CgNetUri → Option CgNetUri
unfolding bracketed to_int to_long
split_port host colon u =
    (if ltb 0 (length host) then bracketed (take colon host) (length host) else some false)
    >>= λ brackets. some (record u {
      host = some (if brackets then take (colon - 2) (drop 1 host) else take colon host);
      port = to_int (to_long (atoi (take (length host - colon - 1) (drop (colon + 1) host))));
    })

unfoldable pub default_port : CStr → ℤ
default_port protocol =
    if eqb_ℤ (cg_strcmp protocol (some (codes "ftp"))) (pos 0)
    then pos 21
    else if eqb_ℤ (cg_strcmp protocol (some (codes "http"))) (pos 0)
    then pos 80
    else unknown_port

unfoldable pub set_port : CgNetUri → Option CgNetUri
unfolding split_port default_port
set_port u =
    let colon = cg_strrchr u.host (some (codes ":")) 1 in
    let bracket = cg_strrchr u.host (some (codes "]")) 1 in
    if found colon && before bracket colon
    then split_port (text_of u.host) (index colon) u
    else some (record u { port = default_port u.protocol })

unfoldable pub set_path : Bytes → ℕ → CgNetUri → CgNetUri
unfolding cg_net_uri_isabsolute appended
set_path value curr u =
    if not (cg_net_uri_isabsolute u)
    then record u { path = appended u.path (some value) }
    else record u { path = some (take (length value - curr) (drop curr value)) }

unfoldable pub set_fragment : Bytes → ℕ → CgNetUri → CgNetUri
set_fragment value curr u =
    let rest = drop curr value in
    let sharp = cg_strstr (some rest) (some (codes "#")) in
    if found sharp
    then record u {
      path = some (take (index sharp) rest);
      fragment =
          some (take (length value - (curr + index sharp + 1)) (drop (index sharp + 1) rest));
    }
    else u

-- `queryLen`, which a fragment in front of the question mark makes negative
unfoldable pub query_len : Bytes → ℕ → ℕ → Option ℕ → ℤ
unfolding minus
query_len value curr question sharp =
    let len = length value - (curr + question + 1) in
    if found sharp then minus len (length value - (curr + index sharp)) else pos len

unfoldable pub set_query : Bytes → ℕ → CgNetUri → Option CgNetUri
unfolding copy_n query_len
set_query value curr u =
    let rest = drop curr value in
    let sharp = cg_strstr (some rest) (some (codes "#")) in
    let question = cg_strstr (some rest) (some (codes "?")) in
    if found question
    then (copy_n (drop (index question + 1) rest) (query_len value curr (index question) sharp)
        >>= (λ query. some (record u { path = some (take (index question) rest); query = query })))
    else some u

unfoldable pub cg_net_uri_setvalue : CgNetUri → Bytes → Option CgNetUri
unfolding cg_net_uri_clear set_protocol set_user set_host set_port set_path set_fragment set_query
cg_net_uri_setvalue u value = do
  (v, curr) ← set_user value (set_protocol value (record (cg_net_uri_clear u) { uri = some value }))
  w ← set_port (set_host value (v, curr))
  let slash = slash_index value curr
  let next = if found slash then curr + index slash else curr
  set_query value next (set_fragment value next (set_path value next w))

-- `cg_string_setvalue` of a text, or of NULL, which leaves the string alone
abbrev pub assigned : CStr → CStr → CStr
assigned old none = old
assigned old (some s) = some s
