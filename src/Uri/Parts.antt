-- ===== src/Uri/Parts.antt =====
-- Well-formed URIs, described without the code that parses them.
use dlna.Prelude.{ℕ, ◌≢◌, Option, none, some, [], ◌∷◌, ◌++◌, Bytes, codes}
use dlna.Prelude.Int.{pos}
use dlna.Text.Search.Find.{Lacks}
use dlna.Uri.{CgNetUri}
use dlna.Uri.Address.{address}

-- The parts of an absolute URI. `root` is the path behind its first slash.
pub record Parts : Type 0 where
  pub scheme : Bytes
  pub host : Bytes
  pub port : ℕ
  pub root : Bytes
  pub query : Option Bytes
  pub fragment : Option Bytes

abbrev pub LacksIf : ℕ → Option Bytes → Type 0
LacksIf c none = Unit
LacksIf c (some s) = Lacks c s

abbrev pub fragment_text : Option Bytes → Bytes
fragment_text none = []
fragment_text (some f) = b'#' ∷ f

abbrev pub query_text : Option Bytes → Bytes → Bytes
query_text none rest = rest
query_text (some q) rest = b'?' ∷ (q ++ rest)

abbrev pub path : Parts → Bytes
path p = b'/' ∷ p.root

abbrev pub resource : Parts → Bytes
resource p = path p ++ query_text p.query (fragment_text p.fragment)

-- scheme "://" host ":" port "/" root ["?" query] ["#" fragment]
abbrev pub print : Parts → Bytes
print p = p.scheme ++ (codes "://" ++ (address p.host p.port ++ resource p))

-- No part holds a byte by which another part is found.
pub record IsWellFormed (p : Parts) : Type 0 where
  pub scheme_ne : p.scheme ≢ []
  pub scheme_colon : Lacks b':' p.scheme
  pub host_ne : p.host ≢ []
  pub host_slash : Lacks b'/' p.host
  pub host_open : Lacks b'[' p.host
  pub host_close : Lacks b']' p.host
  pub host_at : Lacks b'@' p.host
  pub root_at : Lacks b'@' p.root
  pub root_question : Lacks b'?' p.root
  pub root_sharp : Lacks b'#' p.root
  pub query_at : LacksIf b'@' p.query
  pub query_sharp : LacksIf b'#' p.query
  pub fragment_at : LacksIf b'@' p.fragment
  pub fragment_question : LacksIf b'?' p.fragment

-- what the parser should find
abbrev pub expected : Parts → CgNetUri
expected p = record {
  uri = some (print p);
  protocol = some p.scheme;
  user = none;
  password = none;
  host = some p.host;
  port = pos p.port;
  path = some (path p);
  query = p.query;
  fragment = p.fragment;
  request = none;
}
