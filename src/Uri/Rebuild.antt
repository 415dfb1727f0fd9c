-- ===== src/Uri/Rebuild.antt =====
-- `cg_net_uri_rebuild` of clinkc/src/cybergarage/net/curi.c after a parse.
use dlna.Prelude.{
  ℕ, ◌^◌, ◌<◌, ◌≡◌, ◌≢◌, refl, ap, sym, ◌∙◌, true, Option, none, some, [], ◌∷◌, ◌++◌, append_assoc,
  append-nil, arith, Bytes, codes, length, take-all, ltb,
}
use dlna.Prelude.Int.{pos}
use dlna.Text.{cg_strlen}
use dlna.Text.Search.{cg_strchr}
use dlna.Text.Search.Find.{Lacks, strchr-byte_none}
use dlna.Text.Decimal.{print_int, cg_int2str}
use dlna.Text.Decimal.RoundTrip.{length-print_int}
use dlna.Uri.{CgNetUri, cg_net_uri_setvalue, appended}
use dlna.Uri.Printing.{cg_net_uri_rebuild, rebuilt_path, port_buflen}
use dlna.Uri.Parse.{cg_net_uri_setvalue-print}
use dlna.Uri.Parts.{Parts, IsWellFormed, print, path, expected, query_text}

appended-some : (a b : Bytes) → appended (some a) (some b) ≡ some (a ++ b)
unfolding appended
appended-some a b = refl

port_fits : (n : ℕ) → n < 2 ^ 31 → cg_int2str (pos n) port_buflen ≡ print_int (pos n)
unfolding cg_int2str
port_fits n h =
    let bound = length-print_int (pos n) 9 (omega arith) in
    take-all 31 (print_int (pos n)) (omega arith)

-- a path that begins with a slash and holds no question mark
rebuilt-path :
    (out root : Bytes) (q : Option Bytes)
    → Lacks b'?' root
    → q ≢ some []
    → rebuilt_path (some out) (some (b'/' ∷ root)) q
      ≡ some (out ++ (b'/' ∷ root) ++ query_text q [])
unfolding rebuilt_path cg_strchr cg_strlen
rebuilt-path out root none lacks ne =
    rw (strchr-byte_none (b'/' ∷ root) b'?' ((λ e. absurd (omega arith)), lacks))
      (ap some (sym (append-nil (out ++ b'/' ∷ root))))
rebuilt-path out root (some []) lacks ne = absurd (ne refl)
rebuilt-path out root (some (c ∷ q)) lacks ne =
    let pos_len : ltb 0 (length (c ∷ q)) ≡ true = ground arith in
    rw (strchr-byte_none (b'/' ∷ root) b'?' ((λ e. absurd (omega arith)), lacks), pos_len)
      (ap some (
        append_assoc (out ++ b'/' ∷ root) (b'?' ∷ []) (c ∷ q)
        ∙ ap (λ s. (out ++ b'/' ∷ root) ++ b'?' ∷ s) (sym (append-nil (c ∷ q)))))

-- An absolute URI with scheme, host, port, path, and possibly a query that is not empty, but no
-- fragment, is parsed and rebuilt byte by byte, if its port is below 2 ^ 31 and none of its parts
-- holds a byte that delimits another.
pub cg_net_uri_rebuild-setvalue :
    (p : Parts) (u : CgNetUri)
    → IsWellFormed p
    → p.fragment ≡ none
    → p.query ≢ some []
    → p.port < 2 ^ 31
    → (v : CgNetUri) × (cg_net_uri_setvalue u (print p) ≡ some v)
      × ((cg_net_uri_rebuild v).uri ≡ some (print p))
unfolding cg_net_uri_rebuild
cg_net_uri_rebuild-setvalue p u w fe qe small =
    (expected p, cg_net_uri_setvalue-print p w u small, text)
  where
    front : Bytes
    front = (((p.scheme ++ codes "://") ++ p.host) ++ codes ":") ++ print_int (pos p.port)

    joined : front ++ (path p ++ query_text p.query []) ≡ print p
    joined = rw fe (simp append_assoc)

    text : (cg_net_uri_rebuild (expected p)).uri ≡ some (print p)
    text =
        rw (port_fits p.port small, rebuilt-path front p.root p.query w.root_question qe)
          (ap some (append_assoc front (path p) _ ∙ joined))
