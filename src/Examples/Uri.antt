-- ===== src/Examples/Uri.antt =====
-- Concrete inputs for clinkc/src/cybergarage/net/curi.c.
use dlna.Prelude.{
  length, ℕ, ◌≡◌, refl, Bool, not, ◌&&◌, ◌==◌, true, some, none, [], ◌∷◌, arith, Bytes, codes,
}
use dlna.Text.Search.Find.{Lacks}
use dlna.Uri.{CgNetUri, cg_net_uri_new, cg_net_uri_setvalue, set_user, set_port}
use dlna.Uri.Printing.{cg_net_uri_rebuild}
use dlna.Uri.Parse.{cg_net_uri_setvalue-print}
use dlna.Uri.Parts.{Parts, IsWellFormed, print, expected}
use dlna.Uri.Rebuild.{cg_net_uri_rebuild-setvalue}
use dlna.Uri.Escape.{cg_net_uri_escapestring, cg_net_uri_unescapestring, escape_loop, unescape_loop}
use dlna.Uri.Escape.RoundTrip.{unescape_loop-escape_loop, unescapestring-escapestring}

-- a test for `Lacks`
abbrev lacks : ℕ → Bytes → Bool
lacks b [] = true
lacks b (c ∷ s) = not (c == b) && lacks b s

lacks-Lacks : (b : ℕ) (s : Bytes) → lacks b s ≡ true → Lacks b s
lacks-Lacks b [] h = tt
lacks-Lacks b (c ∷ s) h = (ground arith, lacks-Lacks b s (ground arith))

abbrev pub event_url : Parts
event_url = record {
  scheme = codes "http";
  host = codes "10.0.0.2";
  port = 4004;
  root = codes "ev";
  query = some (codes "s=1");
  fragment = none;
}

pub event_url-IsWellFormed : IsWellFormed event_url
event_url-IsWellFormed = record {
  scheme_ne = λ e. absurd (cc);
  scheme_colon = lacks-Lacks b':' (codes "http") refl;
  host_ne = λ e. absurd (cc);
  host_slash = lacks-Lacks b'/' (codes "10.0.0.2") refl;
  host_open = lacks-Lacks b'[' (codes "10.0.0.2") refl;
  host_close = lacks-Lacks b']' (codes "10.0.0.2") refl;
  host_at = lacks-Lacks b'@' (codes "10.0.0.2") refl;
  root_at = lacks-Lacks b'@' (codes "ev") refl;
  root_question = lacks-Lacks b'?' (codes "ev") refl;
  root_sharp = lacks-Lacks b'#' (codes "ev") refl;
  query_at = lacks-Lacks b'@' (codes "s=1") refl;
  query_sharp = lacks-Lacks b'#' (codes "s=1") refl;
  fragment_at = tt;
  fragment_question = tt;
}

cg_net_uri_setvalue-print_example :
    cg_net_uri_setvalue cg_net_uri_new (codes "http://10.0.0.2:4004/ev?s=1")
    ≡ some (expected event_url)
unfolding dlna.Text.Decimal.print_int
cg_net_uri_setvalue-print_example =
    cg_net_uri_setvalue-print event_url event_url-IsWellFormed cg_net_uri_new (omega arith)

cg_net_uri_rebuild-setvalue_example :
    (v : CgNetUri) × (cg_net_uri_setvalue cg_net_uri_new (print event_url) ≡ some v)
    × ((cg_net_uri_rebuild v).uri ≡ some (codes "http://10.0.0.2:4004/ev?s=1"))
unfolding dlna.Text.Decimal.print_int
cg_net_uri_rebuild-setvalue_example =
    cg_net_uri_rebuild-setvalue event_url cg_net_uri_new event_url-IsWellFormed refl
      (λ e. absurd (cc)) (omega arith)

unescape_loop-escape_loop_example :
    unescape_loop (length (escape_loop (codes "a b%"))) 0 (escape_loop (codes "a b%"))
    ≡ codes "a b%"
unescape_loop-escape_loop_example =
    unescape_loop-escape_loop (codes "a b%")
      (omega arith, (omega arith, (omega arith, (omega arith, tt))))

unescapestring-escapestring_example :
    (e : Bytes) × (cg_net_uri_escapestring (codes "a b") 0 [] ≡ some e)
    × (cg_net_uri_unescapestring e 0 [] ≡ some ([], e))
unescapestring-escapestring_example =
    unescapestring-escapestring (codes "a b") (omega arith, (omega arith, (omega arith, tt)))

escaped : cg_net_uri_escapestring (codes "a b") 0 [] ≡ some (codes "a%20b%00")
unfolding cg_net_uri_escapestring dlna.Uri.Escape.cg_net_uri_isalphanumchar
    dlna.Uri.Escape.hex_digit
escaped = refl
