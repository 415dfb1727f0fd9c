-- ===== src/Uri/Parse.antt =====
-- `cg_net_uri_setvalue` of clinkc/src/cybergarage/net/curi.c takes a well-formed URI apart.
use dlna.Prelude.{
  ℕ, ◌+◌, ◌^◌, ◌<◌, ◌≡◌, ◌≢◌, refl, ap, sym, ◌∙◌, true, Option, none, some, [], ◌∷◌, ◌++◌,
  append_assoc, append-nil, arith, Bytes, codes, length, drop, All-append, length-append,
  drop-append, take-length_append, ltb,
}
use mathlib.Core.Path.{subst}
use dlna.Prelude.Int.{pos}
use dlna.Text.{cg_strlen}
use dlna.Text.Search.{strstr, cg_strstr}
use dlna.Text.Search.Find.{Lacks, strstr-byte, strstr-byte_none}
use dlna.Text.Decimal.{is_digit}
use dlna.Uri.{
  CgNetUri, cleared, set_user, set_host, slash_index, set_fragment, set_query, cg_net_uri_setvalue,
}
use dlna.Uri.Address.{
  drop_scheme, found_pos, set_protocol-scheme, address, address-Lacks, set_port-address,
}
use dlna.Uri.Resource.{
  set_path-resource, set_fragment-none, set_fragment-some, set_query-none, set_query-some,
  set_query-both,
}
use dlna.Uri.Parts.{
  Parts, IsWellFormed, print, path, expected, query_text, fragment_text, resource, LacksIf,
}

module _ (p : Parts) (w : IsWellFormed p) where
  resource-Lacks :
      (c : ℕ)
      → c ≢ b'/'
      → c ≢ b'?'
      → c ≢ b'#'
      → Lacks c p.root
      → LacksIf c p.query
      → LacksIf c p.fragment
      → Lacks c (resource p)
  resource-Lacks c n1 n2 n3 r q f =
      All-append (λ d. d ≢ c) (path p) _ ((λ e. n1 (sym e)), r) (query_part p.query q)
    where
      fragment_part : (o : Option Bytes) → LacksIf c o → Lacks c (fragment_text o)
      fragment_part none h = tt
      fragment_part (some b) h = ((λ e. n3 (sym e)), h)

      query_part :
          (o : Option Bytes) → LacksIf c o → Lacks c (query_text o (fragment_text p.fragment))
      query_part none h = fragment_part p.fragment f
      query_part (some b) h = (
        (λ e. n2 (sym e)),
        All-append (λ d. d ≢ c) b (fragment_text p.fragment) h (fragment_part p.fragment f),
      )

  abbrev value : Bytes
  value = print p

  abbrev start : ℕ
  start = length p.scheme + 3

  abbrev next : ℕ
  next = start + length (address p.host p.port)

  drop-next : drop next value ≡ resource p
  drop-next =
      let front = p.scheme ++ (codes "://" ++ address p.host p.port) in
      let split : value ≡ front ++ resource p =
        ap (λ s. p.scheme ++ s)
          (sym (append_assoc (codes "://") (address p.host p.port) (resource p)))
        ∙ sym (append_assoc p.scheme (codes "://" ++ address p.host p.port) (resource p)) in
      ap (drop next) split
      ∙ drop-append next front (resource p) (
          omega (
            arith,
            length-append p.scheme (codes "://" ++ address p.host p.port),
            length-append (codes "://") (address p.host p.port),
          ))

  length-value : length value ≡ next + length (resource p)
  length-value = omega (
    arith,
    length-append p.scheme (codes "://" ++ (address p.host p.port ++ resource p)),
    length-append (codes "://") (address p.host p.port ++ resource p),
    length-append (address p.host p.port) (resource p),
  )

  address-ne-nil : address p.host p.port ≢ []
  address-ne-nil = go p.host w.host_ne
    where
      go : (h : Bytes) → h ≢ [] → address h p.port ≢ []
      go [] ne = absurd (ne refl)
      go (x ∷ h) ne = λ e. cc

  no_user : strstr (drop start value) (b'@' ∷ []) ≡ none
  unfolding is_digit
  no_user =
      ap (λ s. strstr s (b'@' ∷ [])) (drop_scheme p.scheme (address p.host p.port ++ resource p))
      ∙ strstr-byte_none (address p.host p.port ++ resource p) b'@' (
          All-append (λ d. d ≢ b'@') (address p.host p.port) (resource p)
            (address-Lacks p.host p.port b'@' w.host_at (λ e. absurd (omega arith)) refl)
            (resource-Lacks b'@' (λ e. absurd (omega arith)) (λ e. absurd (omega arith))
              (λ e. absurd (omega arith)) w.root_at w.query_at w.fragment_at))

  host_end : slash_index value start ≡ some (length (address p.host p.port))
  unfolding cg_strstr is_digit
  host_end =
      ap (λ s. strstr s (b'/' ∷ [])) (drop_scheme p.scheme (address p.host p.port ++ resource p))
      ∙ strstr-byte (address p.host p.port)
          (p.root ++ query_text p.query (fragment_text p.fragment)) b'/'
          (address-Lacks p.host p.port b'/' w.host_slash (λ e. absurd (omega arith)) refl)

  -- the state in front of the fragment
  abbrev head : CgNetUri
  head = record {
    uri = some value;
    protocol = some p.scheme;
    user = none;
    password = none;
    host = some p.host;
    port = pos p.port;
    path = some (resource p);
    query = none;
    fragment = none;
    request = none;
  }

  abbrev ended : Option Bytes → Option Bytes → CgNetUri
  ended q f = record head { path = some (path p); query = q; fragment = f }

  abbrev Ending : Option Bytes → Option Bytes → Type 0
  Ending q f = set_query value next (set_fragment value next head) ≡ some (ended q f)

  path_sharp : Lacks b'#' (path p)
  path_sharp = ((λ e. absurd (omega arith)), w.root_sharp)

  path_question : Lacks b'?' (path p)
  path_question = ((λ e. absurd (omega arith)), w.root_question)

  Ending-none-none : p.query ≡ none → p.fragment ≡ none → Ending none none
  Ending-none-none qe fe =
      let whole : resource p ≡ path p = rw (qe, fe) (append-nil (path p)) in
      rw
        (
          set_fragment-none value (resource p) next head drop-next length-value
              (subst (Lacks b'#') (sym whole) path_sharp),
          set_query-none value (resource p) next head drop-next length-value
              (subst (Lacks b'?') (sym whole) path_question),
        )
        (ap (λ (s : Bytes). some (record head { path = some s })) whole)

  Ending-none-some : (f : Bytes) → p.query ≡ none → p.fragment ≡ some f → Ending none (some f)
  Ending-none-some f qe fe =
      let whole : resource p ≡ path p ++ b'#' ∷ f = rw (qe, fe) refl in
      let question : Lacks b'?' (resource p) = subst (Lacks b'?') (sym whole) (
        All-append (λ d. d ≢ b'?') (path p) (b'#' ∷ f) path_question
          ((λ e. absurd (omega arith)), rw fe at w.fragment_question)) in
      rw
        (set_fragment-some value (resource p) next head drop-next length-value (path p) f whole
          (λ e. cc) path_sharp)
        (set_query-none value (resource p) next _ drop-next length-value question)

  Ending-some-none : (q : Bytes) → p.query ≡ some q → p.fragment ≡ none → Ending (some q) none
  Ending-some-none q qe fe =
      let whole : resource p ≡ path p ++ b'?' ∷ q =
        rw (qe, fe) (ap (λ s. path p ++ b'?' ∷ s) (append-nil q)) in
      let sharp : Lacks b'#' (resource p) = subst (Lacks b'#') (sym whole) (
        All-append (λ d. d ≢ b'#') (path p) (b'?' ∷ q) path_sharp
          ((λ e. absurd (omega arith)), rw qe at w.query_sharp)) in
      rw (set_fragment-none value (resource p) next head drop-next length-value sharp) (
        set_query-some value (resource p) next head drop-next length-value (path p) q whole
          (λ e. cc) path_question sharp)

  Ending-some-some :
      (q f : Bytes) → p.query ≡ some q → p.fragment ≡ some f → Ending (some q) (some f)
  Ending-some-some q f qe fe =
      let whole : resource p ≡ path p ++ b'?' ∷ (q ++ b'#' ∷ f) = rw (qe, fe) refl in
      let query_sharp : Lacks b'#' q = rw qe at w.query_sharp in
      let front_sharp : Lacks b'#' (path p ++ b'?' ∷ q) =
        All-append (λ d. d ≢ b'#') (path p) (b'?' ∷ q) path_sharp
          ((λ e. absurd (omega arith)), query_sharp) in
      rw
        (set_fragment-some value (resource p) next head drop-next length-value (path p ++ b'?' ∷ q)
          f (whole ∙ sym (append_assoc (path p) (b'?' ∷ q) (b'#' ∷ f))) (λ e. cc) front_sharp)
        (set_query-both value (resource p) next _ drop-next length-value (path p) q f whole
          (λ e. cc) path_question path_sharp query_sharp)

  ending : (q f : Option Bytes) → p.query ≡ q → p.fragment ≡ f → Ending q f
  ending none none = Ending-none-none
  ending none (some f) = Ending-none-some f
  ending (some q) none = Ending-some-none q
  ending (some q) (some f) = Ending-some-some q f

  -- the state behind the scheme
  abbrev schemed : CgNetUri
  schemed = record cleared { uri = some value; protocol = some p.scheme }

  set_user-none : set_user value (schemed, start) ≡ some (schemed, start)
  unfolding set_user cg_strstr
  set_user-none = rw no_user

  abbrev addressed : CgNetUri
  addressed = record schemed { host = some (address p.host p.port) }

  set_host-address : set_host value (schemed, start) ≡ addressed
  unfolding set_host
  set_host-address = rw (
    host_end,
    found_pos (address p.host p.port) address-ne-nil,
    drop_scheme p.scheme (address p.host p.port ++ resource p),
    take-length_append (address p.host p.port) (resource p),
  )

  scheme_pos : ltb 0 (cg_strlen (some p.scheme)) ≡ true
  unfolding cg_strlen
  scheme_pos = go p.scheme w.scheme_ne
    where
      go : (s : Bytes) → s ≢ [] → ltb 0 (length s) ≡ true
      go [] ne = absurd (ne refl)
      go (c ∷ s) ne = ground arith

  -- Of an absolute URI with scheme, host, port, path, and possibly a query and a fragment, none of
  -- whose parts holds a byte that delimits another and whose port is below 2 ^ 31, the parser
  -- finds exactly these parts, whatever the URI object held before, and reads nothing outside the
  -- text.
  pub cg_net_uri_setvalue-print :
      (u : CgNetUri) → p.port < 2 ^ 31 → cg_net_uri_setvalue u (print p) ≡ some (expected p)
  unfolding cg_net_uri_setvalue
  cg_net_uri_setvalue-print u small =
      rw
        (
          set_protocol-scheme p.scheme (address p.host p.port ++ resource p)
              (record cleared { uri = some value }) w.scheme_ne w.scheme_colon,
          set_user-none,
          set_host-address,
          set_port-address p.host p.port addressed small w.host_ne w.host_open w.host_close refl,
          host_end,
          found_pos (address p.host p.port) address-ne-nil,
          set_path-resource value (resource p) next
              (record addressed { host = some p.host; port = pos p.port }) drop-next length-value
              scheme_pos,
        )
        (ending p.query p.fragment refl refl)
