-- ===== src/Uri/Resource.antt =====
-- The rest of a URI: what `cg_net_uri_setvalue` of clinkc/src/cybergarage/net/curi.c makes of its
-- path, its query and its fragment.
use dlna.Prelude.{
  ℕ, ◌+◌, ◌-◌, ◌≡◌, ◌≢◌, ap, sym, ◌∙◌, true, some, [], ◌∷◌, ◌++◌, append_assoc, arith, Bytes,
  length, drop, All-append, length-append, drop-append, take-all, take-length_append, ltb,
}
use dlna.Prelude.Int.{pos}
use dlna.Text.{cg_strlen}
use dlna.Text.Search.{strstr, cg_strstr}
use dlna.Text.Search.Find.{Lacks, strstr-byte, strstr-byte_none}
use dlna.Uri.{CgNetUri, set_path, set_fragment, set_query, query_len, minus}
use dlna.Uri.Address.{found_pos}

-- The text behind a byte in the middle.
drop_behind : (a b : Bytes) (c : ℕ) → drop (length a + 1) (a ++ c ∷ b) ≡ b
drop_behind a b c =
    ap (drop (length a + 1)) (sym (append_assoc a (c ∷ []) b))
    ∙ drop-append (length a + 1) (a ++ c ∷ []) b (omega (arith, length-append a (c ∷ [])))

minus-eq : (a b c : ℕ) → a ≡ b + c → minus a b ≡ pos c
unfolding minus
minus-eq a b c e = ground arith

append-ne-nil : (a b : Bytes) → b ≢ [] → a ++ b ≢ []
append-ne-nil [] b h = h
append-ne-nil (x ∷ a) b h = λ e. cc

-- `resource` is the text of `value` from `next` on.
module _ (value resource : Bytes) (next : ℕ) (u : CgNetUri) (at : drop next value ≡ resource)
    (total : length value ≡ next + length resource) where
  pub set_path-resource :
      ltb 0 (cg_strlen u.protocol) ≡ true
      → set_path value next u ≡ record u { path = some resource }
  unfolding set_path
  set_path-resource absolute =
      rw (absolute, at, take-all (length value - next) resource (omega arith))

  pub set_fragment-none : Lacks b'#' resource → set_fragment value next u ≡ u
  unfolding set_fragment cg_strstr
  set_fragment-none lacks = rw (at, strstr-byte_none resource b'#' lacks)

  pub set_fragment-some :
      (front f : Bytes)
      → resource ≡ front ++ b'#' ∷ f
      → front ≢ []
      → Lacks b'#' front
      → set_fragment value next u ≡ record u { path = some front; fragment = some f }
  unfolding set_fragment cg_strstr
  set_fragment-some front f e ne lacks = rw (
    at,
    e,
    strstr-byte front f b'#' lacks,
    found_pos front ne,
    take-length_append front (b'#' ∷ f),
    drop_behind front f b'#',
    take-all (length value - (next + length front + 1)) f
        (omega (arith, ap length e, length-append front (b'#' ∷ f))),
  )

  pub set_query-none : Lacks b'?' resource → set_query value next u ≡ some u
  unfolding set_query cg_strstr
  set_query-none lacks = rw (at, strstr-byte_none resource b'?' lacks)

  pub set_query-some :
      (root q : Bytes)
      → resource ≡ root ++ b'?' ∷ q
      → root ≢ []
      → Lacks b'?' root
      → Lacks b'#' resource
      → set_query value next u ≡ some (record u { path = some root; query = some q })
  unfolding set_query cg_strstr
  set_query-some root q e ne lacks sharp = rw (
    at,
    strstr-byte_none resource b'#' sharp,
    e,
    strstr-byte root q b'?' lacks,
    found_pos root ne,
    drop_behind root q b'?',
    take-length_append root (b'?' ∷ q),
    take-all (length value - (next + length root + 1)) q
        (omega (arith, ap length e, length-append root (b'?' ∷ q))),
  )

  query_len-between :
      (root q f : Bytes)
      → resource ≡ (root ++ b'?' ∷ q) ++ b'#' ∷ f
      → query_len value next (length root) (some (length (root ++ b'?' ∷ q))) ≡ pos (length q)
  unfolding query_len
  query_len-between root q f e =
      rw (found_pos (root ++ b'?' ∷ q) (append-ne-nil root (b'?' ∷ q) (λ h. cc))) (
        minus-eq (length value - (next + length root + 1))
          (length value - (next + length (root ++ b'?' ∷ q))) (length q)
          (omega (
            arith,
            ap length e,
            length-append (root ++ b'?' ∷ q) (b'#' ∷ f),
            length-append root (b'?' ∷ q),
          )))

  pub set_query-both :
      (root q f : Bytes)
      → resource ≡ root ++ b'?' ∷ (q ++ b'#' ∷ f)
      → root ≢ []
      → Lacks b'?' root
      → Lacks b'#' root
      → Lacks b'#' q
      → set_query value next u ≡ some (record u { path = some root; query = some q })
  unfolding set_query cg_strstr
  set_query-both root q f e ne lacks sharp sharp' =
      let front = root ++ b'?' ∷ q in
      let e' : resource ≡ front ++ b'#' ∷ f = e ∙ sym (append_assoc root (b'?' ∷ q) (b'#' ∷ f)) in
      let question : strstr (drop next value) (b'?' ∷ []) ≡ some (length root) =
        ap (λ s. strstr s (b'?' ∷ [])) (at ∙ e) ∙ strstr-byte root (q ++ b'#' ∷ f) b'?' lacks in
      let hash : strstr (drop next value) (b'#' ∷ []) ≡ some (length front) =
        ap (λ s. strstr s (b'#' ∷ [])) (at ∙ e')
        ∙ strstr-byte front f b'#' (
            All-append (λ d. d ≢ b'#') root (b'?' ∷ q) sharp
              ((λ h. absurd (omega arith)), sharp')) in
      rw (
        question,
        hash,
        found_pos root ne,
        query_len-between root q f e',
        at ∙ e,
        drop_behind root (q ++ b'#' ∷ f) b'?',
        take-length_append root (b'?' ∷ (q ++ b'#' ∷ f)),
        take-length_append q (b'#' ∷ f),
      )
