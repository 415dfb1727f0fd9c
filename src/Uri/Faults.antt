-- ===== src/Uri/Faults.antt =====
-- URIs that `cg_net_uri_setvalue` of clinkc/src/cybergarage/net/curi.c does not take apart as they
-- are written.
use dlna.Prelude.{
  ℕ, zero, suc, ◌+◌, ◌-◌, ◌≤◌, ◌<◌, ◌≡◌, ◌≢◌, refl, ap, ◌∙◌, true, false, none, some, [], ◌∷◌, ◌++◌,
  append_assoc, arith, Bytes, length, take, All-append, length-append, take-length_append,
  get_elem?, ltb, ◌==◌,
}
use dlna.Prelude.Int.{pos}
use dlna.Text.Search.{cg_strstr, strrchr, cg_strrchr}
use dlna.Text.Search.Find.{Lacks, strstr-byte, strstr-byte_none, strrchr-byte}
use dlna.Uri.{CgNetUri, minus, set_user, set_port, split_port, bracketed}
use dlna.Uri.Address.{with_scheme, drop_scheme, found_pos}

-- A user name without a password, in an authority without a colon and at least as long as what
-- stands in front of it, loses as many bytes at its end as stand in front of it.
pub set_user_shortened :
    (scheme name rest : Bytes) (u : CgNetUri)
    → name ≢ []
    → Lacks b'@' name
    → Lacks b':' name
    → Lacks b':' rest
    → length scheme + 3 ≤ length name
    → set_user (with_scheme scheme (name ++ b'@' ∷ rest)) (u, length scheme + 3)
      ≡ some (
        record u { user = some (take (length name - (length scheme + 3)) name) },
        length scheme + 3 + length name + 1,
      )
unfolding set_user cg_strstr
set_user_shortened scheme name rest u ne at colon colon' long =
    let all =
      All-append (λ d. d ≢ b':') name (b'@' ∷ rest) colon ((λ e. absurd (omega arith)), colon') in
    let len : minus (length name) (length scheme + 3) ≡ pos (length name - (length scheme + 3)) =
      unfold minus in ground arith in
    rw (
      drop_scheme scheme (name ++ b'@' ∷ rest),
      strstr-byte name rest b'@' at,
      strstr-byte_none (name ++ b'@' ∷ rest) b':' all,
      found_pos name ne,
      len,
      take-prefix (length name - (length scheme + 3)) name (b'@' ∷ rest) (omega arith),
    )
  where
    take-prefix : (n : ℕ) (a b : Bytes) → n ≤ length a → take n (a ++ b) ≡ take n a
    take-prefix zero a b h = refl
    take-prefix (suc n) [] b h = absurd (omega arith)
    take-prefix (suc n) (x ∷ a) b h = ap (◌∷◌ x) (take-prefix n a b (omega arith))

get_elem?-none : (s : Bytes) (i : ℕ) → length s ≤ i → get_elem? s i ≡ none
get_elem?-none [] i h = refl
get_elem?-none (x ∷ s) zero h = absurd (omega arith)
get_elem?-none (x ∷ s) (suc i) h = get_elem?-none s i (omega arith)

-- the read of `host[hostLen-1]` behind the terminator of the cut host
bracketed_outside : (s : Bytes) (n : ℕ) → suc (suc (length s)) < n → bracketed (b'[' ∷ s) n ≡ none
unfolding bracketed
bracketed_outside s n h =
    let far : (n - 1 == suc (length s)) ≡ false = ground arith in
    rw (get_elem?-none (b'[' ∷ s) (n - 1) (omega arith), far)

split_port-none :
    (host cut : Bytes) (colon : ℕ) (u : CgNetUri)
    → take colon host ≡ cut
    → 0 < length host
    → bracketed cut (length host) ≡ none
    → split_port host colon u ≡ none
unfolding split_port
split_port-none host cut colon u e long h =
    let some_length : ltb 0 (length host) ≡ true = ground arith in rw (some_length, e, h)

set_port-split :
    (u : CgNetUri) (host : Bytes) (colon bracket : ℕ)
    → u.host ≡ some host
    → strrchr host (b':' ∷ []) 1 ≡ some colon
    → strrchr host (b']' ∷ []) 1 ≡ some bracket
    → bracket < colon
    → set_port u ≡ split_port host colon u
unfolding set_port cg_strrchr
set_port-split u host zero bracket e c b h = absurd (omega arith)
set_port-split u host (suc colon) bracket e c b h =
    let less : ltb bracket (suc colon) ≡ true = ground arith in rw (e, c, b, less)

-- Of a host in square brackets followed by a colon and a port, the test for the closing bracket
-- reads behind the end of the host string, which has just been cut in front of the port.
pub set_port_bracketed :
    (body digits : Bytes) (d : ℕ) (u : CgNetUri)
    → Lacks b':' (d ∷ digits)
    → Lacks b']' (d ∷ digits)
    → u.host ≡ some ((b'[' ∷ (body ++ b']' ∷ [])) ++ b':' ∷ (d ∷ digits))
    → set_port u ≡ none
set_port_bracketed body digits d u colon close e =
    let closed = b'[' ∷ (body ++ b']' ∷ []) in
    let whole = closed ++ b':' ∷ (d ∷ digits) in
    let closing : strrchr whole (b']' ∷ []) 1 ≡ some (length (b'[' ∷ body)) =
      ap (λ s. strrchr s (b']' ∷ []) 1)
        (append_assoc (b'[' ∷ body) (b']' ∷ []) (b':' ∷ (d ∷ digits)))
      ∙ strrchr-byte (b'[' ∷ body) (b':' ∷ (d ∷ digits)) b']'
          ((λ h. absurd (omega arith)), close) in
    set_port-split u whole (length closed) (length (b'[' ∷ body)) e
      (strrchr-byte closed (d ∷ digits) b':' colon) closing
      (omega (arith, length-append body (b']' ∷ [])))
    ∙ split_port-none whole closed (length closed) u
        (take-length_append closed (b':' ∷ (d ∷ digits))) (omega arith)
        (bracketed_outside (body ++ b']' ∷ []) (length whole)
          (omega (arith, length-append closed (b':' ∷ (d ∷ digits)))))
