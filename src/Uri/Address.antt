-- ===== src/Uri/Address.antt =====
-- The front of a URI: what `cg_net_uri_setvalue` of clinkc/src/cybergarage/net/curi.c makes of its scheme,
-- its host and its port.
use dlna.Prelude.{
  ℕ, ◌+◌, ◌-◌, ◌^◌, ◌<◌, ◌≡◌, ◌≢◌, refl, ap, sym, ◌∙◌, true, false, some, [], ◌∷◌, ◌++◌,
  append_assoc, append-nil, arith, Bytes, codes, length, take, drop, All-append, All-mono,
  length-append, drop-append, take-all, take-length_append, ltb, if◌then◌else◌,
}
use dlna.Prelude.Int.{pos}
use dlna.Text.Search.{cg_strstr, cg_strrchr}
use dlna.Text.Search.Find.{Lacks, strstr-needle, strrchr-byte, strrchr-byte_none}
use dlna.Text.Decimal.{print_int, is_digit, atoi, to_int, to_long}
use dlna.Text.Decimal.RoundTrip.{print_int-AllDigits, atoi-print_int, to_int-to_long}
use dlna.Uri.{CgNetUri, found, set_protocol, set_port, split_port, bracketed}

pub found_pos : (b : Bytes) → b ≢ [] → found (some (length b)) ≡ true
found_pos [] h = absurd (h refl)
found_pos (x ∷ b) h = refl

-- scheme "://" rest
abbrev pub with_scheme : Bytes → Bytes → Bytes
with_scheme scheme rest = scheme ++ (codes "://" ++ rest)

module _ (scheme rest : Bytes) where
  pub drop_scheme : drop (length scheme + 3) (with_scheme scheme rest) ≡ rest
  drop_scheme =
      ap (drop (length scheme + 3)) (sym (append_assoc scheme (codes "://") rest))
      ∙ drop-append (length scheme + 3) (scheme ++ codes "://") rest
          (omega (arith, length-append scheme (codes "://")))

  pub set_protocol-scheme :
      (u : CgNetUri)
      → scheme ≢ []
      → Lacks b':' scheme
      → set_protocol (with_scheme scheme rest) u
        ≡ (record u { protocol = some scheme }, length scheme + 3)
  unfolding set_protocol cg_strstr
  set_protocol-scheme u ne lacks = rw (
    strstr-needle scheme rest (codes "//") b':' lacks,
    found_pos scheme ne,
    take-length_append scheme (codes "://" ++ rest),
  )

abbrev NotDigit : ℕ → Type 0
NotDigit c = is_digit c ≡ false

digits-Lacks : (c n : ℕ) → NotDigit c → Lacks c (print_int (pos n))
digits-Lacks c n h =
    All-mono (λ d. is_digit d ≡ true) (λ d. d ≢ c)
      (λ d digit e. let no : is_digit d ≡ false = rw e h in cc) (print_int (pos n))
      (print_int-AllDigits n)

-- host ":" port
abbrev pub address : Bytes → ℕ → Bytes
address host port = host ++ b':' ∷ print_int (pos port)

module _ (host : Bytes) (port : ℕ) where
  pub address-Lacks : (c : ℕ) → Lacks c host → c ≢ b':' → NotDigit c → Lacks c (address host port)
  address-Lacks c h ne nd =
      All-append (λ d. d ≢ c) host _ h ((λ e. ne (sym e)), digits-Lacks c port nd)

  drop_host : drop (length host + 1) (address host port) ≡ print_int (pos port)
  drop_host =
      ap (drop (length host + 1)) (sym (append_assoc host (b':' ∷ []) (print_int (pos port))))
      ∙ drop-append (length host + 1) (host ++ b':' ∷ []) (print_int (pos port))
          (omega (arith, length-append host (b':' ∷ [])))

  port_text :
      take
        (length (address host port) - length host - 1)
        (drop (length host + 1) (address host port))
      ≡ print_int (pos port)
  port_text =
      ap (take (length (address host port) - length host - 1)) drop_host
      ∙ take-all (length (address host port) - length host - 1) (print_int (pos port))
          (omega (arith, length-append host (b':' ∷ print_int (pos port))))

  atoi-port : port < 2 ^ 31 → to_int (to_long (atoi (print_int (pos port)))) ≡ pos port
  atoi-port small =
      ap (λ z. to_int (to_long z))
        (ap atoi (sym (append-nil (print_int (pos port)))) ∙ atoi-print_int (pos port) [] tt)
      ∙ to_int-to_long port small

  -- the test for brackets fails at the first byte
  not_bracketed :
      (n : ℕ)
      → host ≢ []
      → Lacks b'[' host
      → (if ltb 0 n then bracketed host n else some false) ≡ some false
  unfolding bracketed
  not_bracketed n ne lacks = go host ne lacks
    where
      go :
          (h : Bytes)
          → h ≢ []
          → Lacks b'[' h
          → (if ltb 0 n then bracketed h n else some false) ≡ some false
      go [] ne lacks = absurd (ne refl)
      go (c ∷ h) ne (l, lacks) = ground arith

  split_port-address :
      (u : CgNetUri)
      → port < 2 ^ 31
      → host ≢ []
      → Lacks b'[' host
      → split_port (address host port) (length host) u
        ≡ some (record u { host = some host; port = pos port })
  unfolding split_port
  split_port-address u small ne lacks = rw (
    port_text,
    atoi-port small,
    take-length_append host (b':' ∷ print_int (pos port)),
    not_bracketed (length (address host port)) ne lacks,
  )

  pub set_port-address :
      (u : CgNetUri)
      → port < 2 ^ 31
      → host ≢ []
      → Lacks b'[' host
      → Lacks b']' host
      → u.host ≡ some (address host port)
      → set_port u ≡ some (record u { host = some host; port = pos port })
  unfolding set_port cg_strrchr
  set_port-address u small ne no_open no_close e =
      rw
        (
          e,
          strrchr-byte host (print_int (pos port)) b':'
              (digits-Lacks b':' port (unfold is_digit in refl)),
          strrchr-byte_none (address host port) b']'
              (address-Lacks b']' no_close (λ h. absurd (omega arith)) (unfold is_digit in refl)),
          found_pos host ne,
        )
        (split_port-address u small ne no_open)
