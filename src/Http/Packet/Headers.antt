-- ===== src/Http/Packet/Headers.antt =====
-- Reading of the headers that a packet has printed.
use dlna.Prelude.{
  ℕ, zero, suc, ◌+◌, ◌≤◌, ◌<◌, ◌≡◌, refl, ap, sym, ◌∙◌, true, false, Option, some, List, [], ◌∷◌,
  ◌++◌, arith, append_assoc, append-nil, Bytes, length, length-append, ltb, All, All-append,
}
use dlna.Uri.{◌>>=◌}
use dlna.Text.Search.{is_one_of}
use dlna.Text.Trim.{strltrim, strrtrim}
use dlna.Text.Trim.Laws.{StartsClean, EndsClean}
use dlna.Text.Trim.Core.{strltrim-clean, strrtrim-back}
use dlna.Http.Headers.{HttpHeader}
use dlna.Http.Packet.{
  CgHttpPacket, line_read, long_enough, add_found, cg_http_packet_addheader,
  cg_http_packet_read_headers, header_line, headerline_delim, colon, sp, crlf,
}
use dlna.Http.Packet.HeaderLine.{trimmed, header_line-trimmed, string_to_nul-NulFree}
use dlna.Http.Packet.Post.{headers_of, print_headers}
use dlna.Tokenizer.{string_to_nul}
use dlna.Tokenizer.Steps.{NulFree}
use dlna.Socket.{Kernel, lf, cg_socket_readline}
use dlna.Socket.Streams.{Incoming}
use dlna.Socket.Line.{Inside, readline-line}

-- A name without delimiters and a value that neither begins nor ends with one, both without
-- terminators and line feeds, that fit in the buffer together.
pub record Plain (size : ℕ) (name value : Bytes) : Type 0 where
  pub some_name : 0 < length name
  pub name_clean : All (λ d. is_one_of d headerline_delim 4 ≡ false) name
  pub value_starts : StartsClean headerline_delim 4 value
  pub value_ends : EndsClean headerline_delim 4 value
  pub name_free : NulFree name
  pub value_free : NulFree value
  pub value_inside : Inside value
  pub fits : length name + length value + 5 ≤ size

abbrev pub AllPlain : ℕ → List (Bytes × Bytes) → Type 0
AllPlain size [] = Unit
AllPlain size ((name, value) ∷ fields) = Plain size name value × AllPlain size fields

-- a text without delimiters has no line feed
Inside-clean : (name : Bytes) → All (λ d. is_one_of d headerline_delim 4 ≡ false) name → Inside name
unfolding is_one_of
Inside-clean [] clean = tt
Inside-clean (c ∷ name) (miss, clean) = (ground arith, Inside-clean name clean)

trimmed-value :
    (size : ℕ) (name value : Bytes)
    → Plain size name value
    → trimmed (sp ++ (value ++ crlf)) ≡ value
unfolding is_one_of strltrim strrtrim
trimmed-value size name [] p = refl
trimmed-value size name (c ∷ value) p =
    ap (λ r. strrtrim r headerline_delim 4)
      (strltrim-clean headerline_delim 4 ((c ∷ value) ++ crlf) p.value_starts)
    ∙ strrtrim-back headerline_delim 4 (c ∷ value) crlf (refl, (refl, tt)) p.value_ends

-- the line of a header gives the header
header_line-print :
    (size : ℕ) (name value : Bytes)
    → Plain size name value
    → header_line (string_to_nul (name ++ (colon ++ (sp ++ (value ++ crlf)))))
      ≡ some (some (record { name = some name; value = some value }))
header_line-print size name value p =
    let free : NulFree (name ++ 58 ∷ 32 ∷ (value ++ crlf)) =
      All-append _ name (58 ∷ 32 ∷ (value ++ crlf)) p.name_free
        (refl, (refl, All-append _ value crlf p.value_free (refl, (refl, tt)))) in
    ap header_line (string_to_nul-NulFree (name ++ 58 ∷ 32 ∷ (value ++ crlf)) free)
    ∙ header_line-trimmed name (32 ∷ (value ++ crlf)) p.some_name p.name_clean free
    ∙ ap (λ v. some (some (record { name = some name; value = some v })))
        (trimmed-value size name value p)

line_split :
    (name value r x : Bytes)
    → (name ++ (colon ++ (sp ++ (value ++ (crlf ++ r))))) ++ x
      ≡ (name ++ (colon ++ (sp ++ (value ++ 13 ∷ [])))) ++ lf ∷ (r ++ x)
line_split name value r x =
    append_assoc name (58 ∷ 32 ∷ (value ++ 13 ∷ 10 ∷ r)) x
    ∙ ap (λ l. name ++ 58 ∷ 32 ∷ l)
        (append_assoc value (13 ∷ 10 ∷ r) x ∙ sym (append_assoc value (13 ∷ []) (lf ∷ (r ++ x))))
    ∙ sym (append_assoc name (58 ∷ 32 ∷ (value ++ 13 ∷ [])) (lf ∷ (r ++ x)))

line_whole :
    (name value : Bytes)
    → (name ++ (colon ++ (sp ++ (value ++ 13 ∷ [])))) ++ lf ∷ []
      ≡ name ++ (colon ++ (sp ++ (value ++ crlf)))
line_whole name value =
    append_assoc name (58 ∷ 32 ∷ (value ++ 13 ∷ [])) (lf ∷ [])
    ∙ ap (λ l. name ++ 58 ∷ 32 ∷ l) (append_assoc value (13 ∷ []) (lf ∷ []))

long_line : (line : Bytes) → 2 < length line → ltb 2 (length line) ≡ true
long_line line lt = ground arith

module _ {S : Type 0} {kernel : Kernel S} {rest : S → Bytes} (peer : Incoming kernel rest) where
  read_step :
      (fuel : ℕ) (s u : S) (size : ℕ) (line : Bytes) (h : HttpHeader) (pkt : CgHttpPacket)
      → cg_socket_readline kernel (suc fuel) s size ≡ some (some line, u)
      → ltb 2 (length line) ≡ true
      → header_line (string_to_nul line) ≡ some (some h)
      → cg_http_packet_read_headers kernel (suc fuel) s size pkt
        ≡ cg_http_packet_read_headers kernel fuel u size (cg_http_packet_addheader pkt h)
  unfolding cg_http_packet_read_headers line_read long_enough add_found
  read_step fuel s u size line h pkt got long parse =
      let loop : S → CgHttpPacket → Option (CgHttpPacket × S) =
        λ t p. cg_http_packet_read_headers kernel fuel t size p in
      ap (λ o. o >>= λ r. line_read kernel loop r.0 r.1 pkt) got
      ∙ ap (λ b. long_enough kernel loop b line u pkt) long
      ∙ ap (λ o. o >>= λ found. add_found kernel loop found u pkt) parse

  pub read_headers-print :
      (fuel : ℕ) (s : S) (size : ℕ) (fields : List (Bytes × Bytes)) (body : Bytes)
      (pkt : CgHttpPacket)
      → AllPlain size fields
      → 3 < size
      → rest s ≡ print_headers fields ++ (crlf ++ body)
      → length fields < fuel
      → (t : S) × (cg_http_packet_read_headers kernel fuel s size pkt
          ≡ some (record pkt { header_list = pkt.header_list ++ headers_of fields }, t))
        × (rest t ≡ body)
  unfolding cg_http_packet_read_headers line_read long_enough add_found
  read_headers-print zero s size fields body pkt plain room e lt = absurd (omega arith)
  read_headers-print (suc fuel) s size [] body pkt plain room e lt =
      let (t, got, left) =
        readline-line peer (suc fuel) s size (13 ∷ []) body e (refl, tt) (omega arith) in
      (
        t,
        rw (cg_http_packet_read_headers, got)
            (ap (λ l. some (record pkt { header_list = l }, t)) (sym (append-nil pkt.header_list))),
        left,
      )
  read_headers-print (suc fuel) s size ((name, value) ∷ fields) body pkt (p, plain) room e lt =
      let line = name ++ (colon ++ (sp ++ (value ++ 13 ∷ []))) in
      let h : HttpHeader = record { name = some name; value = some value } in
      let more = print_headers fields ++ (crlf ++ body) in
      let inside : Inside line =
        All-append _ name (58 ∷ 32 ∷ (value ++ 13 ∷ [])) (Inside-clean name p.name_clean)
          (refl, (refl, All-append _ value (13 ∷ []) p.value_inside (refl, tt))) in
      let size_of : length line ≡ length name + (2 + (length value + 1)) =
        omega (
          arith,
          length-append name (58 ∷ 32 ∷ (value ++ 13 ∷ [])),
          length-append value (13 ∷ []),
        ) in
      let (u, got, left) =
        readline-line peer (suc fuel) s size line more
          (e ∙ line_split name value (print_headers fields) (crlf ++ body)) inside
          (omega (arith, size_of, p.fits)) in
      let long : ltb 2 (length (line ++ lf ∷ [])) ≡ true =
        long_line (line ++ lf ∷ [])
          (omega (arith, length-append line (lf ∷ []), size_of, p.some_name)) in
      let parse : header_line (string_to_nul (line ++ lf ∷ [])) ≡ some (some h) =
        ap (λ l. header_line (string_to_nul l)) (line_whole name value)
        ∙ header_line-print size name value p in
      let (t, next, after) =
        read_headers-print fuel u size fields body (cg_http_packet_addheader pkt h) plain room left
          (omega arith) in
      (
        t,
        read_step fuel s u size (line ++ lf ∷ []) h pkt got long parse
            ∙ (next
                ∙ ap (λ l. some (record pkt { header_list = l }, t))
                    (append_assoc pkt.header_list (h ∷ []) (headers_of fields))),
        after,
      )
