-- ===== src/Http/Packet/Post.antt =====
-- What a packet looks like on the wire.
use dlna.Prelude.{
  ℕ, ◌+◌, ◌≤◌, ◌≡◌, refl, ap, sym, ◌∙◌, true, false, Option, some, List, [], ◌∷◌, ◌++◌, arith,
  append_assoc, append-nil, Bytes, length, length-append, ◌==◌, leb, take-append,
}
use dlna.Prelude.Int.{pos}
use dlna.Uri.{◌>>=◌}
use dlna.Str.{cg_string_getvalue}
use dlna.Http.Headers.{HttpHeader}
use dlna.Http.Packet.{
  CgHttpPacket, colon, sp, crlf, write, post_headers, post_content, cg_http_packet_post,
  cg_http_packet_getcontentlength,
}
use dlna.Socket.{Kernel}
use dlna.Socket.Streams.{Reliable}
use dlna.Socket.Write.{write-Reliable}

-- the headers of these names and values
abbrev pub headers_of : List (Bytes × Bytes) → List HttpHeader
headers_of [] = []
headers_of ((name, value) ∷ fields) =
    record { name = some name; value = some value } ∷ headers_of fields

abbrev pub print_headers : List (Bytes × Bytes) → Bytes
print_headers [] = []
print_headers ((name, value) ∷ fields) =
    name ++ (colon ++ (sp ++ (value ++ (crlf ++ print_headers fields))))

line_assoc :
    (s a b c d e f : Bytes)
    → (((((s ++ a) ++ b) ++ c) ++ d) ++ e) ++ f ≡ s ++ (a ++ (b ++ (c ++ (d ++ (e ++ f)))))
line_assoc s a b c d e f =
    append_assoc ((((s ++ a) ++ b) ++ c) ++ d) e f
    ∙ append_assoc (((s ++ a) ++ b) ++ c) d (e ++ f)
    ∙ append_assoc ((s ++ a) ++ b) c (d ++ (e ++ f))
    ∙ append_assoc (s ++ a) b (c ++ (d ++ (e ++ f)))
    ∙ append_assoc s a (b ++ (c ++ (d ++ (e ++ f))))

module _ {S : Type 0} {kernel : Kernel S} {sent : S → Bytes} (peer : Reliable kernel sent) where
  write-sent :
      (fuel : ℕ) (s : S) (cmd : Bytes)
      → length cmd ≤ fuel
      → (t : S) × (write kernel fuel s cmd ≡ some t) × (sent t ≡ sent s ++ cmd)
  unfolding write
  write-sent fuel s cmd enough =
      let (n, t, e, all) = write-Reliable peer fuel s cmd enough in (t, rw e refl, all)

  post_headers-print :
      (fuel : ℕ) (s : S) (fields : List (Bytes × Bytes))
      → length (print_headers fields) ≤ fuel
      → (t : S) × (post_headers kernel fuel s (headers_of fields) ≡ some t)
        × (sent t ≡ sent s ++ print_headers fields)
  unfolding post_headers
  post_headers-print fuel s [] enough = (s, refl, sym (append-nil (sent s)))
  post_headers-print fuel s ((name, value) ∷ fields) enough =
      let size : length name + (2 + (length value + (2 + length (print_headers fields)))) ≤ fuel =
        omega (
          arith,
          enough,
          length-append name (colon ++ (sp ++ (value ++ (crlf ++ print_headers fields)))),
          length-append value (crlf ++ print_headers fields),
        ) in
      let (a, ea, sa) = write-sent fuel s name (omega arith) in
      let (b, eb, sb) = write-sent fuel a colon (omega arith) in
      let (c, ec, sc) = write-sent fuel b sp (omega arith) in
      let (d, ed, sd) = write-sent fuel c value (omega arith) in
      let (e, ee, se) = write-sent fuel d crlf (omega arith) in
      let (t, et, st) = post_headers-print fuel e fields (omega arith) in
      (
        t,
        rw (post_headers, ea, eb, ec, ed, ee) et,
        rw (st, se, sd, sc, sb, sa)
            (line_assoc (sent s) name colon sp value crlf (print_headers fields)),
      )

  content-sent :
      (fuel : ℕ) (s : S) (body : Bytes)
      → length body ≤ fuel
      → (t : S) × (post_content kernel fuel s (some body) (pos (length body)) ≡ some t)
        × (sent t ≡ sent s ++ body)
  unfolding post_content
  content-sent fuel s [] enough = (s, refl, sym (append-nil (sent s)))
  content-sent fuel s (x ∷ body) enough =
      let some_bytes : (length (x ∷ body) == 0) ≡ false = ground arith in
      let inside : leb (length (x ∷ body)) (length (x ∷ body) + 1) ≡ true = ground arith in
      let (t, e, all) = write-sent fuel s (x ∷ body) enough in
      let exact = take-append (length (x ∷ body)) (x ∷ body) (0 ∷ []) refl in
      (t, rw (post_content, some_bytes, inside) (ap (write kernel fuel s) exact ∙ e), all)

  -- a packet with these headers, whose header Content-Length tells the size of its content
  pub post-print :
      (fuel : ℕ) (s : S) (fields : List (Bytes × Bytes)) (body : Bytes) (pkt : CgHttpPacket)
      → pkt.header_list ≡ headers_of fields
      → cg_string_getvalue pkt.content ≡ some body
      → cg_http_packet_getcontentlength pkt ≡ pos (length body)
      → length (print_headers fields) + 2 + length body ≤ fuel
      → (t : S) × (cg_http_packet_post kernel fuel s pkt ≡ some t)
        × (sent t ≡ sent s ++ (print_headers fields ++ (crlf ++ body)))
  unfolding cg_http_packet_post
  post-print fuel s fields body pkt list content len enough =
      let (a, ea, sa) = post_headers-print fuel s fields (omega arith) in
      let (b, eb, sb) = write-sent fuel a crlf (omega arith) in
      let (c, ec, sc) = content-sent fuel b body (omega arith) in
      let last : S → Option S = λ x.
        post_content kernel fuel x (cg_string_getvalue pkt.content)
          (cg_http_packet_getcontentlength pkt) in
      let finish : S → Option S = λ x. write kernel fuel x crlf >>= last in
      (
        c,
        ap (λ l. post_headers kernel fuel s l >>= finish) list
            ∙ ap (λ o. o >>= finish) ea
            ∙ ap (λ o. o >>= last) eb
            ∙ ap (λ x. post_content kernel fuel b x (cg_http_packet_getcontentlength pkt)) content
            ∙ ap (λ n. post_content kernel fuel b (some body) n) len
            ∙ ec,
        rw (sc, sb, sa)
            (append_assoc (sent s ++ print_headers fields) crlf body
              ∙ append_assoc (sent s) (print_headers fields) (crlf ++ body)),
      )
