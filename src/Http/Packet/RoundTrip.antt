-- ===== src/Http/Packet/RoundTrip.antt =====
-- A packet that is written is read again.
use dlna.Prelude.{
  ℕ, ◌+◌, ◌≤◌, ◌<◌, ◌≡◌, refl, ap, sym, ◌∙◌, true, some, List, [], ◌∷◌, ◌++◌, arith, Bytes, length,
  take, drop, take-all,
}
use dlna.Prelude.Int.{pos}
use dlna.Str.{Memory, cg_string_getvalue}
use dlna.Socket.{Kernel}
use dlna.Socket.Streams.{Incoming, Reliable}
use dlna.Http.Packet.{
  CgHttpPacket, crlf, cg_http_packet_post, cg_http_packet_read_headers,
  cg_http_packet_getcontentlength,
}
use dlna.Http.Packet.Post.{headers_of, print_headers, post-print}
use dlna.Http.Packet.Headers.{AllPlain, read_headers-print}
use dlna.Http.Packet.Body.{ended, read_content}
use dlna.Http.Packet.Body.Content.{with_content, read_content-take}

drop_all : (xs : Bytes) → drop (length xs) xs ≡ []
drop_all [] = refl
drop_all (x ∷ xs) = drop_all xs

-- A packet that cg_http_packet_post writes to a connection that accepts at least a byte at a time,
-- and that is read from one that delivers these bytes in portions of any size, comes back:
-- cg_http_packet_read_headers ends with exactly its headers in their order, and the reading of the
-- content ends with exactly its content and nothing left over. Its names hold no delimiter and are
-- not empty, its values neither begin nor end with one, both without terminators and line feeds,
-- each header fits in the line buffer, the header Content-Length tells the size of the content,
-- which is not empty, memory is granted, the line buffer has more than 3 bytes, the packet read
-- into has no headers, and the fuel is at least the size of all that is printed and the number of
-- headers.
pub read-post :
    {S T : Type 0} {out : Kernel S} {sent : S → Bytes} {inp : Kernel T} {rest : T → Bytes}
    → Reliable out sent
    → Incoming inp rest
    → (connected : S → T) → ((t : S) → rest (connected t) ≡ sent t)
    → (mem : Memory) (fuel : ℕ) (s : S) (size : ℕ) (fields : List (Bytes × Bytes)) (body : Bytes)
      (pkt empty : CgHttpPacket)
    → sent s ≡ []
    → pkt.header_list ≡ headers_of fields
    → cg_string_getvalue pkt.content ≡ some body
    → cg_http_packet_getcontentlength pkt ≡ pos (length body)
    → 0 < length body
    → AllPlain size fields
    → 3 < size
    → mem.alloc (length body + 1) ≡ true
    → empty.header_list ≡ []
    → length (print_headers fields) + length fields + 2 + length body ≤ fuel
    → (t : S) × (cg_http_packet_post out fuel s pkt ≡ some t)
      × (u : T) × (read : CgHttpPacket) × (cg_http_packet_read_headers inp fuel
            (connected t)
            size
            empty
          ≡ some (read, u))
      × (read.header_list ≡ pkt.header_list)
      × (v : T) × (back : CgHttpPacket) × (read_content inp mem fuel u (length body) read
          ≡ ended (true, (back, v)))
      × (back.header_list ≡ pkt.header_list)
      × (cg_string_getvalue back.content ≡ some body)
      × (rest v ≡ [])
read-post {S} {T} {sent = sent} {rest = rest} out inp connected network mem fuel s size fields body
      pkt empty start list content len positive plain room alloc none_yet enough =
    let (t, e, all) = post-print out fuel s fields body pkt list content len (omega arith) in
    let whole : rest (connected t) ≡ print_headers fields ++ (crlf ++ body) =
      network t ∙ all ∙ ap (λ l. l ++ (print_headers fields ++ (crlf ++ body))) start in
    let (u, got, left) =
      read_headers-print inp fuel (connected t) size fields body empty plain room whole
        (omega arith) in
    let read : CgHttpPacket = record empty {
      header_list = empty.header_list ++ headers_of fields;
    } in
    let same : read.header_list ≡ pkt.header_list =
      ap (λ l. l ++ headers_of fields) none_yet ∙ sym list in
    let size_left : length (rest u) ≡ length body = ap length left in
    let (v, ends, after) =
      read_content-take inp mem fuel u (length body) read alloc positive (omega arith)
        (omega arith) in
    (
      t,
      e,
      u,
      read,
      got,
      same,
      v,
      with_content read (take (length body) (rest u)),
      ends,
      same,
      ap some (ap (take (length body)) left ∙ take-all (length body) body (omega arith)),
      after ∙ ap (drop (length body)) left ∙ drop_all body,
    )
