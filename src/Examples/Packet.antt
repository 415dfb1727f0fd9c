-- ===== src/Examples/Packet.antt =====
-- A connection that carries one byte at a time.
use dlna.Prelude.{
  ℕ, zero, suc, ◌≤◌, ◌<◌, ◌≡◌, refl, ap, true, false, Option, none, some, List, [], ◌∷◌, ◌++◌,
  arith, Bytes, codes, length, take, drop, ◌⊎◌,
}
use dlna.Str.{Memory, cg_string_new, cg_string_getvalue}
use dlna.Socket.{Kernel, cg_socket_readline, cg_socket_write}
use dlna.Socket.Streams.{Incoming, Outgoing, Reliable}
use dlna.Socket.Line.{readline-ends}
use dlna.Socket.Write.{Written, write-ends}
use dlna.Prelude.Int.{pos}
use dlna.Text.{cg_strcasecmp, strcasecmp, toupper}
use dlna.Text.Search.{is_one_of}
use dlna.Http.Packet.{headerline_delim}
use dlna.Prelude.{All}
use dlna.Tokenizer.{cg_string_tokenizer_new}
use dlna.Tokenizer.Steps.{words}
use dlna.Tokenizer.Tokens.{all_tokens, all_tokens-words}
use dlna.Http.Packet.{
  CgHttpPacket, header_line, cg_http_packet_post, cg_http_packet_read_headers,
  cg_http_packet_getcontentlength,
}
use dlna.Http.Packet.HeaderLine.{trimmed, header_line-trimmed}
use dlna.Http.Packet.Post.{headers_of}
use dlna.Http.Packet.Headers.{Plain}
use dlna.Http.Packet.Body.{running, ended, read_content}
use dlna.Http.Packet.Body.Content.{read_content_never_ends}
use dlna.Http.Packet.RoundTrip.{read-post}

abbrev recv_one_byte : Bytes → ℕ → Option Bytes × Bytes
recv_one_byte [] n = (some [], [])
recv_one_byte (c ∷ s) n = (some (c ∷ []), s)

abbrev send_one_byte : Bytes → Bytes → Option ℕ × Bytes
send_one_byte s [] = (some 0, s)
send_one_byte s (c ∷ cmd) = (some 1, s ++ c ∷ [])

abbrev trickle : Kernel Bytes
trickle = record { recv = recv_one_byte; send = send_one_byte }

abbrev same_bytes : Bytes → Bytes
same_bytes s = s

recv_one_byte-some :
    (s : Bytes) (n : ℕ)
    → 0 < n
    → 0 < length s
    → (m : ℕ) × (t : Bytes) × (0 < m)
      × (m ≤ n)
      × (m ≤ length s)
      × (recv_one_byte s n ≡ (some (take m s), t))
      × (t ≡ drop m s)
recv_one_byte-some [] n lt more = absurd (omega arith)
recv_one_byte-some (c ∷ s) n lt more = (1, s, omega arith, omega arith, omega arith, refl, refl)

recv_one_byte-end :
    (s : Bytes) (n : ℕ) → s ≡ [] → (t : Bytes) × (recv_one_byte s n ≡ (some [], t)) × (t ≡ [])
recv_one_byte-end [] n e = ([], refl, refl)
recv_one_byte-end (c ∷ s) n e = absurd (cc)

trickle-Incoming : Incoming trickle same_bytes
trickle-Incoming = record { recv_some = recv_one_byte-some; recv_end = recv_one_byte-end }

send_one_byte-all :
    (s bytes : Bytes)
    → 0 < length bytes
    → (n : ℕ) × (t : Bytes) × (send_one_byte s bytes ≡ (some (suc n), t))
      × (suc n ≤ length bytes)
      × (t ≡ s ++ take (suc n) bytes)
send_one_byte-all s [] lt = absurd (omega arith)
send_one_byte-all s (c ∷ bytes) lt = (0, s ++ c ∷ [], refl, omega arith, refl)

trickle-Reliable : Reliable trickle same_bytes
trickle-Reliable = record { send_all = send_one_byte-all }

-- A connection on which nothing can be written.
abbrev broken : Kernel Bytes
broken = record { recv = recv_one_byte; send = λ s bytes. (none, s) }

broken-Outgoing : Outgoing broken same_bytes
broken-Outgoing = record { send_some = λ s bytes n t e. absurd (cc); send_none = λ s bytes t e. cc }

abbrev zeros : ℕ → Bytes
zeros zero = []
zeros (suc n) = 0 ∷ zeros n

length-zeros : (n : ℕ) → length (zeros n) ≡ n
length-zeros zero = refl
length-zeros (suc n) = ap suc (length-zeros n)

abbrev memory : Memory
memory = record { alloc = λ n. true; fresh = zeros; length-fresh = length-zeros }

write-ends_example :
    (n : ℕ) × (t : Bytes) × (cg_socket_write broken 22 [] (65 ∷ []) ≡ some (n, t))
    × Written broken-Outgoing [] (65 ∷ []) 0 n t
write-ends_example = write-ends broken-Outgoing 22 [] (65 ∷ []) (omega arith)

abbrev two_lines : Bytes
two_lines = codes "GET" ++ 13 ∷ 10 ∷ codes "HOST"

readline-ends_example :
    (result : Option Bytes) × (t : Bytes) × (cg_socket_readline trickle 20 two_lines 4
      ≡ some (result, t))
    × (((result ≡ none) × (t ≡ []))
        ⊎ ((line dropped : Bytes) × (result ≡ some line)
            × (two_lines ≡ line ++ (dropped ++ t))
            × (0 < length line)
            × (length line < 4)))
readline-ends_example = readline-ends trickle-Incoming 20 two_lines 4 (omega arith) (omega arith)

all_tokens-words_example :
    all_tokens (32 ∷ []) 7 (cg_string_tokenizer_new (codes "A  b ") (32 ∷ []))
    ≡ some (words (32 ∷ []) (codes "A  b "))
all_tokens-words_example =
    all_tokens-words (32 ∷ []) (codes "A  b ") 7 (refl, (refl, (refl, (refl, (refl, tt)))))
      (omega arith)

letter-clean : All (λ d. is_one_of d headerline_delim 4 ≡ false) (codes "A")
unfolding is_one_of
letter-clean = (refl, tt)

header_line-trimmed_example :
    header_line (codes "A" ++ 58 ∷ codes " b:c ")
    ≡ some (some (record { name = some (codes "A"); value = some (trimmed (codes " b:c ")) }))
header_line-trimmed_example =
    header_line-trimmed (codes "A") (codes " b:c ") (omega arith) letter-clean
      (refl, (refl, (refl, (refl, (refl, (refl, (refl, tt)))))))

abbrev empty_packet : CgHttpPacket
empty_packet = record { header_list = []; content = cg_string_new }

read_content_never_ends_example :
    read_content trickle memory 1000 (codes "ab") 3 empty_packet ≡ running
read_content_never_ends_example =
    read_content_never_ends trickle-Incoming memory 1000 (codes "ab") 3 empty_packet refl
      (omega arith) (omega arith)

abbrev fields : List (Bytes × Bytes)
fields = (codes "Content-Length", codes "2") ∷ []

abbrev packet : CgHttpPacket
packet = record {
  header_list = headers_of fields;
  content = record { value = some (codes "ok"); mem_size = 3; value_size = 2 };
}

fields-Plain : Plain 512 (codes "Content-Length") (codes "2")
unfolding is_one_of
fields-Plain = record {
  some_name = omega arith;
  name_clean = (
    refl,
    (
      refl,
      (
        refl,
        (refl, (refl, (refl, (refl, (refl, (refl, (refl, (refl, (refl, (refl, (refl, tt))))))))))),
      ),
    ),
  );
  value_starts = refl;
  value_ends = λ c e. let same : 50 ≡ c = cc in rw (← same) refl;
  name_free = (
    refl,
    (
      refl,
      (
        refl,
        (refl, (refl, (refl, (refl, (refl, (refl, (refl, (refl, (refl, (refl, (refl, tt))))))))))),
      ),
    ),
  );
  value_free = (refl, tt);
  value_inside = (refl, tt);
  fits = omega arith;
}

packet-length : cg_http_packet_getcontentlength packet ≡ pos 2
unfolding cg_http_packet_getcontentlength cg_strcasecmp strcasecmp toupper
packet-length = refl

read-post_example :
    (t : Bytes) × (cg_http_packet_post trickle 100 [] packet ≡ some t)
    × (u : Bytes) × (read : CgHttpPacket) × (cg_http_packet_read_headers trickle 100 t 512
          empty_packet
        ≡ some (read, u))
    × (read.header_list ≡ packet.header_list)
    × (v : Bytes) × (back : CgHttpPacket) × (read_content trickle memory 100 u 2 read
        ≡ ended (true, (back, v)))
    × (back.header_list ≡ packet.header_list)
    × (cg_string_getvalue back.content ≡ some (codes "ok"))
    × (v ≡ [])
read-post_example =
    read-post trickle-Reliable trickle-Incoming same_bytes (λ t. refl) memory 100 [] 512 fields
      (codes "ok") packet empty_packet refl refl refl packet-length (omega arith) (fields-Plain, tt)
      (omega arith) refl refl (omega arith)
