-- ===== src/Http/Packet.antt =====
-- clinkc/src/cybergarage/http/chttp_packet.c: writing a packet to a socket, and reading its headers.
pub mod HeaderLine
pub mod Post
pub mod Headers
pub mod Body
pub mod RoundTrip
use dlna.Prelude.{
  ℕ, zero, suc, ◌+◌, ◌-◌, ◌*◌, ◌%◌, ◌^◌, Bool, true, false, ◌&&◌, ◌||◌, Option, none, some, List,
  [], ◌∷◌, ◌++◌, Bytes, length, take, drop, ltb, leb, ◌==◌, if◌then◌else◌, codes,
}
use dlna.Prelude.Int.{ℤ, pos, negsuc}
use dlna.Text.{CStr, cg_strlen}
use dlna.Text.Trim.{strrtrim}
use dlna.Text.Decimal.{cg_str2long}
use dlna.Str.{
  Memory, CgString, cg_string_new, cg_string_getvalue, cg_string_setvalue,
  cg_string_setpointervalue,
}
use dlna.Uri.{◌>>=◌}
use dlna.Http.Headers.{
  HttpHeader, cg_http_header_new, cg_http_header_setname, cg_http_header_setvalue,
  cg_http_headerlist_getvalue,
}
use dlna.Socket.{Kernel, cg_socket_read, cg_socket_write, cg_socket_readline}
use dlna.Tokenizer.{
  CgStringTokenizer, cg_string_tokenizer_new, cg_string_tokenizer_nexttoken,
  cg_string_tokenizer_nextalltoken, string_to_nul, string_at, current,
}

pub record CgHttpPacket : Type 0 where
  pub header_list : List HttpHeader
  pub content : CgString

-- CG_HTTP_COLON, CG_HTTP_SP, CG_HTTP_CRLF and CG_HTTP_HEADERLINE_DELIM
abbrev pub colon : Bytes
colon = 58 ∷ []

abbrev pub sp : Bytes
sp = 32 ∷ []

abbrev pub crlf : Bytes
crlf = 13 ∷ 10 ∷ []

abbrev pub headerline_delim : Bytes
headerline_delim = 13 ∷ 10 ∷ 32 ∷ 58 ∷ []

unfoldable pub cg_http_packet_clear : Memory → CgHttpPacket → CgHttpPacket
unfolding cg_string_setvalue
cg_http_packet_clear mem pkt = record {
  header_list = [];
  content = cg_string_setvalue mem pkt.content none;
}

abbrev pub cg_http_packet_addheader : CgHttpPacket → HttpHeader → CgHttpPacket
cg_http_packet_addheader pkt header = record pkt { header_list = pkt.header_list ++ header ∷ [] }

unfoldable pub cg_http_packet_getcontentlength : CgHttpPacket → ℤ
unfolding cg_http_headerlist_getvalue cg_str2long
cg_http_packet_getcontentlength pkt =
    cg_str2long (cg_http_headerlist_getvalue pkt.header_list (some (codes "Content-Length")))

-- what the loop of `cg_http_packet_getheadersize` adds up
unfoldable pub header_sizes : List HttpHeader → ℕ
header_sizes [] = 0
header_sizes (header ∷ list) =
    cg_strlen header.name
    + length colon
    + length sp
    + cg_strlen header.value
    + length crlf
    + header_sizes list

unfoldable pub cg_http_packet_getheadersize : CgHttpPacket → ℕ
unfolding header_sizes
cg_http_packet_getheadersize pkt = header_sizes pkt.header_list + length crlf

abbrev pub header_with : Bytes → Bytes → HttpHeader
header_with name value =
    cg_http_header_setvalue (cg_http_header_setname cg_http_header_new (some name)) (some value)

-- The value, if there are more tokens behind the name at `name`, and the header.
unfoldable pub read_value : Bool → CgStringTokenizer → ℕ → Option (Option HttpHeader)
unfolding cg_string_tokenizer_nextalltoken strrtrim
read_value false u name = some (some (header_with (string_at u.value name) []))
read_value true u name = cg_string_tokenizer_nextalltoken u >>= λ v. current v >>= λ value. some (
    some (
      header_with (string_at v.value name)
        (strrtrim value headerline_delim (length headerline_delim))))

-- The name, if there is a token at all; `u` is the tokenizer behind it.
unfoldable pub read_name : Bool → Option ℕ → CgStringTokenizer → Option (Option HttpHeader)
unfolding read_value
read_name false token u = some none
read_name true none u = some none
read_name true (some name) u = read_value u.has_next_tokens u name

-- The header of a line, if the line has one. Without a result where the source writes to NULL.
unfoldable pub header_line : Bytes → Option (Option HttpHeader)
unfolding cg_string_tokenizer_new cg_string_tokenizer_nexttoken read_name
header_line line =
    let t = cg_string_tokenizer_new line headerline_delim in
    let u = cg_string_tokenizer_nexttoken t in read_name t.has_next_tokens u.curr_token u

module _ {S : Type 0} (kernel : Kernel S) where
  -- `cg_socket_write`, whose result the source does not look at
  unfoldable pub write : ℕ → S → Bytes → Option S
  unfolding cg_socket_write
  write fuel sock cmd = cg_socket_write kernel fuel sock cmd >>= λ r. some r.1

  -- the loop over the headers
  unfoldable pub post_headers : ℕ → S → List HttpHeader → Option S
  unfolding write
  post_headers fuel sock [] = some sock
  post_headers fuel sock (header ∷ list) = elim header.name [
    | none ↦ post_headers fuel sock list
    | some name ↦ write fuel sock name >>= λ a. write fuel a colon >>= λ b. write fuel b sp >>= λ c.
        (elim header.value [ none ↦ some c | some value ↦ write fuel c value ]) >>= λ d.
        write fuel d crlf >>= λ e. post_headers fuel e list
  ]

  -- The content with its terminator. Without a result where the source reads behind it.
  unfoldable pub post_content : ℕ → S → CStr → ℤ → Option S
  unfolding write
  post_content fuel sock none len = some sock
  post_content fuel sock (some content) (negsuc n) = some sock
  post_content fuel sock (some content) (pos n) =
      if n == 0
      then some sock
      else if leb n (length content + 1)
      then write fuel sock (take n (content ++ 0 ∷ []))
      else none

  unfoldable pub cg_http_packet_post : ℕ → S → CgHttpPacket → Option S
  unfolding post_headers post_content write cg_http_packet_getcontentlength
  cg_http_packet_post fuel sock pkt = post_headers fuel sock pkt.header_list >>= λ a.
      write fuel a crlf >>= λ b.
      post_content fuel b (cg_string_getvalue pkt.content) (cg_http_packet_getcontentlength pkt)

  -- What a round of the loop does with a header, with a line that is short or not, and with the
  -- result of `cg_socket_readline`; `loop` are the next rounds.
  abbrev pub Rounds : Type 0
  Rounds = S → CgHttpPacket → Option (CgHttpPacket × S)

  unfoldable pub add_found :
      Rounds → Option HttpHeader → S → CgHttpPacket → Option (CgHttpPacket × S)
  add_found loop none sock pkt = loop sock pkt
  add_found loop (some header) sock pkt = loop sock (cg_http_packet_addheader pkt header)

  unfoldable pub long_enough : Rounds → Bool → Bytes → S → CgHttpPacket → Option (CgHttpPacket × S)
  unfolding header_line add_found
  long_enough loop false line sock pkt = some (pkt, sock)
  long_enough loop true line sock pkt =
      header_line (string_to_nul line) >>= λ found. add_found loop found sock pkt

  unfoldable pub line_read : Rounds → Option Bytes → S → CgHttpPacket → Option (CgHttpPacket × S)
  unfolding long_enough
  line_read loop none sock pkt = some (pkt, sock)
  line_read loop (some line) sock pkt = long_enough loop (ltb 2 (length line)) line sock pkt

  -- `none` means that the fuel ran out, or a write outside a buffer.
  unfoldable pub cg_http_packet_read_headers : ℕ → S → ℕ → CgHttpPacket → Option (CgHttpPacket × S)
  unfolding cg_socket_readline line_read
  cg_http_packet_read_headers zero sock size pkt = none
  cg_http_packet_read_headers (suc fuel) sock size pkt =
      cg_socket_readline kernel (suc fuel) sock size >>= λ r.
      line_read (λ t p. cg_http_packet_read_headers fuel t size p) r.0 r.1 pkt
