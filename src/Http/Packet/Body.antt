-- ===== src/Http/Packet/Body.antt =====
-- clinkc/src/cybergarage/http/chttp_packet.c: the branch of `cg_http_packet_read_body` for a content
-- whose length is known.
pub mod Content
use dlna.Prelude.{
  ℕ, zero, suc, ◌+◌, ◌-◌, Bool, true, false, ◌&&◌, Option, none, some, List, [], ◌∷◌, ◌++◌, Bytes,
  length, take, ltb, ◌==◌, if◌then◌else◌,
}
use dlna.Str.{Memory, cg_string_setpointervalue}
use dlna.Socket.{Kernel, cg_socket_read}
use dlna.Http.Packet.{CgHttpPacket}

-- What has become of a run with limited fuel: it goes on, it has written in front of a buffer, or
-- it has ended.
pub data Run (A : Type 0) : Type 0 where
  running : Run A
  outside : Run A
  ended : A → Run A

abbrev pub tries_max : ℕ
tries_max = 20

-- `tries` after a round that leaves `read` bytes
abbrev pub next_tries : ℕ → ℕ → ℕ
next_tries read tries = if read == 0 then tries + 1 else tries

-- `readLen` is the length of `got`, less the number `below`, which is only positive if `got` is
-- empty: each failure of the socket takes 1 off.
abbrev pub Got : Type 0
Got = Bytes × ℕ

abbrev pub one_less : Got → Got
one_less ([], below) = ([], below + 1)
one_less (c ∷ got, below) = (take (length got) (c ∷ got), below)

-- `none` if bytes come in front of the buffer
unfoldable pub got_more : Option Bytes → Got → Option Got
got_more none got = some (one_less got)
got_more (some bytes) (got, zero) = some (got ++ bytes, 0)
got_more (some []) (got, suc below) = some (got, suc below)
got_more (some (c ∷ bytes)) (got, suc below) = none

-- the end of the branch
unfoldable pub keep_content : {S : Type 0} → CgHttpPacket → Got × S → Bool × (CgHttpPacket × S)
unfolding cg_string_setpointervalue
keep_content pkt (([], below), sock) = (true, (pkt, sock))
keep_content pkt ((c ∷ got, below), sock) = (
  true,
  (
    record pkt {
      content = cg_string_setpointervalue pkt.content (some (c ∷ got)) (length (c ∷ got));
    },
    sock,
  ),
)

abbrev pub map_run : {A B : Type 0} → (A → B) → Run A → Run B
map_run f running = running
map_run f outside = outside
map_run f (ended a) = ended (f a)

module _ {S : Type 0} (kernel : Kernel S) where
  -- a round behind its read; `loop` are the next rounds
  unfoldable pub go_on : (S → Got → ℕ → Run (Got × S)) → Option Got → S → ℕ → Run (Got × S)
  go_on loop none sock tries = outside
  go_on loop (some got) sock tries = loop sock got (next_tries (length got.0) tries)

  unfoldable pub content_loop : ℕ → S → ℕ → Got → ℕ → Run (Got × S)
  unfolding cg_socket_read got_more go_on
  content_loop zero sock con_len got tries = running
  content_loop (suc fuel) sock con_len got tries =
      elim (ltb (length got.0) (con_len + got.1) && ltb tries tries_max) [
        | false ↦ ended (got, sock)
        | true ↦
            let r = cg_socket_read kernel sock (con_len + got.1 - length got.0) in
            go_on (λ t more k. content_loop fuel t con_len more k) (got_more r.0 got) r.1 tries
      ]

  unfoldable pub read_content : Memory → ℕ → S → ℕ → CgHttpPacket → Run (Bool × (CgHttpPacket × S))
  unfolding content_loop keep_content
  read_content mem fuel sock con_len pkt =
      if mem.alloc (con_len + 1)
      then map_run (keep_content pkt) (content_loop fuel sock con_len ([], 0) 0)
      else ended (false, (pkt, sock))
