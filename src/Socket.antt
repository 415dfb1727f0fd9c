-- ===== src/Socket.antt =====
-- clinkc/src/cybergarage/net/csocket.c: reading from a connected socket and writing to it. What
-- `recv` and `send` do is a parameter, with the state of the connection on the way.
pub mod Streams
pub mod Line
pub mod Write
use mathlib.Core.Option
use dlna.Prelude.{
  ℕ, zero, suc, ◌+◌, ◌-◌, Bool, true, false, ◌||◌, Option, none, some, List, [], ◌∷◌, Bytes, length,
  take, drop, ◌==◌, ltb, if◌then◌else◌, get_elem?,
}

-- `recv` with a size and `send` with the bytes; `none` is the result -1
pub record Kernel (S : Type 0) : Type 0 where
  pub recv : S → ℕ → Option Bytes × S
  pub send : S → Bytes → Option ℕ × S

abbrev pub lf : ℕ
lf = 10

abbrev pub retry_max : ℕ
retry_max = 10

module _ {S : Type 0} (kernel : Kernel S) where
  unfoldable pub cg_socket_read : S → ℕ → Option Bytes × S
  cg_socket_read sock n = kernel.recv sock n

  -- The loop that fills the buffer, with the room that is left in it. The result `none` is -1.
  unfoldable pub read_chars : ℕ → S → Option Bytes × S
  unfolding cg_socket_read
  read_chars zero sock = (some [], sock)
  read_chars (suc room) sock =
      let (got, t) = cg_socket_read sock 1 in
      elim got [
        | none ↦ (none, t)
        | some [] ↦ (none, t)
        | some (c ∷ cs) ↦ elim (c == lf) [
          | true ↦ (some (c ∷ []), t)
          | false ↦ let (line, u) = read_chars room t in (Option.map (λ l. c ∷ l) line, u)
        ]
      ]

  -- The loop that drops the rest of a long line; `none` means that the fuel ran out.
  unfoldable pub drop_chars : ℕ → S → Option S
  unfolding cg_socket_read
  drop_chars zero sock = none
  drop_chars (suc fuel) sock =
      let (got, t) = cg_socket_read sock 1 in
      elim got [
        | none ↦ some t
        | some [] ↦ some t
        | some (c ∷ cs) ↦ elim (c == lf) [ true ↦ some t | false ↦ drop_chars fuel t ]
      ]

  -- The bytes of the line, or `none` for -1. Without a result if the fuel ran out, or if the buffer
  -- has no room at all, where the source reads in front of it.
  unfoldable pub cg_socket_readline : ℕ → S → ℕ → Option (Option Bytes × S)
  unfolding read_chars drop_chars
  cg_socket_readline fuel sock buffer_len =
      let (got, t) = read_chars (buffer_len - 1) sock in
      elim got [
        | none ↦ some (none, t)
        | some line ↦ elim (get_elem? line (length line - 1)) [
          | none ↦ none
          | some c ↦ elim (c == lf) [
            | true ↦ some (some line, t)
            | false ↦ Option.map (λ u. (some line, u)) (drop_chars fuel t)
          ]
        ]
      ]

  -- the bytes that were skipped
  unfoldable pub cg_socket_skip : S → ℕ → ℕ × S
  unfolding cg_socket_read
  cg_socket_skip sock zero = (0, sock)
  cg_socket_skip sock (suc n) =
      let (got, t) = cg_socket_read sock 1 in
      elim got [
        | none ↦ (0, t)
        | some [] ↦ (0, t)
        | some (c ∷ cs) ↦ let (count, u) = cg_socket_skip t n in (suc count, u)
      ]

  -- The loop of `cg_socket_write`, at the bytes that are left. `none` means that the fuel ran out.
  unfoldable pub write_loop : ℕ → S → Bytes → ℕ → ℕ → Option (ℕ × S)
  write_loop zero sock cmd total retry = none
  write_loop (suc fuel) sock cmd total retry =
      let (accepted, t) = kernel.send sock cmd in
      let again = write_loop fuel t cmd total (retry + 1) in
      elim accepted [
        | none ↦ if ltb retry_max (retry + 1) then some (0, t) else again
        | some zero ↦ if ltb retry_max (retry + 1) then some (0, t) else again
        | some (suc n) ↦
            let more = write_loop fuel t (drop (suc n) cmd) (total + suc n) 0 in
            if ltb 0 (length cmd - suc n) then more else some (total + suc n, t)
      ]

  unfoldable pub cg_socket_write : ℕ → S → Bytes → Option (ℕ × S)
  unfolding write_loop
  cg_socket_write fuel sock cmd =
      if length cmd == 0 then some (0, sock) else write_loop fuel sock cmd 0 0
