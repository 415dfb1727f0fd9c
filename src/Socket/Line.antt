-- ===== src/Socket/Line.antt =====
-- Lines of a stream.
use dlna.Prelude.{
  ℕ, zero, suc, ◌+◌, ◌-◌, ◌≤◌, ◌<◌, ◌≡◌, refl, ap, sym, ◌∙◌, false, Option, none, some, [], ◌∷◌,
  ◌++◌, arith, Bytes, length, ◌==◌, get_elem?, All, inl, inr, ◌⊎◌, Bool-cases, List-cases,
  length-append,
}
use dlna.Socket.{Kernel, lf, cg_socket_read, read_chars, drop_chars, cg_socket_readline}
use dlna.Socket.Streams.{Incoming, recv_one}

-- no line feed
abbrev pub Inside : Bytes → Type 0
Inside = All (λ c. (c == lf) ≡ false)

get_elem-lt : (line : Bytes) (i : ℕ) → i < length line → (c : ℕ) × (get_elem? line i ≡ some c)
get_elem-lt [] i lt = absurd (omega arith)
get_elem-lt (x ∷ line) zero lt = (x, refl)
get_elem-lt (x ∷ line) (suc i) lt = get_elem-lt line i (omega arith)

get_elem-snoc : (line : Bytes) (c : ℕ) → get_elem? (line ++ c ∷ []) (length line) ≡ some c
get_elem-snoc [] c = refl
get_elem-snoc (x ∷ line) c = get_elem-snoc line c

get_elem-last :
    (line : Bytes) (c : ℕ) → get_elem? (line ++ c ∷ []) (length (line ++ c ∷ []) - 1) ≡ some c
get_elem-last line c =
    ap (get_elem? (line ++ c ∷ [])) (omega (arith, length-append line (c ∷ [])))
    ∙ get_elem-snoc line c

last_of : (line : Bytes) → 0 < length line → (c : ℕ) × (get_elem? line (length line - 1) ≡ some c)
last_of line positive = get_elem-lt line (length line - 1) (omega arith)

module _ {S : Type 0} {kernel : Kernel S} {rest : S → Bytes} (peer : Incoming kernel rest) where
  read_chars-line :
      (room : ℕ) (s : S) (line more : Bytes)
      → rest s ≡ line ++ lf ∷ more
      → Inside line
      → length line < room
      → (t : S) × (read_chars kernel room s ≡ (some (line ++ lf ∷ []), t)) × (rest t ≡ more)
  unfolding read_chars cg_socket_read
  read_chars-line zero s line more e i lt = absurd (omega arith)
  read_chars-line (suc room) s [] more e i lt =
      let (t, got, left) = recv_one peer s lf more e in (t, rw (read_chars, got, got) refl, left)
  read_chars-line (suc room) s (c ∷ line) more e (out, i) lt =
      let (t, got, left) = recv_one peer s c (line ++ lf ∷ more) e in
      let (u, next, after) = read_chars-line room t line more left i (omega arith) in
      (u, rw (read_chars, got, out, got, next) refl, after)

  -- a line that fits
  pub readline-line :
      (fuel : ℕ) (s : S) (len : ℕ) (line more : Bytes)
      → rest s ≡ line ++ lf ∷ more
      → Inside line
      → length line + 1 < len
      → (t : S) × (cg_socket_readline kernel fuel s len ≡ some (some (line ++ lf ∷ []), t))
        × (rest t ≡ more)
  unfolding cg_socket_readline
  readline-line fuel s len line more e i lt =
      let (t, got, left) = read_chars-line (len - 1) s line more e i (omega arith) in
      (t, rw (cg_socket_readline, got, get_elem-last line lf, got) refl, left)

  -- a byte read leaves less
  shrinks :
      (s t : S) (c : ℕ) (cs : Bytes)
      → rest s ≡ c ∷ cs
      → rest t ≡ cs
      → (fuel : ℕ) → length (rest s) < suc fuel
      → length (rest t) < fuel
  shrinks s t c cs e left fuel lt =
      let a : length (rest s) ≡ length cs + 1 = rw e (omega arith) in
      let b : length (rest t) ≡ length cs = ap length left in omega arith

  drop_chars-ends :
      (fuel : ℕ) (s : S)
      → length (rest s) < fuel
      → (dropped : Bytes) × (t : S) × (drop_chars kernel fuel s ≡ some t)
        × (rest s ≡ dropped ++ rest t)
  unfolding drop_chars cg_socket_read
  drop_chars-ends zero s lt = absurd (omega arith)
  drop_chars-ends (suc fuel) s lt = elim (List-cases (rest s)) [
    | inl e ↦
        let (t, got, left) = peer.recv_end s 1 e in
        ([], t, rw (drop_chars, got, got) refl, e ∙ sym left)
    | inr (c, cs, e) ↦
        let (t, got, left) = recv_one peer s c cs e in
        elim (Bool-cases (c == lf)) [
          | inl hit ↦ (c ∷ [], t, rw (drop_chars, got, hit, got) refl, rw left e)
          | inr miss ↦
              let shorter : length (rest t) < fuel = shrinks s t c cs e left fuel lt in
              let (dropped, u, next, after) = drop_chars-ends fuel t shorter in
              (
                c ∷ dropped,
                u,
                rw (drop_chars, got, miss, got) next,
                e ∙ ap (λ l. c ∷ l) (sym left ∙ after),
              )
        ]
  ]

  -- what the first loop has read; -1 only at the end of the stream
  read_chars-ends :
      (room : ℕ) (s : S)
      → (t : S) × (((read_chars kernel room s ≡ (none, t)) × (rest t ≡ []))
          ⊎ ((line : Bytes) × (read_chars kernel room s ≡ (some line, t))
              × (rest s ≡ line ++ rest t)
              × (length line ≤ room)
              × ((room ≡ 0) ⊎ (0 < length line))))
  unfolding read_chars cg_socket_read
  read_chars-ends zero s = (s, inr ([], refl, refl, omega arith, inl refl))
  read_chars-ends (suc room) s = elim (List-cases (rest s)) [
    | inl e ↦
        let (t, got, left) = peer.recv_end s 1 e in (t, inl (rw (read_chars, got, got) refl, left))
    | inr (c, cs, e) ↦
        let (t, got, left) = recv_one peer s c cs e in
        elim (Bool-cases (c == lf)) [
          | inl hit ↦ (
            t,
            inr (
              c ∷ [],
              rw (read_chars, got, hit, got) refl,
              rw left e,
              omega arith,
              inr (omega arith),
            ),
          )
          | inr miss ↦
              let (u, after) = read_chars-ends room t in
              (
                u,
                elim after [
                  | inl (next, end) ↦ inl (rw (read_chars, got, miss, got, next) refl, end)
                  | inr (line, next, split, short, _) ↦ inr (
                    c ∷ line,
                    rw (read_chars, got, miss, got, next) refl,
                    e ∙ ap (λ l. c ∷ l) (sym left ∙ split),
                    omega arith,
                    inr (omega arith),
                  )
                ],
              )
        ]
  ]

  -- On a connection that delivers a finite text without failing, in portions of any size,
  -- cg_socket_readline with a buffer of at least 2 bytes and fuel above the size of the text ends:
  -- it returns -1 and the text is used up, or it returns a line of at least one byte that is
  -- shorter than the buffer and is the front of the text, behind which it may have dropped some
  -- bytes.
  pub readline-ends :
      (fuel : ℕ) (s : S) (buffer_len : ℕ)
      → 1 < buffer_len
      → length (rest s) < fuel
      → (result : Option Bytes) × (t : S) × (cg_socket_readline kernel fuel s buffer_len
          ≡ some (result, t))
        × (((result ≡ none) × (rest t ≡ []))
            ⊎ ((line dropped : Bytes) × (result ≡ some line)
                × (rest s ≡ line ++ (dropped ++ rest t))
                × (0 < length line)
                × (length line < buffer_len)))
  unfolding cg_socket_readline
  readline-ends fuel s buffer_len room enough =
      let (t, after) = read_chars-ends (buffer_len - 1) s in
      elim after [
        | inl (got, end) ↦ (none, t, rw (cg_socket_readline, got, got) refl, inl (refl, end))
        | inr (line, got, split, short, some_read) ↦
            let positive : 0 < length line = elim some_read [
              | inl e ↦ absurd (omega arith)
              | inr p ↦ p
            ] in
            let (c, last) = last_of line positive in
            let fewer : length (rest t) < fuel =
              omega (arith, ap length split, length-append line (rest t)) in
            elim (Bool-cases (c == lf)) [
              | inl hit ↦ (
                some line,
                t,
                rw (cg_socket_readline, got, last, hit, got) refl,
                inr (line, [], refl, split, positive, omega arith),
              )
              | inr miss ↦
                  let (dropped, u, ends, left) = drop_chars-ends fuel t fewer in
                  (
                    some line,
                    u,
                    rw (cg_socket_readline, got, last, miss, got, ends) refl,
                    inr (
                      line,
                      dropped,
                      refl,
                      split ∙ ap (λ l. line ++ l) left,
                      positive,
                      omega arith,
                    ),
                  )
            ]
      ]
