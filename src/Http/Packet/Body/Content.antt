-- ===== src/Http/Packet/Body/Content.antt =====
-- A content of known length is read as it comes, and reading never ends if it does not come whole.
use dlna.Prelude.{
  ℕ, zero, suc, ◌+◌, ◌-◌, ◌≤◌, ◌<◌, ◌≡◌, refl, ap, sym, ◌∙◌, Bool, true, false, ◌&&◌, Option, some,
  [], ◌∷◌, ◌++◌, arith, append_assoc, append-nil, Bytes, length, length-append, Bool-cases,
  List-cases, inl, inr, ltb, take, drop, length-take_of_le, length-drop,
}
use dlna.Str.{Memory, cg_string_setpointervalue}
use dlna.Socket.{Kernel, cg_socket_read}
use dlna.Socket.Streams.{Incoming}
use dlna.Http.Packet.{CgHttpPacket}
use dlna.Http.Packet.Body.{
  Run, running, ended, tries_max, next_tries, Got, got_more, go_on, content_loop, keep_content,
  map_run, read_content,
}

take_nil : (j : ℕ) → take {A = ℕ} j [] ≡ []
take_nil zero = refl
take_nil (suc j) = refl

drop_nil : (j : ℕ) → drop {A = ℕ} j [] ≡ []
drop_nil zero = refl
drop_nil (suc j) = refl

take-take : (m k : ℕ) (xs : Bytes) → m ≤ k → take m xs ++ take (k - m) (drop m xs) ≡ take k xs
take-take zero k xs le = ap (λ j. take j xs) (omega arith)
take-take (suc m) zero xs le = absurd (omega arith)
take-take (suc m) (suc k) [] le = take_nil (suc k - suc m)
take-take (suc m) (suc k) (x ∷ xs) le =
    ap (λ j. x ∷ (take m xs ++ take j (drop m xs))) (omega arith)
    ∙ ap (λ l. x ∷ l) (take-take m k xs (omega arith))

drop-drop : (m k : ℕ) (xs : Bytes) → m ≤ k → drop (k - m) (drop m xs) ≡ drop k xs
drop-drop zero k xs le = ap (λ j. drop j xs) (omega arith)
drop-drop (suc m) zero xs le = absurd (omega arith)
drop-drop (suc m) (suc k) [] le = drop_nil (suc k - suc m)
drop-drop (suc m) (suc k) (x ∷ xs) le =
    ap (λ j. drop j (drop m xs)) (omega arith) ∙ drop-drop m k xs (omega arith)

module _ {S : Type 0} (kernel : Kernel S) where
  -- a round in which `bytes` come
  loop_step :
      (fuel : ℕ) (s t : S) (con_len : ℕ) (got bytes : Bytes) (tries : ℕ)
      → length got < con_len
      → tries < tries_max
      → kernel.recv s (con_len - length got) ≡ (some bytes, t)
      → 0 < length (got ++ bytes)
      → content_loop kernel (suc fuel) s con_len (got, 0) tries
        ≡ content_loop kernel fuel t con_len (got ++ bytes, 0) tries
  unfolding content_loop cg_socket_read got_more go_on
  loop_step fuel s t con_len got bytes tries lt few e positive =
      let on : (ltb (length got) (con_len + 0) && ltb tries tries_max) ≡ true = ground arith in
      let same : next_tries (length (got ++ bytes)) tries ≡ tries = ground arith in
      let room : con_len + 0 - length got ≡ con_len - length got = omega arith in
      let loop : S → Got → ℕ → Run (Got × S) =
        λ u more k. content_loop kernel fuel u con_len more k in
      let round : Option Bytes × S → Run (Got × S) =
        λ r. go_on kernel loop (got_more r.0 (got, 0)) r.1 tries in
      ap
        (λ (b : Bool). elim b [
          | false ↦ ended ((got, 0), s)
          | true ↦ round (kernel.recv s (con_len + 0 - length got))
        ])
        on
      ∙ ap (λ n. round (kernel.recv s n)) room
      ∙ ap round e
      ∙ ap (λ k. loop t (got ++ bytes, 0) k) same

  loop_stop :
      (fuel : ℕ) (s : S) (con_len : ℕ) (got : Bytes) (tries : ℕ)
      → length got ≡ con_len
      → content_loop kernel (suc fuel) s con_len (got, 0) tries ≡ ended ((got, 0), s)
  unfolding content_loop
  loop_stop fuel s con_len got tries full =
      let off : (ltb (length got) (con_len + 0) && ltb tries tries_max) ≡ false = ground arith in
      rw (content_loop, off) refl

abbrev pub with_content : CgHttpPacket → Bytes → CgHttpPacket
with_content pkt body = record pkt {
  content = record { value = some body; mem_size = length body + 1; value_size = length body };
}

module _ {S : Type 0} {kernel : Kernel S} {rest : S → Bytes} (peer : Incoming kernel rest) where
  content_loop-take :
      (fuel : ℕ) (s : S) (con_len : ℕ) (got : Bytes) (tries : ℕ)
      → length got ≤ con_len
      → con_len ≤ length got + length (rest s)
      → con_len - length got < fuel
      → tries < tries_max
      → (t : S) × (content_loop kernel fuel s con_len (got, 0) tries
          ≡ ended ((got ++ take (con_len - length got) (rest s), 0), t))
        × (rest t ≡ drop (con_len - length got) (rest s))
  content_loop-take zero s con_len got tries le enough lt few = absurd (omega arith)
  content_loop-take (suc fuel) s con_len got tries le enough lt few =
      elim (Bool-cases (ltb (length got) con_len)) [
        | inr full ↦
            let left : con_len - length got ≡ 0 = ground arith in
            (
              s,
              loop_stop kernel fuel s con_len got tries (ground arith)
                  ∙ ap (λ l. ended ((l, 0), s))
                      (sym (append-nil got) ∙ ap (λ k. got ++ take k (rest s)) (sym left)),
              ap (λ k. drop k (rest s)) (sym left),
            )
        | inl more ↦
            let k = con_len - length got in
            let (m, t, m_0, m_k, m_len, got_m, left) =
              peer.recv_some s k (ground arith) (ground arith) in
            let size : length (got ++ take m (rest s)) ≡ length got + m =
              omega
                (arith, length-append got (take m (rest s)), length-take_of_le m (rest s) m_len) in
            let fewer : length (rest t) ≡ length (rest s) - m =
              ap length left ∙ length-drop m (rest s) in
            let step =
              loop_step kernel fuel s t con_len got (take m (rest s)) tries (ground arith) few got_m
                (omega arith) in
            let (u, ends, after) =
              content_loop-take fuel t con_len (got ++ take m (rest s)) tries (omega arith)
                (omega arith) (omega arith) few in
            let k' : con_len - length (got ++ take m (rest s)) ≡ k - m = omega arith in
            (
              u,
              step
                  ∙ ends
                  ∙ ap (λ l. ended ((l, 0), u))
                      (append_assoc got (take m (rest s)) _
                        ∙ ap (λ l. got ++ (take m (rest s) ++ l))
                            (ap (λ j. take j (rest t)) k' ∙ ap (take (k - m)) left)
                        ∙ ap (λ l. got ++ l) (take-take m k (rest s) m_k)),
              after
                  ∙ ap (λ j. drop j (rest t)) k'
                  ∙ ap (drop (k - m)) left
                  ∙ drop-drop m k (rest s) m_k,
            )
      ]

  content_loop_never_ends :
      (fuel : ℕ) (s : S) (con_len : ℕ) (got : Bytes) (tries : ℕ)
      → 0 < length got + length (rest s)
      → length got + length (rest s) < con_len
      → tries < tries_max
      → content_loop kernel fuel s con_len (got, 0) tries ≡ running
  unfolding content_loop
  content_loop_never_ends zero s con_len got tries some_bytes short few = refl
  content_loop_never_ends (suc fuel) s con_len got tries some_bytes short few =
      elim (List-cases (rest s)) [
        | inl e ↦
            let (t, got_m, left) = peer.recv_end s (con_len - length got) e in
            let none_left : length (rest s) ≡ 0 = ap length e in
            let none_after : length (rest t) ≡ 0 = ap length left in
            let size = length-append got [] in
            loop_step kernel fuel s t con_len got [] tries (omega arith) few got_m (omega arith)
            ∙ content_loop_never_ends fuel t con_len (got ++ []) tries (omega arith) (omega arith)
                few
        | inr (c, cs, e) ↦
            let (m, t, m_0, m_k, m_len, got_m, left) =
              peer.recv_some s (con_len - length got) (omega arith) (omega (arith, ap length e)) in
            let size : length (got ++ take m (rest s)) ≡ length got + m =
              omega
                (arith, length-append got (take m (rest s)), length-take_of_le m (rest s) m_len) in
            let fewer : length (rest t) ≡ length (rest s) - m =
              ap length left ∙ length-drop m (rest s) in
            loop_step kernel fuel s t con_len got (take m (rest s)) tries (omega arith) few got_m
              (omega arith)
            ∙ content_loop_never_ends fuel t con_len (got ++ take m (rest s)) tries (omega arith)
                (omega arith) few
      ]

  keep_content-some :
      (pkt : CgHttpPacket) (body : Bytes) (s : S)
      → 0 < length body
      → keep_content pkt ((body, 0), s) ≡ (true, (with_content pkt body, s))
  unfolding keep_content cg_string_setpointervalue
  keep_content-some pkt [] s lt = absurd (omega arith)
  keep_content-some pkt (c ∷ body) s lt = refl

  allocated :
      (mem : Memory) (fuel : ℕ) (s : S) (con_len : ℕ) (pkt : CgHttpPacket)
      → mem.alloc (con_len + 1) ≡ true
      → read_content kernel mem fuel s con_len pkt
        ≡ map_run (keep_content pkt) (content_loop kernel fuel s con_len ([], 0) 0)
  unfolding read_content
  allocated mem fuel s con_len pkt room = rw (read_content, room) refl

  -- A content that comes whole is kept, and nothing behind it is read.
  pub read_content-take :
      (mem : Memory) (fuel : ℕ) (s : S) (con_len : ℕ) (pkt : CgHttpPacket)
      → mem.alloc (con_len + 1) ≡ true
      → 0 < con_len
      → con_len ≤ length (rest s)
      → con_len < fuel
      → (t : S) × (read_content kernel mem fuel s con_len pkt
          ≡ ended (true, (with_content pkt (take con_len (rest s)), t)))
        × (rest t ≡ drop con_len (rest s))
  unfolding read_content
  read_content-take mem fuel s con_len pkt room positive enough lt =
      let (t, ends, left) =
        content_loop-take fuel s con_len [] 0 (omega arith) (omega arith) (omega arith)
          (omega arith) in
      let all : con_len - 0 ≡ con_len = omega arith in
      let size = length-take_of_le con_len (rest s) enough in
      let start : read_content kernel mem fuel s con_len pkt
          ≡ map_run (keep_content pkt) (content_loop kernel fuel s con_len ([], 0) 0) =
        allocated mem fuel s con_len pkt room in
      (
        t,
        start
            ∙ ap (map_run (keep_content pkt)) ends
            ∙ ap (λ k. ended (keep_content pkt ((take k (rest s), 0), t))) all
            ∙ ap ended (keep_content-some pkt (take con_len (rest s)) t (omega arith)),
        left ∙ ap (λ k. drop k (rest s)) all,
      )

  -- When memory is granted and the peer closes the connection behind a part of a content, at least
  -- a byte but less than the length told, the loop that reads the content never ends, however long
  -- it runs: the counter of tries is only raised while nothing has been read at all.
  pub read_content_never_ends :
      (mem : Memory) (fuel : ℕ) (s : S) (con_len : ℕ) (pkt : CgHttpPacket)
      → mem.alloc (con_len + 1) ≡ true
      → 0 < length (rest s)
      → length (rest s) < con_len
      → read_content kernel mem fuel s con_len pkt ≡ running
  unfolding read_content
  read_content_never_ends mem fuel s con_len pkt room some_bytes short =
      allocated mem fuel s con_len pkt room
      ∙ ap (map_run (keep_content pkt))
          (content_loop_never_ends fuel s con_len [] 0 (omega arith) (omega arith) (omega arith))
