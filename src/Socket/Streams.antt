-- ===== src/Socket/Streams.antt =====
-- What `recv` and `send` do on a connection that works.
use dlna.Prelude.{
  ℕ, suc, ◌≤◌, ◌<◌, ◌≡◌, refl, ap, ◌∙◌, none, some, [], ◌∷◌, ◌++◌, arith, Bytes, length, take, drop,
}
use dlna.Socket.{Kernel}

-- Reading of a peer that sends `rest` and closes: every `recv` gets some of the bytes, as many as
-- the network pleases, and nothing only at the end.
pub record Incoming {S : Type 0} (kernel : Kernel S) (rest : S → Bytes) : Type 0 where
  pub recv_some :
      (s : S) (n : ℕ)
      → 0 < n
      → 0 < length (rest s)
      → (m : ℕ) × (t : S) × (0 < m)
        × (m ≤ n)
        × (m ≤ length (rest s))
        × (kernel.recv s n ≡ (some (take m (rest s)), t))
        × (rest t ≡ drop m (rest s))
  pub recv_end :
      (s : S) (n : ℕ) → rest s ≡ [] → (t : S) × (kernel.recv s n ≡ (some [], t)) × (rest t ≡ [])

-- Writing: `send` accepts a part of the bytes, or fails.
pub record Outgoing {S : Type 0} (kernel : Kernel S) (sent : S → Bytes) : Type 0 where
  pub send_some :
      (s : S) (bytes : Bytes) (n : ℕ) (t : S)
      → kernel.send s bytes ≡ (some n, t)
      → (n ≤ length bytes) × (sent t ≡ sent s ++ take n bytes)
  pub send_none :
      (s : S) (bytes : Bytes) (t : S) → kernel.send s bytes ≡ (none, t) → sent t ≡ sent s

-- Writing that never fails: `send` accepts at least a byte.
pub record Reliable {S : Type 0} (kernel : Kernel S) (sent : S → Bytes) : Type 0 where
  pub send_all :
      (s : S) (bytes : Bytes)
      → 0 < length bytes
      → (n : ℕ) × (t : S) × (kernel.send s bytes ≡ (some (suc n), t))
        × (suc n ≤ length bytes)
        × (sent t ≡ sent s ++ take (suc n) bytes)

take-one : (m : ℕ) (xs : Bytes) (c : ℕ) (cs : Bytes) → m ≡ 1 → xs ≡ c ∷ cs → take m xs ≡ c ∷ []
take-one m xs c cs one e = rw (one, e) refl

drop-one : (m : ℕ) (xs : Bytes) (c : ℕ) (cs : Bytes) → m ≡ 1 → xs ≡ c ∷ cs → drop m xs ≡ cs
drop-one m xs c cs one e = rw (one, e) refl

module _ {S : Type 0} {kernel : Kernel S} {rest : S → Bytes} (peer : Incoming kernel rest) where
  -- one byte
  pub recv_one :
      (s : S) (c : ℕ) (cs : Bytes)
      → rest s ≡ c ∷ cs
      → (t : S) × (kernel.recv s 1 ≡ (some (c ∷ []), t)) × (rest t ≡ cs)
  recv_one s c cs e =
      let (m, t, m_0, m_1, m_len, got, left) =
        peer.recv_some s 1 (omega arith) (rw e (omega arith)) in
      let one : m ≡ 1 = omega arith in
      (
        t,
        got ∙ ap (λ b. (some b, t)) (take-one m (rest s) c cs one e),
        left ∙ drop-one m (rest s) c cs one e,
      )
