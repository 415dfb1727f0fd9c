-- ===== src/Socket/Write.antt =====
-- Writing ends.
use dlna.Prelude.{
  ℕ, zero, suc, ◌+◌, ◌-◌, ◌*◌, ◌≤◌, ◌<◌, ◌≡◌, refl, ap, sym, ◌∙◌, true, Option, none, some, [], ◌∷◌,
  ◌++◌, arith, Bytes, length, take, drop, ◌==◌, ltb, if◌then◌else◌, inl, inr, ◌⊎◌, Bool-cases,
  append_assoc, append-nil, take-append-drop, take-all, length-drop,
}
use dlna.Socket.{Kernel, retry_max, write_loop, cg_socket_write}
use dlna.Socket.Streams.{Outgoing, Reliable}

length-zero : (xs : Bytes) → (length xs == 0) ≡ true → xs ≡ []
length-zero [] e = refl
length-zero (x ∷ xs) e = absurd (ground arith)

module _ {S : Type 0} {kernel : Kernel S} {sent : S → Bytes} (peer : Outgoing kernel sent) where
  -- All the bytes that were left are written, and their number is added; or the function gives up
  -- with 0, and a part of them is written.
  abbrev pub Written : Bytes → Bytes → ℕ → ℕ → S → Type 0
  Written before cmd total n t =
      ((n ≡ total + length cmd) × (sent t ≡ before ++ cmd))
      ⊎ ((n ≡ 0)
          × (front back : Bytes) × (cmd ≡ front ++ back)
          × (0 < length back)
          × (sent t ≡ before ++ front))

  -- fuel for the bytes that are left after `retry` failures in a row
  abbrev pub rounds : ℕ → ℕ → ℕ
  rounds n retry = n * (retry_max + 1) + (retry_max + 1) - retry

  abbrev Ends : ℕ → S → Bytes → ℕ → ℕ → Type 0
  Ends fuel s cmd total retry =
      (n : ℕ) × (t : S) × (write_loop kernel fuel s cmd total retry ≡ some (n, t))
      × Written (sent s) cmd total n t

  abbrev AllEnd : ℕ → Type 0
  AllEnd fuel =
      (s : S) (cmd : Bytes) (total retry : ℕ)
      → 0 < length cmd
      → retry ≤ retry_max
      → rounds (length cmd) retry ≤ fuel
      → Ends fuel s cmd total retry

  -- what is written after a part is written
  Written-part :
      (before cmd : Bytes) (total k n : ℕ) (t : S)
      → k ≤ length cmd
      → Written (before ++ take k cmd) (drop k cmd) (total + k) n t
      → Written before cmd total n t
  Written-part before cmd total k n t le (inl (count, all)) = inl (
    omega (arith, length-drop k cmd),
    all
        ∙ append_assoc before (take k cmd) (drop k cmd)
        ∙ ap (λ l. before ++ l) (take-append-drop k cmd),
  )
  Written-part before cmd total k n t le (inr (none_left, front, back, split, more, part)) = inr (
    none_left,
    take k cmd ++ front,
    back,
    sym (take-append-drop k cmd)
        ∙ ap (λ l. take k cmd ++ l) split
        ∙ sym (append_assoc (take k cmd) front back),
    more,
    part ∙ append_assoc before (take k cmd) front,
  )

  -- a round in which nothing is accepted
  failed :
      (fuel : ℕ)
      → AllEnd fuel
      → (s t : S) (cmd : Bytes) (total retry : ℕ) → 0 < length cmd
      → retry ≤ retry_max
      → rounds (length cmd) retry ≤ suc fuel
      → sent t ≡ sent s
      → (r : Option (ℕ × S))
      → r ≡ (
          if ltb retry_max (retry + 1)
          then some (0, t)
          else write_loop kernel fuel t cmd total (retry + 1))
      → (n : ℕ) × (u : S) × (r ≡ some (n, u)) × Written (sent s) cmd total n u
  failed fuel rest s t cmd total retry positive few enough same r e =
      elim (Bool-cases (ltb retry_max (retry + 1))) [
        | inl stop ↦ (
          0,
          t,
          e ∙ rw stop refl,
          inr (refl, [], cmd, refl, positive, same ∙ sym (append-nil (sent s))),
        )
        | inr go ↦
            let fewer : retry + 1 ≤ retry_max = ground arith in
            let (n, u, ends, w) = rest t cmd total (retry + 1) positive fewer (omega arith) in
            (n, u, e ∙ rw go ends, rw (← same) w)
      ]

  step :
      (fuel : ℕ)
      → AllEnd fuel
      → (s : S) (cmd : Bytes) (total retry : ℕ) → 0 < length cmd
      → retry ≤ retry_max
      → rounds (length cmd) retry ≤ suc fuel
      → (accepted : Option ℕ) (t : S) → kernel.send s cmd ≡ (accepted, t)
      → Ends (suc fuel) s cmd total retry
  unfolding write_loop
  step fuel rest s cmd total retry positive few enough none t e =
      failed fuel rest s t cmd total retry positive few enough (peer.send_none s cmd t e)
        (write_loop kernel (suc fuel) s cmd total retry) (rw (write_loop, e, e) refl)
  step fuel rest s cmd total retry positive few enough (some zero) t e =
      let (_, same) = peer.send_some s cmd 0 t e in
      failed fuel rest s t cmd total retry positive few enough (same ∙ append-nil (sent s))
        (write_loop kernel (suc fuel) s cmd total retry) (rw (write_loop, e, e) refl)
  step fuel rest s cmd total retry positive few enough (some (suc n)) t e =
      let (le, grown) = peer.send_some s cmd (suc n) t e in
      elim (Bool-cases (ltb 0 (length cmd - suc n))) [
        | inl more ↦
            let left = length-drop (suc n) cmd in
            let (m, u, ends, w) =
              rest t (drop (suc n) cmd) (total + suc n) 0 (ground arith) (omega arith)
                (omega arith) in
            (
              m,
              u,
              rw (write_loop, e, more, e) ends,
              Written-part (sent s) cmd total (suc n) m u le (rw (← grown) w),
            )
        | inr done ↦ (
          total + suc n,
          t,
          rw (write_loop, e, done, e) refl,
          inl (ground arith, grown ∙ ap (λ l. sent s ++ l) (take-all (suc n) cmd (ground arith))),
        )
      ]

  write_loop-ends : (fuel : ℕ) → AllEnd fuel
  write_loop-ends zero s cmd total retry positive few enough = absurd (omega arith)
  write_loop-ends (suc fuel) s cmd total retry positive few enough =
      step fuel (write_loop-ends fuel) s cmd total retry positive few enough (kernel.send s cmd).0
        (kernel.send s cmd).1 refl

  -- Whatever send accepts or refuses, cg_socket_write ends after at most 11 calls of send for
  -- every byte and 11 more: it returns the size of the bytes and has written all of them, or it
  -- returns 0 and has written a proper part of them from the front.
  pub write-ends :
      (fuel : ℕ) (s : S) (cmd : Bytes)
      → rounds (length cmd) 0 ≤ fuel
      → (n : ℕ) × (t : S) × (cg_socket_write kernel fuel s cmd ≡ some (n, t))
        × Written (sent s) cmd 0 n t
  unfolding cg_socket_write
  write-ends fuel s cmd enough = elim (Bool-cases (length cmd == 0)) [
    | inl empty ↦ (
      0,
      s,
      rw empty refl,
      inl (
        ground arith,
        sym (append-nil (sent s)) ∙ ap (λ l. sent s ++ l) (sym (length-zero cmd empty)),
      ),
    )
    | inr full ↦
        let (n, t, ends, w) = write_loop-ends fuel s cmd 0 0 (ground arith) (omega arith) enough in
        (n, t, rw full ends, w)
  ]

module _ {S : Type 0} {kernel : Kernel S} {sent : S → Bytes} (peer : Reliable kernel sent) where
  write_loop-Reliable :
      (fuel : ℕ) (s : S) (cmd : Bytes) (total : ℕ)
      → 0 < length cmd
      → length cmd ≤ fuel
      → (n : ℕ) × (t : S) × (write_loop kernel fuel s cmd total 0 ≡ some (n, t))
        × (sent t ≡ sent s ++ cmd)
  unfolding write_loop
  write_loop-Reliable zero s cmd total positive enough = absurd (omega arith)
  write_loop-Reliable (suc fuel) s cmd total positive enough =
      let (n, t, e, le, grown) = peer.send_all s cmd positive in
      elim (Bool-cases (ltb 0 (length cmd - suc n))) [
        | inl more ↦
            let left = length-drop (suc n) cmd in
            let (m, u, ends, all) =
              write_loop-Reliable fuel t (drop (suc n) cmd) (total + suc n) (ground arith)
                (omega arith) in
            (
              m,
              u,
              rw (write_loop, e, more, e) ends,
              all
                  ∙ ap (λ l. l ++ drop (suc n) cmd) grown
                  ∙ append_assoc (sent s) (take (suc n) cmd) (drop (suc n) cmd)
                  ∙ ap (λ l. sent s ++ l) (take-append-drop (suc n) cmd),
            )
        | inr done ↦ (
          total + suc n,
          t,
          rw (write_loop, e, done, e) refl,
          grown ∙ ap (λ l. sent s ++ l) (take-all (suc n) cmd (ground arith)),
        )
      ]

  pub write-Reliable :
      (fuel : ℕ) (s : S) (cmd : Bytes)
      → length cmd ≤ fuel
      → (n : ℕ) × (t : S) × (cg_socket_write kernel fuel s cmd ≡ some (n, t))
        × (sent t ≡ sent s ++ cmd)
  unfolding cg_socket_write
  write-Reliable fuel s cmd enough = elim (Bool-cases (length cmd == 0)) [
    | inl empty ↦ (
      0,
      s,
      rw empty refl,
      sym (append-nil (sent s)) ∙ ap (λ l. sent s ++ l) (sym (length-zero cmd empty)),
    )
    | inr full ↦
        let (n, t, ends, all) = write_loop-Reliable fuel s cmd 0 (ground arith) enough in
        (n, t, rw full ends, all)
  ]
