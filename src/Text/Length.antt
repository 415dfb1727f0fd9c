-- ===== src/Text/Length.antt =====
-- `strlen` of a buffer, in clinkc/src/cybergarage/util/cstring_function.c.
use dlna.Prelude.{
  ◌≤◌, ◌≡◌, refl, ap, suc, [], ◌∷◌, Bytes, length, take, take-all, arith, ◌==◌, false,
}
use dlna.Text.{strlen}
use dlna.Text.Search.Find.{Lacks}

pub strlen-le : (s : Bytes) → strlen s ≤ length s
unfolding strlen
strlen-le [] = omega arith
strlen-le (c ∷ s) = ground (arith, strlen-le s)

pub strlen-length : (s : Bytes) → Lacks 0 s → strlen s ≡ length s
unfolding strlen
strlen-length [] h = refl
strlen-length (c ∷ s) (ne, h) =
    let byte : (c == 0) ≡ false = ground arith in rw byte (ap suc (strlen-length s h))

-- The text of a buffer without a byte 0 is all of it.
pub take-strlen : (s : Bytes) → Lacks 0 s → take (strlen s) s ≡ s
take-strlen s h = take-all (strlen s) s (omega (arith, strlen-length s h))
