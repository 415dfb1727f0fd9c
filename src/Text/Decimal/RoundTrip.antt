-- ===== src/Text/Decimal/RoundTrip.antt =====
-- What is printed is read back, and fits the buffers.
use dlna.Prelude.{
  ℕ, zero, suc, ◌+◌, ◌*◌, ◌/◌, ◌%◌, ◌^◌, ◌≤◌, ◌<◌, ◌≡◌, ◌≢◌, refl, ap, sym, ◌∙◌, true, false, some,
  [], ◌∷◌, ◌++◌, arith, Bytes, length, take-all, All, ltb, Bool-cases, inl, inr, append-nil,
}
use dlna.Prelude.Int.{ℤ, pos, negsuc, neg}
use dlna.Text.Decimal.{
  digits, print_int, cg_int2str, cg_long2str, is_digit, scan, atoi, cg_str2long, integer_buflen,
  to_int, to_long, long_buflen,
}

digits-append :
    (fuel n : ℕ) (out rest : Bytes) → digits fuel n out ++ rest ≡ digits fuel n (out ++ rest)
unfolding digits
digits-append zero n out rest = refl
digits-append (suc fuel) n out rest =
    ground (arith, digits-append fuel (n / 10) ((b'0' + n % 10) ∷ out) rest)

scan_digit : (n d : ℕ) (out : Bytes) → d < 10 → scan n ((b'0' + d) ∷ out) ≡ scan (n * 10 + d) out
unfolding scan
scan_digit n d out h = ground arith

scan-digits : (fuel n : ℕ) (out : Bytes) → n < fuel → scan 0 (digits fuel n out) ≡ scan n out
unfolding digits
scan-digits zero n out h = absurd (omega arith)
scan-digits (suc fuel) n out h = elim (Bool-cases (ltb n 10)) [
  | inl small ↦
      let same : 0 * 10 + n ≡ n = omega arith in
      rw small (scan_digit 0 n out (ground arith) ∙ ap (λ m. scan m out) same)
  | inr big ↦ rw big (
      scan-digits fuel (n / 10) ((b'0' + n % 10) ∷ out) (ground arith)
      ∙ scan_digit (n / 10) (n % 10) out (omega arith)
      ∙ ap (λ m. scan m out) (omega arith))
]

length-digits :
    (fuel n k : ℕ) (out : Bytes)
    → n < 10 ^ (suc k)
    → length (digits fuel n out) ≤ suc k + length out
unfolding digits
length-digits zero n k out h = omega arith
length-digits (suc fuel) n zero out h = ground arith
length-digits (suc fuel) n (suc k) out h =
    ground (arith, length-digits fuel (n / 10) k ((b'0' + n % 10) ∷ out))

-- the first byte of a print is a digit
digits-cons :
    (fuel n : ℕ) (out : Bytes)
    → n < fuel
    → (d : ℕ) × (rest : Bytes) × (digits fuel n out ≡ d ∷ rest) × (is_digit d ≡ true)
unfolding digits is_digit
digits-cons zero n out h = absurd (omega arith)
digits-cons (suc fuel) n out h = elim (Bool-cases (ltb n 10)) [
  | inl small ↦ (b'0' + n, out, rw small refl, ground arith)
  | inr big ↦ rw big (digits-cons fuel (n / 10) _ (ground arith))
]

-- the text does not begin with a digit
abbrev pub StopsDigits : Bytes → Type 0
StopsDigits [] = Unit
StopsDigits (c ∷ s) = is_digit c ≡ false

scan_stop : (n : ℕ) (s : Bytes) → StopsDigits s → scan n s ≡ n
unfolding scan
scan_stop n [] h = refl
scan_stop n (c ∷ s) h = rw h

scan_back :
    (fuel n : ℕ) (rest : Bytes)
    → n < fuel
    → StopsDigits rest
    → scan 0 (digits fuel n [] ++ rest) ≡ n
scan_back fuel n rest lt h =
    ap (scan 0) (digits-append fuel n [] rest) ∙ scan-digits fuel n rest lt ∙ scan_stop n rest h

signed_digit : (d : ℕ) (s : Bytes) → is_digit d ≡ true → atoi (d ∷ s) ≡ pos (scan 0 (d ∷ s))
unfolding atoi is_digit
signed_digit d s h = ground arith

atoi-digits :
    (fuel n : ℕ) (rest : Bytes)
    → n < fuel
    → StopsDigits rest
    → atoi (digits fuel n [] ++ rest) ≡ pos n
atoi-digits fuel n rest lt h =
    let (d, t, e, digit) = digits-cons fuel n [] lt in
    ap (λ s. atoi (s ++ rest)) e
    ∙ signed_digit d (t ++ rest) digit
    ∙ ap (λ s. pos (scan 0 (s ++ rest))) (sym e)
    ∙ ap pos (scan_back fuel n rest lt h)

-- `atoi` reads a printed number back, whatever text without a digit in front follows it.
pub atoi-print_int : (z : ℤ) (rest : Bytes) → StopsDigits rest → atoi (print_int z ++ rest) ≡ z
unfolding print_int
atoi-print_int (pos n) rest h = atoi-digits (n + 1) n rest (omega arith) h
atoi-print_int (negsuc n) rest h =
    unfold atoi in ap neg (scan_back (n + 2) (n + 1) rest (omega arith) h) ∙ neg_suc n
  where
    neg_suc : (n : ℕ) → neg (n + 1) ≡ negsuc n
    neg_suc n = ground arith

abbrev pub magnitude : ℤ → ℕ
magnitude (pos n) = n
magnitude (negsuc n) = n + 1

pub length-print_int :
    (z : ℤ) (k : ℕ) → magnitude z < 10 ^ suc k → length (print_int z) ≤ suc (suc k)
unfolding print_int
length-print_int (pos n) k h = omega (arith, length-digits (n + 1) n k [] h)
length-print_int (negsuc n) k h = omega (arith, length-digits (n + 2) (n + 1) k [] h)

-- No `int` of 32 bits is cut off by the buffer that the callers pass.
pub cg_int2str_fits : (z : ℤ) → magnitude z ≤ 2 ^ 31 → cg_int2str z integer_buflen ≡ print_int z
unfolding cg_int2str
cg_int2str_fits z h =
    let bound = length-print_int z 9 (omega arith) in take-all 15 (print_int z) (omega arith)

-- Nor is a `long` of 64 bits.
pub cg_long2str_fits : (z : ℤ) → magnitude z ≤ 2 ^ 63 → cg_long2str z long_buflen ≡ print_int z
unfolding cg_long2str
cg_long2str_fits z h =
    let bound = length-print_int z 18 (omega arith) in take-all 31 (print_int z) (omega arith)

-- A number of magnitude at most 2 ^ 63, printed by cg_long2str into the buffer that the callers
-- pass, is read back by cg_str2long.
pub cg_str2long-cg_long2str :
    (z : ℤ) → magnitude z ≤ 2 ^ 63 → cg_str2long (some (cg_long2str z long_buflen)) ≡ z
unfolding cg_str2long
cg_str2long-cg_long2str z h =
    ap atoi (cg_long2str_fits z h ∙ sym (append-nil (print_int z))) ∙ atoi-print_int z [] tt

-- A number in the range of `int` is kept.
pub to_int-to_long : (n : ℕ) → n < 2 ^ 31 → to_int (to_long (pos n)) ≡ pos n
unfolding to_int to_long
to_int-to_long n h = ground arith

abbrev pub AllDigits : Bytes → Type 0
AllDigits = All (λ c. is_digit c ≡ true)

digits-AllDigits : (fuel n : ℕ) (out : Bytes) → AllDigits out → AllDigits (digits fuel n out)
unfolding digits is_digit
digits-AllDigits zero n out h = h
digits-AllDigits (suc fuel) n out h = elim (Bool-cases (ltb n 10)) [
  | inl small ↦ rw small (ground arith, h)
  | inr big ↦ rw big (digits-AllDigits fuel (n / 10) _ (ground arith, h))
]

-- A number that is not negative is printed as digits alone.
pub print_int-AllDigits : (n : ℕ) → AllDigits (print_int (pos n))
unfolding print_int
print_int-AllDigits n = digits-AllDigits (n + 1) n [] tt

pub print_int-ne-nil : (n : ℕ) → print_int (pos n) ≢ []
unfolding print_int
print_int-ne-nil n h = let (d, rest, e, digit) = digits-cons (n + 1) n [] (omega arith) in cc
