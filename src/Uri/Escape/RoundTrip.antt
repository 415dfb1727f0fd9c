-- ===== src/Uri/Escape/RoundTrip.antt =====
-- The two loops are inverse to each other, but the guard in front of the second keeps it from running.
use dlna.Prelude.{
  ℕ, suc, ◌+◌, ◌*◌, ◌/◌, ◌%◌, ◌<◌, ◌≡◌, refl, ap, ◌∙◌, Bool, true, false, some, [], ◌∷◌, ◌++◌,
  arith, Bytes, length, get_elem?, leb, ◌==◌, All, Bool-cases, inl, inr, length-append, take-all,
  ◌≢◌,
}
use dlna.Text.Search.Find.{Lacks, strstr-byte}
use dlna.Uri.Escape.{
  cg_net_uri_isalphanumchar, is_hex, passes, size_of, cg_net_uri_isescapedstring, hex_digit,
  escape_byte, escape_loop, cg_net_uri_escapestring, digit_value, hex_value, escape_of,
  unescape_loop, cg_net_uri_unescapestring,
}

abbrev pub AreBytes : Bytes → Type 0
AreBytes = All (λ c. c < 256)

hex_value-hex_digit :
    (d e : ℕ) → d < 16 → e < 16 → hex_value (hex_digit d) (hex_digit e) ≡ 16 * d + e
unfolding hex_value hex_digit is_hex digit_value
hex_value-hex_digit d e h k = ground arith

alphanum-hex_digit : (d : ℕ) → d < 16 → cg_net_uri_isalphanumchar (hex_digit d) ≡ true
unfolding cg_net_uri_isalphanumchar hex_digit
alphanum-hex_digit d h = ground arith

hex-hex_digit : (d : ℕ) → d < 16 → is_hex (hex_digit d) ≡ true
unfolding is_hex hex_digit
hex-hex_digit d h = ground arith

-- an escape is read back as its byte
escape_of-hex :
    (c : ℕ) (s : Bytes) → c < 256 → escape_of (hex_digit (c / 16) ∷ hex_digit (c % 16) ∷ s) ≡ some c
unfolding escape_of
escape_of-hex c s h =
    rw
      (
        alphanum-hex_digit (c / 16) (omega arith),
        alphanum-hex_digit (c % 16) (omega arith),
        hex_value-hex_digit (c / 16) (c % 16) (omega arith) (omega arith),
      )
      (ap some (omega arith))

loop_plain :
    (c : ℕ) (t : Bytes)
    → cg_net_uri_isalphanumchar c ≡ true
    → unescape_loop (length (c ∷ t)) 0 (c ∷ t) ≡ c ∷ unescape_loop (length t) 0 t
unfolding unescape_loop cg_net_uri_isalphanumchar
loop_plain c t h = let other : (c == b'%') ≡ false = ground arith in rw other refl

loop_escape :
    (c x y : ℕ) (t : Bytes)
    → escape_of (x ∷ y ∷ t) ≡ some c
    → unescape_loop (length (b'%' ∷ x ∷ y ∷ t)) 0 (b'%' ∷ x ∷ y ∷ t)
      ≡ c ∷ unescape_loop (length t) 0 t
unfolding unescape_loop
loop_escape c x y t h = rw (unescape_loop, h) refl

-- The loop of cg_net_uri_unescapestring turns what the loop of cg_net_uri_escapestring makes of
-- bytes back into these bytes.
pub unescape_loop-escape_loop :
    (s : Bytes) → AreBytes s → unescape_loop (length (escape_loop s)) 0 (escape_loop s) ≡ s
unfolding unescape_loop escape_loop escape_byte
unescape_loop-escape_loop [] h = refl
unescape_loop-escape_loop (c ∷ s) (lt, h) = elim (Bool-cases (cg_net_uri_isalphanumchar c)) [
  | inl plain ↦
      rw (escape_byte, plain)
        (loop_plain c (escape_loop s) plain ∙ ap (λ t. c ∷ t) (unescape_loop-escape_loop s h))
  | inr special ↦
      rw (escape_byte, special)
        (loop_escape c (hex_digit (c / 16)) (hex_digit (c % 16)) (escape_loop s)
            (escape_of-hex c (escape_loop s) lt)
          ∙ ap (λ t. c ∷ t) (unescape_loop-escape_loop s h))
]

pub get_elem?-append : (a s : Bytes) (i : ℕ) → get_elem? (a ++ s) (length a + i) ≡ get_elem? s i
get_elem?-append [] s i = ap (get_elem? s) (omega arith)
get_elem?-append (x ∷ a) s i =
    let shift : suc (length a) + i ≡ suc (length a + i) = omega arith in
    ap (get_elem? (x ∷ (a ++ s))) shift ∙ get_elem?-append a s i

passes-append :
    (test : ℕ → Bool) (a s : Bytes) (i : ℕ) → passes test (a ++ s) (length a + i) ≡ passes test s i
unfolding passes
passes-append test a s i = rw (passes, get_elem?-append a s i) refl

-- a text in which an escape is the first to hold a percent sign
record Escaped (t : Bytes) : Type 0 where
  front : Bytes
  x : ℕ
  y : ℕ
  back : Bytes
  split : t ≡ front ++ b'%' ∷ x ∷ y ∷ back
  lacks : Lacks b'%' front
  hex_x : is_hex x ≡ true
  hex_y : is_hex y ≡ true

isescaped-split :
    (front back : Bytes) (x y : ℕ)
    → Lacks b'%' front
    → is_hex x ≡ true
    → is_hex y ≡ true
    → cg_net_uri_isescapedstring (front ++ b'%' ∷ x ∷ y ∷ back) 0 ≡ true
unfolding cg_net_uri_isescapedstring size_of
isescaped-split front back x y lacks hex_x hex_y =
    let rest = b'%' ∷ x ∷ y ∷ back in
    let long : leb (length front + 4) (length (front ++ rest) + 1) ≡ true =
      let n = length-append front rest in ground arith in
    let one : passes is_hex (front ++ rest) (length front + 1) ≡ true =
      passes-append is_hex front rest 1 ∙ (unfold passes in hex_x) in
    let two : passes is_hex (front ++ rest) (length front + 2) ≡ true =
      passes-append is_hex front rest 2 ∙ (unfold passes in hex_y) in
    rw (cg_net_uri_isescapedstring, strstr-byte front (x ∷ y ∷ back) b'%' lacks, long, one, two)
      refl

isescaped-Escaped : (t : Bytes) → Escaped t → cg_net_uri_isescapedstring t 0 ≡ true
isescaped-Escaped t e =
    ap (λ u. cg_net_uri_isescapedstring u 0) e.split
    ∙ isescaped-split e.front e.back e.x e.y e.lacks e.hex_x e.hex_y

plain-other : (c : ℕ) → cg_net_uri_isalphanumchar c ≡ true → c ≢ b'%'
unfolding cg_net_uri_isalphanumchar
plain-other c h e = absurd (ground arith)

-- The loop escapes the terminator in any case.
escape_loop-Escaped : (s : Bytes) → AreBytes s → Escaped (escape_loop (s ++ 0 ∷ []))
unfolding escape_loop escape_byte cg_net_uri_isalphanumchar hex_digit is_hex
escape_loop-Escaped [] h = record {
  front = [];
  x = b'0';
  y = b'0';
  back = [];
  split = refl;
  lacks = tt;
  hex_x = refl;
  hex_y = refl;
}
escape_loop-Escaped (c ∷ s) (lt, h) = elim (Bool-cases (cg_net_uri_isalphanumchar c)) [
  | inl plain ↦
      let e = escape_loop-Escaped s h in
      record {
        front = c ∷ e.front;
        x = e.x;
        y = e.y;
        back = e.back;
        split = rw (escape_byte, plain) (ap (λ t. c ∷ t) e.split);
        lacks = (plain-other c plain, e.lacks);
        hex_x = e.hex_x;
        hex_y = e.hex_y;
      }
  | inr special ↦ record {
    front = [];
    x = hex_digit (c / 16);
    y = hex_digit (c % 16);
    back = escape_loop (s ++ 0 ∷ []);
    split = rw (escape_byte, special) refl;
    lacks = tt;
    hex_x = hex-hex_digit (c / 16) (omega arith);
    hex_y = hex-hex_digit (c % 16) (omega arith);
  }
]

-- What cg_net_uri_escapestring makes of any text, with a size below 1 and into an empty string, is
-- given back as it is by cg_net_uri_unescapestring, which leaves its string empty.
pub unescapestring-escapestring :
    (s : Bytes)
    → AreBytes s
    → (e : Bytes) × (cg_net_uri_escapestring s 0 [] ≡ some e)
      × (cg_net_uri_unescapestring e 0 [] ≡ some ([], e))
unfolding cg_net_uri_escapestring cg_net_uri_unescapestring size_of
unescapestring-escapestring s h = (
  escape_loop (s ++ 0 ∷ []),
  rw (take-all (length s + 1) (s ++ 0 ∷ []) (omega (arith, length-append s (0 ∷ []))))
      (ground arith),
  rw (isescaped-Escaped (escape_loop (s ++ 0 ∷ [])) (escape_loop-Escaped s h)) refl,
)
