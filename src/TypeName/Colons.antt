-- ===== src/TypeName/Colons.antt =====
-- Where the colons of a type of five parts are, and what lies between them.
use dlna.Prelude.{
  ◌≡◌, ◌≤◌, ◌<◌, ◌+◌, ◌-◌, ℕ, zero, suc, refl, sym, ap, ◌∙◌, true, none, some, [], ◌∷◌, ◌++◌, arith,
  Bytes, length, take, drop, take-all, length-append, length-drop, append_assoc, take-append, ltb,
  ◌==◌, false,
}
use dlna.Prelude.Int.{pos, sub_ℕ}
use dlna.Text.Search.Find.{Lacks}
use dlna.TypeName.{nth_colon, tail_of, copy_part, part_behind}

nth_colon-none : (k : ℕ) (s : Bytes) (i : ℕ) → Lacks b':' s → nth_colon k s i ≡ none
unfolding nth_colon
nth_colon-none k [] i h = refl
nth_colon-none zero (c ∷ s) i (ne, h) = ground (arith, nth_colon-none zero s (suc i) h)
nth_colon-none (suc k) (c ∷ s) i (ne, h) = ground (arith, nth_colon-none (suc k) s (suc i) h)

pub nth_colon-first :
    (a s : Bytes) (i : ℕ) → Lacks b':' a → nth_colon 0 (a ++ (b':' ∷ s)) i ≡ some (i + length a)
unfolding nth_colon
nth_colon-first [] s i h = ground arith
nth_colon-first (c ∷ a) s i (ne, h) = ground (arith, nth_colon-first a s (suc i) h)

nth_colon-next :
    (k : ℕ) (a s : Bytes) (i : ℕ)
    → Lacks b':' a
    → nth_colon (suc k) (a ++ (b':' ∷ s)) i ≡ nth_colon k s (i + length a + 1)
unfolding nth_colon
nth_colon-next k [] s i h = ap (nth_colon k s) (omega arith)
nth_colon-next k (c ∷ a) s i (ne, h) =
    let miss : (c == b':') ≡ false = ground arith in
    rw miss (nth_colon-next k a s (suc i) h ∙ ap (nth_colon k s) (omega arith))

drop-colon : (n : ℕ) (a s : Bytes) → drop (length a + 1 + n) (a ++ (b':' ∷ s)) ≡ drop n s
drop-colon n [] s =
    let one : length {A = ℕ} [] + 1 + n ≡ suc n = omega arith in ap (λ k. drop k (b':' ∷ s)) one
drop-colon n (c ∷ a) s =
    let one : length (c ∷ a) + 1 + n ≡ suc (length a + 1 + n) = omega arith in
    ap (λ k. drop k (c ∷ (a ++ (b':' ∷ s)))) one ∙ drop-colon n a s

copy_part-pos :
    (s x : Bytes) (head tail limit : ℕ)
    → 0 < tail
    → tail < limit
    → take (tail + 1 - head) (drop head s) ≡ x
    → copy_part s head (pos tail) limit ≡ some x
unfolding copy_part
copy_part-pos s x head tail limit some_bytes inside e =
    let (one, two) : (ltb 0 tail ≡ true) × (ltb tail limit ≡ true) = ground arith in
    rw (one, two, e) refl

sub_ℕ-pos : (n : ℕ) → 0 < n → sub_ℕ n 1 ≡ pos (n - 1)
sub_ℕ-pos n h = ground arith

-- A part with a colon behind it, which is not at the front or has two bytes.
pub copy_part-inner :
    (s x rest : Bytes) (head : ℕ)
    → 2 ≤ head + length x
    → drop head s ≡ x ++ (b':' ∷ rest)
    → Lacks b':' x
    → copy_part s head (tail_of (nth_colon 0 (drop head s) head) (length s)) (length s) ≡ some x
copy_part-inner s x rest head far at h =
    let found : nth_colon 0 (drop head s) head ≡ some (head + length x) =
      ap (λ t. nth_colon 0 t head) at ∙ nth_colon-first x rest head h in
    let tail = ap (λ o. tail_of o (length s)) found ∙ sub_ℕ-pos (head + length x) (omega arith) in
    let size : length s - head ≡ length x + suc (length rest) =
      sym (length-drop head s) ∙ ap length at ∙ length-append x (b':' ∷ rest) in
    let cut : take (head + length x - 1 + 1 - head) (drop head s) ≡ x =
      ap (λ t. take (head + length x - 1 + 1 - head) t) at
      ∙ take-append (head + length x - 1 + 1 - head) x (b':' ∷ rest) (omega arith) in
    ap (λ t. copy_part s head t (length s)) tail
    ∙ copy_part-pos s x head (head + length x - 1) (length s) (omega arith) (omega arith) cut

-- The part at the end.
copy_part-last :
    (s x : Bytes) (head : ℕ)
    → 0 < head
    → head < length s
    → drop head s ≡ x
    → Lacks b':' x
    → copy_part s head (tail_of (nth_colon 0 (drop head s) head) (length s)) (length s + 1) ≡ some x
copy_part-last s x head far inside at h =
    let none_found : nth_colon 0 (drop head s) head ≡ none =
      ap (λ t. nth_colon 0 t head) at ∙ nth_colon-none 0 x head h in
    let tail = ap (λ o. tail_of o (length s)) none_found in
    let size : length s - head ≡ length x = sym (length-drop head s) ∙ ap length at in
    let cut : take (length s + 1 - head) (drop head s) ≡ x =
      ap (λ t. take (length s + 1 - head) t) at ∙ take-all (length s + 1 - head) x (omega arith) in
    ap (λ t. copy_part s head t (length s + 1)) tail
    ∙ copy_part-pos s x head (length s) (length s + 1) (omega arith) (omega arith) cut

pub part_behind-inner :
    (s : Bytes) (i : ℕ) (x rest : Bytes)
    → 1 ≤ i
    → drop (suc i) s ≡ x ++ (b':' ∷ rest)
    → Lacks b':' x
    → part_behind s (some i) (length s) ≡ some x
unfolding part_behind
part_behind-inner s i x rest late at h =
    let size : length s - suc i ≡ length x + suc (length rest) =
      sym (length-drop (suc i) s) ∙ ap length at ∙ length-append x (b':' ∷ rest) in
    let (front, inside) : (ltb 0 (suc i) ≡ true) × (ltb (suc i) (length s) ≡ true) = ground arith in
    rw (front, inside) (copy_part-inner s x rest (suc i) (omega arith) at h)

pub part_behind-last :
    (s : Bytes) (i : ℕ) (x : Bytes)
    → 0 < length x
    → drop (suc i) s ≡ x
    → Lacks b':' x
    → part_behind s (some i) (length s + 1) ≡ some x
unfolding part_behind
part_behind-last s i x some_bytes at h =
    let size : length s - suc i ≡ length x = sym (length-drop (suc i) s) ∙ ap length at in
    let (front, inside) : (ltb 0 (suc i) ≡ true) × (ltb (suc i) (length s) ≡ true) = ground arith in
    rw (front, inside) (copy_part-last s x (suc i) (omega arith) (omega arith) at h)

abbrev pub type_name : Bytes → Bytes → Bytes → Bytes → Bytes → Bytes
type_name a b c d e = a ++ (b':' ∷ (b ++ (b':' ∷ (c ++ (b':' ∷ (d ++ (b':' ∷ e)))))))

-- the type without its version
abbrev pub schema_type : Bytes → Bytes → Bytes → Bytes → Bytes
schema_type a b c d = a ++ (b':' ∷ (b ++ (b':' ∷ (c ++ (b':' ∷ d)))))

append-colon : (x y z : Bytes) → (x ++ (b':' ∷ y)) ++ z ≡ x ++ (b':' ∷ (y ++ z))
append-colon x y z = append_assoc x (b':' ∷ y) z

pub type_name-schema_type :
    (a b c d e : Bytes) → schema_type a b c d ++ (b':' ∷ e) ≡ type_name a b c d e
type_name-schema_type a b c d e =
    append-colon a _ _
    ∙ ap (λ t. a ++ (b':' ∷ t)) (append-colon b _ _)
    ∙ ap (λ t. a ++ (b':' ∷ (b ++ (b':' ∷ t)))) (append-colon c d _)

-- the index of each colon, and what is behind it
module _ (a b c d e : Bytes) (ha : Lacks b':' a) (hb : Lacks b':' b) (hc : Lacks b':' c)
    (hd : Lacks b':' d) where
  abbrev pub from_d : Bytes
  from_d = d ++ (b':' ∷ e)

  abbrev pub from_c : Bytes
  from_c = c ++ (b':' ∷ from_d)

  abbrev pub from_b : Bytes
  from_b = b ++ (b':' ∷ from_c)

  abbrev pub at_1 : ℕ
  at_1 = length a + 1 + length b

  abbrev pub at_2 : ℕ
  at_2 = at_1 + 1 + length c

  abbrev pub at_3 : ℕ
  at_3 = at_2 + 1 + length d

  pub colon_0 : nth_colon 0 (type_name a b c d e) 0 ≡ some (length a)
  colon_0 = nth_colon-first a from_b 0 ha ∙ ap some (omega arith)

  pub colon_1 : nth_colon 1 (type_name a b c d e) 0 ≡ some at_1
  colon_1 = nth_colon-next 0 a from_b 0 ha ∙ nth_colon-first b from_c _ hb ∙ ap some (omega arith)

  pub colon_2 : nth_colon 2 (type_name a b c d e) 0 ≡ some at_2
  colon_2 =
      nth_colon-next 1 a from_b 0 ha
      ∙ nth_colon-next 0 b from_c _ hb
      ∙ nth_colon-first c from_d _ hc
      ∙ ap some (omega arith)

  pub colon_3 : nth_colon 3 (type_name a b c d e) 0 ≡ some at_3
  colon_3 =
      nth_colon-next 2 a from_b 0 ha
      ∙ nth_colon-next 1 b from_c _ hb
      ∙ nth_colon-next 0 c from_d _ hc
      ∙ nth_colon-first d e _ hd
      ∙ ap some (omega arith)

  behind : (i n : ℕ) → suc i ≡ length a + 1 + n → drop (suc i) (type_name a b c d e) ≡ drop n from_b
  behind i n same = ap (λ k. drop k (type_name a b c d e)) same ∙ drop-colon n a from_b

  pub behind_0 : drop (suc (length a)) (type_name a b c d e) ≡ from_b
  behind_0 = behind (length a) 0 (omega arith)

  pub behind_1 : drop (suc at_1) (type_name a b c d e) ≡ from_c
  behind_1 = behind at_1 (length b + 1 + 0) (omega arith) ∙ drop-colon 0 b from_c

  pub behind_2 : drop (suc at_2) (type_name a b c d e) ≡ from_d
  behind_2 =
      behind at_2 (length b + 1 + (length c + 1 + 0)) (omega arith)
      ∙ drop-colon (length c + 1 + 0) b from_c
      ∙ drop-colon 0 c from_d

  pub behind_3 : drop (suc at_3) (type_name a b c d e) ≡ e
  behind_3 =
      behind at_3 (length b + 1 + (length c + 1 + (length d + 1 + 0))) (omega arith)
      ∙ drop-colon (length c + 1 + (length d + 1 + 0)) b from_c
      ∙ drop-colon (length d + 1 + 0) c from_d
      ∙ drop-colon 0 d e

  length-schema_type : length (schema_type a b c d) ≡ at_3
  length-schema_type =
      let one = length-append a (b':' ∷ (b ++ (b':' ∷ (c ++ (b':' ∷ d))))) in
      let two = length-append b (b':' ∷ (c ++ (b':' ∷ d))) in
      let three = length-append c (b':' ∷ d) in omega arith

  pub schema :
      1 ≤ length a
      → copy_part
          (type_name a b c d e)
          0
          (tail_of (some at_3) (length (type_name a b c d e)))
          (length (type_name a b c d e))
        ≡ some (schema_type a b c d)
  schema far =
      let text = type_name a b c d e in
      let front = schema_type a b c d in
      let size : length front + suc (length e) ≡ length text =
        sym (length-append front (b':' ∷ e)) ∙ ap length (type_name-schema_type a b c d e) in
      let same = length-schema_type in
      let cut : take (at_3 - 1 + 1 - 0) (drop 0 text) ≡ front =
        ap (take (at_3 - 1 + 1 - 0)) (sym (type_name-schema_type a b c d e))
        ∙ take-append (at_3 - 1 + 1 - 0) front (b':' ∷ e) (omega arith) in
      ap (λ t. copy_part text 0 t (length text)) (sub_ℕ-pos at_3 (omega arith))
      ∙ copy_part-pos text front 0 (at_3 - 1) (length text) (omega arith) (omega arith) cut
