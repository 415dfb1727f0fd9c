-- ===== src/Http/Packet/HeaderLine.antt =====
-- The name and the value of a header line.
use mathlib.Core.Option
use dlna.Prelude.{
  ℕ, zero, suc, ◌+◌, ◌≤◌, ◌<◌, ◌≡◌, refl, ap, sym, ◌∙◌, true, false, Option, some, [], ◌∷◌, ◌++◌,
  arith, append_assoc, append-nil, Bytes, length, length-append, Bool-cases, inl, inr, ◌⊎◌, All,
  drop, set, drop-length_append,
}
use dlna.Uri.{◌>>=◌}
use dlna.Text.Search.{is_one_of}
use dlna.Text.Trim.{strltrim, strrtrim}
use dlna.Text.Trim.Core.{strltrim-clean}
use dlna.Http.Headers.{HttpHeader, cg_http_header_setname, cg_http_header_setvalue}
use dlna.Http.Packet.{headerline_delim, header_line, header_with, read_name, read_value}
use dlna.Tokenizer.{
  CgStringTokenizer, cg_string_tokenizer_nexttoken, cg_string_tokenizer_new,
  cg_string_tokenizer_nextalltoken, string_to_nul, string_at, take_all, current,
}
use dlna.Tokenizer.Words.{words_from, words_from-hit, words_from-miss, close}
use dlna.Tokenizer.Steps.{
  NulFree, NulFree-split, set-append, ended, after, first_or_nul, string_to_nul-ended, Pending,
  words, next-Stepped, new-Stepped,
}

set-beyond : (xs : Bytes) (i v : ℕ) → length xs ≤ i → set xs i v ≡ xs
set-beyond [] i v le = refl
set-beyond (x ∷ xs) zero v le = absurd (omega arith)
set-beyond (x ∷ xs) (suc i) v le = ap (◌∷◌ x) (set-beyond xs i v (omega arith))

set-front :
    (xs ys : Bytes) (i v : ℕ) → length xs ≤ i → (zs : Bytes) × (set (xs ++ ys) i v ≡ xs ++ zs)
set-front [] ys i v le = (set ys i v, refl)
set-front (x ∷ xs) ys zero v le = absurd (omega arith)
set-front (x ∷ xs) ys (suc i) v le =
    let (zs, e) = set-front xs ys i v (omega arith) in (zs, ap (◌∷◌ x) e)

-- what a cut took away comes back
restored :
    (pre word rest : Bytes) (i : ℕ)
    → i ≡ length pre + length word
    → set ((pre ++ (word ++ ended rest)) ++ after rest) i (first_or_nul rest)
      ≡ pre ++ (word ++ rest)
restored pre word [] i at =
    ap (λ l. set l i 0) (append-nil (pre ++ (word ++ [])))
    ∙ set-beyond (pre ++ (word ++ [])) i 0
        (omega (arith, at, length-append pre (word ++ []), length-append word []))
restored pre word (c ∷ more) i at =
    ap (λ l. set l i c)
      (append_assoc pre (word ++ 0 ∷ []) more
        ∙ ap (λ l. pre ++ l) (append_assoc word (0 ∷ []) more)
        ∙ sym (append_assoc pre word (0 ∷ more)))
    ∙ set-append (pre ++ word) 0 more i c (omega (arith, at, length-append pre word))
    ∙ append_assoc pre word (c ∷ more)

pub string_to_nul-NulFree : (xs : Bytes) → NulFree xs → string_to_nul xs ≡ xs
string_to_nul-NulFree [] free = refl
string_to_nul-NulFree (x ∷ xs) (p, free) = rw p (ap (◌∷◌ x) (string_to_nul-NulFree xs free))

append_cancel : (xs ys zs : Bytes) → xs ++ ys ≡ xs ++ zs → ys ≡ zs
append_cancel [] ys zs e = e
append_cancel (x ∷ xs) ys zs e = append_cancel xs ys zs (cc)

module _ (delim : Bytes) where
  tail_known : (rest : Bytes) → (rest ≡ []) × (after rest ≡ []) ⊎ (0 < length rest)
  tail_known [] = inl (refl, refl)
  tail_known (c ∷ rest) = inr (omega arith)

  word_at :
      (t : CgStringTokenizer) (word rest : Bytes)
      → (p : Pending delim t word rest) → string_at t.value (length p.pre) ≡ word
  word_at t word rest p =
      ap string_to_nul (
        ap (drop (length p.pre))
          (p.ready.value_eq ∙ append_assoc p.pre (word ++ ended rest) (after rest))
        ∙ drop-length_append p.pre ((word ++ ended rest) ++ after rest))
      ∙ string_to_nul-ended word rest (after rest) p.word_free (tail_known rest)

  -- Taking all the rest puts back the delimiter that was cut away, and leaves what stands in front.
  nextalltoken-Pending :
      (t : CgStringTokenizer) (word rest before more : Bytes)
      → (p : Pending delim t word rest) → t.value ≡ before ++ more
      → length before ≤ length p.pre
      → NulFree (word ++ rest)
      → (v : CgStringTokenizer) × (cg_string_tokenizer_nextalltoken t ≡ some v)
        × (current v ≡ some (word ++ rest))
        × ((zs : Bytes) × (v.value ≡ before ++ zs))
  unfolding cg_string_tokenizer_nextalltoken
  nextalltoken-Pending t word rest before more p value_is le free =
      let i = length p.pre + length (string_at t.value (length p.pre)) in
      let v = take_all t (length p.pre) in
      let at : i ≡ length p.pre + length word =
        ap (λ w. length p.pre + length w) (word_at t word rest p) in
      let text : v.value ≡ p.pre ++ (word ++ rest) =
        ap (λ r. set t.value i r) p.rep_eq
        ∙ ap (λ l. set l i (first_or_nul rest)) p.ready.value_eq
        ∙ restored p.pre word rest i at in
      let (zs, front) = set-front before more i t.rep_token (omega arith) in
      (
        v,
        ap (Option.map (take_all t)) p.next_eq,
        ap (Option.map (string_at v.value)) p.next_eq
            ∙ ap some (
                ap string_to_nul
                  (ap (drop (length p.pre)) text ∙ drop-length_append p.pre (word ++ rest))
                ∙ string_to_nul-NulFree (word ++ rest) free),
        (zs, ap (λ l. set l i t.rep_token) value_is ∙ front),
      )

  -- a text of no delimiters is the first word
  words_from-run :
      (name word : Bytes) (c : ℕ) (rem : Bytes)
      → All (λ d. is_one_of d delim (length delim) ≡ false) name
      → is_one_of c delim (length delim) ≡ true
      → words_from delim (length delim) word (name ++ c ∷ rem)
        ≡ close (word ++ name) (words delim rem)
  words_from-run [] word c rem plain hit =
      words_from-hit delim (length delim) word c rem hit
      ∙ ap (λ w. close w (words delim rem)) (sym (append-nil word))
  words_from-run (x ∷ name) word c rem (miss, plain) hit =
      words_from-miss delim (length delim) word x (name ++ c ∷ rem) miss
      ∙ words_from-run name (word ++ x ∷ []) c rem plain hit
      ∙ ap (λ w. close w (words delim rem)) (append_assoc word (x ∷ []) name)

  -- What is known of a text when its first token is pending.
  first-Pending :
      (name : Bytes) (c : ℕ) (rem : Bytes)
      → 0 < length name
      → All (λ d. is_one_of d delim (length delim) ≡ false) name
      → is_one_of c delim (length delim) ≡ true
      → NulFree (name ++ c ∷ rem)
      → Pending delim (cg_string_tokenizer_new (name ++ c ∷ rem) delim) name (c ∷ rem)
  first-Pending [] c rem lt plain hit free = absurd (omega arith)
  first-Pending (x ∷ name) c rem lt (miss, plain) hit free =
      let line = x ∷ name ++ c ∷ rem in
      let (t, made, _, (_, _, found)) = new-Stepped delim line free in
      let run : words delim line ≡ (x ∷ name) ∷ words delim rem =
        words_from-run (x ∷ name) [] c rem (miss, plain) hit in
      rw made (elim found [
        | inl (none_left, _, _) ↦ absurd (cc)
        | inr (word, rest, p, _, w, l, _) ↦
            let same : word ≡ x ∷ name = cc in
            let whole : line ≡ (x ∷ name) ++ rest =
              sym (strltrim-clean delim (length delim) line miss) ∙ l ∙ ap (λ w. w ++ rest) same in
            let behind : c ∷ rem ≡ rest = append_cancel (x ∷ name) (c ∷ rem) rest whole in
            rw (← same, behind) p
      ])

strltrim-NulFree : (s delim : Bytes) (n : ℕ) → NulFree s → NulFree (strltrim s delim n)
unfolding strltrim
strltrim-NulFree [] delim n free = tt
strltrim-NulFree (c ∷ s) delim n (p, free) = elim (Bool-cases (is_one_of c delim n)) [
  | inl hit ↦ rw hit (strltrim-NulFree s delim n free)
  | inr miss ↦ rw miss (p, free)
]

abbrev pub trimmed : Bytes → Bytes
trimmed s = strrtrim (strltrim s headerline_delim 4) headerline_delim 4

-- the name at its place in a buffer that begins with it
name_at :
    (t : CgStringTokenizer) (name rest : Bytes) (c : ℕ)
    → (p : Pending headerline_delim t name (c ∷ rest)) → (value zs : Bytes)
    → value ≡ (p.pre ++ (name ++ 0 ∷ [])) ++ zs
    → string_at value (length p.pre) ≡ name
name_at t name rest c p value zs e =
    ap string_to_nul (
      ap (drop (length p.pre)) (e ∙ append_assoc p.pre (name ++ 0 ∷ []) zs)
      ∙ drop-length_append p.pre ((name ++ 0 ∷ []) ++ zs))
    ∙ string_to_nul-ended name (c ∷ rest) zs p.word_free (inr (omega arith))

header_with-named :
    (name value : Bytes) → header_with name value ≡ record { name = some name; value = some value }
unfolding cg_http_header_setname cg_http_header_setvalue
header_with-named name value = refl

-- A header line of a name that is not empty and holds no delimiter, a colon and any rest, all
-- without terminators, gives a header with this name, whose value is the rest without the
-- delimiters at both its ends; delimiters inside the value survive.
pub header_line-trimmed :
    (name rem : Bytes)
    → 0 < length name
    → All (λ d. is_one_of d headerline_delim 4 ≡ false) name
    → NulFree (name ++ 58 ∷ rem)
    → header_line (name ++ 58 ∷ rem)
      ≡ some (some (record { name = some name; value = some (trimmed rem) }))
unfolding header_line read_name read_value is_one_of strrtrim
header_line-trimmed name rem lt plain free =
    let t = cg_string_tokenizer_new (name ++ 58 ∷ rem) headerline_delim in
    let u = cg_string_tokenizer_nexttoken t in
    let p = first-Pending headerline_delim name 58 rem lt plain refl free in
    let (same, (rem', v, size), found) =
      next-Stepped headerline_delim t (p.pre ++ (name ++ 0 ∷ [])) rem p.ready in
    let (_, (_, rem_free)) = NulFree-split name (58 ∷ rem) free in
    let start : header_line (name ++ 58 ∷ rem) ≡ read_value u.has_next_tokens u (length p.pre) =
      ap (λ h. read_name h u.curr_token u) p.has_eq
      ∙ ap (λ o. read_name true o u) (same ∙ p.next_eq) in
    start ∙ elim found [
      | inl (_, l, no_more) ↦
          ap (λ h. read_value h u (length p.pre)) no_more
          ∙ ap (λ n. some (some (header_with n []))) (name_at t name rem 58 p u.value rem' v)
          ∙ ap (λ h. some (some h)) (header_with-named name [])
          ∙ ap
              (λ r.
                some (
                  some (record { name = some name; value = some (strrtrim r headerline_delim 4) })))
              (sym l)
      | inr (word, rest, q, le, _, l, _) ↦
          let value_free : NulFree (word ++ rest) =
            rw l at (strltrim-NulFree rem headerline_delim 4 rem_free) in
          let (w, made, all, (zs, front)) =
            nextalltoken-Pending headerline_delim u word rest (p.pre ++ (name ++ 0 ∷ [])) rem' q v
              le value_free in
          let finish : CgStringTokenizer → Bytes → Option (Option HttpHeader) = λ x value. some (
            some (
              header_with (string_at x.value (length p.pre))
                (strrtrim value headerline_delim 4))) in
          ap (λ h. read_value h u (length p.pre)) q.has_eq
          ∙ ap (λ o. o >>= λ x. current x >>= λ value. finish x value) made
          ∙ ap (λ o. o >>= λ value. finish w value) all
          ∙ ap (λ n. some (some (header_with n (strrtrim (word ++ rest) headerline_delim 4))))
              (name_at t name rem 58 p w.value zs front)
          ∙ ap (λ h. some (some h))
              (header_with-named name (strrtrim (word ++ rest) headerline_delim 4))
          ∙ ap
              (λ r.
                some (
                  some (record { name = some name; value = some (strrtrim r headerline_delim 4) })))
              (sym l)
    ]
