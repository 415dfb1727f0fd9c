-- ===== src/Tokenizer/Steps.antt =====
-- What one step of the tokenizer does to its buffer.
use dlna.Prelude.{
  ℕ, zero, suc, ◌+◌, ◌≤◌, ◌<◌, ◌≡◌, refl, ap, sym, ◌∙◌, true, false, none, some, List, [], ◌∷◌,
  ◌++◌, arith, append_assoc, append-nil, Bytes, length, length-append, ◌==◌, inl, inr, ◌⊎◌, All,
  take, drop, set, take-all, drop-length_append,
}
use dlna.Text.Trim.{strltrim}
use dlna.Tokenizer.{
  CgStringTokenizer, Found, nothing, cut, last, scan, cg_string_tokenizer_nexttoken,
  cg_string_tokenizer_new, string_to_nul,
}
use dlna.Tokenizer.Words.{words_from, Finds, scan-words}

-- no terminator
abbrev pub NulFree : Bytes → Type 0
NulFree = All (λ c. (c == 0) ≡ false)

pub NulFree-split : (xs ys : Bytes) → NulFree (xs ++ ys) → NulFree xs × NulFree ys
NulFree-split [] ys h = (tt, h)
NulFree-split (x ∷ xs) ys (p, h) = let (a, b) = NulFree-split xs ys h in ((p, a), b)

pub set-append :
    (xs : Bytes) (y : ℕ) (ys : Bytes) (i v : ℕ)
    → i ≡ length xs
    → set (xs ++ y ∷ ys) i v ≡ xs ++ v ∷ ys
set-append [] y ys zero v e = refl
set-append [] y ys (suc i) v e = absurd (omega arith)
set-append (x ∷ xs) y ys zero v e = absurd (omega arith)
set-append (x ∷ xs) y ys (suc i) v e = ap (◌∷◌ x) (set-append xs y ys i v (omega arith))

pub length-set : (xs : Bytes) (i v : ℕ) → length (set xs i v) ≡ length xs
length-set [] i v = refl
length-set (x ∷ xs) zero v = refl
length-set (x ∷ xs) (suc i) v = ap suc (length-set xs i v)

-- what stands where a token was cut off, and what comes behind
abbrev pub ended : Bytes → Bytes
ended [] = []
ended (c ∷ more) = 0 ∷ []

abbrev pub after : Bytes → Bytes
after [] = []
after (c ∷ more) = more

abbrev pub first_or_nul : Bytes → ℕ
first_or_nul [] = 0
first_or_nul (c ∷ more) = c

pub string_to_nul-ended :
    (word rest tail : Bytes)
    → NulFree word
    → (rest ≡ []) × (tail ≡ []) ⊎ (0 < length rest)
    → string_to_nul ((word ++ ended rest) ++ tail) ≡ word
string_to_nul-ended [] [] tail free (inl (e, e')) = rw e' refl
string_to_nul-ended [] [] tail free (inr lt) = absurd (omega arith)
string_to_nul-ended [] (c ∷ rest) tail free h = refl
string_to_nul-ended (x ∷ word) rest tail (p, free) h =
    rw p (ap (◌∷◌ x) (string_to_nul-ended word rest tail free h))

module _ (delim : Bytes) where
  -- the tokenizer has still to look at `rem`
  pub record Ready (t : CgStringTokenizer) (before rem : Bytes) : Type 0 where
    pub value_eq : t.value ≡ before ++ rem
    pub start_eq : t.next_start_pos ≡ length before
    pub end_eq : t.end_pos ≡ length t.value
    pub nul_free : NulFree rem
    pub delim_eq : t.delim ≡ delim
    pub cnt_eq : t.delim_cnt ≡ length delim

  -- The next token is `word`, behind which `rest` stood.
  pub record Pending (t : CgStringTokenizer) (word rest : Bytes) : Type 0 where
    pub pre : Bytes
    pub next_eq : t.next_token ≡ some (length pre)
    pub has_eq : t.has_next_tokens ≡ true
    pub rep_eq : t.rep_token ≡ first_or_nul rest
    pub word_free : NulFree word
    pub ready : Ready t (pre ++ (word ++ ended rest)) (after rest)

  abbrev pub words : Bytes → List Bytes
  words = words_from delim (length delim) []

  abbrev pub Stepped : CgStringTokenizer → CgStringTokenizer → Bytes → Bytes → Type 0
  Stepped t u before rem =
      (u.curr_token ≡ t.next_token)
      × ((rem' : Bytes) × (u.value ≡ before ++ rem') × (length rem' ≡ length rem))
      × (((words rem ≡ []) × (strltrim rem delim (length delim) ≡ []) × (u.has_next_tokens ≡ false))
          ⊎ ((word rest : Bytes) × (p : Pending u word rest) × (length before ≤ length p.pre)
              × (words rem ≡ word ∷ words (after rest))
              × (strltrim rem delim (length delim) ≡ word ++ rest)
              × (length rest < length rem + 1)))

  -- the buffer before and after a cut
  cut-value :
      (value before rem gap word more : Bytes) (c from pos : ℕ)
      → value ≡ before ++ rem
      → rem ≡ gap ++ (word ++ c ∷ more)
      → from ≡ length before + length gap
      → pos ≡ from + length word
      → set value pos 0 ≡ before ++ (gap ++ (word ++ 0 ∷ more))
  cut-value value before rem gap word more c from pos v split at to =
      let front : value ≡ ((before ++ gap) ++ word) ++ c ∷ more =
        v
        ∙ ap (λ l. before ++ l) split
        ∙ sym (
            append_assoc (before ++ gap) word (c ∷ more)
            ∙ append_assoc before gap (word ++ c ∷ more)) in
      let index : pos ≡ length ((before ++ gap) ++ word) =
        omega (arith, length-append (before ++ gap) word, length-append before gap) in
      ap (λ l. set l pos 0) front
      ∙ set-append ((before ++ gap) ++ word) c more pos 0 index
      ∙ append_assoc (before ++ gap) word (0 ∷ more)
      ∙ append_assoc before gap (word ++ 0 ∷ more)

  next-Found :
      (t : CgStringTokenizer) (before rem : Bytes)
      → Ready t before rem
      → (found : Found)
      → scan t.delim t.delim_cnt
          (drop t.next_start_pos (take t.end_pos t.value))
          t.next_start_pos
          0
          t.next_start_pos
        ≡ found
      → Finds delim (length delim) (length before) rem (words rem) found
      → Stepped t (cg_string_tokenizer_nexttoken t) before rem
  unfolding cg_string_tokenizer_nexttoken
  next-Found t before rem r (nothing end) e (none_left, l) =
      rw (cg_string_tokenizer_nexttoken, e)
        (refl, (rem, r.value_eq, refl), inl (none_left, l, refl))
  next-Found t before rem r (cut from pos c) e (gap, word, more, split, at, to, w, l) =
      let free = NulFree-split gap (word ++ c ∷ more) (rw (← split) r.nul_free) in
      let (word_free, (_, more_free)) = NulFree-split word (c ∷ more) free.1 in
      let value_is = cut-value t.value before rem gap word more c from pos r.value_eq split at to in
      let total = length-append gap (word ++ c ∷ more) in
      let inner = length-append word (c ∷ more) in
      let size : length rem ≡ length gap + (length word + (length more + 1)) =
        omega (arith, ap length split, total, inner) in
      rw (cg_string_tokenizer_nexttoken, e)
        (
          refl,
          (
            gap ++ (word ++ 0 ∷ more),
            value_is,
            omega
                (arith, length-append gap (word ++ 0 ∷ more), length-append word (0 ∷ more), size),
          ),
          inr (
            word,
            c ∷ more,
            record {
              pre = before ++ gap;
              next_eq = ap some (omega (arith, at, length-append before gap));
              has_eq = refl;
              rep_eq = refl;
              word_free = word_free;
              ready = record {
                value_eq =
                    value_is
                    ∙ sym (append_assoc before gap (word ++ 0 ∷ more))
                    ∙ ap (λ l. (before ++ gap) ++ l) (sym (append_assoc word (0 ∷ []) more))
                    ∙ sym (append_assoc (before ++ gap) (word ++ 0 ∷ []) more);
                start_eq = omega (
                  arith,
                  at,
                  to,
                  length-append (before ++ gap) (word ++ 0 ∷ []),
                  length-append before gap,
                  length-append word (0 ∷ []),
                );
                end_eq = r.end_eq ∙ sym (length-set t.value pos 0);
                nul_free = more_free;
                delim_eq = r.delim_eq;
                cnt_eq = r.cnt_eq;
              };
            },
            omega (arith, length-append before gap),
            w,
            l,
            omega (arith, size),
          ),
        )
  next-Found t before rem r (last from) e (gap, word, split, at, w, l) =
      let (_, word_free) = NulFree-split gap word (rw (← split) r.nul_free) in
      let value_is : t.value ≡ (before ++ gap) ++ (word ++ []) =
        r.value_eq
        ∙ ap (λ l. before ++ l) split
        ∙ sym (append_assoc before gap word)
        ∙ ap (λ l. (before ++ gap) ++ l) (sym (append-nil word)) in
      rw (cg_string_tokenizer_nexttoken, e)
        (
          refl,
          (rem, r.value_eq, refl),
          inr (
            word,
            [],
            record {
              pre = before ++ gap;
              next_eq = ap some (omega (arith, at, length-append before gap));
              has_eq = refl;
              rep_eq = refl;
              word_free = word_free;
              ready = record {
                value_eq = value_is ∙ sym (append-nil ((before ++ gap) ++ (word ++ [])));
                start_eq = r.end_eq ∙ ap length value_is;
                end_eq = r.end_eq;
                nul_free = tt;
                delim_eq = r.delim_eq;
                cnt_eq = r.cnt_eq;
              };
            },
            omega (arith, length-append before gap),
            w,
            l ∙ sym (append-nil word),
            omega arith,
          ),
        )

  pub next-Stepped :
      (t : CgStringTokenizer) (before rem : Bytes)
      → Ready t before rem
      → Stepped t (cg_string_tokenizer_nexttoken t) before rem
  next-Stepped t before rem r =
      let text : drop t.next_start_pos (take t.end_pos t.value) ≡ rem =
        rw (r.end_eq, r.start_eq, take-all (length t.value) t.value (omega arith), r.value_eq)
          (drop-length_append before rem) in
      let same : scan t.delim t.delim_cnt (drop t.next_start_pos (take t.end_pos t.value))
            t.next_start_pos 0 t.next_start_pos
          ≡ scan delim (length delim) rem (length before) 0 (length before) =
        rw (text, r.delim_eq, r.cnt_eq, r.start_eq) refl in
      next-Found t before rem r _ same (scan-words delim (length delim) rem (length before))

  pub new-Stepped :
      (value : Bytes)
      → NulFree value
      → (t : CgStringTokenizer) × (cg_string_tokenizer_new value delim
          ≡ cg_string_tokenizer_nexttoken t)
        × (t.next_token ≡ none)
        × Stepped t (cg_string_tokenizer_nexttoken t) [] value
  unfolding cg_string_tokenizer_new
  new-Stepped value free =
      let t : CgStringTokenizer = record {
        value = value;
        delim = delim;
        delim_cnt = length delim;
        next_start_pos = 0;
        end_pos = length value;
        curr_token = none;
        next_token = none;
        rep_token = 0;
        has_next_tokens = false;
      } in
      (
        t,
        refl,
        refl,
        next-Stepped t [] value (record {
          value_eq = refl;
          start_eq = refl;
          end_eq = refl;
          nul_free = free;
          delim_eq = refl;
          cnt_eq = refl;
        }),
      )
