-- ===== src/Tokenizer/Tokens.antt =====
-- The tokens of a string are its words.
use mathlib.Core.Option
use dlna.Prelude.{
  ℕ, zero, suc, ◌+◌, ◌<◌, ◌≡◌, ◌≢◌, refl, ap, sym, ◌∙◌, Bool, true, false, Option, none, some, List,
  [], ◌∷◌, ◌++◌, arith, append_assoc, Bytes, length, inl, inr, ◌⊎◌, drop, drop-length_append,
}
use dlna.Tokenizer.{
  CgStringTokenizer, cg_string_tokenizer_nexttoken, cg_string_tokenizer_new, string_to_nul,
  string_at, current,
}
use dlna.Tokenizer.Steps.{
  NulFree, ended, after, string_to_nul-ended, Pending, words, next-Stepped, new-Stepped,
}

module _ (delim : Bytes) where
  ends :
      (rest word' rest' : Bytes)
      → rest ≡ []
      → words delim (after rest) ≢ word' ∷ words delim (after rest')
  ends [] word' rest' e w = absurd (cc)
  ends (c ∷ rest) word' rest' e w = absurd (cc)

  decreases :
      (rest rest' : Bytes) (fuel : ℕ)
      → length rest + 1 < suc fuel
      → length rest' < length (after rest) + 1
      → rest ≢ []
      → length rest' + 1 < fuel
  decreases [] rest' fuel lt shorter ne = absurd (ne refl)
  decreases (c ∷ rest) rest' fuel lt shorter ne = omega arith

  -- The token that was pending is the current one after the next step.
  pub current-Pending :
      (t u : CgStringTokenizer) (word rest : Bytes)
      → (p : Pending delim t word rest) → u.curr_token ≡ t.next_token
      → (rem' : Bytes) × (u.value ≡ (p.pre ++ (word ++ ended rest)) ++ rem')
        × (length rem' ≡ length (after rest))
      → current u ≡ some word
  current-Pending t u word rest p same (rem', v, size) =
      let token : u.curr_token ≡ some (length p.pre) = same ∙ p.next_eq in
      let text : string_at u.value (length p.pre) ≡ word =
        ap string_to_nul (
          ap (drop (length p.pre)) (v ∙ append_assoc p.pre (word ++ ended rest) rem')
          ∙ drop-length_append p.pre ((word ++ ended rest) ++ rem'))
        ∙ string_to_nul-ended word rest rem' p.word_free (tail_of rest rem' size) in
      rw token (ap some text)
    where
      tail_of :
          (rest tail : Bytes)
          → length tail ≡ length (after rest)
          → (rest ≡ []) × (tail ≡ []) ⊎ (0 < length rest)
      tail_of [] [] e = inl (refl, refl)
      tail_of [] (x ∷ tail) e = absurd (omega arith)
      tail_of (c ∷ rest) tail e = inr (omega arith)

  abbrev pub gather : Bool → Option Bytes → Option (List Bytes) → Option (List Bytes)
  gather false token rest = some []
  gather true none rest = none
  gather true (some word) rest = Option.map (λ l. word ∷ l) rest

  -- what a client gets that asks for tokens as long as there are more
  abbrev pub all_tokens : ℕ → CgStringTokenizer → Option (List Bytes)
  all_tokens zero t = none
  all_tokens (suc fuel) t =
      let u = cg_string_tokenizer_nexttoken t in
      gather t.has_next_tokens (current u) (all_tokens fuel u)

  stopped :
      (fuel : ℕ) (t : CgStringTokenizer)
      → t.has_next_tokens ≡ false
      → 0 < fuel
      → all_tokens fuel t ≡ some []
  stopped zero t e lt = absurd (omega arith)
  stopped (suc fuel) t e lt =
      let u = cg_string_tokenizer_nexttoken t in
      ap (λ h. gather h (current u) (all_tokens fuel u)) e

  all_tokens-Pending :
      (fuel : ℕ) (t : CgStringTokenizer) (word rest : Bytes)
      → Pending delim t word rest
      → length rest + 1 < fuel
      → all_tokens fuel t ≡ some (word ∷ words delim (after rest))
  all_tokens-Pending zero t word rest p lt = absurd (omega arith)
  all_tokens-Pending (suc fuel) t word rest p lt =
      let (same, kept, found) =
        next-Stepped delim t (p.pre ++ (word ++ ended rest)) (after rest) p.ready in
      let u = cg_string_tokenizer_nexttoken t in
      let text = current-Pending t u word rest p same kept in
      let now : all_tokens (suc fuel) t ≡ Option.map (λ l. word ∷ l) (all_tokens fuel u) =
        ap (λ h. gather h (current u) (all_tokens fuel u)) p.has_eq
        ∙ ap (λ c. gather true c (all_tokens fuel u)) text in
      now
      ∙ ap (Option.map (λ l. word ∷ l)) (elim found [
        | inl (none_left, _, no_more) ↦
            stopped fuel u no_more (omega arith) ∙ ap some (sym none_left)
        | inr (word', rest', p', _, w, _, shorter) ↦
            all_tokens-Pending fuel u word' rest' p'
              (decreases rest rest' fuel lt shorter (λ e. absurd (ends rest word' rest' e w)))
            ∙ ap some (sym w)
      ])

  -- Of a text without terminators, a client that asks the tokenizer for tokens as long as there
  -- are more gets, with fuel for two rounds more than the text has bytes, exactly the words of the
  -- text, which are the maximal runs of bytes that are no delimiter, in their order, although the
  -- tokenizer cuts its buffer up on the way.
  pub all_tokens-words :
      (value : Bytes) (fuel : ℕ)
      → NulFree value
      → length value + 1 < fuel
      → all_tokens fuel (cg_string_tokenizer_new value delim) ≡ some (words delim value)
  all_tokens-words value fuel free lt =
      let (t, made, _, (_, _, found)) = new-Stepped delim value free in
      let u = cg_string_tokenizer_nexttoken t in
      ap (all_tokens fuel) made ∙ elim found [
        | inl (none_left, _, no_more) ↦
            stopped fuel u no_more (omega arith) ∙ ap some (sym none_left)
        | inr (word, rest, p, _, w, _, shorter) ↦
            all_tokens-Pending fuel u word rest p (omega arith) ∙ ap some (sym w)
      ]
