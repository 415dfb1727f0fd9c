-- ===== src/Tokenizer.antt =====
-- clinkc/src/cybergarage/util/cstring_tokenizer.c: tokens of a string, which is cut up in place. A
-- pointer to a token is its index in the string.
pub mod Words
pub mod Steps
pub mod Tokens
use mathlib.Core.Option
use dlna.Prelude.{
  ℕ, zero, suc, ◌+◌, Bool, true, false, Option, none, some, List, [], ◌∷◌, Bytes, length, take,
  drop, set, ◌==◌, if◌then◌else◌,
}
use dlna.Text.Search.{is_one_of}

-- `value` holds the bytes up to where its terminator was at first; later terminators are bytes 0
-- among them. `end_pos` is lastPos + 1.
pub record CgStringTokenizer : Type 0 where
  pub value : Bytes
  pub delim : Bytes
  pub delim_cnt : ℕ
  pub next_start_pos : ℕ
  pub end_pos : ℕ
  pub curr_token : Option ℕ
  pub next_token : Option ℕ
  pub rep_token : ℕ
  pub has_next_tokens : Bool

-- the string that a pointer into a buffer points to
abbrev pub string_to_nul : Bytes → Bytes
string_to_nul [] = []
string_to_nul (c ∷ s) = if c == 0 then [] else c ∷ string_to_nul s

abbrev pub string_at : Bytes → ℕ → Bytes
string_at value pos = string_to_nul (drop pos value)

-- How the loop ends, with the start of the token: without a token, at a delimiter behind one, or at
-- the end of the string.
pub data Found : Type 0 where
  nothing : ℕ → Found
  cut : ℕ → ℕ → ℕ → Found
  last : ℕ → Found

-- The loop at index `i`. After a cut, the inner loop goes on with the terminator, which is no
-- delimiter.
unfoldable pub scan : Bytes → ℕ → Bytes → ℕ → ℕ → ℕ → Found
scan delim n [] i token_cnt start = if token_cnt == 0 then nothing start else last start
scan delim n (c ∷ rest) i token_cnt start = elim (is_one_of c delim n) [
  | true ↦ elim (token_cnt == 0) [
    | true ↦ scan delim n rest (i + 1) 0 (i + 1)
    | false ↦ cut start i c
  ]
  | false ↦ scan delim n rest (i + 1) (token_cnt + 1) start
]

-- The token that the function returns is `curr_token` of the result.
unfoldable pub cg_string_tokenizer_nexttoken : CgStringTokenizer → CgStringTokenizer
unfolding scan
cg_string_tokenizer_nexttoken t =
    elim (scan t.delim t.delim_cnt (drop t.next_start_pos (take t.end_pos t.value)) t.next_start_pos
      0 t.next_start_pos) [
        | nothing start ↦ record t {
          curr_token = t.next_token;
          next_token = none;
          has_next_tokens = false;
          rep_token = 0;
          next_start_pos = start;
        }
        | cut start pos rep ↦ record t {
          curr_token = t.next_token;
          next_token = some start;
          has_next_tokens = true;
          rep_token = rep;
          value = set t.value pos 0;
          next_start_pos = pos + 1;
        }
        | last start ↦ record t {
          curr_token = t.next_token;
          next_token = some start;
          has_next_tokens = true;
          rep_token = 0;
          next_start_pos = t.end_pos;
        }
      ]

unfoldable pub cg_string_tokenizer_new : Bytes → Bytes → CgStringTokenizer
unfolding cg_string_tokenizer_nexttoken
cg_string_tokenizer_new value delim = cg_string_tokenizer_nexttoken (record {
  value = value;
  delim = delim;
  delim_cnt = length delim;
  next_start_pos = 0;
  end_pos = length value;
  curr_token = none;
  next_token = none;
  rep_token = 0;
  has_next_tokens = false;
})

-- the effect of taking all the rest, for a token at `pos`
abbrev pub take_all : CgStringTokenizer → ℕ → CgStringTokenizer
take_all t pos = record t {
  value = set t.value (pos + length (string_at t.value pos)) t.rep_token;
  curr_token = t.next_token;
  next_token = none;
  has_next_tokens = false;
}

-- `none` where the source writes to NULL
unfoldable pub cg_string_tokenizer_nextalltoken : CgStringTokenizer → Option CgStringTokenizer
cg_string_tokenizer_nextalltoken t = Option.map (take_all t) t.next_token

-- the text of the current token
abbrev pub current : CgStringTokenizer → Option Bytes
current t = Option.map (string_at t.value) t.curr_token
