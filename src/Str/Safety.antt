-- ===== src/Str/Safety.antt =====
-- No operation of clinkc/src/cybergarage/util/cstring.c writes outside the buffer, whatever the
-- allocator answers.
use dlna.Prelude.{
  ℕ, ◌+◌, ◌≤◌, ◌<◌, ◌≡◌, none, some, arith, Bytes, length, take, length-append, length-take_of_le,
  Bool-cases, inl, inr, ltb, ◌||◌, ◌==◌,
}
use dlna.Text.{CStr, strlen}
use dlna.Text.Length.{strlen-le}
use dlna.Str.{
  Memory, CgString, cg_string_new, cg_string_clear, clear_value, cg_string_setvalue,
  cg_string_setnvalue, cg_string_naddvalue, grow, append_bytes, kept, is_null, realloc_extra,
}

-- A buffer holds `value_size` bytes, with room for a terminator behind them.
abbrev pub Fits : CStr → ℕ → ℕ → Type 0
Fits none mem_size value_size = Unit
Fits (some b) mem_size value_size = (length b ≡ value_size) × (value_size < mem_size)

abbrev pub InBounds : CgString → Type 0
InBounds str = Fits str.value str.mem_size str.value_size

-- The copied bytes are those of the caller.
abbrev pub Provides : CStr → ℕ → Type 0
Provides none len = Unit
Provides (some s) len = len ≤ length s

clear_value-InBounds : (v : CStr) (str : CgString) → InBounds str → InBounds (clear_value v str)
unfolding clear_value
clear_value-InBounds none str h = h
clear_value-InBounds (some b) str h = tt

pub clear-InBounds : (str : CgString) → InBounds str → InBounds (cg_string_clear str)
unfolding cg_string_clear
clear-InBounds str = clear_value-InBounds str.value str

pub setnvalue-InBounds :
    (mem : Memory) (str : CgString) (v : CStr) (len : ℕ)
    → InBounds str
    → Provides v len
    → InBounds (cg_string_setnvalue mem str v len)
unfolding cg_string_setnvalue
setnvalue-InBounds mem str none len h p = clear-InBounds str h
setnvalue-InBounds mem str (some s) len h p = ground (arith, length-take_of_le len s)

pub setvalue-InBounds :
    (mem : Memory) (str : CgString) (v : CStr)
    → InBounds str
    → InBounds (cg_string_setvalue mem str v)
unfolding cg_string_setvalue
setvalue-InBounds mem str none h = h
setvalue-InBounds mem str (some s) h =
    setnvalue-InBounds mem str (some s) (strlen s) h (strlen-le s)

module _ (mem : Memory) where
  -- The old bytes, or the new memory in their place, are as many as `value_size` says.
  length-kept : (str : CgString) → InBounds str → length (kept mem str) ≡ str.value_size
  unfolding kept
  length-kept str h = ground (arith, mem.length-fresh str.value_size)

  append_bytes-InBounds :
      (str : CgString) (s : Bytes) (len : ℕ)
      → length (kept mem str) ≡ str.value_size
      → len ≤ length s
      → str.value_size + len < str.mem_size
      → InBounds (append_bytes mem str s len).0
  unfolding append_bytes
  append_bytes-InBounds str s len k p room =
      (omega (arith, length-append (kept mem str) (take len s), length-take_of_le len s), room)

  grow-InBounds :
      (str : CgString) (s : Bytes) (len : ℕ)
      → InBounds str
      → len ≤ length s
      → InBounds (grow mem str s len).0
  unfolding grow
  grow-InBounds str s len h p =
      elim (Bool-cases (ltb str.mem_size (str.value_size + len + 1) || is_null str.value)) [
        | inl full ↦
            rw full (elim (Bool-cases (mem.alloc (str.value_size + len + 1 + realloc_extra))) [
              | inl got ↦ rw got (
                  append_bytes-InBounds
                    (record str { mem_size = str.value_size + len + 1 + realloc_extra }) s len
                    (unfold kept in length-kept str h) p (omega arith))
              | inr failed ↦ rw failed h
            ])
        | inr room ↦ rw room (append_bytes-InBounds str s len (length-kept str h) p (ground arith))
      ]

  pub naddvalue-InBounds :
      (str : CgString) (v : CStr) (len : ℕ)
      → InBounds str
      → Provides v len
      → InBounds (cg_string_naddvalue mem str v len).0
  unfolding cg_string_naddvalue
  naddvalue-InBounds str none len h p = h
  naddvalue-InBounds str (some s) len h p = elim (Bool-cases (len == 0)) [
    | inl nothing ↦ rw nothing h
    | inr more ↦ rw more (grow-InBounds str s len h p)
  ]

  -- One call of a function of the string that changes it.
  pub data Call (str : CgString) : CgString → Type 0 where
    clear : Call str (cg_string_clear str)
    setvalue : (v : CStr) → Call str (cg_string_setvalue mem str v)
    setnvalue : (v : CStr) (len : ℕ) → Provides v len → Call str (cg_string_setnvalue mem str v len)
    naddvalue :
        (v : CStr) (len : ℕ) → Provides v len → Call str (cg_string_naddvalue mem str v len).0

  -- The strings that calls make of a new one.
  pub data Made : CgString → Type 0 where
    new : Made cg_string_new
    next : {s t : CgString} → Made s → Call s t → Made t

  Call-InBounds : {s t : CgString} → Call s t → InBounds s → InBounds t
  Call-InBounds {s} clear h = clear-InBounds s h
  Call-InBounds {s} (setvalue v) h = setvalue-InBounds mem s v h
  Call-InBounds {s} (setnvalue v len p) h = setnvalue-InBounds mem s v len h p
  Call-InBounds {s} (naddvalue v len p) h = naddvalue-InBounds s v len h p

  -- However a string came about by calls of clear, setvalue, setnvalue and naddvalue on a new one,
  -- its buffer holds exactly value_size bytes and mem_size is larger, so that the terminator is
  -- inside the buffer; any allocation on the way may have failed. The lengths that callers pass
  -- are at most those of their texts.
  pub Made-InBounds : {s : CgString} → Made s → InBounds s
  unfolding cg_string_new
  Made-InBounds new = tt
  Made-InBounds (next m c) = Call-InBounds c (Made-InBounds m)
