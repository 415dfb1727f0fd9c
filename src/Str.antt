-- ===== src/Str.antt =====
-- clinkc/src/cybergarage/util/cstring.c: the growing string `CgString`. `value` holds the first
-- `value_size` bytes of the buffer; the terminator behind them is not written out. The functions
-- are given an object: on a NULL object the source's guards make each of them do nothing.
-- The allocator is a parameter. Sizes are unbounded numbers, so `int` overflow is left out.
pub mod Safety
pub mod Value
pub mod Replace
use dlna.Prelude.{
  ℕ, zero, suc, ◌+◌, ◌≡◌, Bool, true, false, ◌||◌, Option, none, some, [], ◌++◌, Bytes, length,
  take, ltb, ◌==◌, if◌then◌else◌,
}
use dlna.Prelude.Int.{ℤ}
use dlna.Text.{CStr, strlen}
use dlna.Text.Decimal.{cg_int2str, cg_long2str, integer_buflen, long_buflen}

-- `malloc` and `realloc`: whether a request for so many bytes succeeds, and what the first bytes of
-- new memory hold.
pub record Memory : Type 0 where
  pub alloc : ℕ → Bool
  pub fresh : ℕ → Bytes
  pub length-fresh : (n : ℕ) → length (fresh n) ≡ n

pub record CgString : Type 0 where
  pub value : CStr
  pub mem_size : ℕ
  pub value_size : ℕ

-- CG_STRING_REALLOC_EXTRA
abbrev pub realloc_extra : ℕ
realloc_extra = 16

unfoldable pub cg_string_new : CgString
cg_string_new = record { value = none; mem_size = 0; value_size = 0 }

unfoldable pub clear_value : CStr → CgString → CgString
clear_value none str = str
clear_value (some _) str = record { value = none; mem_size = 0; value_size = 0 }

unfoldable pub cg_string_clear : CgString → CgString
unfolding clear_value
cg_string_clear str = clear_value str.value str

abbrev pub cg_string_getvalue : CgString → CStr
cg_string_getvalue str = str.value

unfoldable pub cg_string_getmemorysize : CgString → ℕ
cg_string_getmemorysize str = str.mem_size

unfoldable pub cg_string_length : CgString → ℕ
cg_string_length str = elim str.value [ none ↦ 0 | some _ ↦ str.value_size ]

unfoldable pub cg_string_setpointervalue : CgString → CStr → ℕ → CgString
cg_string_setpointervalue str value len = record {
  value = value;
  mem_size = len + 1;
  value_size = len;
}

-- the bytes in front of the appended ones: the old buffer, or what `realloc(NULL, …)` returns
unfoldable pub kept : Memory → CgString → Bytes
kept mem str = elim str.value [ none ↦ mem.fresh str.value_size | some b ↦ b ]

unfoldable pub is_null : CStr → Bool
is_null none = true
is_null (some _) = false

-- `memcpy` behind the old bytes
unfoldable pub append_bytes : Memory → CgString → Bytes → ℕ → CgString × CStr
unfolding kept
append_bytes mem str s len =
    let value = some (kept mem str ++ take len s) in
    (record str { value = value; value_size = str.value_size + len }, value)

unfoldable pub grow : Memory → CgString → Bytes → ℕ → CgString × CStr
unfolding append_bytes is_null
grow mem str s len =
    let size = str.value_size + len + 1 in
    if ltb str.mem_size size || is_null str.value
    then if mem.alloc (size + realloc_extra)
      then append_bytes mem (record str { mem_size = size + realloc_extra }) s len
      else (str, none)
    else append_bytes mem str s len

-- The new string, and the returned pointer's text.
unfoldable pub cg_string_naddvalue : Memory → CgString → CStr → ℕ → CgString × CStr
unfolding grow
cg_string_naddvalue mem str none len = (str, cg_string_getvalue str)
cg_string_naddvalue mem str (some s) len =
    if len == 0 then (str, cg_string_getvalue str) else grow mem str s len

-- The text of the argument ends at its first byte 0.
unfoldable pub cg_string_addvalue : Memory → CgString → CStr → CgString × CStr
unfolding cg_string_naddvalue strlen
cg_string_addvalue mem str none = cg_string_naddvalue mem str none 0
cg_string_addvalue mem str (some s) = cg_string_naddvalue mem str (some s) (strlen s)

unfoldable pub cg_string_setnvalue : Memory → CgString → CStr → ℕ → CgString
unfolding cg_string_clear
cg_string_setnvalue mem str none len = cg_string_clear str
cg_string_setnvalue mem str (some s) len = record {
  value = if mem.alloc (len + 1) then some (take len s) else none;
  mem_size = len + 1;
  value_size = len;
}

-- The text of the argument ends at its first byte 0.
unfoldable pub cg_string_setvalue : Memory → CgString → CStr → CgString
unfolding cg_string_setnvalue strlen
cg_string_setvalue mem str none = str
cg_string_setvalue mem str (some s) = cg_string_setnvalue mem str (some s) (strlen s)

unfoldable pub cg_string_setintvalue : Memory → CgString → ℤ → CgString
unfolding cg_string_setvalue
cg_string_setintvalue mem str value =
    cg_string_setvalue mem str (some (cg_int2str value integer_buflen))

unfoldable pub cg_string_setlongvalue : Memory → CgString → ℤ → CgString
unfolding cg_string_setvalue
cg_string_setlongvalue mem str value =
    cg_string_setvalue mem str (some (cg_long2str value long_buflen))

unfoldable pub addrep : Memory → CgString → CStr → ℕ → CgString
unfolding cg_string_addvalue
addrep mem str value zero = str
addrep mem str value (suc n) = addrep mem (cg_string_addvalue mem str value).0 value n

unfoldable pub cg_string_addrepvalue : Memory → CgString → CStr → ℕ → CgString × CStr
unfolding addrep
cg_string_addrepvalue mem str value n =
    let str' = addrep mem str value n in (str', cg_string_getvalue str')

unfoldable pub naddrep : Memory → CgString → CStr → ℕ → ℕ → CgString
unfolding cg_string_naddvalue
naddrep mem str value len zero = str
naddrep mem str value len (suc n) =
    naddrep mem (cg_string_naddvalue mem str value len).0 value len n

unfoldable pub cg_string_naddrepvalue : Memory → CgString → CStr → ℕ → ℕ → CgString × CStr
unfolding naddrep
cg_string_naddrepvalue mem str value len n =
    let str' = naddrep mem str value len n in (str', cg_string_getvalue str')
