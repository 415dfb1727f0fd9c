-- ===== src/Str/Replace.antt =====
-- `cg_string_replace` of clinkc/src/cybergarage/util/cstring.c.
pub mod Loop
use dlna.Prelude.{
  ℕ, zero, suc, ◌+◌, ◌*◌, Bool, true, false, Option, none, some, List, [], ◌∷◌, Bytes, length, drop,
  if◌then◌else◌,
}
use dlna.Prelude.Int.{pos, eqb_ℤ}
use dlna.Text.{CStr, strncmp}
use dlna.Str.{
  Memory, CgString, cg_string_new, cg_string_addvalue, cg_string_naddvalue, cg_string_setvalue,
}
use dlna.Str.Value.{text_of}

-- the arrays `fromStr` and `toStr`, side by side
abbrev pub Table : Type 0
Table = List (Bytes × Bytes)

-- `orgValue + copyPos`, `repValue` and `isReplaced`
pub record Progress : Type 0 where
  pub rest : Bytes
  pub rep : CgString
  pub replaced : Bool

abbrev pub begins : Bytes → Bytes → Bool
begins from rest = eqb_ℤ (strncmp from rest (length from)) (pos 0)

unfoldable pub try_one : Memory → Bytes → Bytes → Progress → Progress
try_one mem from to st =
    if begins from st.rest
    then record {
      rest = drop (length from) st.rest;
      rep = (cg_string_addvalue mem st.rep (some to)).0;
      replaced = true;
    }
    else st

-- The inner loop. Its `continue` goes on with the next entry, at the position behind the match.
unfoldable pub sweep : Memory → Table → Progress → Progress
unfolding try_one
sweep mem [] st = st
sweep mem ((from, to) ∷ table) st = sweep mem table (try_one mem from to st)

-- The outer loop on fuel.
unfoldable pub replace_loop : Memory → Table → ℕ → Bytes → CgString → Option CgString
unfolding sweep
replace_loop mem table zero rest rep = none
replace_loop mem table (suc fuel) [] rep = some rep
replace_loop mem table (suc fuel) (c ∷ rest) rep =
    let st = sweep mem table (record { rest = c ∷ rest; rep = rep; replaced = false }) in
    let again = replace_loop mem table fuel st.rest st.rep in
    let step =
      replace_loop mem table fuel rest (cg_string_naddvalue mem rep (some (c ∷ rest)) 1).0 in
    if st.replaced then again else step

store_result : Memory → CgString → Option CgString → Option (CgString × CStr)
store_result mem str none = none
store_result mem str (some rep) =
    let str' = cg_string_setvalue mem str rep.value in some (str', str'.value)

-- `none` means that the fuel ran out. The array of lengths is allocated first.
unfoldable pub cg_string_replace : Memory → CgString → Table → Option (CgString × CStr)
unfolding replace_loop store_result
cg_string_replace mem str table =
    let org = text_of str.value in
    if mem.alloc (4 * length table)
    then store_result mem str (replace_loop mem table (length org + 1) org cg_string_new)
    else some (str, none)
