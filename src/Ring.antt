-- ===== src/Ring.antt =====
-- clinkc/src/cybergarage/util/clist.c: the ring of nodes behind a header, in which the lists of the
-- stack hold their elements. Nodes lie in a store, and a pointer is a number; 0 is NULL.
pub mod Distinct
pub mod Links
pub mod Change
pub mod Removal
pub mod Walk
pub mod Refine
use dlna.Prelude.{
  ℕ, zero, suc, ◌+◌, Bool, true, false, ◌||◌, Option, none, some, ◌==◌, if◌then◌else◌,
}

pub record CgList : Type 0 where
  pub head_flag : Bool
  pub prev : ℕ
  pub next : ℕ

abbrev pub Store : Type 0
Store = ℕ → CgList

abbrev pub null : ℕ
null = 0

abbrev pub write : Store → ℕ → CgList → Store
write s p node q = if q == p then node else s q

-- `p->prev = v` and `p->next = v`
abbrev pub set_prev : Store → ℕ → ℕ → Store
set_prev s p v = write s p (record (s p) { prev = v })

abbrev pub set_next : Store → ℕ → ℕ → Store
set_next s p v = write s p (record (s p) { next = v })

unfoldable pub cg_list_header_init : Store → ℕ → Store
cg_list_header_init s list =
    if list == null then s else write s list (record { head_flag = true; prev = list; next = list })

unfoldable pub cg_list_node_init : Store → ℕ → Store
cg_list_node_init s list =
    if list == null
    then s
    else write s list (record { head_flag = false; prev = list; next = list })

unfoldable pub cg_list_prev : Store → ℕ → ℕ
cg_list_prev s list =
    if list == null
    then null
    else if (s list).prev == null
    then null
    else if (s (s list).prev).head_flag
    then null
    else (s list).prev

unfoldable pub cg_list_next : Store → ℕ → ℕ
cg_list_next s list =
    if list == null
    then null
    else if (s list).next == null
    then null
    else if (s (s list).next).head_flag
    then null
    else (s list).next

unfoldable pub cg_list_prev_circular : Store → ℕ → ℕ
cg_list_prev_circular s list =
    if list == null
    then null
    else if (s list).prev == null
    then null
    else if (s (s list).prev).head_flag
    then (s (s list).prev).prev
    else (s list).prev

unfoldable pub cg_list_next_circular : Store → ℕ → ℕ
cg_list_next_circular s list =
    if list == null
    then null
    else if (s list).next == null
    then null
    else if (s (s list).next).head_flag
    then (s (s list).next).next
    else (s list).next

-- The four writes, in their order; each reads the store that the one before it leaves.
unfoldable pub cg_list_insert : Store → ℕ → ℕ → Store
cg_list_insert s prev_list list =
    if prev_list == null || list == null
    then s
    else let a = set_prev s list prev_list in
      let b = set_next a list (a prev_list).next in
      let c = set_prev b (b prev_list).next list in set_next c prev_list list

unfoldable pub cg_list_add : Store → ℕ → ℕ → Store
unfolding cg_list_insert
cg_list_add s head_list list =
    if head_list == null || list == null
    then s
    else if (s head_list).prev == null
    then s
    else cg_list_insert s (s head_list).prev list

unfoldable pub cg_list_remove : Store → ℕ → Store
cg_list_remove s list =
    if list == null
    then s
    else if (s list).prev == null || (s list).next == null
    then s
    else let a = set_next s (s list).prev (s list).next in
      let b = set_prev a (a list).next (a list).prev in
      let c = set_next b list list in set_prev c list list

-- the loop of `cg_list_size`; `none` means that the fuel ran out
unfoldable pub count_from : ℕ → Store → ℕ → ℕ → Option ℕ
count_from zero s list count = none
count_from (suc fuel) s list count =
    let rest = count_from fuel s (cg_list_next s list) (count + 1) in
    if list == null then some count else rest

unfoldable pub cg_list_size : ℕ → Store → ℕ → Option ℕ
unfolding count_from
cg_list_size fuel s head_list =
    if head_list == null then some 0 else count_from fuel s (cg_list_next s head_list) 0

-- the loop of `cg_list_get`, which runs `index` times at most
unfoldable pub step_from : ℕ → Store → ℕ → ℕ
step_from zero s list = list
step_from (suc n) s list =
    let rest = step_from n s (cg_list_next s list) in if list == null then null else rest

unfoldable pub cg_list_get : Store → ℕ → ℕ → ℕ
unfolding step_from
cg_list_get s head_list index =
    if head_list == null then null else step_from index s (cg_list_next s head_list)

-- The loop of `cg_list_clear`, with what the destructor does to the store. `free` is such a
-- destructor as well.
unfoldable pub cg_list_clear : ℕ → (Store → ℕ → Store) → Store → ℕ → Option Store
cg_list_clear zero destructor s head_list = none
cg_list_clear (suc fuel) destructor s head_list =
    let list = cg_list_next s head_list in
    let rest = cg_list_clear fuel destructor (destructor (cg_list_remove s list) list) head_list in
    if head_list == null then some s else if list == null then some s else rest
