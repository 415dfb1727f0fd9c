-- ===== src/TypeName.antt =====
-- The parts of the types of devices and services, as in "urn:schemas-upnp-org:device:light:1":
-- clinkc/src/cybergarage/upnp/cdevice.c and clinkc/src/cybergarage/upnp/cservice.c, which have the
-- same six functions each. An index that a loop leaves at the end of the text, since there is no
-- colon, is `none` here until it is used.
pub mod Colons
pub mod Parts
use dlna.Prelude.{
  ℕ, zero, suc, ◌+◌, ◌-◌, ◌&&◌, Option, none, some, [], ◌∷◌, Bytes, length, take, drop, ltb, ◌==◌,
  if◌then◌else◌,
}
use dlna.Prelude.Int.{ℤ, pos, negsuc, sub_ℕ}
use dlna.Text.{CStr}

-- The index of the colon behind `k` others; the text begins at index `i`.
unfoldable pub nth_colon : ℕ → Bytes → ℕ → Option ℕ
nth_colon k [] i = none
nth_colon zero (c ∷ s) i = let rest = nth_colon zero s (suc i) in if c == b':' then some i else rest
nth_colon (suc k) (c ∷ s) i =
    let counted = nth_colon k s (suc i) in
    let rest = nth_colon (suc k) s (suc i) in if c == b':' then counted else rest

-- `head`: behind the colon
abbrev pub head_of : Option ℕ → ℕ → ℕ
head_of none len = len
head_of (some i) len = suc i

-- `tail`: in front of the colon
abbrev pub tail_of : Option ℕ → ℕ → ℤ
tail_of none len = pos len
tail_of (some i) len = sub_ℕ i 1

-- The test of `tail`, and the copy of the bytes from `head` to `tail`.
unfoldable pub copy_part : Bytes → ℕ → ℤ → ℕ → CStr
copy_part s head (negsuc t) limit = none
copy_part s head (pos tail) limit =
    if ltb 0 tail && ltb tail limit then some (take (tail + 1 - head) (drop head s)) else none

-- The part behind a colon, up to the next one.
unfoldable pub part_behind : Bytes → Option ℕ → ℕ → CStr
unfolding nth_colon copy_part
part_behind s colon limit =
    let len = length s in
    let head = head_of colon len in
    let tail = tail_of (nth_colon 0 (drop head s) head) len in
    if ltb 0 head && ltb head len then copy_part s head tail limit else none

-- The part behind the colon that follows `k` others.
unfoldable pub part_at : ℕ → Bytes → ℕ → CStr
unfolding nth_colon part_behind
part_at k s limit = part_behind s (nth_colon k s 0) limit

unfoldable pub cg_upnp_devicetype_getidentifier : CStr → CStr
unfolding nth_colon copy_part
cg_upnp_devicetype_getidentifier none = none
cg_upnp_devicetype_getidentifier (some s) =
    copy_part s 0 (tail_of (nth_colon 0 s 0) (length s)) (length s)

unfoldable pub cg_upnp_devicetype_geturn : CStr → CStr
unfolding part_at
cg_upnp_devicetype_geturn none = none
cg_upnp_devicetype_geturn (some s) = part_at 0 s (length s)

unfoldable pub cg_upnp_devicetype_getdevice : CStr → CStr
unfolding part_at
cg_upnp_devicetype_getdevice none = none
cg_upnp_devicetype_getdevice (some s) = part_at 1 s (length s)

unfoldable pub cg_upnp_devicetype_gettype : CStr → CStr
unfolding part_at
cg_upnp_devicetype_gettype none = none
cg_upnp_devicetype_gettype (some s) = part_at 2 s (length s)

unfoldable pub cg_upnp_devicetype_getschematype : CStr → CStr
unfolding nth_colon copy_part
cg_upnp_devicetype_getschematype none = none
cg_upnp_devicetype_getschematype (some s) =
    copy_part s 0 (tail_of (nth_colon 3 s 0) (length s)) (length s)

-- A version may end with the text.
unfoldable pub cg_upnp_devicetype_getversion : CStr → CStr
unfolding part_at
cg_upnp_devicetype_getversion none = none
cg_upnp_devicetype_getversion (some s) = part_at 3 s (length s + 1)

unfoldable pub cg_upnp_servicetype_getidentifier : CStr → CStr
unfolding nth_colon copy_part
cg_upnp_servicetype_getidentifier none = none
cg_upnp_servicetype_getidentifier (some s) =
    copy_part s 0 (tail_of (nth_colon 0 s 0) (length s)) (length s)

unfoldable pub cg_upnp_servicetype_geturn : CStr → CStr
unfolding part_at
cg_upnp_servicetype_geturn none = none
cg_upnp_servicetype_geturn (some s) = part_at 0 s (length s)

unfoldable pub cg_upnp_servicetype_getservice : CStr → CStr
unfolding part_at
cg_upnp_servicetype_getservice none = none
cg_upnp_servicetype_getservice (some s) = part_at 1 s (length s)

unfoldable pub cg_upnp_servicetype_gettype : CStr → CStr
unfolding part_at
cg_upnp_servicetype_gettype none = none
cg_upnp_servicetype_gettype (some s) = part_at 2 s (length s)

unfoldable pub cg_upnp_servicetype_getschematype : CStr → CStr
unfolding nth_colon copy_part
cg_upnp_servicetype_getschematype none = none
cg_upnp_servicetype_getschematype (some s) =
    copy_part s 0 (tail_of (nth_colon 3 s 0) (length s)) (length s)

-- A version may end with the text.
unfoldable pub cg_upnp_servicetype_getversion : CStr → CStr
unfolding part_at
cg_upnp_servicetype_getversion none = none
cg_upnp_servicetype_getversion (some s) = part_at 3 s (length s + 1)
