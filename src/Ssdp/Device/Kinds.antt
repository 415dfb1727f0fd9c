-- ===== src/Ssdp/Device/Kinds.antt =====
-- The kinds of search targets, and the adverts that have a target.
use dlna.Prelude.{
  ◌≡◌, ◌≢◌, ◌≤◌, refl, true, false, List, some, [], ◌∷◌, ◌++◌, arith, Bytes, length, All,
  Bool-cases, inl, inr, if◌then◌else◌,
}
use dlna.Text.{cg_streq}
use dlna.Text.Compare.{cg_streq_iff}
use dlna.Ssdp.{
  cg_upnp_st_isalldevice, cg_upnp_st_isrootdevice, cg_upnp_st_isuuiddevice, cg_upnp_st_isurn,
}
use dlna.Ssdp.Device.{CgUpnpDevice, Devices, device, nil, cons, Advert}

-- The kind of a search target, by the tests of the device in their order.
pub data Kind : Type 0 where
  all : Kind
  root : Kind
  uuid : Kind
  urn : Kind
  other : Kind

unfoldable pub kind : Bytes → Kind
unfolding cg_upnp_st_isalldevice cg_upnp_st_isrootdevice cg_upnp_st_isuuiddevice cg_upnp_st_isurn
kind st =
    if cg_upnp_st_isalldevice (some st)
    then all
    else if cg_upnp_st_isrootdevice (some st)
    then root
    else if cg_upnp_st_isuuiddevice (some st)
    then uuid
    else if cg_upnp_st_isurn (some st)
    then urn
    else other

-- A type that is one URN and fits in the line buffers.
abbrev pub IsType : Bytes → Type 0
IsType type = (kind type ≡ urn) × (length type ≤ 127)

unfoldable mutual
  -- The UDN of every device of the tree is a UUID, and every type a type.
  pub WellFormed : CgUpnpDevice → Type 0
  WellFormed (device r udn type services children) =
      (kind udn ≡ uuid) × IsType type × All IsType services × WellFormeds children

  pub WellFormeds : Devices → Type 0
  WellFormeds nil = Unit
  WellFormeds (cons child children) = WellFormed child × WellFormeds children

-- the adverts with a target
unfoldable pub wanted : Bytes → List Advert → List Advert
wanted st [] = []
wanted st (a ∷ more) =
    let rest = wanted st more in if cg_streq (some st) (some a.target) then a ∷ rest else rest

pub wanted-append :
    (st : Bytes) (xs ys : List Advert) → wanted st (xs ++ ys) ≡ wanted st xs ++ wanted st ys
unfolding wanted
wanted-append st [] ys = refl
wanted-append st (x ∷ xs) ys = ground (arith, wanted-append st xs ys)

pub streq-kind : (a b : Bytes) → kind a ≢ kind b → cg_streq (some a) (some b) ≡ false
streq-kind a b differ = elim (Bool-cases (cg_streq (some a) (some b))) [
  | inl hit ↦ let (s, p, q) = (cg_streq_iff (some a) (some b)).0 hit in absurd (ground arith)
  | inr miss ↦ miss
]

pub streq_refl : (a : Bytes) → cg_streq (some a) (some a) ≡ true
streq_refl a = (cg_streq_iff (some a) (some a)).1 (a, refl, refl)
