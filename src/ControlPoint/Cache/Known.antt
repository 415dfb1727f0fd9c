-- ===== src/ControlPoint/Cache/Known.antt =====
-- The UDNs in the list of the control point, and the lemmas on the search and the change of a
-- device in it.
use mathlib.Core.Path.{subst}
use dlna.Prelude.{
  ◌≡◌, inl, inr, refl, sym, ap, ◌∙◌, Bool, true, false, ◌||◌, Option, none, some, List, [], ◌∷◌,
  ◌++◌, Bytes, Bool-cases, if◌then◌else◌,
}
use dlna.Prelude.Int.{pos, eqb_ℤ}
use dlna.Text.{CStr, cg_strcmp}
use dlna.Text.Compare.{strcmp_iff}
use dlna.ControlPoint.{
  CgUpnpDevice, Devices, device, nil, cons, cg_upnp_device_getudn, cg_upnp_device_getdevices,
  has_udn, find,
}
use dlna.ControlPoint.Cache.{exchange, keep, cg_upnp_controlpoint_adddevice}

-- the UDNs of the root devices, in the order of the list
unfoldable pub udns : Devices → List CStr
udns nil = []
udns (cons dev devices) = cg_upnp_device_getudn dev ∷ udns devices

abbrev pub is_udn : Bytes → CStr → Bool
is_udn udn known = eqb_ℤ (cg_strcmp known (some udn)) (pos 0)

unfoldable pub knows : Bytes → List CStr → Bool
knows udn [] = false
knows udn (known ∷ list) = is_udn udn known || knows udn list

unfoldable pub forget : Bytes → List CStr → List CStr
forget udn [] = []
forget udn (known ∷ list) =
    let rest = forget udn list in if is_udn udn known then list else known ∷ rest

pub is_udn_iff : (udn : Bytes) (known : CStr) → is_udn udn known ≡ true → known ≡ some udn
unfolding cg_strcmp
is_udn_iff udn none hit = absurd (cc)
is_udn_iff udn (some k) hit = ap some ((strcmp_iff k udn).0 hit)

pub is_udn_refl : (udn : Bytes) → is_udn udn (some udn) ≡ true
unfolding cg_strcmp
is_udn_refl udn = (strcmp_iff udn udn).1 refl

pub udns-adddevice :
    (devices : Devices) (dev : CgUpnpDevice)
    → udns (cg_upnp_controlpoint_adddevice devices dev)
      ≡ udns devices ++ (cg_upnp_device_getudn dev ∷ [])
unfolding udns cg_upnp_controlpoint_adddevice
udns-adddevice nil dev = refl
udns-adddevice (cons first devices) dev =
    ap (◌∷◌ (cg_upnp_device_getudn first)) (udns-adddevice devices dev)

pub find-hit :
    (v : Bytes) (dev : CgUpnpDevice) (devices : Devices)
    → has_udn v dev ≡ true
    → find v (cons dev devices) ≡ some dev
unfolding find
find-hit v (device u t s p c) devices hit = rw hit refl

pub find-miss :
    (v : Bytes) (dev : CgUpnpDevice) (devices : Devices)
    → has_udn v dev ≡ false
    → find v (cg_upnp_device_getdevices dev) ≡ none
    → find v (cons dev devices) ≡ find v devices
unfolding find
find-miss v (device u t s p c) devices miss below = rw (miss, below) refl

pub exchange-hit :
    (v : Bytes) (new : Option CgUpnpDevice) (dev : CgUpnpDevice) (devices : Devices)
    → has_udn v dev ≡ true
    → exchange v new (cons dev devices) ≡ keep new devices
unfolding exchange
exchange-hit v new (device u t s p c) devices hit = rw hit refl

pub exchange-miss :
    (v : Bytes) (new : Option CgUpnpDevice) (dev : CgUpnpDevice) (devices : Devices)
    → has_udn v dev ≡ false
    → find v (cg_upnp_device_getdevices dev) ≡ none
    → exchange v new (cons dev devices) ≡ cons dev (exchange v new devices)
unfolding exchange
exchange-miss v new (device u t s p c) devices miss below = rw (miss, below) refl

-- Some UDNs are those of root devices, and no embedded device has one of them.
module _ (root : Bytes → Bool) where
  abbrev pub IsRoot : CgUpnpDevice → Type 0
  IsRoot dev =
      ((u : Bytes) × (cg_upnp_device_getudn dev ≡ some u) × (root u ≡ true))
      × ((v : Bytes) → root v ≡ true → find v (cg_upnp_device_getdevices dev) ≡ none)

  abbrev pub IsCache : Devices → Type 0
  IsCache nil = Unit
  IsCache (cons dev devices) = IsRoot dev × IsCache devices

  pub IsCache-adddevice :
      (devices : Devices) (dev : CgUpnpDevice)
      → IsCache devices
      → IsRoot dev
      → IsCache (cg_upnp_controlpoint_adddevice devices dev)
  unfolding cg_upnp_controlpoint_adddevice
  IsCache-adddevice nil dev cache new = (new, tt)
  IsCache-adddevice (cons first devices) dev (h, cache) new =
      (h, IsCache-adddevice devices dev cache new)

  -- The search only finds root devices.
  pub find-IsRoot :
      (v : Bytes) (devices : Devices) (dev : CgUpnpDevice)
      → root v ≡ true
      → IsCache devices
      → find v devices ≡ some dev
      → IsRoot dev × (cg_upnp_device_getudn dev ≡ some v)
  unfolding find
  find-IsRoot v nil dev is cache found = absurd (cc)
  find-IsRoot v (cons first devices) dev is (h, cache) found = elim (Bool-cases (has_udn v first)) [
    | inl hit ↦
        let same : first ≡ dev = let e = find-hit v first devices hit in cc in
        subst (λ d. IsRoot d × (cg_upnp_device_getudn d ≡ some v)) same
          (h, is_udn_iff v (cg_upnp_device_getudn first) hit)
    | inr miss ↦
        find-IsRoot v devices dev is cache (sym (find-miss v first devices miss (h.1 v is)) ∙ found)
  ]

  pub find-knows :
      (v : Bytes) (devices : Devices)
      → root v ≡ true
      → IsCache devices
      → find v devices ≡ none
      → knows v (udns devices) ≡ false
  unfolding knows udns
  find-knows v nil is cache none_found = refl
  find-knows v (cons first devices) is (h, cache) none_found = elim (Bool-cases (has_udn v first)) [
    | inl hit ↦ let e = find-hit v first devices hit in absurd (cc)
    | inr miss ↦
        let e = find-miss v first devices miss (h.1 v is) in
        rw (miss, find-knows v devices is cache (sym e ∙ none_found)) refl
  ]

  pub found-knows :
      (v : Bytes) (devices : Devices) (dev : CgUpnpDevice)
      → root v ≡ true
      → IsCache devices
      → find v devices ≡ some dev
      → knows v (udns devices) ≡ true
  unfolding knows udns find
  found-knows v nil dev is cache found = absurd (cc)
  found-knows v (cons first devices) dev is (h, cache) found = elim (Bool-cases (has_udn v first)) [
    | inl hit ↦ rw hit refl
    | inr miss ↦
        let e = find-miss v first devices miss (h.1 v is) in
        let rest = found-knows v devices dev is cache (sym e ∙ found) in rw (miss, rest) refl
  ]

  -- A device that keeps its UDN changes in place.
  pub udns-exchange :
      (v : Bytes) (devices : Devices) (new : CgUpnpDevice)
      → root v ≡ true
      → IsCache devices
      → IsRoot new
      → cg_upnp_device_getudn new ≡ some v
      → (udns (exchange v (some new) devices) ≡ udns devices)
        × IsCache (exchange v (some new) devices)
  unfolding udns exchange
  udns-exchange v nil new is cache h same = (refl, tt)
  udns-exchange v (cons first devices) new is (hf, cache) h same =
      elim (Bool-cases (has_udn v first)) [
        | inl hit ↦
            let e = exchange-hit v (some new) first devices hit in
            let udn = is_udn_iff v (cg_upnp_device_getudn first) hit in
            (
              ap udns e ∙ ap (λ k. k ∷ udns devices) (same ∙ sym udn),
              subst IsCache (sym e) (h, cache),
            )
        | inr miss ↦
            let e = exchange-miss v (some new) first devices miss (hf.1 v is) in
            let (rest, good) = udns-exchange v devices new is cache h same in
            (
              ap udns e ∙ ap (◌∷◌ (cg_upnp_device_getudn first)) rest,
              subst IsCache (sym e) (hf, good),
            )
      ]

  pub udns-delete :
      (v : Bytes) (devices : Devices)
      → root v ≡ true
      → IsCache devices
      → (udns (exchange v none devices) ≡ forget v (udns devices))
        × IsCache (exchange v none devices)
  unfolding udns exchange forget
  udns-delete v nil is cache = (refl, tt)
  udns-delete v (cons first devices) is (hf, cache) = elim (Bool-cases (has_udn v first)) [
    | inl hit ↦
        let e = exchange-hit v none first devices hit in
        (ap udns e ∙ rw hit refl, subst IsCache (sym e) cache)
    | inr miss ↦
        let e = exchange-miss v none first devices miss (hf.1 v is) in
        let (rest, good) = udns-delete v devices is cache in
        (ap udns e ∙ rw (miss, rest) refl, subst IsCache (sym e) (hf, good))
  ]
