-- ===== src/ControlPoint/Lookup/Order.antt =====
-- The searches return what comes first in the order of the description.
use dlna.Prelude.{
  append_assoc, ◌≡◌, refl, sym, ap, ◌∙◌, ◌≤◌, ◌<◌, ℕ, Bool, true, false, Option, none, some, List,
  [], ◌∷◌, ◌++◌, arith, Bytes, length, ltb, All, Bool-cases, inl, inr, if◌then◌else◌,
}
use dlna.Text.{cg_strcmp, cg_strlen}
use dlna.Text.Compare.{strcmp_iff}
use dlna.TypeName.Colons.{type_name, schema_type}
use dlna.TypeName.Parts.{devicetype-parts}
use dlna.Text.Search.Find.{Lacks}
use dlna.ControlPoint.{
  CgUpnpService, CgUpnpDevice, Devices, device, nil, cons, cg_upnp_device_getdevices, or_else,
}
use dlna.ControlPoint.Lookup.{
  getdevicetype, same, schema_matches, device_where, devices_where, own_service, service_where,
  services_where, or_service, is_exact_device, is_schema_device, is_service_id, is_exact_service,
  is_schema_service, is_control_url, cg_upnp_controlpoint_getdevicebyexacttype,
  cg_upnp_controlpoint_getdevicebytype, cg_upnp_device_getdevicebyexacttype,
  cg_upnp_device_getdevicebytype, cg_upnp_device_getservicebyserviceid,
  cg_upnp_device_getservicebyexacttype, cg_upnp_device_getservicebytype,
  cg_upnp_device_getservicebycontrolurl,
}

-- the first element that passes a test
unfoldable pub first {ℓ} : {A : Type ℓ} → (A → Bool) → List A → Option A
first test [] = none
first test (x ∷ xs) = let rest = first test xs in if test x then some x else rest

unfoldable mutual
  -- Every device in front of the ones embedded in it, in the order of the description.
  pub flat_one : CgUpnpDevice → List CgUpnpDevice
  flat_one (device u t s p children) = device u t s p children ∷ flat children

  pub flat : Devices → List CgUpnpDevice
  flat nil = []
  flat (cons dev devices) = flat_one dev ++ flat devices

-- The services of each of these devices.
abbrev pub services_of : CgUpnpDevice → List CgUpnpService
services_of (device u t services p children) = services

unfoldable pub all_services : List CgUpnpDevice → List CgUpnpService
all_services [] = []
all_services (dev ∷ devices) = services_of dev ++ all_services devices

orelse {ℓ} : {A : Type ℓ} → Option A → Option A → Option A
orelse none o = o
orelse (some x) o = some x

first-append {ℓ} :
    {A : Type ℓ} (test : A → Bool) (xs ys : List A)
    → first test (xs ++ ys) ≡ orelse (first test xs) (first test ys)
unfolding first orelse
first-append test [] ys = refl
first-append test (x ∷ xs) ys = elim (Bool-cases (test x)) [
  | inl hit ↦ rw hit refl
  | inr miss ↦ rw miss (first-append test xs ys)
]

or_else-orelse : (o p : Option CgUpnpDevice) → or_else o p ≡ orelse o p
unfolding orelse
or_else-orelse none p = refl
or_else-orelse (some x) p = refl

or_service-orelse : (o p : Option CgUpnpService) → or_service o p ≡ orelse o p
unfolding orelse
or_service-orelse none p = refl
or_service-orelse (some x) p = refl

mutual
  unfolding device_where flat_one first

  device_where-flat :
      (test : CgUpnpDevice → Bool) (dev : CgUpnpDevice)
      → device_where test dev ≡ first test (flat_one dev)
  device_where-flat test (device u t s p children) =
      ap (λ o. if test (device u t s p children) then some (device u t s p children) else o)
        (devices_where-flat test children)

  devices_where-flat :
      (test : CgUpnpDevice → Bool) (devices : Devices)
      → devices_where test devices ≡ first test (flat devices)
  devices_where-flat test nil = refl
  devices_where-flat test (cons dev devices) =
      or_else-orelse _ _
      ∙ ap (λ o. orelse o (devices_where test devices)) (device_where-flat test dev)
      ∙ ap (orelse (first test (flat_one dev))) (devices_where-flat test devices)
      ∙ sym (first-append test (flat_one dev) (flat devices))

own_service-first :
    (test : CgUpnpService → Bool) (services : List CgUpnpService)
    → own_service test services ≡ first test services
unfolding own_service first
own_service-first test [] = refl
own_service-first test (service ∷ services) =
    ap (λ o. if test service then some service else o) (own_service-first test services)

all_services-append :
    (xs ys : List CgUpnpDevice) → all_services (xs ++ ys) ≡ all_services xs ++ all_services ys
unfolding all_services
all_services-append [] ys = refl
all_services-append (x ∷ xs) ys =
    ap (◌++◌ (services_of x)) (all_services-append xs ys)
    ∙ sym (append_assoc (services_of x) (all_services xs) (all_services ys))

mutual
  unfolding service_where flat_one all_services first

  pub service_where-flat :
      (test : CgUpnpService → Bool) (dev : CgUpnpDevice)
      → service_where test dev ≡ first test (all_services (flat_one dev))
  service_where-flat test (device u t services p children) =
      or_service-orelse _ _
      ∙ ap (λ o. orelse o (services_where test children)) (own_service-first test services)
      ∙ ap (orelse (first test services)) (services_where-flat test children)
      ∙ sym (first-append test services (all_services (flat children)))

  services_where-flat :
      (test : CgUpnpService → Bool) (devices : Devices)
      → services_where test devices ≡ first test (all_services (flat devices))
  services_where-flat test nil = refl
  services_where-flat test (cons dev devices) =
      or_service-orelse _ _
      ∙ ap (λ o. orelse o (services_where test devices)) (service_where-flat test dev)
      ∙ ap (orelse (first test (all_services (flat_one dev)))) (services_where-flat test devices)
      ∙ sym (first-append test (all_services (flat_one dev)) (all_services (flat devices)))
      ∙ ap (first test) (sym (all_services-append (flat_one dev) (flat devices)))

some_text : (c : ℕ) (s : Bytes) → ltb 0 (cg_strlen (some (c ∷ s))) ≡ true
unfolding cg_strlen
some_text c s = ground arith

-- Each of the searches for a device by its exact type or by its type without version, in a control
-- point and below a device, and each of the searches below a device for a service by its id, its
-- exact type, its type without version or its control URL, with a text that is not empty, returns
-- the first that passes its test in the flat list of the tree, where every device, with its
-- services, stands in front of the devices embedded in it.
searches-first :
    (devices : Devices) (dev : CgUpnpDevice) (c : ℕ) (s : Bytes)
    → (cg_upnp_controlpoint_getdevicebyexacttype devices (some (c ∷ s))
        ≡ first (is_exact_device (some (c ∷ s))) (flat devices))
      × (cg_upnp_device_getdevicebyexacttype dev (some (c ∷ s))
          ≡ first (is_exact_device (some (c ∷ s))) (flat (cg_upnp_device_getdevices dev)))
      × (cg_upnp_device_getdevicebytype dev (some (c ∷ s))
          ≡ first (is_schema_device (some (c ∷ s))) (flat (cg_upnp_device_getdevices dev)))
      × (cg_upnp_controlpoint_getdevicebytype devices (some (c ∷ s))
          ≡ first (is_schema_device (some (c ∷ s))) (flat devices))
      × (cg_upnp_device_getservicebyserviceid dev (some (c ∷ s))
          ≡ first (is_service_id (some (c ∷ s))) (all_services (flat_one dev)))
      × (cg_upnp_device_getservicebyexacttype dev (some (c ∷ s))
          ≡ first (is_exact_service (some (c ∷ s))) (all_services (flat_one dev)))
      × (cg_upnp_device_getservicebytype dev (some (c ∷ s))
          ≡ first (is_schema_service (some (c ∷ s))) (all_services (flat_one dev)))
      × (cg_upnp_device_getservicebycontrolurl dev (some (c ∷ s))
          ≡ first (is_control_url (some (c ∷ s))) (all_services (flat_one dev)))
unfolding cg_upnp_controlpoint_getdevicebyexacttype cg_upnp_controlpoint_getdevicebytype
    cg_upnp_device_getdevicebyexacttype cg_upnp_device_getdevicebytype
    cg_upnp_device_getservicebyserviceid cg_upnp_device_getservicebyexacttype
    cg_upnp_device_getservicebytype cg_upnp_device_getservicebycontrolurl
searches-first devices dev c s =
    let there = some_text c s in
    (
      rw there (devices_where-flat _ devices),
      rw there (devices_where-flat _ (cg_upnp_device_getdevices dev)),
      rw there (devices_where-flat _ (cg_upnp_device_getdevices dev)),
      rw there (devices_where-flat _ devices),
      rw there (service_where-flat _ dev),
      rw there (service_where-flat _ dev),
      rw there (service_where-flat _ dev),
      rw there (service_where-flat _ dev),
    )

schema-hit :
    (dev : CgUpnpDevice) (a b c d e : Bytes)
    → 2 ≤ length a
    → 0 < length e
    → Lacks b':' a
    → Lacks b':' b
    → Lacks b':' c
    → Lacks b':' d
    → Lacks b':' e
    → getdevicetype dev ≡ some (type_name a b c d e)
    → is_schema_device (some (schema_type a b c d)) dev ≡ true
unfolding is_schema_device schema_matches cg_strcmp
schema-hit dev a b c d e far last ha hb hc hd he is =
    let part = ap (λ p. p.schematype) (devicetype-parts a b c d e far last ha hb hc hd he) in
    let text = schema_type a b c d in
    ap (schema_matches (some text)) is
    ∙ ap (λ p. same p (some text)) part
    ∙ (strcmp_iff text text).1 refl

pub first-hit {ℓ} :
    {A : Type ℓ} (test : A → Bool) (before after : List A) (x : A)
    → All (λ y. test y ≡ false) before
    → test x ≡ true
    → first test (before ++ (x ∷ after)) ≡ some x
unfolding first
first-hit test [] after x misses hit = rw hit refl
first-hit test (y ∷ before) after x (miss, misses) hit =
    rw miss (first-hit test before after x misses hit)

-- A control point finds a device by its type without the version, whatever version it has, if no
-- device before it in the flat list of the trees has this type without version. The type has five
-- parts as for typename-parts.
pub getdevicebytype-version :
    (devices : Devices) (before after : List CgUpnpDevice) (dev : CgUpnpDevice) (x : ℕ)
    (a b c d e : Bytes)
    → 1 ≤ length a
    → 0 < length e
    → Lacks b':' (x ∷ a)
    → Lacks b':' b
    → Lacks b':' c
    → Lacks b':' d
    → Lacks b':' e
    → flat devices ≡ before ++ (dev ∷ after)
    → All (λ y. is_schema_device (some (schema_type (x ∷ a) b c d)) y ≡ false) before
    → getdevicetype dev ≡ some (type_name (x ∷ a) b c d e)
    → cg_upnp_controlpoint_getdevicebytype devices (some (schema_type (x ∷ a) b c d)) ≡ some dev
getdevicebytype-version devices before after dev x a b c d e far last ha hb hc hd he at misses is =
    let hit = schema-hit dev (x ∷ a) b c d e (omega arith) last ha hb hc hd he is in
    let found =
      (searches-first devices dev x (a ++ (b':' ∷ (b ++ (b':' ∷ (c ++ (b':' ∷ d))))))).3 in
    found
    ∙ ap (first (is_schema_device (some (schema_type (x ∷ a) b c d)))) at
    ∙ first-hit _ before after dev misses hit
