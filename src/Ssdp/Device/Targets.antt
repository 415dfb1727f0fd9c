-- ===== src/Ssdp/Device/Targets.antt =====
-- A search with a target is answered with the adverts that have this target.
use dlna.Prelude.{
  ◌≡◌, ◌≢◌, ◌≤◌, refl, sym, ap, ◌∙◌, Bool, true, false, List, some, [], ◌∷◌, ◌++◌, arith, Bytes,
  length, take-all, All, Bool-cases, inl, inr, if◌then◌else◌,
}
use dlna.Text.{cg_streq}
use dlna.Text.Compare.{cg_streq_iff}
use dlna.Ssdp.{rootdevice, all_device, cg_upnp_st_isalldevice, cg_upnp_st_isurn}
use dlna.Ssdp.Device.{
  CgUpnpDevice, Devices, device, nil, cons, Advert, advert, answers, answer_children, answer_device,
  answer_services, cg_upnp_service_ssdpmessagereceived, cg_upnp_service_getnotifyservicetypent,
  cg_upnp_device_getnotifydeviceusn, cg_upnp_device_getnotifydevicetypeusn, line_maxsize,
}
use dlna.Ssdp.Device.Kinds.{
  Kind, all, root, uuid, urn, other, kind, IsType, WellFormed, WellFormeds, wanted, wanted-append,
  streq-kind, streq_refl,
}

-- the adverts of the device itself, with the whole type
own : Bool → Bytes → Bytes → List Advert
unfolding cg_upnp_device_getnotifydeviceusn cg_upnp_device_getnotifydevicetypeusn
own is_root udn type =
    (if is_root
      then advert rootdevice (cg_upnp_device_getnotifydeviceusn is_root udn line_maxsize) ∷ []
      else [])
    ++ (advert type (cg_upnp_device_getnotifydevicetypeusn udn type line_maxsize)
        ∷ advert udn udn
        ∷ [])

own-all :
    (r : Bool) (udn type : Bytes)
    → length type ≤ 127
    → answer_device r udn type (some all_device) ≡ own r udn type
unfolding answer_device own dlna.Text.Search.strstr dlna.Text.Search.is_prefix
own-all true udn type fits = rw (take-all 127 type fits) refl
own-all false udn type fits = rw (take-all 127 type fits) refl

-- the answers of the device itself, by the kind of the target
by_kind : Kind → Bool → Bytes → Bytes → Bytes → List Advert
unfolding cg_upnp_device_getnotifydeviceusn cg_upnp_device_getnotifydevicetypeusn
by_kind all r udn type st = own r udn type
by_kind root r udn type st =
    if r then advert rootdevice (cg_upnp_device_getnotifydeviceusn r udn line_maxsize) ∷ [] else []
by_kind uuid r udn type st = if cg_streq (some st) (some udn) then advert udn udn ∷ [] else []
by_kind urn r udn type st =
    if cg_streq (some st) (some type)
    then advert type (cg_upnp_device_getnotifydevicetypeusn udn type line_maxsize) ∷ []
    else []
by_kind other r udn type st = []

answer_device-kind :
    (r : Bool) (udn type st : Bytes)
    → kind st ≢ all
    → answer_device r udn type (some st) ≡ by_kind (kind st) r udn type st
unfolding answer_device kind by_kind
answer_device-kind r udn type st some_target = ground arith

-- What a target must be: not "ssdp:all", and of the root kind only as it is written.
abbrev pub IsTarget : Bytes → Type 0
IsTarget st = (kind st ≢ all) × (kind st ≡ root → st ≡ rootdevice)

kind-nil : kind [] ≡ other
unfolding kind dlna.Text.Search.strstr dlna.Text.Search.is_prefix
kind-nil = refl

kind-rootdevice : kind rootdevice ≡ root
unfolding kind dlna.Text.Search.strstr dlna.Text.Search.is_prefix
kind-rootdevice = refl

own-wanted :
    (k : Kind) (r : Bool) (udn type st : Bytes)
    → kind st ≡ k
    → IsTarget st
    → kind udn ≡ uuid
    → kind type ≡ urn
    → by_kind k r udn type st ≡ wanted st (own r udn type)
unfolding by_kind wanted own
own-wanted all r udn type st is target hu ht = absurd (target.0 is)
own-wanted root true udn type st is target hu ht =
    let here : cg_streq (some st) (some rootdevice) ≡ true =
      ap (λ t. cg_streq (some t) (some rootdevice)) (target.1 is) ∙ streq_refl rootdevice in
    let no_type = streq-kind st type (λ e. absurd (cc)) in
    let no_udn = streq-kind st udn (λ e. absurd (cc)) in rw (here, no_type, no_udn) refl
own-wanted root false udn type st is target hu ht =
    let no_type = streq-kind st type (λ e. absurd (cc)) in
    let no_udn = streq-kind st udn (λ e. absurd (cc)) in rw (no_type, no_udn) refl
own-wanted uuid r udn type st is target hu ht =
    let root_is = kind-rootdevice in
    let no_root = streq-kind st rootdevice (λ e. absurd (cc)) in
    let no_type = streq-kind st type (λ e. absurd (cc)) in ground arith
own-wanted urn r udn type st is target hu ht =
    let root_is = kind-rootdevice in
    let no_root = streq-kind st rootdevice (λ e. absurd (cc)) in
    let no_udn = streq-kind st udn (λ e. absurd (cc)) in ground arith
own-wanted other r udn type st is target hu ht =
    let root_is = kind-rootdevice in
    let no_root = streq-kind st rootdevice (λ e. absurd (cc)) in
    let no_type = streq-kind st type (λ e. absurd (cc)) in
    let no_udn = streq-kind st udn (λ e. absurd (cc)) in ground arith

kind-urn : (st : Bytes) → kind st ≡ urn → cg_upnp_st_isurn (some st) ≡ true
unfolding kind
kind-urn st is = ground arith

kind-all : (st : Bytes) → kind st ≢ all → cg_upnp_st_isalldevice (some st) ≡ false
unfolding kind
kind-all st differ = ground arith

streq-same_kind : (st s : Bytes) → cg_streq (some st) (some s) ≡ true → kind st ≡ kind s
streq-same_kind st s hit = let (t, p, q) = (cg_streq_iff (some st) (some s)).0 hit in ground arith

service-wanted :
    (udn service st : Bytes)
    → IsTarget st
    → IsType service
    → cg_upnp_service_ssdpmessagereceived udn service (some st)
      ≡ wanted st (cg_upnp_service_ssdpmessagereceived udn service (some all_device))
unfolding cg_upnp_service_ssdpmessagereceived cg_upnp_service_getnotifyservicetypent wanted
    dlna.Text.Search.strstr dlna.Text.Search.is_prefix
service-wanted udn service [] target (is, fits) =
    let miss = streq-kind [] service (λ e. absurd (let nothing = kind-nil in cc)) in
    rw (take-all 127 service fits, miss) refl
service-wanted udn service (c ∷ st) target (is, fits) =
    rw (take-all 127 service fits, kind-all (c ∷ st) target.0)
      (elim (Bool-cases (cg_streq (some (c ∷ st)) (some service))) [
        | inl hit ↦
            let urn_st = kind-urn (c ∷ st) (streq-same_kind (c ∷ st) service hit ∙ is) in
            rw (urn_st, hit) refl
        | inr miss ↦ elim (Bool-cases (cg_upnp_st_isurn (some (c ∷ st)))) [
          | inl h ↦ rw (h, miss) refl
          | inr h ↦ rw (h, miss) refl
        ]
      ])

wanted-parts :
    (st : Bytes) (xs ys us vs : List Advert)
    → us ≡ wanted st xs
    → vs ≡ wanted st ys
    → us ++ vs ≡ wanted st (xs ++ ys)
wanted-parts st xs ys us vs p q = rw (p, q) (sym (wanted-append st xs ys))

services-wanted :
    (udn : Bytes) (services : List Bytes) (st : Bytes)
    → IsTarget st
    → All IsType services
    → answer_services udn services (some st)
      ≡ wanted st (answer_services udn services (some all_device))
unfolding answer_services wanted
services-wanted udn [] st target fits = refl
services-wanted udn (service ∷ services) st target (fit, fits) =
    wanted-parts st _ _ _ _ (service-wanted udn service st target fit)
      (services-wanted udn services st target fits)

device-wanted :
    (r : Bool) (udn type st : Bytes)
    → IsTarget st
    → kind udn ≡ uuid
    → IsType type
    → answer_device r udn type (some st) ≡ wanted st (answer_device r udn type (some all_device))
device-wanted r udn type st target hu (ht, fits) =
    answer_device-kind r udn type st target.0
    ∙ own-wanted (kind st) r udn type st refl target hu ht
    ∙ ap (wanted st) (sym (own-all r udn type fits))

mutual
  unfolding answers WellFormed wanted

  answers-matching :
      (dev : CgUpnpDevice) (st : Bytes)
      → IsTarget st
      → WellFormed dev
      → answers dev (some st) ≡ wanted st (answers dev (some all_device))
  answers-matching (device r udn type services children) st target (hu, ht, hs, hc) =
      wanted-parts st _ _ _ _ (device-wanted r udn type st target hu ht) (
        wanted-parts st _ _ _ _ (services-wanted udn services st target hs)
          (answer_children-matching children st target hc))

  answer_children-matching :
      (children : Devices) (st : Bytes)
      → IsTarget st
      → WellFormeds children
      → answer_children children (some st) ≡ wanted st (answer_children children (some all_device))
  answer_children-matching nil st target h = refl
  answer_children-matching (cons child children) st target (h, hs) =
      wanted-parts st _ _ _ _ (answers-matching child st target h)
        (answer_children-matching children st target hs)

-- The answers of a device tree to a search target are exactly those of its answers to ssdp:all, in
-- their order, that are about this target. The target does not contain ssdp:all, and if it
-- contains upnp:rootdevice it is that; every UDN of the tree contains uuid, every type of a device
-- or service urn and not uuid, neither contains one of the other two, and types have at most 127
-- bytes.
pub answers-wanted :
    (dev : CgUpnpDevice) (st : Bytes)
    → IsTarget st
    → WellFormed dev
    → answers dev (some st) ≡ wanted st (answers dev (some all_device))
answers-wanted dev st target h = answers-matching dev st target h
