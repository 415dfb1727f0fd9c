-- ===== src/Ssdp/Device/Answers.antt =====
-- The answers to a search and the notifications of a device are about the same targets.
use mathlib.Core.List.{map}
use dlna.Prelude.{◌≡◌, refl, sym, ap, Bool, true, false, List, some, [], ◌∷◌, ◌++◌, Bytes}
use dlna.Text.{cg_streq, strcmp, cg_strcmp}
use dlna.Ssdp.{all_device}
use dlna.Ssdp.Device.{
  CgUpnpDevice, Devices, device, nil, cons, Advert, notification, alive, byebye, answers,
  answer_children, answer_device, answer_services, announce_device, announce_services,
  announce_children, byebye_device, byebye_services, byebye_children, cg_upnp_device_announcefrom,
  cg_upnp_device_byebyefrom, cg_upnp_service_ssdpmessagereceived, cg_upnp_service_announcefrom,
  cg_upnp_service_byebyefrom,
}

-- the adverts of a device: its answers to "ssdp:all"
abbrev adverts : CgUpnpDevice → List Advert
adverts dev = answers dev (some all_device)

map-append {ℓ κ} :
    {A : Type ℓ} {B : Type κ} (f : A → B) (xs ys : List A) → map f (xs ++ ys) ≡ map f xs ++ map f ys
map-append f [] ys = refl
map-append f (x ∷ xs) ys = ap (◌∷◌ (f x)) (map-append f xs ys)

map-parts {ℓ κ} :
    {A : Type ℓ} {B : Type κ} (f : A → B) (xs ys : List A) (us vs : List B)
    → us ≡ map f xs
    → vs ≡ map f ys
    → us ++ vs ≡ map f (xs ++ ys)
map-parts f xs ys us vs p q = rw (p, q) (sym (map-append f xs ys))

announce_services-map :
    (udn : Bytes) (services : List Bytes)
    → announce_services udn services
      ≡ map (notification alive) (answer_services udn services (some all_device))
unfolding announce_services answer_services cg_upnp_service_announcefrom
    cg_upnp_service_ssdpmessagereceived dlna.Text.Search.strstr dlna.Text.Search.is_prefix
announce_services-map udn [] = refl
announce_services-map udn (service ∷ services) =
    ap (◌∷◌ (cg_upnp_service_announcefrom udn service)) (announce_services-map udn services)

announce_device-map :
    (is_root : Bool) (udn type : Bytes)
    → announce_device is_root udn type
      ≡ map (notification alive) (answer_device is_root udn type (some all_device))
unfolding announce_device answer_device dlna.Text.Search.strstr dlna.Text.Search.is_prefix
announce_device-map true udn type = refl
announce_device-map false udn type = refl

mutual
  unfolding cg_upnp_device_announcefrom answers

  announcefrom-map :
      (dev : CgUpnpDevice)
      → cg_upnp_device_announcefrom dev ≡ map (notification alive) (answers dev (some all_device))
  announcefrom-map (device r udn type services children) =
      map-parts (notification alive) _ _ _ _ (announce_device-map r udn type) (
        map-parts (notification alive) _ _ _ _ (announce_services-map udn services)
          (announce_children-map children))

  announce_children-map :
      (children : Devices)
      → announce_children children
        ≡ map (notification alive) (answer_children children (some all_device))
  announce_children-map nil = refl
  announce_children-map (cons child children) =
      map-parts (notification alive) _ _ _ _ (announcefrom-map child)
        (announce_children-map children)

byebye_services-map :
    (udn : Bytes) (services : List Bytes)
    → byebye_services udn services
      ≡ map (notification byebye) (answer_services udn services (some all_device))
unfolding byebye_services answer_services cg_upnp_service_byebyefrom
    cg_upnp_service_ssdpmessagereceived dlna.Text.Search.strstr dlna.Text.Search.is_prefix
byebye_services-map udn [] = refl
byebye_services-map udn (service ∷ services) =
    ap (◌∷◌ (cg_upnp_service_byebyefrom udn service)) (byebye_services-map udn services)

byebye_device-map :
    (is_root : Bool) (udn type : Bytes)
    → byebye_device is_root udn type
      ≡ map (notification byebye) (answer_device is_root udn type (some all_device))
unfolding byebye_device answer_device dlna.Text.Search.strstr dlna.Text.Search.is_prefix
byebye_device-map true udn type = refl
byebye_device-map false udn type = refl

mutual
  unfolding cg_upnp_device_byebyefrom answers

  byebyefrom-map :
      (dev : CgUpnpDevice)
      → cg_upnp_device_byebyefrom dev ≡ map (notification byebye) (answers dev (some all_device))
  byebyefrom-map (device r udn type services children) =
      map-parts (notification byebye) _ _ _ _ (byebye_device-map r udn type) (
        map-parts (notification byebye) _ _ _ _ (byebye_services-map udn services)
          (byebye_children-map children))

  byebye_children-map :
      (children : Devices)
      → byebye_children children
        ≡ map (notification byebye) (answer_children children (some all_device))
  byebye_children-map nil = refl
  byebye_children-map (cons child children) =
      map-parts (notification byebye) _ _ _ _ (byebyefrom-map child) (byebye_children-map children)

-- A device tree announces with ssdp:alive, and takes back with ssdp:byebye, exactly the pairs of
-- target and USN that it answers a search for ssdp:all with, in the same order.
pub notifications-answers :
    (dev : CgUpnpDevice)
    → (cg_upnp_device_announcefrom dev ≡ map (notification alive) (answers dev (some all_device)))
      × (cg_upnp_device_byebyefrom dev ≡ map (notification byebye) (answers dev (some all_device)))
notifications-answers dev = (announcefrom-map dev, byebyefrom-map dev)
