-- ===== src/Event/Device/Search.antt =====
-- What the search for a service depends on, and what it finds.
use dlna.Prelude.{
  ℕ, ◌≡◌, refl, ap, ◌∙◌, true, some, List, [], ◌∷◌, arith, ◌==◌, ltb, Bool-cases, inl, inr,
}
use dlna.Text.{CStr, cg_strlen}
use dlna.Event.Service.{CgUpnpService}
use dlna.Event.Device.{
  Services, write, CgUpnpDevice, Devices, device, nil, cons, service_by_url, service_in,
  service_in_children, cg_upnp_device_getservicebyeventsuburl,
}

-- two memories in which all services have the same event paths
abbrev pub SamePaths : Services → Services → Type 0
SamePaths s t = (p : ℕ) → (s p).event_sub_path ≡ (t p).event_sub_path

module _ (s t : Services) (same : SamePaths s t) where
  service_by_url-SamePaths :
      (ps : List ℕ) (url : CStr) → service_by_url s ps url ≡ service_by_url t ps url
  unfolding service_by_url
  service_by_url-SamePaths [] url = refl
  service_by_url-SamePaths (p ∷ ps) url = rw (same p, service_by_url-SamePaths ps url) refl

  mutual
    unfolding service_in

    service_in-SamePaths :
        (dev : CgUpnpDevice) (url : CStr) → service_in s dev url ≡ service_in t dev url
    service_in-SamePaths (device own children) url =
        rw (service_by_url-SamePaths own url, service_in_children-SamePaths children url) refl

    service_in_children-SamePaths :
        (devs : Devices) (url : CStr)
        → service_in_children s devs url ≡ service_in_children t devs url
    service_in_children-SamePaths nil url = refl
    service_in_children-SamePaths (cons child children) url =
        rw (service_in-SamePaths child url, service_in_children-SamePaths children url) refl

  pub getservicebyeventsuburl-SamePaths :
      (dev : CgUpnpDevice) (url : CStr)
      → cg_upnp_device_getservicebyeventsuburl s dev url
        ≡ cg_upnp_device_getservicebyeventsuburl t dev url
  unfolding cg_upnp_device_getservicebyeventsuburl
  getservicebyeventsuburl-SamePaths dev url = rw (service_in-SamePaths dev url) refl

pub write-SamePaths :
    (services : Services) (p : ℕ) (service : CgUpnpService)
    → service.event_sub_path ≡ (services p).event_sub_path
    → SamePaths (write services p service) services
write-SamePaths services p service e q = elim (Bool-cases (p == q)) [
  | inl hit ↦ let at : p ≡ q = ground arith in rw hit (e ∙ ap (λ r. (services r).event_sub_path) at)
  | inr miss ↦ rw miss refl
]

pub write_same :
    (services : Services) (p : ℕ) (service : CgUpnpService) → write services p service p ≡ service
write_same services p service = let hit : (p == p) ≡ true = ground arith in rw hit refl

-- a search that finds something was for a URL with text in it
pub found-url :
    (services : Services) (dev : CgUpnpDevice) (url : CStr) {p : ℕ}
    → cg_upnp_device_getservicebyeventsuburl services dev url ≡ some p
    → ltb 0 (cg_strlen url) ≡ true
unfolding cg_upnp_device_getservicebyeventsuburl
found-url services dev url h = elim (Bool-cases (ltb 0 (cg_strlen url))) [
  | inl there ↦ there
  | inr empty ↦ absurd (let c = (rw empty at h) in cc)
]
