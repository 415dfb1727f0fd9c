-- ===== src/Event/Device.antt =====
-- The tree of a device and its embedded devices, and the search for the service of a request:
-- clinkc/src/cybergarage/upnp/cdevice.c. Services are objects that the tree points to, so a
-- pointer is a number, and `Services` is the memory that holds them.
pub mod Search
use dlna.Prelude.{
  ℕ, Bool, true, false, Option, none, some, List, [], ◌∷◌, ◌++◌, ltb, ◌==◌, if◌then◌else◌,
}
use dlna.Text.{CStr, cg_strlen, cg_streq}
use dlna.Event.Service.{CgUpnpService}

abbrev pub Services : Type 0
Services = ℕ → CgUpnpService

abbrev pub write : Services → ℕ → CgUpnpService → Services
write services p service q = if p == q then service else services q

mutual
  pub data CgUpnpDevice : Type 0 where
    device : List ℕ → Devices → CgUpnpDevice

  pub data Devices : Type 0 where
    nil : Devices
    cons : CgUpnpDevice → Devices → Devices

-- the loop over the services of one device
unfoldable pub service_by_url : Services → List ℕ → CStr → Option ℕ
service_by_url services [] url = none
service_by_url services (p ∷ ps) url =
    if cg_streq (services p).event_sub_path url then some p else service_by_url services ps url

abbrev pub or_else : Option ℕ → Option ℕ → Option ℕ
or_else none o = o
or_else (some p) o = some p

unfoldable mutual
  pub service_in : Services → CgUpnpDevice → CStr → Option ℕ
  service_in services (device own children) url =
      or_else (service_by_url services own url) (service_in_children services children url)

  pub service_in_children : Services → Devices → CStr → Option ℕ
  service_in_children services nil url = none
  service_in_children services (cons child children) url =
      or_else (service_in services child url) (service_in_children services children url)

-- The test for an empty URL is the same in every call of the recursion.
unfoldable pub cg_upnp_device_getservicebyeventsuburl : Services → CgUpnpDevice → CStr → Option ℕ
cg_upnp_device_getservicebyeventsuburl services dev url =
    if ltb 0 (cg_strlen url) then service_in services dev url else none
