-- ===== src/ControlPoint/Lookup.antt =====
-- The searches for devices and services of clinkc/src/cybergarage/upnp/cdevice.c and
-- clinkc/src/cybergarage/upnp/ccontrolpoint.c. They all run over the tree in the same order and
-- differ in their tests; `none` is NULL.
pub mod Order
pub mod Services
use mathlib.Core.Option
use dlna.Prelude.{
  ◌+◌, ℕ, Bool, true, false, ◌||◌, Option, none, some, List, [], ◌∷◌, Bytes, ltb, if◌then◌else◌,
}
use dlna.Prelude.Int.{pos, eqb_ℤ}
use dlna.Text.{CStr, cg_strcmp, cg_strlen}
use dlna.Text.Search.{cg_strstr}
use dlna.TypeName.{cg_upnp_devicetype_getschematype, cg_upnp_servicetype_getschematype}
use dlna.ControlPoint.{
  CgUpnpService, CgUpnpDevice, Devices, device, nil, cons, cg_upnp_device_getdevices, or_else,
}

abbrev pub same : CStr → CStr → Bool
same a b = eqb_ℤ (cg_strcmp a b) (pos 0)

abbrev pub getdevicetype : CgUpnpDevice → CStr
getdevicetype (device udn type services pkt children) = type

-- the test of the searches by exact type and by the type without its version
unfoldable pub is_exact_device : CStr → CgUpnpDevice → Bool
unfolding cg_strcmp
is_exact_device type dev = same (getdevicetype dev) type

unfoldable pub schema_matches : CStr → CStr → Bool
unfolding cg_strcmp cg_upnp_devicetype_getschematype
schema_matches type none = false
schema_matches type (some text) = same (cg_upnp_devicetype_getschematype (some text)) type

unfoldable pub is_schema_device : CStr → CgUpnpDevice → Bool
unfolding schema_matches
is_schema_device type dev = schema_matches type (getdevicetype dev)

-- The loop over a list of devices and, behind each, its embedded devices.
unfoldable mutual
  pub device_where : (CgUpnpDevice → Bool) → CgUpnpDevice → Option CgUpnpDevice
  device_where test (device u t s p children) =
      let below = devices_where test children in
      if test (device u t s p children) then some (device u t s p children) else below

  pub devices_where : (CgUpnpDevice → Bool) → Devices → Option CgUpnpDevice
  devices_where test nil = none
  devices_where test (cons dev devices) =
      or_else (device_where test dev) (devices_where test devices)

unfoldable pub cg_upnp_device_getdevicebyexacttype : CgUpnpDevice → CStr → Option CgUpnpDevice
unfolding cg_strlen devices_where is_exact_device
cg_upnp_device_getdevicebyexacttype dev type =
    if ltb 0 (cg_strlen type)
    then devices_where (is_exact_device type) (cg_upnp_device_getdevices dev)
    else none

unfoldable pub cg_upnp_device_getdevicebytype : CgUpnpDevice → CStr → Option CgUpnpDevice
unfolding cg_strlen devices_where is_schema_device
cg_upnp_device_getdevicebytype dev type =
    if ltb 0 (cg_strlen type)
    then devices_where (is_schema_device type) (cg_upnp_device_getdevices dev)
    else none

unfoldable pub cg_upnp_controlpoint_getdevicebyexacttype : Devices → CStr → Option CgUpnpDevice
unfolding cg_strlen devices_where is_exact_device
cg_upnp_controlpoint_getdevicebyexacttype devices type =
    if ltb 0 (cg_strlen type) then devices_where (is_exact_device type) devices else none

unfoldable pub cg_upnp_controlpoint_getdevicebytype : Devices → CStr → Option CgUpnpDevice
unfolding cg_strlen devices_where is_schema_device
cg_upnp_controlpoint_getdevicebytype devices type =
    if ltb 0 (cg_strlen type) then devices_where (is_schema_device type) devices else none

-- the tests of the searches for services
unfoldable pub is_service_id : CStr → CgUpnpService → Bool
unfolding cg_strcmp
is_service_id id service = same service.service_id id

unfoldable pub is_exact_service : CStr → CgUpnpService → Bool
unfolding cg_strcmp
is_exact_service type service = same service.service_type type

unfoldable pub is_schema_service : CStr → CgUpnpService → Bool
unfolding cg_strcmp cg_upnp_servicetype_getschematype
is_schema_service type service = elim service.service_type [
  | none ↦ false
  | some text ↦ same (some text) type || same (cg_upnp_servicetype_getschematype (some text)) type
]

-- `cg_strstr(...) != -1`: the URL of the request may be a part of the control URL.
unfoldable pub is_control_url : CStr → CgUpnpService → Bool
unfolding cg_strstr
is_control_url url service = elim service.control_request [
  | none ↦ false
  | some request ↦ elim (cg_strstr request url) [ none ↦ false | some i ↦ true ]
]

abbrev pub or_service : Option CgUpnpService → Option CgUpnpService → Option CgUpnpService
or_service none o = o
or_service (some service) o = some service

unfoldable pub own_service : (CgUpnpService → Bool) → List CgUpnpService → Option CgUpnpService
own_service test [] = none
own_service test (service ∷ services) =
    let rest = own_service test services in if test service then some service else rest

-- The loop over the services of a device, and then over its embedded devices.
unfoldable mutual
  unfolding own_service

  pub service_where : (CgUpnpService → Bool) → CgUpnpDevice → Option CgUpnpService
  service_where test (device u t services p children) =
      or_service (own_service test services) (services_where test children)

  pub services_where : (CgUpnpService → Bool) → Devices → Option CgUpnpService
  services_where test nil = none
  services_where test (cons dev devices) =
      or_service (service_where test dev) (services_where test devices)

abbrev pub unless_empty : CStr → Option CgUpnpService → Option CgUpnpService
unless_empty text found = if ltb 0 (cg_strlen text) then found else none

unfoldable pub cg_upnp_device_getservicebyserviceid : CgUpnpDevice → CStr → Option CgUpnpService
unfolding cg_strlen service_where is_service_id
cg_upnp_device_getservicebyserviceid dev id = unless_empty id (service_where (is_service_id id) dev)

unfoldable pub cg_upnp_device_getservicebyexacttype : CgUpnpDevice → CStr → Option CgUpnpService
unfolding cg_strlen service_where is_exact_service
cg_upnp_device_getservicebyexacttype dev type =
    unless_empty type (service_where (is_exact_service type) dev)

unfoldable pub cg_upnp_device_getservicebytype : CgUpnpDevice → CStr → Option CgUpnpService
unfolding cg_strlen service_where is_schema_service
cg_upnp_device_getservicebytype dev type =
    unless_empty type (service_where (is_schema_service type) dev)

unfoldable pub cg_upnp_device_getservicebycontrolurl : CgUpnpDevice → CStr → Option CgUpnpService
unfolding cg_strlen service_where is_control_url
cg_upnp_device_getservicebycontrolurl dev url =
    unless_empty url (service_where (is_control_url url) dev)
