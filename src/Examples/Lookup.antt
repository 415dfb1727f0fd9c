-- ===== src/Examples/Lookup.antt =====
-- Concrete inputs for the types of devices and the searches of clinkc/src/cybergarage/upnp/cdevice.c.
use dlna.Prelude.{
  ◌≡◌, refl, ap, length, some, none, [], ◌∷◌, ◌++◌, arith, Bool, Bytes, codes, drop, true, not,
  ◌&&◌, ◌==◌, false, inl, inr,
}
use dlna.Text.{CStr}
use dlna.Text.Search.Find.{Lacks}
use dlna.Ssdp.{CgUpnpSsdpPacket}
use dlna.TypeName.{cg_upnp_devicetype_getidentifier}
use dlna.TypeName.Colons.{type_name, schema_type}
use dlna.TypeName.Parts.{devicetype_parts, servicetype_parts, five_parts, typename-parts}
use dlna.ControlPoint.{
  CgUpnpService, CgUpnpDevice, Devices, device, nil, cons, cg_upnp_device_getdevices,
}
use dlna.ControlPoint.Lookup.{
  is_exact_device, is_schema_device, is_service_id, is_exact_service, is_schema_service,
  is_control_url, cg_upnp_controlpoint_getdevicebyexacttype, cg_upnp_controlpoint_getdevicebytype,
  cg_upnp_device_getdevicebyexacttype, cg_upnp_device_getdevicebytype,
  cg_upnp_device_getservicebyserviceid, cg_upnp_device_getservicebyexacttype,
  cg_upnp_device_getservicebytype, cg_upnp_device_getservicebycontrolurl,
}
use dlna.ControlPoint.Lookup.Order.{flat, flat_one, all_services, getdevicebytype-version}
use dlna.ControlPoint.Lookup.Services.{HasType, Differs, getservicebytype-first}
use dlna.Examples.Discovery.{lighting}

abbrev urn : Bytes
urn = codes "urn"

abbrev schemas : Bytes
schemas = codes "schemas-upnp-org"

abbrev middle : Bytes
middle = codes "device"

abbrev light : Bytes
light = codes "light"

abbrev version : Bytes
version = codes "1"

abbrev no_colon : Bytes → Bool
no_colon [] = true
no_colon (c ∷ s) = not (c == b':') && no_colon s

no_colon-Lacks : (s : Bytes) → no_colon s ≡ true → Lacks b':' s
no_colon-Lacks [] h = tt
no_colon-Lacks (c ∷ s) h = (ground arith, no_colon-Lacks s (ground arith))

typename-parts_example :
    (devicetype_parts (some (type_name urn schemas middle light version))
      ≡ five_parts urn schemas middle light version)
    × (servicetype_parts (some (type_name urn schemas middle light version))
        ≡ five_parts urn schemas middle light version)
typename-parts_example =
    typename-parts urn schemas middle light version (omega arith) (omega arith)
      (no_colon-Lacks urn refl) (no_colon-Lacks schemas refl) (no_colon-Lacks middle refl)
      (no_colon-Lacks light refl) (no_colon-Lacks version refl)

-- an identifier of one byte is not found
one_byte : cg_upnp_devicetype_getidentifier (some (codes "u:s:device:light:1")) ≡ none
unfolding cg_upnp_devicetype_getidentifier
one_byte = refl

abbrev packet : CgUpnpSsdpPacket
packet = record { data_bytes = none; remote_address = []; remote_port = 0; header_list = [] }

abbrev bulb : CgUpnpDevice
bulb =
    device (some (codes "uuid:bulb")) (some (type_name urn schemas middle light version))
      (lighting ∷ []) packet nil

-- a device of another type with the bulb in it
abbrev house : CgUpnpDevice
house =
    device (some (codes "uuid:house")) (some (codes "urn:x:device:house:1")) [] packet
      (cons bulb nil)

flat-house : flat (cons house nil) ≡ (house ∷ []) ++ (bulb ∷ [])
unfolding flat
flat-house = refl

house_other : is_schema_device (some (schema_type urn schemas middle light)) house ≡ false
unfolding is_schema_device dlna.ControlPoint.Lookup.schema_matches
    dlna.TypeName.cg_upnp_devicetype_getschematype dlna.Text.cg_strcmp dlna.Text.strcmp
house_other = refl

getdevicebytype-version_example :
    cg_upnp_controlpoint_getdevicebytype
      (cons house nil)
      (some (schema_type urn schemas middle light))
    ≡ some bulb
getdevicebytype-version_example =
    getdevicebytype-version (cons house nil) (house ∷ []) [] bulb b'u' (drop 1 urn) schemas middle
      light version (omega arith) (omega arith) (no_colon-Lacks urn refl)
      (no_colon-Lacks schemas refl) (no_colon-Lacks middle refl) (no_colon-Lacks light refl)
      (no_colon-Lacks version refl) flat-house (house_other, tt) refl

abbrev basic : CgUpnpService
basic = record {
  service_id = some (codes "urn:upnp-org:serviceId:basic");
  service_type = some (type_name urn schemas (codes "service") (codes "basic") version);
  scpd_url = none;
  control_request = none;
}

abbrev dimmer : CgUpnpService
dimmer = record {
  service_id = some (codes "urn:upnp-org:serviceId:dimmer");
  service_type = some (type_name urn schemas (codes "service") (codes "dimmer") (codes "2"));
  scpd_url = none;
  control_request = none;
}

-- a device with a service of another type in front of the one looked for
abbrev panel : CgUpnpDevice
panel = device (some (codes "uuid:panel")) none (basic ∷ dimmer ∷ []) packet nil

basic-HasType : HasType basic urn schemas (codes "service") (codes "basic") version
basic-HasType = record {
  type = refl;
  far = omega arith;
  last = omega arith;
  colon_a = no_colon-Lacks urn refl;
  colon_b = no_colon-Lacks schemas refl;
  colon_c = no_colon-Lacks (codes "service") refl;
  colon_d = no_colon-Lacks (codes "basic") refl;
  colon_e = no_colon-Lacks version refl;
}

dimmer-HasType : HasType dimmer urn schemas (codes "service") (codes "dimmer") (codes "2")
dimmer-HasType = record {
  type = refl;
  far = omega arith;
  last = omega arith;
  colon_a = no_colon-Lacks urn refl;
  colon_b = no_colon-Lacks schemas refl;
  colon_c = no_colon-Lacks (codes "service") refl;
  colon_d = no_colon-Lacks (codes "dimmer") refl;
  colon_e = no_colon-Lacks (codes "2") refl;
}

services-panel : all_services (flat_one panel) ≡ (basic ∷ []) ++ (dimmer ∷ [])
unfolding flat all_services
services-panel = refl

basic-Differs : Differs (schema_type urn schemas (codes "service") (codes "dimmer")) basic
basic-Differs = inr (
  urn,
  schemas,
  codes "service",
  codes "basic",
  version,
  basic-HasType,
  (λ e. omega (arith, ap length e)),
  (λ e. omega (arith, ap length e)),
)

getservicebytype-first_example :
    cg_upnp_device_getservicebytype panel
      (some (schema_type urn schemas (codes "service") (codes "dimmer")))
    ≡ some dimmer
getservicebytype-first_example =
    getservicebytype-first panel (basic ∷ []) [] dimmer urn schemas (codes "service")
      (codes "dimmer") (codes "2") (schema_type urn schemas (codes "service") (codes "dimmer"))
      dimmer-HasType (inl refl) services-panel (basic-Differs, tt)
