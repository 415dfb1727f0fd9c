-- ===== src/ControlPoint.antt =====
-- The device cache of a control point: clinkc/src/cybergarage/upnp/ccontrolpoint.c,
-- clinkc/src/cybergarage/upnp/cdevice.c and `cg_upnp_usn_getudn` of
-- clinkc/src/cybergarage/upnp/control/ccontrol_function.c. A device is the part of it that these
-- functions read: UDN, type, services, the SSDP packet it was last seen with,
-- and the embedded devices. The list of the control point is a list of such trees. One handler
-- runs at a time, as under the lock of the control point.
pub mod Cache
pub mod Usn
pub mod Lookup
use dlna.Prelude.{
  ℕ, ◌-◌, Bool, true, false, ◌&&◌, Option, none, some, List, [], ◌∷◌, ◌++◌, Bytes, codes, take, ltb,
  if◌then◌else◌,
}
use dlna.Prelude.Int.{pos, eqb_ℤ}
use dlna.Text.{CStr, cg_strlen, cg_strcmp, cg_streq}
use dlna.Text.Search.{cg_strstr}
use dlna.Text.Trim.{strrtrim}
use dlna.Ssdp.{
  CgUpnpSsdpPacket, header_of, cg_upnp_ssdp_packet_getusn, cg_upnp_ssdp_packet_getnts,
  cg_upnp_ssdp_packet_isrootdevice, cg_upnp_nts_isalive, cg_upnp_nts_isbyebye,
}

-- `control_request` is the request part of the control URL, or `none` without such a URL.
pub record CgUpnpService : Type 0 where
  pub service_id : CStr
  pub service_type : CStr
  pub scpd_url : CStr
  pub control_request : Option CStr

mutual
  pub data CgUpnpDevice : Type 0 where
    device : CStr → CStr → List CgUpnpService → CgUpnpSsdpPacket → Devices → CgUpnpDevice

  pub data Devices : Type 0 where
    nil : Devices
    cons : CgUpnpDevice → Devices → Devices

abbrev pub cg_upnp_device_getudn : CgUpnpDevice → CStr
cg_upnp_device_getudn (device udn type services pkt children) = udn

abbrev pub cg_upnp_device_getssdppacket : CgUpnpDevice → CgUpnpSsdpPacket
cg_upnp_device_getssdppacket (device udn type services pkt children) = pkt

abbrev pub cg_upnp_device_getdevices : CgUpnpDevice → Devices
cg_upnp_device_getdevices (device udn type services pkt children) = children

abbrev pub cg_upnp_ssdp_packet_getlocation : CgUpnpSsdpPacket → CStr
cg_upnp_ssdp_packet_getlocation pkt = header_of pkt (codes "Location")

-- What comes of fetching and parsing the description at a location: no answer, an answer that is
-- no description, or the UDN, the type, the services and the embedded devices.
pub data Fetched : Type 0 where
  unreachable : Fetched
  unparsable : Fetched
  described : CStr → CStr → List CgUpnpService → Devices → Fetched

-- The network and the XML parser: the description at a location, and whether the SCPD of a
-- service can be had.
pub record Network : Type 0 where
  pub description : CStr → Fetched
  pub scpd : CStr → Bool

-- CG_UPNP_UDN_LEN_MAX
abbrev pub udn_len_max : ℕ
udn_len_max = 128

-- the bytes of the USN in front of "::", as many as the buffer has room for
unfoldable pub udn_part : Bytes → Option ℕ → ℕ → Bytes
udn_part usn none size = take (size - 1) usn
udn_part usn (some i) size = if ltb i size then take i usn else take (size - 1) usn

-- The result of `cg_strtrim` is not used: only the spaces behind the UDN are cut off.
unfoldable pub cg_upnp_usn_getudn : CStr → ℕ → Bytes
unfolding cg_strstr udn_part strrtrim
cg_upnp_usn_getudn none size = []
cg_upnp_usn_getudn (some usn) size =
    strrtrim (udn_part usn (cg_strstr (some usn) (some (codes "::"))) size) (codes " ") 1

abbrev pub has_udn : Bytes → CgUpnpDevice → Bool
has_udn udn dev = eqb_ℤ (cg_strcmp (cg_upnp_device_getudn dev) (some udn)) (pos 0)

abbrev pub or_else : Option CgUpnpDevice → Option CgUpnpDevice → Option CgUpnpDevice
or_else none o = o
or_else (some dev) o = some dev

-- The loop of `cg_upnp_controlpoint_getdevicebyudn`, and of `cg_upnp_device_getdevicebyudn` over
-- the embedded devices.
unfoldable mutual
  unfolding cg_strcmp

  find_here : Bytes → CgUpnpDevice → Option CgUpnpDevice
  find_here udn (device u type services pkt children) =
      let below = find udn children in
      if has_udn udn (device u type services pkt children)
      then some (device u type services pkt children)
      else below

  pub find : Bytes → Devices → Option CgUpnpDevice
  find udn nil = none
  find udn (cons dev devices) = or_else (find_here udn dev) (find udn devices)

unfoldable pub cg_upnp_controlpoint_getdevicebyudn : Devices → Bytes → Option CgUpnpDevice
unfolding find
cg_upnp_controlpoint_getdevicebyudn devices [] = none
cg_upnp_controlpoint_getdevicebyudn devices (c ∷ udn) = find (c ∷ udn) devices

unfoldable pub cg_upnp_device_getdevicebyudn : CgUpnpDevice → Bytes → Option CgUpnpDevice
unfolding find
cg_upnp_device_getdevicebyudn dev [] = none
cg_upnp_device_getdevicebyudn dev (c ∷ udn) = find (c ∷ udn) (cg_upnp_device_getdevices dev)

unfoldable pub all_parse : Network → List CgUpnpService → Bool
all_parse network [] = true
all_parse network (service ∷ services) = network.scpd service.scpd_url && all_parse network services

unfoldable mutual
  unfolding all_parse

  pub cg_upnp_controlpoint_parseservicesfordevice : Network → CgUpnpDevice → Bool
  cg_upnp_controlpoint_parseservicesfordevice network (device udn type services pkt children) =
      all_parse network services && parse_children network children

  pub parse_children : Network → Devices → Bool
  parse_children network nil = true
  parse_children network (cons child children) =
      cg_upnp_controlpoint_parseservicesfordevice network child && parse_children network children

-- The device after the new description; a device without one is left as it is, or cleared.
unfoldable pub redescribed : CgUpnpDevice → CgUpnpSsdpPacket → Fetched → CgUpnpDevice
redescribed (device udn type services old children) pkt unreachable =
    device udn type services pkt children
redescribed dev pkt unparsable = device none none [] pkt nil
redescribed dev pkt (described udn type services children) = device udn type services pkt children

abbrev pub setssdppacket : CgUpnpDevice → CgUpnpSsdpPacket → CgUpnpDevice
setssdppacket (device udn type services old children) pkt = device udn type services pkt children

-- The device in place of the old one, which is deleted when the source does that, and the result.
unfoldable pub cg_upnp_device_updatefromssdppacket :
    Network → CgUpnpDevice → CgUpnpSsdpPacket → Option CgUpnpDevice × Bool
unfolding cg_streq redescribed cg_upnp_controlpoint_parseservicesfordevice
cg_upnp_device_updatefromssdppacket network dev pkt =
    let new = cg_upnp_ssdp_packet_getlocation pkt in
    let changed = redescribed dev pkt (network.description new) in
    if cg_streq (cg_upnp_ssdp_packet_getlocation (cg_upnp_device_getssdppacket dev)) new
    then (some (setssdppacket dev pkt), true)
    else if cg_upnp_controlpoint_parseservicesfordevice network changed
    then (some changed, true)
    else (none, false)

unfoldable pub created : Network → CgUpnpSsdpPacket → Fetched → Option CgUpnpDevice
unfolding cg_upnp_controlpoint_parseservicesfordevice
created network pkt unreachable = none
created network pkt unparsable = none
created network pkt (described udn type services children) =
    let dev = device udn type services pkt children in
    if cg_upnp_controlpoint_parseservicesfordevice network dev then some dev else none

unfoldable pub cg_upnp_controlpoint_createdevicefromssdkpacket :
    Network → CgUpnpSsdpPacket → Option CgUpnpDevice
unfolding created cg_strlen
cg_upnp_controlpoint_createdevicefromssdkpacket network pkt =
    let location = cg_upnp_ssdp_packet_getlocation pkt in
    if ltb 0 (cg_strlen location) then created network pkt (network.description location) else none
