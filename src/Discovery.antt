-- ===== src/Discovery.antt =====
-- A device and a control point together: what the notifications of
-- clinkc/src/cybergarage/upnp/cdevice.c do in the control point of
-- clinkc/src/cybergarage/upnp/ccontrolpoint.c. A datagram arrives as it was sent, with its headers
-- in the order in which the device sets them; those that the control point does not read are left
-- out.
pub mod First
pub mod Lifecycle
use mathlib.Core.Path.{subst}
use mathlib.Core.List.{map}
use dlna.Prelude.{
  ◌≡◌, ◌<◌, refl, sym, ap, ◌∙◌, Bool, true, false, none, some, List, [], ◌∷◌, ◌++◌, append_assoc,
  append-nil, arith, Bytes, codes, length, drop, All, All-append,
}
use dlna.Text.{CStr}
use dlna.Http.Headers.{HttpHeader, cg_http_headerlist_set, cg_http_headerlist_getvalue}
use dlna.Ssdp.{
  CgUpnpSsdpPacket, cg_upnp_ssdp_packet_isrootdevice, cg_upnp_nts_isalive, cg_upnp_nts_isbyebye,
  cg_upnp_ssdp_packet_getnts,
}
use dlna.Ssdp.Device.{
  CgUpnpDevice, device, Devices, Notification, notification, advert, alive, byebye,
  cg_upnp_device_announcefrom, cg_upnp_device_byebyefrom, line_maxsize,
  cg_upnp_device_getnotifydeviceusn, announce_device, byebye_device,
  cg_upnp_device_getnotifydevicent,
}
use dlna.ControlPoint
use dlna.ControlPoint.{Network}
use dlna.ControlPoint.Usn.{IsUdn, usn_getudn-usn}
use dlna.ControlPoint.Cache.{DeviceEvent, event, added, removed, packet_udn}
use dlna.ControlPoint.Cache.Known.{udns, knows, forget, is_udn, is_udn_refl, IsCache}
use dlna.ControlPoint.Cache.Refine.{announced, withdrawn, IsHonest}
use dlna.ControlPoint.Cache.Runs.{
  heard, notified, all_notified, heard-notified, IsFair, knows-append, then_notified,
}

-- the headers that `cg_upnp_ssdprequest_setnts`, `setnt` and `setusn` set
abbrev notify_headers : List HttpHeader → Notification → List HttpHeader
notify_headers list n =
    cg_http_headerlist_set
      (cg_http_headerlist_set (cg_http_headerlist_set list (some (codes "NTS")) (some n.nts))
        (some (codes "NT")) (some n.nt))
      (some (codes "USN")) (some n.usn)

abbrev datagram : List HttpHeader → CgUpnpSsdpPacket
datagram list = record {
  data_bytes = none;
  remote_address = codes "239.255.255.250";
  remote_port = 1900;
  header_list = list;
}

-- The packets that arrive. The location is set first, and only in `cg_upnp_device_announcefrom`.
abbrev pub alive_packet : Bytes → Notification → CgUpnpSsdpPacket
alive_packet location n =
    datagram
      (notify_headers (cg_http_headerlist_set [] (some (codes "Location")) (some location)) n)

abbrev pub byebye_packet : Notification → CgUpnpSsdpPacket
byebye_packet n = datagram (notify_headers [] n)

-- the notification of a root device that comes first
abbrev root_notification : Bytes → Bytes → Notification
root_notification nts udn = notification nts (
    advert (cg_upnp_device_getnotifydevicent true udn line_maxsize)
      (cg_upnp_device_getnotifydeviceusn true udn line_maxsize))

abbrev pub announcement : Bytes → Bytes → CgUpnpSsdpPacket
announcement location udn = alive_packet location (root_notification alive udn)

announcement_shape :
    (location udn : Bytes)
    → (cg_upnp_ssdp_packet_isrootdevice (announcement location udn) ≡ true)
      × (cg_upnp_nts_isalive (cg_upnp_ssdp_packet_getnts (announcement location udn)) ≡ true)
unfolding cg_http_headerlist_set cg_http_headerlist_getvalue cg_upnp_ssdp_packet_isrootdevice
    cg_upnp_nts_isalive cg_upnp_device_getnotifydevicent dlna.Text.Search.strstr
    dlna.Text.Search.is_prefix dlna.Text.cg_strcasecmp dlna.Text.strcasecmp dlna.Text.toupper
    dlna.Http.Headers.is_named
announcement_shape location udn = (refl, refl)

announcement_udn : (location udn : Bytes) → IsUdn udn → packet_udn (announcement location udn) ≡ udn
unfolding cg_http_headerlist_set cg_http_headerlist_getvalue dlna.Text.cg_strcasecmp
    dlna.Text.strcasecmp dlna.Text.toupper dlna.Http.Headers.is_named
announcement_udn location udn h = (usn_getudn-usn udn [] h).0

abbrev pub withdrawal : Bytes → CgUpnpSsdpPacket
withdrawal udn = byebye_packet (root_notification byebye udn)

withdrawal_shape :
    (udn : Bytes)
    → (cg_upnp_ssdp_packet_isrootdevice (withdrawal udn) ≡ true)
      × (cg_upnp_nts_isalive (cg_upnp_ssdp_packet_getnts (withdrawal udn)) ≡ false)
      × (cg_upnp_nts_isbyebye (cg_upnp_ssdp_packet_getnts (withdrawal udn)) ≡ true)
unfolding cg_http_headerlist_set cg_http_headerlist_getvalue cg_upnp_ssdp_packet_isrootdevice
    cg_upnp_nts_isalive cg_upnp_nts_isbyebye cg_upnp_device_getnotifydevicent
    dlna.Text.Search.strstr dlna.Text.Search.is_prefix dlna.Text.cg_strcasecmp dlna.Text.strcasecmp
    dlna.Text.toupper dlna.Http.Headers.is_named
withdrawal_shape udn = (refl, refl, refl)

withdrawal_udn : (udn : Bytes) → IsUdn udn → packet_udn (withdrawal udn) ≡ udn
unfolding cg_http_headerlist_set cg_http_headerlist_getvalue dlna.Text.cg_strcasecmp
    dlna.Text.strcasecmp dlna.Text.toupper dlna.Http.Headers.is_named
withdrawal_udn udn h = (usn_getudn-usn udn [] h).0

abbrev pub announce_packets : Bytes → CgUpnpDevice → List CgUpnpSsdpPacket
announce_packets location dev = map (alive_packet location) (cg_upnp_device_announcefrom dev)

abbrev pub byebye_packets : CgUpnpDevice → List CgUpnpSsdpPacket
byebye_packets dev = map byebye_packet (cg_upnp_device_byebyefrom dev)

-- The packets behind the first one are not about a root device.
abbrev pub IsPart : CgUpnpSsdpPacket → Type 0
IsPart pkt = cg_upnp_ssdp_packet_isrootdevice pkt ≡ false
