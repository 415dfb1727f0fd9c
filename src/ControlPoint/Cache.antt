-- ===== src/ControlPoint/Cache.antt =====
-- The changes of the device cache by notifications and answers:
-- clinkc/src/cybergarage/upnp/ccontrolpoint.c.
pub mod Known
pub mod Refine
pub mod Runs
pub mod Liar
use dlna.Prelude.{Bool, true, false, Option, none, some, List, [], ◌∷◌, Bytes, if◌then◌else◌}
use dlna.Text.{CStr, cg_strcmp}
use dlna.Ssdp.{
  CgUpnpSsdpPacket, cg_upnp_ssdp_packet_getusn, cg_upnp_ssdp_packet_getnts,
  cg_upnp_ssdp_packet_isrootdevice, cg_upnp_nts_isalive, cg_upnp_nts_isbyebye,
}
use dlna.ControlPoint.{
  CgUpnpDevice, Devices, device, nil, cons, Network, udn_len_max, cg_upnp_usn_getudn, has_udn, find,
  cg_upnp_controlpoint_getdevicebyudn, cg_upnp_device_updatefromssdppacket,
  cg_upnp_controlpoint_createdevicefromssdkpacket,
}

-- What the device listener is called with; nobody reads it without a listener.
pub data CgUpnpDeviceStatus : Type 0 where
  added : CgUpnpDeviceStatus
  updated : CgUpnpDeviceStatus
  removed : CgUpnpDeviceStatus
  invalid : CgUpnpDeviceStatus

pub record DeviceEvent : Type 0 where
  pub udn : Bytes
  pub status : CgUpnpDeviceStatus

abbrev pub keep : Option CgUpnpDevice → Devices → Devices
keep none devices = devices
keep (some dev) devices = cons dev devices

abbrev pub below_or_next : Option CgUpnpDevice → Devices → Devices → Devices
below_or_next none below next = next
below_or_next (some dev) below next = below

-- The list when the device that `find` returns has been changed in place to `new`, or deleted.
unfoldable pub exchange : Bytes → Option CgUpnpDevice → Devices → Devices
unfolding find cg_strcmp
exchange udn new nil = nil
exchange udn new (cons (device u type services pkt children) devices) =
    let next = exchange udn new devices in
    let below = exchange udn new children in
    if has_udn udn (device u type services pkt children)
    then keep new devices
    else below_or_next (find udn children) (cons (device u type services pkt below) devices)
        (cons (device u type services pkt children) next)

-- `cg_upnp_devicelist_add`
unfoldable pub cg_upnp_controlpoint_adddevice : Devices → CgUpnpDevice → Devices
cg_upnp_controlpoint_adddevice nil dev = cons dev nil
cg_upnp_controlpoint_adddevice (cons first devices) dev =
    cons first (cg_upnp_controlpoint_adddevice devices dev)

abbrev pub event : Bytes → CgUpnpDeviceStatus → DeviceEvent
event udn status = record { udn = udn; status = status }

unfoldable pub update_found : Bytes → Devices → Option CgUpnpDevice × Bool → Devices × DeviceEvent
unfolding exchange
update_found udn devices (changed, success) =
    (exchange udn changed devices, event udn (if success then updated else invalid))

unfoldable pub add_created : Bytes → Devices → Option CgUpnpDevice → Devices × DeviceEvent
unfolding cg_upnp_controlpoint_adddevice
add_created udn devices none = (devices, event udn invalid)
add_created udn devices (some dev) = (cg_upnp_controlpoint_adddevice devices dev, event udn added)

-- the two branches of `cg_upnp_controlpoint_adddevicebyssdppacket`
unfoldable pub add_or_update :
    Network → Bytes → Devices → CgUpnpSsdpPacket → Option CgUpnpDevice → Devices × DeviceEvent
unfolding update_found cg_upnp_device_updatefromssdppacket add_created
    cg_upnp_controlpoint_createdevicefromssdkpacket
add_or_update network udn devices pkt (some dev) =
    update_found udn devices (cg_upnp_device_updatefromssdppacket network dev pkt)
add_or_update network udn devices pkt none =
    add_created udn devices (cg_upnp_controlpoint_createdevicefromssdkpacket network pkt)

abbrev pub packet_udn : CgUpnpSsdpPacket → Bytes
packet_udn pkt = cg_upnp_usn_getudn (cg_upnp_ssdp_packet_getusn pkt) udn_len_max

unfoldable pub cg_upnp_controlpoint_adddevicebyssdppacket :
    Network → Devices → CgUpnpSsdpPacket → Devices × DeviceEvent
unfolding cg_upnp_usn_getudn cg_upnp_controlpoint_getdevicebyudn add_or_update
cg_upnp_controlpoint_adddevicebyssdppacket network devices pkt =
    add_or_update network (packet_udn pkt) devices pkt
      (cg_upnp_controlpoint_getdevicebyudn devices (packet_udn pkt))

unfoldable pub remove_found : Bytes → Devices → Option CgUpnpDevice → Devices × List DeviceEvent
unfolding exchange
remove_found udn devices none = (devices, [])
remove_found udn devices (some dev) = (exchange udn none devices, event udn removed ∷ [])

unfoldable pub cg_upnp_controlpoint_removedevicebyssdppacket :
    Devices → CgUpnpSsdpPacket → Devices × List DeviceEvent
unfolding cg_upnp_usn_getudn cg_upnp_controlpoint_getdevicebyudn remove_found
cg_upnp_controlpoint_removedevicebyssdppacket devices pkt =
    remove_found (packet_udn pkt) devices
      (cg_upnp_controlpoint_getdevicebyudn devices (packet_udn pkt))

-- the events of a notification
abbrev pub one_event : Devices × DeviceEvent → Devices × List DeviceEvent
one_event (devices, e) = (devices, e ∷ [])

-- The handler of a notification, without the listener of the user.
unfoldable pub cg_upnp_controlpoint_ssdplistner :
    Network → Devices → CgUpnpSsdpPacket → Devices × List DeviceEvent
unfolding cg_upnp_ssdp_packet_isrootdevice cg_upnp_nts_isalive cg_upnp_nts_isbyebye
    cg_upnp_controlpoint_adddevicebyssdppacket cg_upnp_controlpoint_removedevicebyssdppacket
cg_upnp_controlpoint_ssdplistner network devices pkt =
    let nts = cg_upnp_ssdp_packet_getnts pkt in
    if cg_upnp_ssdp_packet_isrootdevice pkt
    then if cg_upnp_nts_isalive nts
      then one_event (cg_upnp_controlpoint_adddevicebyssdppacket network devices pkt)
      else if cg_upnp_nts_isbyebye nts
      then cg_upnp_controlpoint_removedevicebyssdppacket devices pkt
      else (devices, [])
    else (devices, [])

-- The handler of an answer to a search.
unfoldable pub cg_upnp_controlpoint_ssdpresponselistner :
    Network → Devices → CgUpnpSsdpPacket → Devices × List DeviceEvent
unfolding cg_upnp_controlpoint_adddevicebyssdppacket
cg_upnp_controlpoint_ssdpresponselistner network devices pkt =
    one_event (cg_upnp_controlpoint_adddevicebyssdppacket network devices pkt)
