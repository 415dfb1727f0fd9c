-- ===== src/Ssdp.antt =====
-- The words of SSDP in clinkc/include/cybergarage/upnp/control/ccontrol.h and
-- clinkc/include/cybergarage/upnp/ssdp/cssdp.h, and the packet of
-- clinkc/include/cybergarage/upnp/ssdp/cssdp_server.h with its getters.
pub mod Device
pub mod Filter
pub mod Lease
use dlna.Prelude.{
  ℕ, ◌-◌, Bool, true, false, ◌||◌, Option, none, some, List, Bytes, codes, take, ◌==◌,
}
use dlna.Text.{CStr}
use dlna.Text.Search.{cg_strstr}
use dlna.Http.Headers.{HttpHeader, cg_http_headerlist_getvalue}

-- CG_UPNP_ST_ROOT_DEVICE, CG_UPNP_NT_ROOTDEVICE, CG_UPNP_USN_ROOTDEVICE and
-- CG_UPNP_DEVICE_UPNP_ROOTDEVICE
abbrev pub rootdevice : Bytes
rootdevice = codes "upnp:rootdevice"

abbrev pub all_device : Bytes
all_device = codes "ssdp:all"

-- `0 <= cg_strstr(str, word)`
unfoldable pub contains : CStr → Bytes → Bool
unfolding cg_strstr
contains str word = elim (cg_strstr str (some word)) [ none ↦ false | some i ↦ true ]

unfoldable pub cg_upnp_st_isalldevice : CStr → Bool
unfolding contains
cg_upnp_st_isalldevice str = contains str all_device

unfoldable pub cg_upnp_st_isrootdevice : CStr → Bool
unfolding contains
cg_upnp_st_isrootdevice str = contains str rootdevice

unfoldable pub cg_upnp_st_isuuiddevice : CStr → Bool
unfolding contains
cg_upnp_st_isuuiddevice str = contains str (codes "uuid")

unfoldable pub cg_upnp_st_isurn : CStr → Bool
unfolding contains
cg_upnp_st_isurn str = contains str (codes "urn")

unfoldable pub cg_upnp_nts_isalive : CStr → Bool
unfolding contains
cg_upnp_nts_isalive str = contains str (codes "ssdp:alive")

unfoldable pub cg_upnp_nts_isbyebye : CStr → Bool
unfolding contains
cg_upnp_nts_isbyebye str = contains str (codes "ssdp:byebye")

unfoldable pub cg_upnp_man_isdiscover : CStr → Bool
unfolding cg_strstr
cg_upnp_man_isdiscover str = elim (cg_strstr str (some (codes "\"ssdp:discover\""))) [
  | none ↦ false
  | some i ↦ i == 0
]

-- `data`, `remote_address` and `remote_port` are those of the datagram.
pub record CgUpnpSsdpPacket : Type 0 where
  pub data_bytes : CStr
  pub remote_address : Bytes
  pub remote_port : ℕ
  pub header_list : List HttpHeader

abbrev pub header_of : CgUpnpSsdpPacket → Bytes → CStr
header_of pkt name = cg_http_headerlist_getvalue pkt.header_list (some name)

abbrev pub cg_upnp_ssdp_packet_getst : CgUpnpSsdpPacket → CStr
cg_upnp_ssdp_packet_getst pkt = header_of pkt (codes "ST")

abbrev pub cg_upnp_ssdp_packet_getnt : CgUpnpSsdpPacket → CStr
cg_upnp_ssdp_packet_getnt pkt = header_of pkt (codes "NT")

abbrev pub cg_upnp_ssdp_packet_getnts : CgUpnpSsdpPacket → CStr
cg_upnp_ssdp_packet_getnts pkt = header_of pkt (codes "NTS")

abbrev pub cg_upnp_ssdp_packet_getusn : CgUpnpSsdpPacket → CStr
cg_upnp_ssdp_packet_getusn pkt = header_of pkt (codes "USN")

unfoldable pub cg_upnp_ssdp_packet_isrootdevice : CgUpnpSsdpPacket → Bool
unfolding contains
cg_upnp_ssdp_packet_isrootdevice pkt =
    contains (cg_upnp_ssdp_packet_getnt pkt) rootdevice
    || cg_upnp_st_isrootdevice (cg_upnp_ssdp_packet_getst pkt)
    || contains (cg_upnp_ssdp_packet_getusn pkt) rootdevice
