-- ===== src/Ssdp/Lease.antt =====
-- The lease time of a notification or an answer, written by clinkc/src/cybergarage/upnp/ssdp/
-- cssdp_request.c and cssdp_response.c, and read by clinkc/src/cybergarage/upnp/ssdp/cssdp_packet.c.
pub mod Laws
use dlna.Prelude.{
  ◌++◌, zero, suc, ℕ, Option, none, some, List, [], ◌∷◌, Bytes, codes, drop, if◌then◌else◌,
}
use dlna.Prelude.Int.{ℤ, pos, eqb_ℤ, ◌+ℤ◌}
use dlna.Text.{CStr}
use dlna.Text.Search.{strstr, cg_strstr}
use dlna.Text.Decimal.{print_int, cg_str2long}
use dlna.Http.Headers.{HttpHeader, cg_http_headerlist_set}
use dlna.Ssdp.{CgUpnpSsdpPacket, header_of}

abbrev pub cache_control : Bytes
cache_control = codes "Cache-Control"

abbrev pub max_age : Bytes
max_age = codes "max-age"

-- `sprintf` with "%s=%d"
abbrev pub lease_text : ℤ → Bytes
lease_text value = max_age ++ (codes "=" ++ print_int value)

unfoldable pub cg_upnp_ssdprequest_setleasetime : List HttpHeader → ℤ → List HttpHeader
unfolding cg_http_headerlist_set
cg_upnp_ssdprequest_setleasetime list value =
    cg_http_headerlist_set list (some cache_control) (some (lease_text value))

unfoldable pub cg_upnp_ssdpresponse_setleasetime : List HttpHeader → ℤ → List HttpHeader
unfolding cg_http_headerlist_set
cg_upnp_ssdpresponse_setleasetime list value =
    cg_http_headerlist_set list (some cache_control) (some (lease_text value))

-- The index counts from "max-age", but is used from the front of the text.
unfoldable pub number_behind : Bytes → Option ℕ → ℤ
unfolding cg_str2long
number_behind text none = pos 0
number_behind text (some zero) = pos 0
number_behind text (some (suc i)) = cg_str2long (some (drop (suc (suc i)) text))

unfoldable pub lease_of : Bytes → Option ℕ → ℤ
unfolding strstr number_behind
lease_of text none = pos 0
lease_of text (some i) = number_behind text (strstr (drop i text) (codes "="))

unfoldable pub max_age_of : CStr → ℤ
unfolding cg_strstr lease_of
max_age_of none = pos 0
max_age_of (some text) = lease_of text (cg_strstr (some text) (some max_age))

unfoldable pub cg_upnp_ssdp_packet_getmaxage : CgUpnpSsdpPacket → ℤ
unfolding max_age_of
cg_upnp_ssdp_packet_getmaxage pkt = max_age_of (header_of pkt cache_control)

-- `timestamp` is the time at which the packet came; 0 stands for no expiration.
unfoldable pub cg_upnp_ssdp_packet_getexpiration : CgUpnpSsdpPacket → ℕ → ℤ
unfolding cg_upnp_ssdp_packet_getmaxage
cg_upnp_ssdp_packet_getexpiration pkt timestamp =
    let age = cg_upnp_ssdp_packet_getmaxage pkt in
    if eqb_ℤ age (pos 0) then pos 0 else pos timestamp +ℤ age
