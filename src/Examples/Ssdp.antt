-- ===== src/Examples/Ssdp.antt =====
-- Concrete inputs for the notifications and the searches of clinkc/src/cybergarage/upnp.
use mathlib.Core.List.{map}
use dlna.Prelude.{
  ◌≡◌, refl, ◌++◌, ℕ, true, false, some, none, [], ◌∷◌, arith, Bool, List, Bytes, codes, inl, zero,
  suc, drop, get_elem?, ltb, ◌&&◌,
}
use dlna.Prelude.Int.{pos}
use dlna.Http.Headers.{HttpHeader}
use dlna.Ssdp.{CgUpnpSsdpPacket, all_device, cg_upnp_ssdp_packet_getst}
use dlna.Ssdp.Device.{
  CgUpnpDevice, device, nil, cons, advert, notification, alive, byebye, answers, Advert,
  cg_upnp_device_announcefrom, cg_upnp_device_byebyefrom,
}
use dlna.Ssdp.Device.Answers.{notifications-answers}
use dlna.Ssdp.Device.Targets.{IsTarget, answers-wanted}
use dlna.Ssdp.Device.Kinds.{kind, WellFormed, wanted}
use dlna.Ssdp.Lease.{
  max_age_of, cg_upnp_ssdprequest_setleasetime, cg_upnp_ssdpresponse_setleasetime,
  cg_upnp_ssdp_packet_getmaxage, cg_upnp_ssdp_packet_getexpiration,
}
use dlna.Ssdp.Lease.Laws.{with_headers, getmaxage-setleasetime}
use dlna.Ssdp.Filter.{
  Filter, zeros, host_valid, table_of, table_size, id_string, is_search, filter_duplicate_m_search,
  cg_upnp_device_ssdpmessagereceived,
}
use dlna.Ssdp.Filter.Repeats.{
  IsAscii, IsTable, IsFresh, filter_duplicate-bounds, received_repeated, received-wanted,
}

abbrev header : Bytes → Bytes → HttpHeader
header name value = record { name = some name; value = some value }

abbrev pub light : Bytes
light = codes "urn:schemas-upnp-org:device:light:1"

abbrev pub power : Bytes
power = codes "urn:schemas-upnp-org:service:power:1"

-- a root device with a service, and an embedded device
abbrev lamp : CgUpnpDevice
lamp =
    device true (codes "uuid:lamp") light (power ∷ [])
      (cons (device false (codes "uuid:bulb") light [] nil) nil)

notifications-answers_example :
    (cg_upnp_device_announcefrom lamp ≡ map (notification alive) (answers lamp (some all_device)))
    × (cg_upnp_device_byebyefrom lamp ≡ map (notification byebye) (answers lamp (some all_device)))
notifications-answers_example = notifications-answers lamp

lamp-WellFormed : WellFormed lamp
unfolding WellFormed kind dlna.Text.Search.strstr dlna.Text.Search.is_prefix
lamp-WellFormed = (
  refl,
  (refl, omega arith),
  ((refl, omega arith), tt),
  ((refl, (refl, omega arith), tt, tt), tt),
)

light-IsTarget : IsTarget light
unfolding kind dlna.Text.Search.strstr dlna.Text.Search.is_prefix
light-IsTarget = (λ e. absurd (cc), λ e. absurd (cc))

answers-wanted_example : answers lamp (some light) ≡ wanted light (answers lamp (some all_device))
answers-wanted_example = answers-wanted lamp light light-IsTarget lamp-WellFormed

-- two devices have the type, the root device and the embedded one
lamp_lights :
    answers lamp (some light)
    ≡ advert light (codes "uuid:lamp::" ++ light) ∷ advert light (codes "uuid:bulb::" ++ light) ∷ []
unfolding answers dlna.Text.Search.strstr dlna.Text.Search.is_prefix dlna.Text.cg_strcmp
    dlna.Text.strcmp
lamp_lights = refl

abbrev all_small : Bytes → Bool
all_small [] = true
all_small (c ∷ s) = ltb c 128 && all_small s

small-IsAscii : (s : Bytes) → all_small s ≡ true → IsAscii s
small-IsAscii [] h = tt
small-IsAscii (c ∷ s) h = (ground arith, small-IsAscii s (ground arith))

abbrev m_search : CgUpnpSsdpPacket
m_search = record {
  data_bytes = some (codes "M-SEARCH * HTTP/1.1");
  remote_address = codes "10.0.0.7";
  remote_port = 1900;
  header_list =
      header (codes "HOST") (codes "239.255.255.250:1900")
      ∷ header (codes "MAN") (codes "\"ssdp:discover\"")
      ∷ header (codes "MX") (codes "3")
      ∷ header (codes "ST") light
      ∷ [];
}

abbrev unused : Filter
unused = record { initialized = false; timestamps = [] }

unused-IsTable : IsTable unused
unused-IsTable e = absurd (cc)

m_search_st : cg_upnp_ssdp_packet_getst m_search ≡ some light
unfolding dlna.Http.Headers.cg_http_headerlist_getvalue dlna.Http.Headers.get
    dlna.Text.cg_strcasecmp dlna.Text.strcasecmp dlna.Text.toupper
m_search_st = refl

m_search-is_search : is_search m_search ≡ true
unfolding is_search dlna.Http.Headers.cg_http_headerlist_getvalue dlna.Http.Headers.get
    dlna.Text.cg_strcasecmp dlna.Text.strcasecmp dlna.Text.toupper dlna.Text.Search.strstr
    dlna.Text.Search.is_prefix dlna.Text.cg_strcmp dlna.Text.strcmp
m_search-is_search = refl

m_search-IsAscii : IsAscii (id_string m_search light)
unfolding dlna.Text.Decimal.print_int
m_search-IsAscii = small-IsAscii (id_string m_search light) refl

filter_duplicate-bounds_example :
    (repeated : Bool) × (after : Filter) × (filter_duplicate_m_search m_search light unused 10
      ≡ some (repeated, after))
    × IsTable after
filter_duplicate-bounds_example =
    filter_duplicate-bounds m_search light unused 10 m_search-IsAscii unused-IsTable

-- the second search comes ten seconds after the first one
received_repeated_example :
    (first : List Advert) × (after : Filter) × (end : Filter) × (cg_upnp_device_ssdpmessagereceived
        lamp m_search unused 10
      ≡ some (first, after))
    × (cg_upnp_device_ssdpmessagereceived lamp m_search after 20 ≡ some ([], end))
received_repeated_example =
    received_repeated lamp m_search b'u' (drop 1 light) unused 10 20 m_search-is_search m_search_st
      m_search-IsAscii unused-IsTable (omega arith) (omega arith)

zeros-stamp : (n i stamp : ℕ) → get_elem? (zeros n) i ≡ some stamp → stamp ≡ 0
zeros-stamp zero i stamp e = absurd (cc)
zeros-stamp (suc n) zero stamp e = cc
zeros-stamp (suc n) (suc i) stamp e = zeros-stamp n i stamp e

unused-IsFresh : IsFresh m_search light unused 10
unfolding table_of
unused-IsFresh loc hash stamp e = inl (zeros-stamp table_size loc stamp e)

received-wanted_example :
    (after : Filter) × (cg_upnp_device_ssdpmessagereceived lamp m_search unused 10
      ≡ some (wanted light (answers lamp (some all_device)), after))
received-wanted_example =
    received-wanted lamp m_search b'u' (drop 1 light) unused 10 m_search-is_search m_search_st
      m_search-IsAscii unused-IsTable unused-IsFresh light-IsTarget lamp-WellFormed

-- A byte from 128 up counts as negative: the search would write in front of the table.
abbrev latin_search : CgUpnpSsdpPacket
latin_search = record m_search { remote_address = []; remote_port = 1 }

in_front_of_table : filter_duplicate_m_search latin_search (200 ∷ 200 ∷ 200 ∷ []) unused 10 ≡ none
unfolding filter_duplicate_m_search dlna.Text.Decimal.print_int
in_front_of_table = refl

-- A host that is another one, with a port, passes for an IPv6 address.
other_host_passes : host_valid (some (codes "10.0.0.9:1900")) ≡ true
unfolding host_valid dlna.Text.Search.strchr dlna.Text.Search.is_one_of dlna.Text.cg_strcmp
    dlna.Text.strcmp
other_host_passes = refl

getmaxage-setleasetime_example :
    (cg_upnp_ssdp_packet_getmaxage
        (with_headers m_search (cg_upnp_ssdprequest_setleasetime [] (pos 1800)))
      ≡ pos 1800)
    × (cg_upnp_ssdp_packet_getmaxage
          (with_headers m_search (cg_upnp_ssdpresponse_setleasetime [] (pos 1800)))
        ≡ pos 1800)
    × (cg_upnp_ssdp_packet_getexpiration
          (with_headers m_search (cg_upnp_ssdprequest_setleasetime [] (pos 1800)))
          10
        ≡ pos 1810)
getmaxage-setleasetime_example = getmaxage-setleasetime m_search [] 1800 10

-- A directive in front of max-age hides it.
hidden_max_age : max_age_of (some (codes "no-cache, max-age=1800")) ≡ pos 0
unfolding max_age_of dlna.Text.Search.strstr dlna.Text.Search.is_prefix
    dlna.Text.Decimal.cg_str2long dlna.Text.Trim.isspace
hidden_max_age = refl
