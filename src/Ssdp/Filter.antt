-- ===== src/Ssdp/Filter.antt =====
-- The handler of a search, `cg_upnp_device_ssdpmessagereceived` with its filter:
-- clinkc/src/cybergarage/upnp/cdevice_ssdp_server.c. The memory for the string that is hashed is
-- given, `char` is signed, and sums stay in `int`.
pub mod Repeats
use dlna.Prelude.{
  ℕ, zero, suc, ◌-◌, Bool, true, false, ◌&&◌, ◌||◌, not, Option, none, some, List, [], ◌∷◌, ◌++◌,
  Bytes, codes, set, get_elem?, ltb, ◌==◌, if◌then◌else◌,
}
use dlna.Prelude.Int.{ℤ, pos, negsuc, neg, eqb_ℤ, ◌+ℤ◌, ◌%ℤ◌}
use dlna.Text.{CStr, cg_strcmp, cg_strlen}
use dlna.Text.Search.{cg_strchr}
use dlna.Text.Decimal.{is_digit, print_int}
use dlna.Uri.{◌>>=◌}
use dlna.Ssdp.{
  CgUpnpSsdpPacket, contains, header_of, cg_upnp_ssdp_packet_getst, cg_upnp_man_isdiscover,
}
use dlna.Ssdp.Device.{CgUpnpDevice, Advert, answers}

-- CG_UPNP_SSDP_FILTER_TABLE_SIZE
abbrev pub table_size : ℕ
table_size = 101

-- CG_UPNP_DEVICE_M_SEARCH_FILTER_INTERVAL, in seconds
abbrev pub filter_interval : ℕ
filter_interval = 15

-- The fields of the packet that last from one search to the next; 0 is a free place.
pub record Filter : Type 0 where
  pub initialized : Bool
  pub timestamps : List ℕ

abbrev pub signed_char : ℕ → ℤ
signed_char c = if ltb c 128 then pos c else neg (256 - c)

unfoldable pub char_sum : ℤ → Bytes → ℤ
char_sum sum [] = sum
char_sum sum (c ∷ str) = char_sum (sum +ℤ signed_char c) str

unfoldable pub simple_string_hash : Bytes → ℕ → ℤ
unfolding char_sum
simple_string_hash str size = char_sum (pos 0) str %ℤ size

abbrev pub zeros : ℕ → List ℕ
zeros zero = []
zeros (suc n) = 0 ∷ zeros n

unfoldable pub table_of : Filter → List ℕ
table_of filter = if filter.initialized then filter.timestamps else zeros table_size

abbrev pub stamped : List ℕ → ℕ → ℕ → Filter
stamped table loc now = record { initialized = true; timestamps = set table loc now }

-- The answer for the place `loc` of the table; without a result outside of the table.
unfoldable pub check_place : List ℕ → ℕ → ℤ → Option (Bool × Filter)
check_place table now (negsuc loc) = none
check_place table now (pos loc) = elim (get_elem? table loc) [
  | none ↦ none
  | some stamp ↦
      if stamp == 0
      then some (false, stamped table loc now)
      else if ltb (now - stamp) filter_interval
      then some (true, stamped table loc now)
      else some (false, stamped table loc now)
]

abbrev pub id_string : CgUpnpSsdpPacket → Bytes → Bytes
id_string pkt st = pkt.remote_address ++ (print_int (pos pkt.remote_port) ++ st)

unfoldable pub filter_duplicate_m_search :
    CgUpnpSsdpPacket → Bytes → Filter → ℕ → Option (Bool × Filter)
unfolding simple_string_hash table_of check_place
filter_duplicate_m_search pkt st filter now =
    check_place (table_of filter) now (simple_string_hash (id_string pkt st) table_size)

-- clinkc/src/cybergarage/net/cnet_function.c
unfoldable pub cg_net_isipv6address : CStr → Bool
unfolding cg_strchr
cg_net_isipv6address addr = elim (cg_strchr addr (some (codes ":")) 1) [
  | none ↦ false
  | some i ↦ ltb 0 i
]

unfoldable pub all_digits : Bytes → Bool
unfolding is_digit
all_digits [] = true
all_digits (c ∷ s) = is_digit c && all_digits s

unfoldable pub mx_valid : CStr → Bool
unfolding all_digits
mx_valid none = false
mx_valid (some []) = false
mx_valid (some (c ∷ s)) = all_digits (c ∷ s)

abbrev pub multicast_address : Bytes
multicast_address = codes "239.255.255.250:1900"

unfoldable pub host_valid : CStr → Bool
unfolding cg_strcmp cg_net_isipv6address
host_valid host =
    eqb_ℤ (cg_strcmp host (some multicast_address)) (pos 0) || cg_net_isipv6address host

-- The guards in front of the filter for repeated searches.
unfoldable pub is_search : CgUpnpSsdpPacket → Bool
unfolding contains host_valid cg_upnp_man_isdiscover mx_valid
is_search pkt =
    contains pkt.data_bytes (codes "M-SEARCH")
    && contains pkt.data_bytes (codes "*")
    && contains pkt.data_bytes (codes "HTTP/1.1")
    && host_valid (header_of pkt (codes "HOST"))
    && cg_upnp_man_isdiscover (header_of pkt (codes "MAN"))
    && mx_valid (header_of pkt (codes "MX"))

unfoldable pub unless_repeated : CgUpnpDevice → Bytes → Bool × Filter → List Advert × Filter
unfolding answers
unless_repeated dev st (repeated, filter) = (if repeated then [] else answers dev (some st), filter)

-- the check of the ST header, and what follows
unfoldable pub search_for :
    CgUpnpDevice → CgUpnpSsdpPacket → CStr → Filter → ℕ → Option (List Advert × Filter)
unfolding filter_duplicate_m_search unless_repeated
search_for dev pkt none filter now = some ([], filter)
search_for dev pkt (some []) filter now = some ([], filter)
search_for dev pkt (some (c ∷ st)) filter now =
    filter_duplicate_m_search pkt (c ∷ st) filter now >>= λ checked.
    some (unless_repeated dev (c ∷ st) checked)

-- `now` is the time when the packet is handled; the random wait in front of the answers is left
-- out.
unfoldable pub cg_upnp_device_ssdpmessagereceived :
    CgUpnpDevice → CgUpnpSsdpPacket → Filter → ℕ → Option (List Advert × Filter)
unfolding is_search search_for
cg_upnp_device_ssdpmessagereceived dev pkt filter now =
    if is_search pkt
    then search_for dev pkt (cg_upnp_ssdp_packet_getst pkt) filter now
    else some ([], filter)
