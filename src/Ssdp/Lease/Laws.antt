-- ===== src/Ssdp/Lease/Laws.antt =====
-- The lease time that a device writes is the one that a control point reads.
use dlna.Prelude.{
  ◌≡◌, refl, sym, ap, ◌∙◌, ◌+◌, append-nil, ℕ, some, List, [], Bytes, true, ◌==◌, if◌then◌else◌,
}
use dlna.Text.{cg_strcaseeq, cg_strcasecmp, strcasecmp, toupper}
use dlna.Prelude.Int.{ℤ, pos, eqb_ℤ, ◌+ℤ◌}
use dlna.Text.Decimal.{print_int, atoi, cg_str2long}
use dlna.Text.Decimal.RoundTrip.{atoi-print_int}
use dlna.Http.Headers.{HttpHeader, cg_http_headerlist_set, cg_http_headerlist_getvalue}
use dlna.Http.Headers.Laws.{getvalue-set}
use dlna.Ssdp.{CgUpnpSsdpPacket}
use dlna.Ssdp.Lease.{
  cache_control, lease_text, max_age_of, cg_upnp_ssdprequest_setleasetime,
  cg_upnp_ssdpresponse_setleasetime, cg_upnp_ssdp_packet_getmaxage,
  cg_upnp_ssdp_packet_getexpiration,
}

atoi-print_int_all : (z : ℤ) → atoi (print_int z) ≡ z
atoi-print_int_all z = ap atoi (sym (append-nil (print_int z))) ∙ atoi-print_int z [] tt

max_age_of-lease_text : (z : ℤ) → max_age_of (some (lease_text z)) ≡ z
unfolding max_age_of dlna.Text.Search.strstr dlna.Text.Search.is_prefix cg_str2long
max_age_of-lease_text z = atoi-print_int_all z

same_name : cg_strcaseeq (some cache_control) (some cache_control) ≡ true
unfolding cg_strcaseeq cg_strcasecmp strcasecmp toupper
same_name = refl

value-set :
    (list : List HttpHeader) (v : Bytes)
    → cg_http_headerlist_getvalue
        (cg_http_headerlist_set list (some cache_control) (some v))
        (some cache_control)
      ≡ some v
value-set list v =
    getvalue-set list cache_control cache_control v
    ∙ ap (λ b. if b then some v else cg_http_headerlist_getvalue list (some cache_control))
        same_name

abbrev pub with_headers : CgUpnpSsdpPacket → List HttpHeader → CgUpnpSsdpPacket
with_headers pkt list = record pkt { header_list = list }

-- The lease time that a device sets in a notification or in an answer to a search, whatever
-- headers it has had before, is the one that cg_upnp_ssdp_packet_getmaxage reads from its headers,
-- and the packet of a notification expires so many seconds after it came, or never if the lease
-- time is 0.
pub getmaxage-setleasetime :
    (pkt : CgUpnpSsdpPacket) (list : List HttpHeader) (n t : ℕ)
    → (cg_upnp_ssdp_packet_getmaxage
          (with_headers pkt (cg_upnp_ssdprequest_setleasetime list (pos n)))
        ≡ pos n)
      × (cg_upnp_ssdp_packet_getmaxage
            (with_headers pkt (cg_upnp_ssdpresponse_setleasetime list (pos n)))
          ≡ pos n)
      × (cg_upnp_ssdp_packet_getexpiration
            (with_headers pkt (cg_upnp_ssdprequest_setleasetime list (pos n)))
            t
          ≡ (if n == 0 then pos 0 else pos (t + n)))
unfolding cg_upnp_ssdp_packet_getmaxage cg_upnp_ssdprequest_setleasetime
    cg_upnp_ssdpresponse_setleasetime cg_upnp_ssdp_packet_getexpiration
getmaxage-setleasetime pkt list n t =
    let read =
      ap max_age_of (value-set list (lease_text (pos n))) ∙ max_age_of-lease_text (pos n) in
    (read, read, ap (λ age. if eqb_ℤ age (pos 0) then pos 0 else pos t +ℤ age) read)
