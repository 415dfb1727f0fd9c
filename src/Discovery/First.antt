-- ===== src/Discovery/First.antt =====
-- Only the first packet of a device changes the list of UDNs.
use dlna.Prelude.{
  ◌≡◌, refl, ap, ◌∙◌, Bool, true, false, some, List, [], ◌∷◌, ◌++◌, append-nil, arith, Bytes, All,
}
use dlna.Text.{CStr}
use dlna.Ssdp.{
  CgUpnpSsdpPacket, cg_upnp_ssdp_packet_isrootdevice, cg_upnp_nts_isalive, cg_upnp_nts_isbyebye,
  cg_upnp_ssdp_packet_getnts,
}
use dlna.ControlPoint.{Network}
use dlna.ControlPoint.Cache.{DeviceEvent, event, added, removed, packet_udn}
use dlna.ControlPoint.Cache.Known.{knows, forget, is_udn, is_udn_refl}
use dlna.ControlPoint.Cache.Refine.{announced, withdrawn}
use dlna.ControlPoint.Cache.Runs.{notified, all_notified, IsFair, knows-append}
use dlna.Discovery.{IsPart}

notified_parts :
    (pkts : List CgUpnpSsdpPacket) (list : List CStr)
    → All IsPart pkts
    → all_notified pkts list ≡ (list, [])
unfolding all_notified notified
notified_parts [] list parts = refl
notified_parts (pkt ∷ pkts) list (part, parts) = rw (part, notified_parts pkts list parts) refl

pub IsFair-parts :
    (root : Bytes → Bool) (network : Network) (pkts : List CgUpnpSsdpPacket)
    → All IsPart pkts
    → All (IsFair root network) pkts
IsFair-parts root network [] parts = tt
IsFair-parts root network (pkt ∷ pkts) (part, parts) =
    (λ is_root. absurd (cc), IsFair-parts root network pkts parts)

pub notified-alive :
    (pkt : CgUpnpSsdpPacket) (list : List CStr)
    → cg_upnp_ssdp_packet_isrootdevice pkt ≡ true
    → cg_upnp_nts_isalive (cg_upnp_ssdp_packet_getnts pkt) ≡ true
    → notified pkt list ≡ announced (packet_udn pkt) list
unfolding notified
notified-alive pkt list is_root up = rw (is_root, up) refl

pub notified-byebye :
    (pkt : CgUpnpSsdpPacket) (list : List CStr)
    → cg_upnp_ssdp_packet_isrootdevice pkt ≡ true
    → cg_upnp_nts_isalive (cg_upnp_ssdp_packet_getnts pkt) ≡ false
    → cg_upnp_nts_isbyebye (cg_upnp_ssdp_packet_getnts pkt) ≡ true
    → notified pkt list ≡ withdrawn (packet_udn pkt) list
unfolding notified
notified-byebye pkt list is_root up down = rw (is_root, up, down) refl

-- the first packet decides
pub all_notified-first :
    (pkt : CgUpnpSsdpPacket) (pkts : List CgUpnpSsdpPacket) (list after : List CStr)
    (events : List DeviceEvent)
    → notified pkt list ≡ (after, events)
    → All IsPart pkts
    → all_notified (pkt ∷ pkts) list ≡ (after, events)
unfolding all_notified
all_notified-first pkt pkts list after events step parts =
    ap (λ r. ((all_notified pkts r.0).0, r.1 ++ (all_notified pkts r.0).1)) step
    ∙ ap (λ r. (r.0, events ++ r.1)) (notified_parts pkts after parts)
    ∙ ap (λ e. (after, e)) (append-nil events)

forget-append :
    (v : Bytes) (list : List CStr) → knows v list ≡ false → forget v (list ++ (some v ∷ [])) ≡ list
unfolding forget knows
forget-append v [] new = rw (is_udn_refl v) refl
forget-append v (known ∷ list) new =
    let (other, rest) : (is_udn v known ≡ false) × (knows v list ≡ false) = ground arith in
    rw (other, forget-append v list rest) refl

pub announced-new :
    (v : Bytes) (list : List CStr)
    → knows v list ≡ false
    → announced v list ≡ (list ++ (some v ∷ []), event v added ∷ [])
unfolding announced
announced-new v list new = rw new refl

pub withdrawn-last :
    (v : Bytes) (list : List CStr)
    → knows v list ≡ false
    → withdrawn v (list ++ (some v ∷ [])) ≡ (list, event v removed ∷ [])
unfolding withdrawn
withdrawn-last v list new =
    let here : knows v (list ++ (some v ∷ [])) ≡ true =
      rw (knows-append v v list, new) (is_udn_refl v) in
    rw (here, forget-append v list new) refl
