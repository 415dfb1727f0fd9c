-- ===== src/ControlPoint/Cache/Runs.antt =====
-- The control point over a sequence of notifications.
use mathlib.Core.Path.{subst}
use dlna.Prelude.{
  ◌≡◌, ◌<◌, inl, inr, refl, sym, ap, ◌∙◌, Bool, true, false, ◌||◌, some, List, [], ◌∷◌, ◌++◌, arith,
  Bytes, length, All, Bool-cases, if◌then◌else◌,
}
use dlna.Text.{CStr}
use dlna.Ssdp.{
  CgUpnpSsdpPacket, cg_upnp_ssdp_packet_isrootdevice, cg_upnp_nts_isalive, cg_upnp_nts_isbyebye,
  cg_upnp_ssdp_packet_getnts,
}
use dlna.ControlPoint.{Devices, nil, Network}
use dlna.ControlPoint.Cache.{DeviceEvent, packet_udn, cg_upnp_controlpoint_ssdplistner}
use dlna.ControlPoint.Cache.Known.{udns, knows, forget, is_udn, is_udn_iff, is_udn_refl, IsCache}
use dlna.ControlPoint.Cache.Refine.{
  announced, withdrawn, IsHonest, Refines, add-announced, remove-withdrawn,
}

-- What a notification does to a list of UDNs.
unfoldable pub notified : CgUpnpSsdpPacket → List CStr → List CStr × List DeviceEvent
unfolding announced withdrawn cg_upnp_ssdp_packet_isrootdevice cg_upnp_nts_isalive
    cg_upnp_nts_isbyebye
notified pkt list =
    let nts = cg_upnp_ssdp_packet_getnts pkt in
    if cg_upnp_ssdp_packet_isrootdevice pkt
    then if cg_upnp_nts_isalive nts
      then announced (packet_udn pkt) list
      else if cg_upnp_nts_isbyebye nts
      then withdrawn (packet_udn pkt) list
      else (list, [])
    else (list, [])

-- The notification of a root device that is alive leads to its description, and the one of a root
-- device that leaves has the UDN of a root device.
abbrev pub IsFair : (Bytes → Bool) → Network → CgUpnpSsdpPacket → Type 0
IsFair root network pkt =
    cg_upnp_ssdp_packet_isrootdevice pkt ≡ true
    → (cg_upnp_nts_isalive (cg_upnp_ssdp_packet_getnts pkt) ≡ true → IsHonest root network pkt)
      × (cg_upnp_nts_isbyebye (cg_upnp_ssdp_packet_getnts pkt) ≡ true
          → (0 < length (packet_udn pkt)) × (root (packet_udn pkt) ≡ true))

pub listner-notified :
    (root : Bytes → Bool) (network : Network) (pkt : CgUpnpSsdpPacket) (devices : Devices)
    → IsFair root network pkt
    → IsCache root devices
    → Refines root
        (cg_upnp_controlpoint_ssdplistner network devices pkt)
        (notified pkt (udns devices))
unfolding cg_upnp_controlpoint_ssdplistner notified
listner-notified root network pkt devices fair cache =
    elim (Bool-cases (cg_upnp_ssdp_packet_isrootdevice pkt)) [
      | inl is_root ↦
          let (alive, byebye) = fair is_root in
          elim (Bool-cases (cg_upnp_nts_isalive (cg_upnp_ssdp_packet_getnts pkt))) [
            | inl up ↦ rw (is_root, up) (add-announced root network pkt devices (alive up) cache)
            | inr other ↦
                elim (Bool-cases (cg_upnp_nts_isbyebye (cg_upnp_ssdp_packet_getnts pkt))) [
                  | inl down ↦
                      let (named, is) = byebye down in
                      rw (is_root, other, down) (remove-withdrawn root pkt devices named is cache)
                  | inr neither ↦ rw (is_root, other, neither) (refl, cache)
                ]
          ]
      | inr part ↦ rw part (refl, cache)
    ]

-- the handler over the packets of one source after the other, and the events
unfoldable pub heard : Network → Devices → List CgUpnpSsdpPacket → Devices × List DeviceEvent
unfolding cg_upnp_controlpoint_ssdplistner
heard network devices [] = (devices, [])
heard network devices (pkt ∷ pkts) =
    let (after, events) = cg_upnp_controlpoint_ssdplistner network devices pkt in
    let (end, more) = heard network after pkts in (end, events ++ more)

unfoldable pub all_notified : List CgUpnpSsdpPacket → List CStr → List CStr × List DeviceEvent
unfolding notified
all_notified [] list = (list, [])
all_notified (pkt ∷ pkts) list =
    let (after, events) = notified pkt list in
    let (end, more) = all_notified pkts after in (end, events ++ more)

-- the rest of the packets behind the result of the first one
abbrev pub then_notified :
    List CgUpnpSsdpPacket → List CStr × List DeviceEvent → List CStr × List DeviceEvent
then_notified pkts (list, events) =
    let (end, more) = all_notified pkts list in (end, events ++ more)

-- Over any sequence of notifications, cg_upnp_controlpoint_ssdplistner does to the UDNs of the
-- root devices of the control point, and reports to the device listener, exactly what an abstract
-- list of UDNs does: a living root device that is not in the list is added at the end, one that is
-- in it is updated in its place, one that leaves is removed, and everything else changes nothing.
-- Every notification of a living root device leads to a description with its UDN, also when the
-- location has changed, whose service descriptions can be had; one that leaves has a UDN; and no
-- embedded device has the UDN of a root device.
pub heard-notified :
    (root : Bytes → Bool) (network : Network) (pkts : List CgUpnpSsdpPacket) (devices : Devices)
    → All (IsFair root network) pkts
    → IsCache root devices
    → Refines root (heard network devices pkts) (all_notified pkts (udns devices))
unfolding heard all_notified
heard-notified root network [] devices fair cache = (refl, cache)
heard-notified root network (pkt ∷ pkts) devices (fair, rest) cache =
    let (same, good) = listner-notified root network pkt devices fair cache in
    let (after, events) = cg_upnp_controlpoint_ssdplistner network devices pkt in
    let (more, end) = heard-notified root network pkts after rest good in
    (ap (λ r. (r.0, events ++ r.1)) more ∙ ap (then_notified pkts) same, end)

-- Every UDN is in the list once.
unfoldable pub IsDistinct : List CStr → Type 0
unfolding knows
IsDistinct [] = Unit
IsDistinct (known ∷ list) = ((v : Bytes) → known ≡ some v → knows v list ≡ false) × IsDistinct list

pub knows-append :
    (v w : Bytes) (list : List CStr)
    → knows v (list ++ (some w ∷ [])) ≡ (knows v list || is_udn v (some w))
unfolding knows
knows-append v w [] = ground arith
knows-append v w (known ∷ list) = ground (arith, knows-append v w list)

is_udn_apart : (v w : Bytes) → is_udn v (some w) ≡ false → is_udn w (some v) ≡ false
is_udn_apart v w miss = elim (Bool-cases (is_udn w (some v))) [
  | inl hit ↦
      let same : is_udn v (some v) ≡ is_udn v (some w) =
        ap (is_udn v) (is_udn_iff w (some v) hit) in
      absurd (let self = is_udn_refl v in cc)
  | inr other ↦ other
]

append-IsDistinct :
    (v : Bytes) (list : List CStr)
    → knows v list ≡ false
    → IsDistinct list
    → IsDistinct (list ++ (some v ∷ []))
unfolding IsDistinct knows
append-IsDistinct v [] new h = (λ w e. refl, tt)
append-IsDistinct v (known ∷ list) new (apart, h) =
    let (other, rest) : (is_udn v known ≡ false) × (knows v list ≡ false) = ground arith in
    (
      λ w e.
          rw (knows-append w v list, apart w e) (is_udn_apart v w (ap (is_udn v) (sym e) ∙ other)),
      append-IsDistinct v list rest h,
    )

forget-knows :
    (v w : Bytes) (list : List CStr) → knows w list ≡ false → knows w (forget v list) ≡ false
unfolding knows forget
forget-knows v w [] new = refl
forget-knows v w (known ∷ list) new = ground (arith, forget-knows v w list)

forget-IsDistinct : (v : Bytes) (list : List CStr) → IsDistinct list → IsDistinct (forget v list)
unfolding IsDistinct forget
forget-IsDistinct v [] h = tt
forget-IsDistinct v (known ∷ list) (apart, h) = elim (Bool-cases (is_udn v known)) [
  | inl hit ↦ rw hit h
  | inr miss ↦ rw miss (λ w e. forget-knows v w list (apart w e), forget-IsDistinct v list h)
]

announced-IsDistinct :
    (v : Bytes) (list : List CStr) → IsDistinct list → IsDistinct (announced v list).0
unfolding announced
announced-IsDistinct v list h = elim (Bool-cases (knows v list)) [
  | inl old ↦ rw old h
  | inr new ↦ rw new (append-IsDistinct v list new h)
]

withdrawn-IsDistinct :
    (v : Bytes) (list : List CStr) → IsDistinct list → IsDistinct (withdrawn v list).0
unfolding withdrawn
withdrawn-IsDistinct v list h = elim (Bool-cases (knows v list)) [
  | inl old ↦ rw old (forget-IsDistinct v list h)
  | inr new ↦ rw new h
]

notified-IsDistinct :
    (pkt : CgUpnpSsdpPacket) (list : List CStr) → IsDistinct list → IsDistinct (notified pkt list).0
unfolding notified
notified-IsDistinct pkt list h =
    let nts = cg_upnp_ssdp_packet_getnts pkt in
    elim (Bool-cases (cg_upnp_ssdp_packet_isrootdevice pkt)) [
      | inl is_root ↦ elim (Bool-cases (cg_upnp_nts_isalive nts)) [
        | inl up ↦ rw (is_root, up) (announced-IsDistinct (packet_udn pkt) list h)
        | inr other ↦ elim (Bool-cases (cg_upnp_nts_isbyebye nts)) [
          | inl down ↦ rw (is_root, other, down) (withdrawn-IsDistinct (packet_udn pkt) list h)
          | inr neither ↦ rw (is_root, other, neither) h
        ]
      ]
      | inr part ↦ rw part h
    ]

all_notified-IsDistinct :
    (pkts : List CgUpnpSsdpPacket) (list : List CStr)
    → IsDistinct list
    → IsDistinct (all_notified pkts list).0
unfolding all_notified
all_notified-IsDistinct [] list h = h
all_notified-IsDistinct (pkt ∷ pkts) list h =
    all_notified-IsDistinct pkts (notified pkt list).0 (notified-IsDistinct pkt list h)

-- After any sequence of notifications a control point that has started with no devices has every
-- UDN at most once among its root devices, under the same conditions on the notifications:
-- descriptions have the UDN that is announced, and no embedded device has the UDN of a root
-- device.
pub heard-IsDistinct :
    (root : Bytes → Bool) (network : Network) (pkts : List CgUpnpSsdpPacket)
    → All (IsFair root network) pkts
    → IsDistinct (udns (heard network nil pkts).0)
unfolding udns IsDistinct
heard-IsDistinct root network pkts fair =
    let (same, good) = heard-notified root network pkts nil fair tt in
    subst (λ r. IsDistinct r.0) (sym same) (all_notified-IsDistinct pkts [] tt)
