-- ===== src/ControlPoint/Cache/Refine.antt =====
-- Under notifications of honest devices the cache is a list of UDNs: what is announced is in it
-- once, until it is taken back.
use mathlib.Core.Path.{subst}
use dlna.Prelude.{
  ◌≡◌, ◌<◌, inl, inr, refl, sym, ap, ◌∙◌, Bool, true, none, some, List, [], ◌∷◌, ◌++◌, arith, Bytes,
  length, ltb, Bool-cases, Option-cases, if◌then◌else◌,
}
use dlna.Text.{CStr, cg_streq, cg_strlen}
use dlna.Ssdp.{CgUpnpSsdpPacket}
use dlna.ControlPoint.{
  CgUpnpDevice, CgUpnpService, Devices, device, Network, described, cg_upnp_device_getudn,
  cg_upnp_device_getssdppacket, cg_upnp_ssdp_packet_getlocation, find,
  cg_upnp_controlpoint_getdevicebyudn, setssdppacket, redescribed, created,
  cg_upnp_controlpoint_parseservicesfordevice, cg_upnp_device_updatefromssdppacket,
  cg_upnp_controlpoint_createdevicefromssdkpacket,
}
use dlna.ControlPoint.Cache.{
  exchange, DeviceEvent, event, added, updated, removed, update_found, add_created, add_or_update,
  packet_udn, remove_found, one_event, cg_upnp_controlpoint_adddevice,
  cg_upnp_controlpoint_adddevicebyssdppacket, cg_upnp_controlpoint_removedevicebyssdppacket,
}
use dlna.ControlPoint.Cache.Known.{
  udns, knows, forget, IsRoot, IsCache, IsCache-adddevice, udns-adddevice, find-IsRoot, find-knows,
  found-knows, udns-exchange, udns-delete,
}

-- The list of UDNs after an announcement, and the event.
unfoldable pub announced : Bytes → List CStr → List CStr × List DeviceEvent
unfolding knows
announced v list =
    if knows v list
    then (list, event v updated ∷ [])
    else (list ++ (some v ∷ []), event v added ∷ [])

-- The list of UDNs after a device has taken its announcement back.
unfoldable pub withdrawn : Bytes → List CStr → List CStr × List DeviceEvent
unfolding knows forget
withdrawn v list = if knows v list then (forget v list, event v removed ∷ []) else (list, [])

-- The description at the location of the packet is that of a root device with the UDN of the packet.
pub record IsHonest (root : Bytes → Bool) (network : Network) (pkt : CgUpnpSsdpPacket)
    : Type 0 where
  pub type : CStr
  pub services : List CgUpnpService
  pub children : Devices
  pub named : 0 < length (packet_udn pkt)
  pub is_root : root (packet_udn pkt) ≡ true
  pub located : 0 < cg_strlen (cg_upnp_ssdp_packet_getlocation pkt)
  pub at :
      network.description (cg_upnp_ssdp_packet_getlocation pkt)
      ≡ described (some (packet_udn pkt)) type services children
  pub parses :
      cg_upnp_controlpoint_parseservicesfordevice network
        (device (some (packet_udn pkt)) type services pkt children)
      ≡ true
  pub below : (v : Bytes) → root v ≡ true → find v children ≡ none

module _ (root : Bytes → Bool) (network : Network) (pkt : CgUpnpSsdpPacket)
    (h : IsHonest root network pkt) where
  abbrev fresh : CgUpnpDevice
  fresh = device (some (packet_udn pkt)) h.type h.services pkt h.children

  fresh-IsRoot : IsRoot root fresh
  fresh-IsRoot = ((packet_udn pkt, refl, h.is_root), h.below)

  created-fresh : cg_upnp_controlpoint_createdevicefromssdkpacket network pkt ≡ some fresh
  unfolding cg_upnp_controlpoint_createdevicefromssdkpacket created
  created-fresh =
      let there : ltb 0 (cg_strlen (cg_upnp_ssdp_packet_getlocation pkt)) ≡ true =
        (let l = h.located in ground arith) in
      rw (there, h.at, h.parses) refl

  IsRoot-setssdppacket :
      (dev : CgUpnpDevice) (p : CgUpnpSsdpPacket)
      → IsRoot root dev
      → IsRoot root (setssdppacket dev p)
  IsRoot-setssdppacket (device u t s old c) p good = good

  getudn-setssdppacket :
      (dev : CgUpnpDevice) (p : CgUpnpSsdpPacket)
      → cg_upnp_device_getudn (setssdppacket dev p) ≡ cg_upnp_device_getudn dev
  getudn-setssdppacket (device u t s old c) p = refl

  redescribed-fresh :
      (old : CgUpnpDevice)
      → redescribed old pkt (network.description (cg_upnp_ssdp_packet_getlocation pkt)) ≡ fresh
  unfolding redescribed
  redescribed-fresh (device u t s p c) = rw h.at refl

  -- The device keeps its UDN, at the old location and at a new one.
  update-fresh :
      (old : CgUpnpDevice)
      → IsRoot root old
      → cg_upnp_device_getudn old ≡ some (packet_udn pkt)
      → (new : CgUpnpDevice) × (cg_upnp_device_updatefromssdppacket network old pkt
          ≡ (some new, true))
        × IsRoot root new
        × (cg_upnp_device_getudn new ≡ some (packet_udn pkt))
  unfolding cg_upnp_device_updatefromssdppacket
  update-fresh old good is =
      let here =
        cg_streq (cg_upnp_ssdp_packet_getlocation (cg_upnp_device_getssdppacket old))
          (cg_upnp_ssdp_packet_getlocation pkt) in
      elim (Bool-cases here) [
        | inl same ↦ (
          setssdppacket old pkt,
          rw same refl,
          IsRoot-setssdppacket old pkt good,
          getudn-setssdppacket old pkt ∙ is,
        )
        | inr moved ↦ (fresh, rw (moved, redescribed-fresh old, h.parses) refl, fresh-IsRoot, refl)
      ]

pub getdevice-find :
    (devices : Devices) (v : Bytes)
    → 0 < length v
    → cg_upnp_controlpoint_getdevicebyudn devices v ≡ find v devices
unfolding cg_upnp_controlpoint_getdevicebyudn
getdevice-find devices [] named = absurd (omega arith)
getdevice-find devices (c ∷ v) named = refl

-- The UDNs and the events are those of the list of UDNs, and the cache stays one.
abbrev pub Refines :
    (Bytes → Bool) → Devices × List DeviceEvent → List CStr × List DeviceEvent → Type 0
Refines root (devices, events) expected = ((udns devices, events) ≡ expected) × IsCache root devices

result-Refines :
    (root : Bytes → Bool) (result : Devices × List DeviceEvent) (after : Devices)
    (events : List DeviceEvent) (expected : List CStr × List DeviceEvent)
    → result ≡ (after, events)
    → (udns after, events) ≡ expected
    → IsCache root after
    → Refines root result expected
result-Refines root result after events expected e same cache =
    subst (λ r. Refines root r expected) (sym e) (same, cache)

pub add-announced :
    (root : Bytes → Bool) (network : Network) (pkt : CgUpnpSsdpPacket) (devices : Devices)
    → IsHonest root network pkt
    → IsCache root devices
    → Refines root
        (one_event (cg_upnp_controlpoint_adddevicebyssdppacket network devices pkt))
        (announced (packet_udn pkt) (udns devices))
unfolding cg_upnp_controlpoint_adddevicebyssdppacket add_or_update add_created update_found
    announced
add-announced root network pkt devices h cache =
    let v = packet_udn pkt in
    let get = getdevice-find devices v h.named in
    elim (Option-cases (find v devices)) [
      | inl unknown ↦
          let new = created-fresh root network pkt h in
          let k = find-knows root v devices h.is_root cache unknown in
          result-Refines root _ (cg_upnp_controlpoint_adddevice devices (fresh root network pkt h))
            (event v added ∷ []) _
            (ap one_event (
              ap (add_or_update network v devices pkt) (get ∙ unknown)
              ∙ ap (add_created v devices) new))
            (rw (k, udns-adddevice devices (fresh root network pkt h)) refl)
            (IsCache-adddevice root devices (fresh root network pkt h) cache
              (fresh-IsRoot root network pkt h))
      | inr (old, found) ↦
          let (good, is) = find-IsRoot root v devices old h.is_root cache found in
          let (new, e, keeps, is_new) = update-fresh root network pkt h old good is in
          let k = found-knows root v devices old h.is_root cache found in
          let (same, after) = udns-exchange root v devices new h.is_root cache keeps is_new in
          result-Refines root _ (exchange v (some new) devices) (event v updated ∷ []) _
            (ap one_event (
              ap (add_or_update network v devices pkt) (get ∙ found)
              ∙ ap (update_found v devices) e))
            (rw (k, same) refl) after
    ]

pub remove-withdrawn :
    (root : Bytes → Bool) (pkt : CgUpnpSsdpPacket) (devices : Devices)
    → 0 < length (packet_udn pkt)
    → root (packet_udn pkt) ≡ true
    → IsCache root devices
    → Refines root
        (cg_upnp_controlpoint_removedevicebyssdppacket devices pkt)
        (withdrawn (packet_udn pkt) (udns devices))
unfolding cg_upnp_controlpoint_removedevicebyssdppacket remove_found withdrawn
remove-withdrawn root pkt devices named is cache =
    let v = packet_udn pkt in
    let get = getdevice-find devices v named in
    elim (Option-cases (find v devices)) [
      | inl unknown ↦
          let k = find-knows root v devices is cache unknown in
          result-Refines root _ devices [] _ (ap (remove_found v devices) (get ∙ unknown))
            (rw k refl) cache
      | inr (old, found) ↦
          let k = found-knows root v devices old is cache found in
          let (same, good) = udns-delete root v devices is cache in
          result-Refines root _ (exchange v none devices) (event v removed ∷ []) _
            (ap (remove_found v devices) (get ∙ found)) (rw (k, same) refl) good
    ]
