-- ===== src/Discovery/Lifecycle.antt =====
-- A control point knows a device from its announcement until it is taken back.
use mathlib.Core.Path.{subst}
use dlna.Prelude.{
  ◌≡◌, ◌<◌, refl, sym, ap, ◌∙◌, Bool, true, false, some, List, [], ◌∷◌, ◌++◌, append_assoc, Bytes,
  length, drop, All, All-append,
}
use dlna.Text.{CStr}
use dlna.Ssdp.{CgUpnpSsdpPacket}
use dlna.Ssdp.Device.{
  CgUpnpDevice, device, Devices, cg_upnp_device_announcefrom, cg_upnp_device_byebyefrom,
  announce_device, byebye_device,
}
use dlna.ControlPoint
use dlna.ControlPoint.{Network}
use dlna.ControlPoint.Usn.{IsUdn}
use dlna.ControlPoint.Cache.{DeviceEvent, event, added, removed}
use dlna.ControlPoint.Cache.Known.{udns, knows, IsCache}
use dlna.ControlPoint.Cache.Refine.{announced, withdrawn, IsHonest}
use dlna.ControlPoint.Cache.Runs.{
  heard, notified, all_notified, heard-notified, IsFair, then_notified,
}
use dlna.Discovery.{
  IsPart, announcement, withdrawal, announcement_shape, withdrawal_shape, announcement_udn,
  withdrawal_udn, announce_packets, byebye_packets,
}
use dlna.Discovery.First.{
  notified-alive, notified-byebye, all_notified-first, announced-new, withdrawn-last, IsFair-parts,
}

announced_packets :
    (location udn : Bytes) (pkts : List CgUpnpSsdpPacket) (list : List CStr)
    → IsUdn udn
    → All IsPart pkts
    → knows udn list ≡ false
    → all_notified (announcement location udn ∷ pkts) list
      ≡ (list ++ (some udn ∷ []), event udn added ∷ [])
announced_packets location udn pkts list h parts new =
    let (is_root, up) = announcement_shape location udn in
    let step = notified-alive (announcement location udn) list is_root up in
    let same = ap (λ v. announced v list) (announcement_udn location udn h) in
    all_notified-first _ pkts list _ _ (step ∙ same ∙ announced-new udn list new) parts

withdrawn_packets :
    (udn : Bytes) (pkts : List CgUpnpSsdpPacket) (list : List CStr)
    → IsUdn udn
    → All IsPart pkts
    → knows udn list ≡ false
    → all_notified (withdrawal udn ∷ pkts) (list ++ (some udn ∷ []))
      ≡ (list, event udn removed ∷ [])
withdrawn_packets udn pkts list h parts new =
    let (is_root, up, down) = withdrawal_shape udn in
    let known = list ++ (some udn ∷ []) in
    let step = notified-byebye (withdrawal udn) known is_root up down in
    let same = ap (λ v. withdrawn v known) (withdrawal_udn udn h) in
    all_notified-first _ pkts known _ _ (step ∙ same ∙ withdrawn-last udn list new) parts

all_notified-append :
    (xs ys : List CgUpnpSsdpPacket) (list : List CStr)
    → all_notified (xs ++ ys) list ≡ then_notified ys (all_notified xs list)
unfolding all_notified
all_notified-append [] ys list = refl
all_notified-append (x ∷ xs) ys list =
    let (after, events) = notified x list in
    let (middle, more) = all_notified xs after in
    let (end, last) = all_notified ys middle in
    ap (λ r. (r.0, events ++ r.1)) (all_notified-append xs ys after)
    ∙ ap (λ e. (end, e)) (sym (append_assoc events more last))

-- The packets of a root device, all of them but the first parts of it.
abbrev pub IsQuiet : Bytes → CgUpnpDevice → Type 0
IsQuiet location dev =
    All IsPart (drop 1 (announce_packets location dev)) × All IsPart (drop 1 (byebye_packets dev))

module _ (root : Bytes → Bool) (network : Network) (location udn type : Bytes)
    (services : List Bytes) (children : Devices) (h : IsUdn udn) where
  abbrev dev : CgUpnpDevice
  dev = device true udn type services children

  announce-IsFair :
      IsHonest root network (announcement location udn)
      → All IsPart (drop 1 (announce_packets location dev))
      → All (IsFair root network) (announce_packets location dev)
  unfolding cg_upnp_device_announcefrom announce_device
  announce-IsFair honest parts = (
    λ is_root. (λ up. honest, λ down. (honest.named, honest.is_root)),
    IsFair-parts root network (drop 1 (announce_packets location dev)) parts,
  )

  byebye-IsFair :
      0 < length udn
      → root udn ≡ true
      → All IsPart (drop 1 (byebye_packets dev))
      → All (IsFair root network) (byebye_packets dev)
  unfolding cg_upnp_device_byebyefrom byebye_device
  byebye-IsFair named is parts =
      let same = withdrawal_udn udn h in
      let (is_root, other, down) = withdrawal_shape udn in
      (
        λ r. (
          λ up. absurd (cc),
          λ d. (subst (λ v. 0 < length v) (sym same) named, ap root same ∙ is),
        ),
        IsFair-parts root network (drop 1 (byebye_packets dev)) parts,
      )

-- the UDNs that the control point knows after the packets, and the events
abbrev pub seen :
    Network → ControlPoint.Devices → List CgUpnpSsdpPacket → List CStr × List DeviceEvent
seen network cache pkts = (udns (heard network cache pkts).0, (heard network cache pkts).1)

-- A root device that a control point does not know yet, and whose notifications of
-- cg_upnp_device_announcefrom arrive there, is then known by its UDN, added once at the end of the
-- list with one event, and when the notifications of cg_upnp_device_byebyefrom have arrived as
-- well, the control point knows exactly the devices from before, with one more event, the removal.
-- The UDN is not empty, has at most 125 bytes, is not cut by a double colon and does not end with
-- a space; the location leads to the description of a root device with this UDN whose service
-- descriptions can be had; no notification but the first of each kind mentions upnp:rootdevice;
-- and no embedded device has the UDN of a root device.
pub discovered :
    (root : Bytes → Bool) (network : Network) (location udn type : Bytes) (services : List Bytes)
    (children : Devices) (cache : ControlPoint.Devices)
    → IsUdn udn
    → IsHonest root network (announcement location udn)
    → IsQuiet location (device true udn type services children)
    → IsCache root cache
    → knows udn (udns cache) ≡ false
    → (seen network cache (announce_packets location (device true udn type services children))
        ≡ (udns cache ++ (some udn ∷ []), event udn added ∷ []))
      × (seen network cache (
            announce_packets location (device true udn type services children)
            ++ byebye_packets (device true udn type services children))
          ≡ (udns cache, event udn added ∷ event udn removed ∷ []))
unfolding cg_upnp_device_announcefrom announce_device cg_upnp_device_byebyefrom byebye_device
discovered root network location udn type services children cache h honest (quiet, still) is new =
    let dev = device true udn type services children in
    let same = announcement_udn location udn h in
    let named : 0 < length udn = subst (λ v. 0 < length v) same honest.named in
    let is_root : root udn ≡ true = ap root (sym same) ∙ honest.is_root in
    let up = announce_packets location dev in
    let down = byebye_packets dev in
    let fair = announce-IsFair root network location udn type services children h honest quiet in
    let leave =
      byebye-IsFair root network location udn type services children h named is_root still in
    let first = announced_packets location udn (drop 1 up) (udns cache) h quiet new in
    let last = withdrawn_packets udn (drop 1 down) (udns cache) h still new in
    let (heard_up, good) = heard-notified root network up cache fair is in
    let (heard_all, end) =
      heard-notified root network (up ++ down) cache
        (All-append (IsFair root network) up down fair leave) is in
    (
      heard_up ∙ first,
      heard_all
          ∙ all_notified-append up down (udns cache)
          ∙ ap (then_notified down) first
          ∙ ap (λ r. (r.0, event udn added ∷ r.1)) last,
    )
