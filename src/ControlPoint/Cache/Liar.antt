-- ===== src/ControlPoint/Cache/Liar.antt =====
-- A device whose description has another UDN than its notifications is added again every time.
use dlna.Prelude.{
  ◌≡◌, ◌≢◌, ◌<◌, inl, inr, refl, sym, ap, ◌∙◌, ℕ, zero, suc, true, none, some, List, [], ◌∷◌, ◌++◌,
  append_assoc, append-nil, arith, Bytes, length, ltb, Bool-cases, Option-cases,
}
use dlna.Text.{CStr, cg_strlen}
use dlna.Ssdp.{
  CgUpnpSsdpPacket, cg_upnp_ssdp_packet_isrootdevice, cg_upnp_nts_isalive,
  cg_upnp_ssdp_packet_getnts,
}
use dlna.ControlPoint.{
  CgUpnpDevice, CgUpnpService, Devices, device, nil, cons, Network, described, find, or_else,
  find_here, cg_upnp_ssdp_packet_getlocation, created, cg_upnp_controlpoint_parseservicesfordevice,
  cg_upnp_controlpoint_createdevicefromssdkpacket,
}
use dlna.ControlPoint.Cache.{
  added, event, packet_udn, add_or_update, add_created, cg_upnp_controlpoint_adddevice,
  cg_upnp_controlpoint_adddevicebyssdppacket, cg_upnp_controlpoint_ssdplistner,
}
use dlna.ControlPoint.Cache.Known.{udns, udns-adddevice, is_udn, is_udn_iff}
use dlna.ControlPoint.Cache.Refine.{getdevice-find}
use dlna.ControlPoint.Cache.Runs.{heard}

abbrev pub copies {ℓ} : {A : Type ℓ} → ℕ → A → List A
copies zero x = []
copies (suc n) x = x ∷ copies n x

-- A notification of a living root device, whose description has the UDN `w`.
pub record IsLiar (network : Network) (pkt : CgUpnpSsdpPacket) (w : Bytes) : Type 0 where
  pub type : CStr
  pub services : List CgUpnpService
  pub is_root : cg_upnp_ssdp_packet_isrootdevice pkt ≡ true
  pub is_alive : cg_upnp_nts_isalive (cg_upnp_ssdp_packet_getnts pkt) ≡ true
  pub named : 0 < length (packet_udn pkt)
  pub other : w ≢ packet_udn pkt
  pub located : 0 < cg_strlen (cg_upnp_ssdp_packet_getlocation pkt)
  pub at :
      network.description (cg_upnp_ssdp_packet_getlocation pkt)
      ≡ described (some w) type services nil
  pub parses :
      cg_upnp_controlpoint_parseservicesfordevice network (device (some w) type services pkt nil)
      ≡ true

find-adddevice :
    (v : Bytes) (devices : Devices) (dev : CgUpnpDevice)
    → find v devices ≡ none
    → find v (cons dev nil) ≡ none
    → find v (cg_upnp_controlpoint_adddevice devices dev) ≡ none
unfolding find cg_upnp_controlpoint_adddevice
find-adddevice v nil dev old new = new
find-adddevice v (cons first devices) dev old new = elim (Option-cases (find_here v first)) [
  | inl here ↦
      let rest : find v devices ≡ none = sym (ap (λ o. or_else o (find v devices)) here) ∙ old in
      rw here (find-adddevice v devices dev rest new)
  | inr (hit, here) ↦ absurd (let e = sym (ap (λ o. or_else o (find v devices)) here) ∙ old in cc)
]

module _ (network : Network) (pkt : CgUpnpSsdpPacket) (w : Bytes) (h : IsLiar network pkt w) where
  abbrev found : CgUpnpDevice
  found = device (some w) h.type h.services pkt nil

  listner-liar :
      (devices : Devices)
      → find (packet_udn pkt) devices ≡ none
      → cg_upnp_controlpoint_ssdplistner network devices pkt
        ≡ (cg_upnp_controlpoint_adddevice devices found, event (packet_udn pkt) added ∷ [])
  unfolding cg_upnp_controlpoint_ssdplistner cg_upnp_controlpoint_adddevicebyssdppacket
      add_or_update cg_upnp_controlpoint_createdevicefromssdkpacket created add_created
  listner-liar devices unknown =
      let there : ltb 0 (cg_strlen (cg_upnp_ssdp_packet_getlocation pkt)) ≡ true =
        (let l = h.located in ground arith) in
      let get = getdevice-find devices (packet_udn pkt) h.named ∙ unknown in
      rw (h.is_root, h.is_alive, get, there, h.at, h.parses) refl

  found-unknown : find (packet_udn pkt) (cons found nil) ≡ none
  unfolding find
  found-unknown = elim (Bool-cases (is_udn (packet_udn pkt) (some w))) [
    | inl hit ↦
        absurd (let e = is_udn_iff (packet_udn pkt) (some w) hit in let o = h.other in ground arith)
    | inr miss ↦ rw miss refl
  ]

  -- If the description of a living root device without embedded devices has another UDN than its
  -- notifications, and the control point knows no device with the UDN of the notifications, every
  -- one of n notifications adds one more device, so that the list has grown by n entries with the
  -- same UDN. The service descriptions can be had.
  pub heard-liar :
      (n : ℕ) (devices : Devices)
      → find (packet_udn pkt) devices ≡ none
      → udns (heard network devices (copies n pkt)).0 ≡ udns devices ++ copies n (some w)
  unfolding heard
  heard-liar zero devices unknown = sym (append-nil (udns devices))
  heard-liar (suc n) devices unknown =
      let more = cg_upnp_controlpoint_adddevice devices found in
      let still = find-adddevice (packet_udn pkt) devices found unknown found-unknown in
      let rest = heard-liar n more still in
      ap (λ r. udns (heard network r.0 (copies n pkt)).0) (listner-liar devices unknown)
      ∙ rest
      ∙ ap (λ k. k ++ copies n (some w)) (udns-adddevice devices found)
      ∙ append_assoc (udns devices) (some w ∷ []) (copies n (some w))
