-- ===== src/Examples/Discovery.antt =====
-- Concrete inputs for the control point of clinkc/src/cybergarage/upnp/ccontrolpoint.c.
use dlna.Prelude.{
  ◌≡◌, refl, ◌++◌, true, some, [], ◌∷◌, arith, Bool, List, Bytes, codes, length, ap, All,
}
use dlna.Text.{CStr}
use dlna.Ssdp.{CgUpnpSsdpPacket}
use dlna.Ssdp.Device.{
  device, nil, cons, alive, line_maxsize, cg_upnp_device_getnotifydeviceusn,
  cg_upnp_device_getnotifydevicetypeusn, cg_upnp_service_getnotifyservicetypeusn,
}
use dlna.ControlPoint
use dlna.ControlPoint.{CgUpnpService, Network, find, described, udn_len_max, cg_upnp_usn_getudn}
use dlna.ControlPoint.Usn.{IsUdn, usn_getudn-usn}
use dlna.ControlPoint.Cache.{event, added, removed}
use dlna.ControlPoint.Cache.Known.{udns, knows}
use dlna.ControlPoint.Cache.Refine.{IsHonest, Refines}
use dlna.ControlPoint.Cache.Runs.{
  heard, all_notified, IsFair, IsDistinct, heard-notified, heard-IsDistinct,
}
use dlna.ControlPoint.Cache.Liar.{IsLiar, copies, heard-liar}
use dlna.Discovery.{announcement, withdrawal, announce_packets, byebye_packets}
use dlna.Discovery.Lifecycle.{IsQuiet, seen, discovered}
use dlna.Examples.Ssdp.{light, power}

abbrev lamp : Bytes
lamp = codes "uuid:lamp"

lamp-IsUdn : IsUdn lamp
unfolding dlna.Text.Search.strstr dlna.Text.Search.is_prefix dlna.Text.Search.is_one_of
lamp-IsUdn = record { whole = refl; fits = omega arith; clean = λ c e. ground arith }

usn_getudn-usn_example :
    (cg_upnp_usn_getudn
        (some (cg_upnp_device_getnotifydeviceusn true lamp line_maxsize))
        udn_len_max
      ≡ lamp)
    × (cg_upnp_usn_getudn
          (some (cg_upnp_device_getnotifydevicetypeusn lamp light line_maxsize))
          udn_len_max
        ≡ lamp)
    × (cg_upnp_usn_getudn
          (some (cg_upnp_service_getnotifyservicetypeusn lamp light line_maxsize))
          udn_len_max
        ≡ lamp)
usn_getudn-usn_example = usn_getudn-usn lamp light lamp-IsUdn

abbrev pub lighting : CgUpnpService
lighting = record {
  service_id = some (codes "urn:upnp-org:serviceId:power");
  service_type = some power;
  scpd_url = some (codes "/scpd");
  control_request = some (some (codes "/control"));
}

-- every location has the description of the lamp, and every SCPD can be had
abbrev network : Network
network = record {
  description = λ location. described (some lamp) (some light) (lighting ∷ []) ControlPoint.nil;
  scpd = λ service. true;
}

abbrev every : Bytes → Bool
every udn = true

abbrev location : Bytes
location = codes "http://10.0.0.1/d.xml"

lamp-IsHonest : IsHonest every network (announcement location lamp)
unfolding dlna.Http.Headers.cg_http_headerlist_set dlna.Http.Headers.cg_http_headerlist_getvalue
    dlna.Http.Headers.get dlna.Http.Headers.is_named dlna.Text.cg_strcasecmp dlna.Text.strcasecmp
    dlna.Text.toupper cg_upnp_usn_getudn cg_upnp_device_getnotifydeviceusn dlna.Text.Search.strstr
    dlna.Text.Search.is_prefix dlna.Text.Search.is_one_of dlna.Text.Trim.strrtrim
    dlna.Text.cg_strlen dlna.ControlPoint.cg_upnp_controlpoint_parseservicesfordevice
    dlna.ControlPoint.find
lamp-IsHonest = record {
  type = some light;
  services = lighting ∷ [];
  children = ControlPoint.nil;
  named = omega arith;
  is_root = refl;
  located = omega arith;
  at = refl;
  parses = refl;
  below = λ v is. refl;
}

lamp-IsQuiet : IsQuiet location (device true lamp light (power ∷ []) nil)
unfolding dlna.Ssdp.Device.cg_upnp_device_announcefrom dlna.Ssdp.Device.cg_upnp_device_byebyefrom
    dlna.Http.Headers.cg_http_headerlist_set dlna.Http.Headers.cg_http_headerlist_getvalue
    dlna.Http.Headers.get dlna.Http.Headers.is_named dlna.Text.cg_strcasecmp dlna.Text.strcasecmp
    dlna.Text.toupper dlna.Text.Search.strstr dlna.Text.Search.is_prefix
    dlna.Ssdp.cg_upnp_ssdp_packet_isrootdevice dlna.Ssdp.cg_upnp_st_isrootdevice
lamp-IsQuiet = ((refl, (refl, (refl, tt))), (refl, (refl, (refl, tt))))

discovered_example :
    (seen network ControlPoint.nil
        (announce_packets location (device true lamp light (power ∷ []) nil))
      ≡ (some lamp ∷ [], event lamp added ∷ []))
    × (seen network ControlPoint.nil (
          announce_packets location (device true lamp light (power ∷ []) nil)
          ++ byebye_packets (device true lamp light (power ∷ []) nil))
        ≡ ([], event lamp added ∷ event lamp removed ∷ []))
unfolding udns knows
discovered_example =
    discovered every network location lamp light (power ∷ []) nil ControlPoint.nil lamp-IsUdn
      lamp-IsHonest lamp-IsQuiet tt refl

abbrev packets : List CgUpnpSsdpPacket
packets = announcement location lamp ∷ announcement location lamp ∷ withdrawal lamp ∷ []

withdrawal-IsFair : IsFair every network (withdrawal lamp)
unfolding dlna.Http.Headers.cg_http_headerlist_set dlna.Http.Headers.cg_http_headerlist_getvalue
    dlna.Http.Headers.get dlna.Http.Headers.is_named dlna.Text.cg_strcasecmp dlna.Text.strcasecmp
    dlna.Text.toupper cg_upnp_usn_getudn cg_upnp_device_getnotifydeviceusn dlna.Text.Search.strstr
    dlna.Text.Search.is_prefix dlna.Text.Search.is_one_of dlna.Text.Trim.strrtrim
    dlna.Ssdp.cg_upnp_nts_isalive
withdrawal-IsFair = λ r. (λ u. absurd (cc), λ d. (omega arith, refl))

packets-IsFair : All (IsFair every network) packets
packets-IsFair =
    let up : IsFair every network (announcement location lamp) =
      λ r. (λ u. lamp-IsHonest, λ d. (lamp-IsHonest.named, refl)) in
    (up, (up, (withdrawal-IsFair, tt)))

heard-notified_example :
    Refines every
      (heard network ControlPoint.nil packets)
      (all_notified packets (udns ControlPoint.nil))
heard-notified_example = heard-notified every network packets ControlPoint.nil packets-IsFair tt

heard-IsDistinct_example : IsDistinct (udns (heard network ControlPoint.nil packets).0)
heard-IsDistinct_example = heard-IsDistinct every network packets packets-IsFair

-- the description of the lamp, announced as a lantern
lantern-IsLiar : IsLiar network (announcement location (codes "uuid:lantern")) lamp
unfolding dlna.Http.Headers.cg_http_headerlist_set dlna.Http.Headers.cg_http_headerlist_getvalue
    dlna.Http.Headers.get dlna.Http.Headers.is_named dlna.Text.cg_strcasecmp dlna.Text.strcasecmp
    dlna.Text.toupper cg_upnp_usn_getudn cg_upnp_device_getnotifydeviceusn dlna.Text.Search.strstr
    dlna.Text.Search.is_prefix dlna.Text.Search.is_one_of dlna.Text.Trim.strrtrim
    dlna.Text.cg_strlen dlna.ControlPoint.cg_upnp_controlpoint_parseservicesfordevice
    dlna.Ssdp.cg_upnp_ssdp_packet_isrootdevice dlna.Ssdp.cg_upnp_nts_isalive
    dlna.Ssdp.Device.cg_upnp_device_getnotifydevicent
lantern-IsLiar = record {
  type = some light;
  services = lighting ∷ [];
  is_root = refl;
  is_alive = refl;
  named = omega arith;
  other = λ e. absurd (let n = ap length e in omega arith);
  located = omega arith;
  at = refl;
  parses = refl;
}

heard-liar_example :
    udns
      (heard network ControlPoint.nil (copies 2 (announcement location (codes "uuid:lantern")))).0
    ≡ some lamp ∷ some lamp ∷ []
unfolding udns find
heard-liar_example =
    heard-liar network (announcement location (codes "uuid:lantern")) lamp lantern-IsLiar 2
      ControlPoint.nil refl
