-- ===== src/Ssdp/Device.antt =====
-- What a device advertises and answers: clinkc/src/cybergarage/upnp/cdevice.c, cservice.c,
-- cdevice_ssdp_server.c and cservice_ssdp_server.c. A device is the part of it that these functions
-- read: whether it has a root node list, its UDN, its type, the types of its services, and the
-- embedded devices. The description has these elements; without one the source prints NULL.
-- A search response and a notification are the headers that differ between two of one device:
-- ST or NT, and USN.
pub mod Answers
pub mod Kinds
pub mod Targets
use dlna.Prelude.{
  ◌-◌, ℕ, Bool, true, false, List, none, some, [], ◌∷◌, ◌++◌, Bytes, codes, take, if◌then◌else◌,
}
use dlna.Text.{CStr, cg_streq}
use dlna.Ssdp.{
  rootdevice, cg_upnp_st_isalldevice, cg_upnp_st_isrootdevice, cg_upnp_st_isuuiddevice,
  cg_upnp_st_isurn,
}

mutual
  pub data CgUpnpDevice : Type 0 where
    device : Bool → Bytes → Bytes → List Bytes → Devices → CgUpnpDevice

  pub data Devices : Type 0 where
    nil : Devices
    cons : CgUpnpDevice → Devices → Devices

-- ST or NT, and USN
pub record Advert : Type 0 where
  pub target : Bytes
  pub usn : Bytes

pub record Notification : Type 0 where
  pub nts : Bytes
  pub nt : Bytes
  pub usn : Bytes

-- CG_UPNP_SSDP_HEADER_LINE_MAXSIZE
abbrev pub line_maxsize : ℕ
line_maxsize = 128

-- `snprintf` leaves room for the terminator
abbrev pub snprintf : ℕ → Bytes → Bytes
snprintf size text = take (size - 1) text

unfoldable pub cg_upnp_device_getnotifydevicent : Bool → Bytes → ℕ → Bytes
cg_upnp_device_getnotifydevicent is_root udn size =
    if is_root then snprintf size rootdevice else snprintf size udn

unfoldable pub cg_upnp_device_getnotifydeviceusn : Bool → Bytes → ℕ → Bytes
cg_upnp_device_getnotifydeviceusn is_root udn size =
    if is_root then snprintf size (udn ++ (codes "::" ++ rootdevice)) else snprintf size udn

unfoldable pub cg_upnp_device_getnotifydevicetypent : Bytes → ℕ → Bytes
cg_upnp_device_getnotifydevicetypent type size = snprintf size type

unfoldable pub cg_upnp_device_getnotifydevicetypeusn : Bytes → Bytes → ℕ → Bytes
cg_upnp_device_getnotifydevicetypeusn udn type size = snprintf size (udn ++ (codes "::" ++ type))

-- `cg_strncpy`, and the terminator in the last place
unfoldable pub cg_upnp_service_getnotifyservicetypent : Bytes → ℕ → Bytes
cg_upnp_service_getnotifyservicetypent service size = take (size - 1) service

unfoldable pub cg_upnp_service_getnotifyservicetypeusn : Bytes → Bytes → ℕ → Bytes
cg_upnp_service_getnotifyservicetypeusn udn service size =
    snprintf size (udn ++ (codes "::" ++ service))

abbrev pub advert : Bytes → Bytes → Advert
advert target usn = record { target = target; usn = usn }

abbrev pub notification : Bytes → Advert → Notification
notification nts a = record { nts = nts; nt = a.target; usn = a.usn }

-- CG_UPNP_SSDP_NTS_ALIVE and CG_UPNP_SSDP_NTS_BYEBYE
abbrev pub alive : Bytes
alive = codes "ssdp:alive"

abbrev pub byebye : Bytes
byebye = codes "ssdp:byebye"

-- `cg_upnp_service_announcefrom` for the NTS alive and `cg_upnp_service_byebyefrom` for byebye, of
-- the device with this UDN.
unfoldable pub cg_upnp_service_announcefrom : Bytes → Bytes → Notification
unfolding cg_upnp_service_getnotifyservicetypent cg_upnp_service_getnotifyservicetypeusn
cg_upnp_service_announcefrom udn service = notification alive (
    advert (cg_upnp_service_getnotifyservicetypent service line_maxsize)
      (cg_upnp_service_getnotifyservicetypeusn udn service line_maxsize))

unfoldable pub cg_upnp_service_byebyefrom : Bytes → Bytes → Notification
unfolding cg_upnp_service_getnotifyservicetypent cg_upnp_service_getnotifyservicetypeusn
cg_upnp_service_byebyefrom udn service = notification byebye (
    advert (cg_upnp_service_getnotifyservicetypent service line_maxsize)
      (cg_upnp_service_getnotifyservicetypeusn udn service line_maxsize))

unfoldable pub announce_services : Bytes → List Bytes → List Notification
unfolding cg_upnp_service_announcefrom
announce_services udn [] = []
announce_services udn (service ∷ services) =
    cg_upnp_service_announcefrom udn service ∷ announce_services udn services

unfoldable pub byebye_services : Bytes → List Bytes → List Notification
unfolding cg_upnp_service_byebyefrom
byebye_services udn [] = []
byebye_services udn (service ∷ services) =
    cg_upnp_service_byebyefrom udn service ∷ byebye_services udn services

-- The notifications of the device itself, and of the whole tree in the order of sending.
unfoldable pub announce_device : Bool → Bytes → Bytes → List Notification
unfolding cg_upnp_device_getnotifydevicent cg_upnp_device_getnotifydeviceusn
    cg_upnp_device_getnotifydevicetypent cg_upnp_device_getnotifydevicetypeusn
announce_device is_root udn type =
    (if is_root
      then notification alive (
          advert (cg_upnp_device_getnotifydevicent is_root udn line_maxsize)
            (cg_upnp_device_getnotifydeviceusn is_root udn line_maxsize))
        ∷ []
      else [])
    ++ (notification alive (
          advert (cg_upnp_device_getnotifydevicetypent type line_maxsize)
            (cg_upnp_device_getnotifydevicetypeusn udn type line_maxsize))
        ∷ notification alive (advert udn udn)
        ∷ [])

unfoldable mutual
  unfolding announce_device announce_services

  pub cg_upnp_device_announcefrom : CgUpnpDevice → List Notification
  cg_upnp_device_announcefrom (device is_root udn type services children) =
      announce_device is_root udn type
      ++ (announce_services udn services ++ announce_children children)

  pub announce_children : Devices → List Notification
  announce_children nil = []
  announce_children (cons child children) =
      cg_upnp_device_announcefrom child ++ announce_children children

-- The notifications of the device itself, and of the whole tree in the order of sending.
unfoldable pub byebye_device : Bool → Bytes → Bytes → List Notification
unfolding cg_upnp_device_getnotifydevicent cg_upnp_device_getnotifydeviceusn
    cg_upnp_device_getnotifydevicetypent cg_upnp_device_getnotifydevicetypeusn
byebye_device is_root udn type =
    (if is_root
      then notification byebye (
          advert (cg_upnp_device_getnotifydevicent is_root udn line_maxsize)
            (cg_upnp_device_getnotifydeviceusn is_root udn line_maxsize))
        ∷ []
      else [])
    ++ (notification byebye (
          advert (cg_upnp_device_getnotifydevicetypent type line_maxsize)
            (cg_upnp_device_getnotifydevicetypeusn udn type line_maxsize))
        ∷ notification byebye (advert udn udn)
        ∷ [])

unfoldable mutual
  unfolding byebye_device byebye_services

  pub cg_upnp_device_byebyefrom : CgUpnpDevice → List Notification
  cg_upnp_device_byebyefrom (device is_root udn type services children) =
      byebye_device is_root udn type ++ (byebye_services udn services ++ byebye_children children)

  pub byebye_children : Devices → List Notification
  byebye_children nil = []
  byebye_children (cons child children) =
      cg_upnp_device_byebyefrom child ++ byebye_children children

-- The answers of one service of the device with this UDN to the search target.
unfoldable pub cg_upnp_service_ssdpmessagereceived : Bytes → Bytes → CStr → List Advert
unfolding cg_upnp_service_getnotifyservicetypent cg_upnp_service_getnotifyservicetypeusn
    cg_upnp_st_isalldevice cg_upnp_st_isurn cg_streq
cg_upnp_service_ssdpmessagereceived udn service none = []
cg_upnp_service_ssdpmessagereceived udn service (some []) = []
cg_upnp_service_ssdpmessagereceived udn service (some (c ∷ st)) =
    let nt = cg_upnp_service_getnotifyservicetypent service line_maxsize in
    let usn = cg_upnp_service_getnotifyservicetypeusn udn service line_maxsize in
    if cg_upnp_st_isalldevice (some (c ∷ st))
    then advert nt usn ∷ []
    else if cg_upnp_st_isurn (some (c ∷ st))
    then if cg_streq (some (c ∷ st)) (some service) then advert service usn ∷ [] else []
    else []

unfoldable pub answer_services : Bytes → List Bytes → CStr → List Advert
unfolding cg_upnp_service_ssdpmessagereceived
answer_services udn [] st = []
answer_services udn (service ∷ services) st =
    cg_upnp_service_ssdpmessagereceived udn service st ++ answer_services udn services st

-- the answers of the device itself
unfoldable pub answer_device : Bool → Bytes → Bytes → CStr → List Advert
unfolding cg_upnp_st_isalldevice cg_upnp_st_isrootdevice cg_upnp_st_isuuiddevice cg_upnp_st_isurn
    cg_streq cg_upnp_device_getnotifydevicent cg_upnp_device_getnotifydeviceusn
    cg_upnp_device_getnotifydevicetypent cg_upnp_device_getnotifydevicetypeusn
answer_device is_root udn type st =
    let root_usn = cg_upnp_device_getnotifydeviceusn is_root udn line_maxsize in
    let type_usn = cg_upnp_device_getnotifydevicetypeusn udn type line_maxsize in
    if cg_upnp_st_isalldevice st
    then (if is_root
        then advert (cg_upnp_device_getnotifydevicent is_root udn line_maxsize) root_usn ∷ []
        else [])
      ++ (advert (cg_upnp_device_getnotifydevicetypent type line_maxsize) type_usn
          ∷ advert udn udn
          ∷ [])
    else if cg_upnp_st_isrootdevice st
    then if is_root then advert rootdevice root_usn ∷ [] else []
    else if cg_upnp_st_isuuiddevice st
    then if cg_streq st (some udn) then advert udn udn ∷ [] else []
    else if cg_upnp_st_isurn st
    then if cg_streq st (some type) then advert type type_usn ∷ [] else []
    else []

-- The answers to a search target, in the order of sending: `cg_upnp_device_ssdpmessagereceived`
-- behind its filter.
unfoldable mutual
  unfolding answer_device answer_services

  pub answers : CgUpnpDevice → CStr → List Advert
  answers (device is_root udn type services children) st =
      answer_device is_root udn type st
      ++ (answer_services udn services st ++ answer_children children st)

  pub answer_children : Devices → CStr → List Advert
  answer_children nil st = []
  answer_children (cons child children) st = answers child st ++ answer_children children st
