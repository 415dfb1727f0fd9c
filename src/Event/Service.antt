-- ===== src/Event/Service.antt =====
-- The subscribers of a service: clinkc/src/cybergarage/upnp/cservice.c and cservice_notify.c. The
-- ring of subscribers is a List in its order, and a pointer to a subscriber is its index.
pub mod Lookup
pub mod Notify
use mathlib.Core.Option
use dlna.Prelude.{
  ℕ, zero, suc, ◌+◌, Bool, true, false, Option, none, some, List, [], ◌∷◌, ◌++◌, Bytes, codes,
  length, drop, ltb, leb, if◌then◌else◌,
}
use dlna.Text.{CStr, cg_strlen, cg_streq}
use dlna.Text.Search.{cg_strstr}
use dlna.Event.Subscriber.{
  CgUpnpSubscriber, cg_upnp_subscriber_isexpired, cg_upnp_subscriber_notify,
}
use dlna.Uri.{◌>>=◌}

pub record CgUpnpService : Type 0 where
  pub event_sub_path : CStr
  pub subscriber_list : List CgUpnpSubscriber

unfoldable pub cg_upnp_service_addsubscriber : CgUpnpService → CgUpnpSubscriber → CgUpnpService
cg_upnp_service_addsubscriber service sub = record service {
  subscriber_list = service.subscriber_list ++ sub ∷ [];
}

abbrev pub remove_at : List CgUpnpSubscriber → ℕ → List CgUpnpSubscriber
remove_at [] i = []
remove_at (sub ∷ subs) zero = subs
remove_at (sub ∷ subs) (suc i) = sub ∷ remove_at subs i

abbrev pub change_at :
    List CgUpnpSubscriber → ℕ → (CgUpnpSubscriber → CgUpnpSubscriber) → List CgUpnpSubscriber
change_at [] i f = []
change_at (sub ∷ subs) zero f = f sub ∷ subs
change_at (sub ∷ subs) (suc i) f = sub ∷ change_at subs i f

unfoldable pub cg_upnp_service_removesubscriber : CgUpnpService → ℕ → CgUpnpService
cg_upnp_service_removesubscriber service i = record service {
  subscriber_list = remove_at service.subscriber_list i;
}

-- a subscription id behind "uuid" and the byte that follows; `none` if that is the terminator, and
-- the pointer then stands behind the text
unfoldable pub skip_uuid : CStr → Option CStr
skip_uuid none = some none
skip_uuid (some sid) = elim (cg_strstr (some sid) (some (codes "uuid"))) [
  | none ↦ some (some sid)
  | some i ↦ if leb 5 (length sid) then some (some (drop 5 sid)) else none
]

-- `cg_streq` of two such pointers: `none` if it reads through one that stands behind its text. NULL
-- is equal to nothing, and then nothing is read.
unfoldable pub streq_at : Option CStr → Option CStr → Option Bool
unfolding cg_streq
streq_at (some a) (some b) = some (cg_streq a b)
streq_at (some none) none = some false
streq_at (some (some a)) none = none
streq_at none (some none) = some false
streq_at none (some (some b)) = none
streq_at none none = none

-- the loop; the outer Option of the result is `none` where C reads outside a text
unfoldable pub find : Option CStr → List CgUpnpSubscriber → Option (Option ℕ)
unfolding skip_uuid streq_at
find sid [] = some none
find sid (sub ∷ subs) =
    let rest = find sid subs in
    streq_at sid (skip_uuid sub.sid) >>= λ equal.
    if equal then some (some 0) else rest >>= (λ i. some (Option.map suc i))

unfoldable pub cg_upnp_service_getsubscriberbysid : CgUpnpService → CStr → Option (Option ℕ)
unfolding skip_uuid find
cg_upnp_service_getsubscriberbysid service sid =
    if ltb 0 (cg_strlen sid) then find (skip_uuid sid) service.subscriber_list else some none

unfoldable pub remove_expired : ℕ → List CgUpnpSubscriber → List CgUpnpSubscriber
remove_expired now [] = []
remove_expired now (sub ∷ subs) =
    let rest = remove_expired now subs in
    if cg_upnp_subscriber_isexpired now sub then rest else sub ∷ rest

-- `answers` says of the subscribers, in their order, whether their notification succeeds.
unfoldable pub notify_each : (ℕ → Bool) → List CgUpnpSubscriber → List CgUpnpSubscriber
notify_each answers [] = []
notify_each answers (sub ∷ subs) =
    let rest = notify_each (λ i. answers (suc i)) subs in
    elim (cg_upnp_subscriber_notify (answers 0) sub) [ none ↦ rest | some sub' ↦ sub' ∷ rest ]

-- `cg_upnp_service_notifymain`, for an event of one variable or of all of them
unfoldable pub cg_upnp_service_notifymain : ℕ → (ℕ → Bool) → CgUpnpService → CgUpnpService
unfolding remove_expired notify_each
cg_upnp_service_notifymain now answers service = record service {
  subscriber_list = notify_each answers (remove_expired now service.subscriber_list);
}
