-- ===== src/Event/Subscriber.antt =====
-- clinkc/src/cybergarage/upnp/event/csubscriber.c: a device's record of one subscriber. The system
-- time, in seconds, is an argument of the functions that read the clock. `ifAddr` is left out.
pub mod Count
use dlna.Prelude.{
  ℕ, zero, suc, ◌+◌, ◌-◌, ◌^◌, Bool, true, false, Option, none, some, ltb, leb, if◌then◌else◌,
}
use dlna.Prelude.Int.{ℤ, pos, negsuc}
use dlna.Text.{CStr}
use dlna.Uri.{CgNetUri, cg_net_uri_new}

pub record CgUpnpSubscriber : Type 0 where
  pub sid : CStr
  pub delivery_url : CgNetUri
  pub timeout : ℤ
  pub notify_count : ℕ
  pub subscription_time : ℕ

-- CG_UPNP_NOTIFY_COUNT_MAX
abbrev pub notify_count_max : ℕ
notify_count_max = 2 ^ 32 - 1

unfoldable pub cg_upnp_subscriber_renew : ℕ → CgUpnpSubscriber → CgUpnpSubscriber
cg_upnp_subscriber_renew now sub = record sub { subscription_time = now }

unfoldable pub cg_upnp_subscriber_new : ℕ → CgUpnpSubscriber
cg_upnp_subscriber_new now = record {
  sid = none;
  delivery_url = cg_net_uri_new;
  timeout = pos 0;
  notify_count = 0;
  subscription_time = now;
}

unfoldable pub cg_upnp_subscriber_incrementnotifycount : CgUpnpSubscriber → CgUpnpSubscriber
cg_upnp_subscriber_incrementnotifycount sub =
    let count = if leb notify_count_max sub.notify_count then 0 else sub.notify_count in
    record sub { notify_count = count + 1 }

-- time + timeout < now
abbrev pub past : ℕ → ℤ → ℕ → Bool
past time (pos n) now = ltb (time + n) now
past time (negsuc zero) now = false
past time (negsuc (suc n)) now = ltb time (now + (n + 2))

unfoldable pub cg_upnp_subscriber_isexpired : ℕ → CgUpnpSubscriber → Bool
cg_upnp_subscriber_isexpired now sub = past sub.subscription_time sub.timeout now

-- `notified`: whether the subscriber answered the request with a status of success
unfoldable pub cg_upnp_subscriber_notify : Bool → CgUpnpSubscriber → Option CgUpnpSubscriber
unfolding cg_upnp_subscriber_incrementnotifycount
cg_upnp_subscriber_notify notified sub =
    if notified then some (cg_upnp_subscriber_incrementnotifycount sub) else none
