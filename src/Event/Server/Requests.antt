-- ===== src/Event/Server/Requests.antt =====
-- Requests that pass the guards of the handler, and what the handler then does.
use dlna.Prelude.{ℕ, ◌≡◌, refl, true, false, none, some, Bytes, codes}
use dlna.Text.{cg_streq}
use dlna.Text.Search.{cg_strstr, strstr, is_prefix}
use dlna.Event.Subscription.{cg_upnp_event_subscription_getsid}
use dlna.Event.Service.Lookup.{new_id}
use dlna.Event.Device.{Services, CgUpnpDevice, cg_upnp_device_getservicebyeventsuburl}
use dlna.Event.Device.Search.{found-url}
use dlna.Event.Server.{
  SubscriptionRequest, has, value, refusal, accepted, checked, cg_upnp_device_subscriptionrecieved,
}

-- a request that passes the guards and carries the header CALLBACK
pub record IsSubscription (req : SubscriptionRequest) (aux : Bytes) : Type 0 where
  pub method : cg_streq req.method (some (codes "UNSUBSCRIBE")) ≡ false
  pub guards : refusal req ≡ none
  pub callback : has (codes "CALLBACK") req ≡ true
  pub text : value (codes "CALLBACK") req ≡ some aux

-- a request that names a subscription by the id of a UUID, and has no header CALLBACK or NT
pub record IsAbout (req : SubscriptionRequest) (u : Bytes) : Type 0 where
  pub callback : has (codes "CALLBACK") req ≡ false
  pub nt : has (codes "NT") req ≡ false
  pub sid : has (codes "SID") req ≡ true
  pub text : value (codes "SID") req ≡ some (new_id u)

pub about-guards : (req : SubscriptionRequest) (u : Bytes) → IsAbout req u → refusal req ≡ none
unfolding refusal
about-guards req u a = rw (a.callback, a.nt, a.sid) refl

-- the id in the header of such a request
pub about-getsid :
    (req : SubscriptionRequest) (u : Bytes)
    → IsAbout req u
    → cg_upnp_event_subscription_getsid (value (codes "SID") req) ≡ some u
unfolding cg_upnp_event_subscription_getsid cg_strstr strstr is_prefix
about-getsid req u a = rw a.text refl

-- the handler behind the lookup of the service and the guards
pub handled :
    (now : ℕ) (new_sid : Bytes) (services : Services) (dev : CgUpnpDevice)
    (req : SubscriptionRequest) (p : ℕ)
    → cg_upnp_device_getservicebyeventsuburl services dev req.uri ≡ some p
    → refusal req ≡ none
    → cg_upnp_device_subscriptionrecieved now new_sid services dev req
      ≡ accepted now new_sid services p req
unfolding cg_upnp_device_subscriptionrecieved checked
handled now new_sid services dev req p at guards =
    rw (found-url services dev req.uri at, at, guards) refl
