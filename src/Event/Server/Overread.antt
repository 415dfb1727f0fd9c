-- ===== src/Event/Server/Overread.antt =====
-- A header SID that makes the handler of a device read behind the end of a text.
use dlna.Prelude.{
  ℕ, ◌+◌, ◌≡◌, refl, ap, sym, ◌∙◌, true, false, List, none, some, [], ◌∷◌, ◌++◌, append_assoc,
  Bytes, codes, length, length-append, drop, drop-append, Bool-cases, inl, inr,
}
use dlna.Text.{cg_streq}
use dlna.Text.Search.{cg_strstr}
use dlna.Text.Search.Find.{Lacks, strstr-byte}
use dlna.Event.Subscriber.{CgUpnpSubscriber}
use dlna.Event.Subscription.{cg_upnp_event_subscription_getsid}
use dlna.Event.Service.Lookup.{getsubscriberbysid_uuid}
use dlna.Event.Device.{Services, CgUpnpDevice, cg_upnp_device_getservicebyeventsuburl}
use dlna.Event.Server.{
  SubscriptionRequest, has, value, refusal, accepted, cg_upnp_device_renewsubscriptionrecieved,
  cg_upnp_device_unsubscriptionrecieved, cg_upnp_device_subscriptionrecieved,
}
use dlna.Event.Server.Requests.{handled}

drop-behind : (front s : Bytes) (c : ℕ) → drop (length front + 1) (front ++ c ∷ s) ≡ s
drop-behind front s c =
    ap (drop (length front + 1)) (sym (append_assoc front (c ∷ []) s))
    ∙ drop-append (length front + 1) (front ++ c ∷ []) s (sym (length-append front (c ∷ [])))

-- The id of a header is what follows its first colon.
pub getsid-behind :
    (front s : Bytes)
    → Lacks b':' front
    → cg_upnp_event_subscription_getsid (some (front ++ b':' ∷ s)) ≡ some s
unfolding cg_upnp_event_subscription_getsid cg_strstr
getsid-behind front s h =
    rw (cg_upnp_event_subscription_getsid, strstr-byte front s b':' h)
      (ap some (drop-behind front s b':'))

-- A request that passes the guards, is for a service of the device with a subscriber that has an
-- id, and has no header CALLBACK, whether it renews or ends a subscription, makes the handler read
-- behind the end of a text if its header SID ends at uuid right behind its first colon.
pub subscriptionrecieved_overread :
    (now : ℕ) (new_sid : Bytes) (services : Services) (dev : CgUpnpDevice)
    (req : SubscriptionRequest) (p : ℕ) (front : Bytes) (before after : List CgUpnpSubscriber)
    (sub : CgUpnpSubscriber) (t : Bytes)
    → cg_upnp_device_getservicebyeventsuburl services dev req.uri ≡ some p
    → (services p).subscriber_list ≡ before ++ sub ∷ after
    → sub.sid ≡ some t
    → refusal req ≡ none
    → has (codes "CALLBACK") req ≡ false
    → has (codes "SID") req ≡ true
    → value (codes "SID") req ≡ some (front ++ b':' ∷ codes "uuid")
    → Lacks b':' front
    → cg_upnp_device_subscriptionrecieved now new_sid services dev req ≡ none
unfolding accepted cg_upnp_device_renewsubscriptionrecieved cg_upnp_device_unsubscriptionrecieved
subscriptionrecieved_overread now new_sid services dev req p front before after sub t at subs id_of
      guards new sid e lacks =
    let id : cg_upnp_event_subscription_getsid (value (codes "SID") req) ≡ some (codes "uuid") =
      ap cg_upnp_event_subscription_getsid e ∙ getsid-behind front (codes "uuid") lacks in
    let read = getsubscriberbysid_uuid (services p) before after sub t subs id_of in
    handled now new_sid services dev req p at guards
    ∙ elim (Bool-cases (cg_streq req.method (some (codes "UNSUBSCRIBE")))) [
      | inl un ↦ rw (accepted, un, cg_upnp_device_unsubscriptionrecieved, id, read) refl
      | inr subscribe ↦
          rw (accepted, subscribe, new, sid, cg_upnp_device_renewsubscriptionrecieved, id, read)
            refl
    ]
