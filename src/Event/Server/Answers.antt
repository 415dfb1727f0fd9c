-- ===== src/Event/Server/Answers.antt =====
-- Every request for a subscription is answered, and a refused one changes nothing.
use mathlib.Core.Path.{subst}
use dlna.Prelude.{
  ℕ, ◌≡◌, refl, ◌⊎◌, inl, inr, true, false, Option, none, some, [], arith, Bytes, codes, ltb,
  Bool-cases, Option-cases,
}
use dlna.Text.{cg_strlen, cg_streq}
use dlna.Uri.{◌>>=◌, cg_net_uri_setvalue}
use dlna.Event.Service.{cg_upnp_service_getsubscriberbysid}
use dlna.Event.Subscriber.{cg_upnp_subscriber_new}
use dlna.Event.Device.{Services, CgUpnpDevice, cg_upnp_device_getservicebyeventsuburl}
use dlna.Event.Subscription.{cg_upnp_event_subscription_getsid}
use dlna.Event.Server.{
  SubscriptionRequest, SubscriptionResponse, Outcome, has, value, granted, subscribed, timeout_of,
  delivery, refusal, accepted, checked, cg_upnp_device_badsubscriptionrecieved,
  cg_upnp_device_newsubscriptionrecieved, cg_upnp_device_renewsubscriptionrecieved,
  cg_upnp_device_unsubscriptionrecieved, cg_upnp_device_subscriptionrecieved,
}

-- A response has been posted; its code is 200, or it is 400 or 412 and nothing has happened.
abbrev pub Answered : Services → Outcome → Type 0
Answered services o =
    (r : SubscriptionResponse) × (o.response ≡ some r)
    × ((r.status_code ≡ 200)
        ⊎ ((r.status_code ≡ 400 ⊎ r.status_code ≡ 412)
            × (o.services ≡ services)
            × (o.notifies ≡ none)))

bind-some :
    {A B : Type 0} (m : Option A) (f : A → Option B) {b : B}
    → (m >>= f) ≡ some b
    → (a : A) × (m ≡ some a) × (f a ≡ some b)
bind-some none f h = absurd (cc)
bind-some (some a) f h = (a, refl, h)

some-injective : {A : Type 0} {a b : A} → some a ≡ some b → a ≡ b
some-injective h = cc

refusal_code :
    (req : SubscriptionRequest) {code : ℕ} → refusal req ≡ some code → (code ≡ 400) ⊎ (code ≡ 412)
unfolding refusal
refusal_code req h = ground arith

-- a request that passes the guards with a header CALLBACK has text in it
callback_there :
    (req : SubscriptionRequest)
    → refusal req ≡ none
    → has (codes "CALLBACK") req ≡ true
    → (aux : Bytes) × (value (codes "CALLBACK") req ≡ some aux)
unfolding refusal cg_strlen
callback_there req h c = elim (Option-cases (value (codes "CALLBACK") req)) [
  | inl null ↦ absurd (
      let empty : ltb 0 (cg_strlen (value (codes "CALLBACK") req)) ≡ false = rw null refl in
      ground arith)
  | inr found ↦ found
]

module _ (services : Services) where
  response-Answered :
      (r : SubscriptionResponse) (services' : Services) (notifies : Option ℕ) {o : Outcome}
      → r.status_code ≡ 200
      → some (record { services = services'; response = some r; notifies = notifies }) ≡ some o
      → Answered services o
  response-Answered r services' notifies ok h =
      subst (Answered services) (some-injective h) (r, refl, inl ok)

  bad-Answered :
      (code : ℕ) {o : Outcome}
      → (code ≡ 400) ⊎ (code ≡ 412)
      → some (cg_upnp_device_badsubscriptionrecieved services code) ≡ some o
      → Answered services o
  unfolding cg_upnp_device_badsubscriptionrecieved
  bad-Answered code h e =
      subst (Answered services) (some-injective e)
        (record { status_code = code; headers = [] }, refl, inr (h, refl, refl))

  found-Answered :
      (lookup : Option ℕ) (f : ℕ → Outcome) {o : Outcome}
      → ((i : ℕ) → some (f i) ≡ some o → Answered services o)
      → (elim lookup [
        | none ↦ some (cg_upnp_device_badsubscriptionrecieved services 412)
        | some i ↦ some (f i)
      ])
        ≡ some o
      → Answered services o
  found-Answered none f ok h = bad-Answered 412 (inr refl) h
  found-Answered (some i) f ok h = ok i h

  module _ (p : ℕ) (req : SubscriptionRequest) {o : Outcome} where
    unsubscription-Answered :
        cg_upnp_device_unsubscriptionrecieved services p req ≡ some o → Answered services o
    unfolding cg_upnp_device_unsubscriptionrecieved
    unsubscription-Answered h =
        let (found, e, h') =
          bind-some
            (cg_upnp_service_getsubscriberbysid (services p)
              (cg_upnp_event_subscription_getsid (value (codes "SID") req)))
            _ h in
        found-Answered found _ (λ i e. response-Answered _ _ _ refl e) h'

    renew-Answered :
        (now : ℕ)
        → cg_upnp_device_renewsubscriptionrecieved now services p req ≡ some o
        → Answered services o
    unfolding cg_upnp_device_renewsubscriptionrecieved
    renew-Answered now h =
        let (found, e, h') =
          bind-some
            (cg_upnp_service_getsubscriberbysid (services p)
              (cg_upnp_event_subscription_getsid (value (codes "SID") req)))
            _ h in
        found-Answered found _ (λ i e. response-Answered _ _ _ refl e) h'

    new-Answered :
        (now : ℕ) (new_sid aux : Bytes)
        → value (codes "CALLBACK") req ≡ some aux
        → cg_upnp_device_newsubscriptionrecieved now new_sid services p req ≡ some o
        → Answered services o
    unfolding cg_upnp_device_newsubscriptionrecieved subscribed granted
    new-Answered now new_sid aux e h =
        let (url, e', h') =
          bind-some (cg_net_uri_setvalue (cg_upnp_subscriber_new now).delivery_url (delivery aux))
            (λ url. some (subscribed now new_sid services p req url))
            (rw (cg_upnp_device_newsubscriptionrecieved, e) at h) in
        response-Answered (granted (some new_sid) (timeout_of req))
          (subscribed now new_sid services p req url).services (some p) refl h'

    accepted-Answered :
        (now : ℕ) (new_sid : Bytes)
        → refusal req ≡ none
        → accepted now new_sid services p req ≡ some o
        → Answered services o
    unfolding accepted
    accepted-Answered now new_sid none_refused h =
        elim (Bool-cases (cg_streq req.method (some (codes "UNSUBSCRIBE")))) [
          | inl un ↦ unsubscription-Answered (rw un at h)
          | inr sub ↦ elim (Bool-cases (has (codes "CALLBACK") req)) [
            | inl new ↦
                let (aux, e) = callback_there req none_refused new in
                new-Answered now new_sid aux e (rw (sub, new) at h)
            | inr old ↦ elim (Bool-cases (has (codes "SID") req)) [
              | inl renew ↦ renew-Answered now (rw (sub, old, renew) at h)
              | inr neither ↦ bad-Answered 412 (inr refl) (rw (sub, old, neither) at h)
            ]
          ]
        ]

    checked-Answered :
        (now : ℕ) (new_sid : Bytes)
        → checked now new_sid services p req (refusal req) ≡ some o
        → Answered services o
    unfolding checked
    checked-Answered now new_sid h = elim (Option-cases (refusal req)) [
      | inl fine ↦ accepted-Answered now new_sid fine (rw fine at h)
      | inr (code, e) ↦ bad-Answered code (refusal_code req e) (rw e at h)
    ]

-- Whatever the request for a subscription is, if the handler does not read outside a text it posts
-- a response, whose code is 200, or it is 400 or 412 and then no service has changed and no
-- notification is started.
pub subscriptionrecieved-Answered :
    (now : ℕ) (new_sid : Bytes) (services : Services) (dev : CgUpnpDevice)
    (req : SubscriptionRequest) {o : Outcome}
    → cg_upnp_device_subscriptionrecieved now new_sid services dev req ≡ some o
    → Answered services o
unfolding cg_upnp_device_subscriptionrecieved
subscriptionrecieved-Answered now new_sid services dev req h =
    elim (Bool-cases (ltb 0 (cg_strlen req.uri))) [
      | inl there ↦
          elim (Option-cases (cg_upnp_device_getservicebyeventsuburl services dev req.uri)) [
            | inl missing ↦ bad-Answered services 412 (inr refl) (rw (there, missing) at h)
            | inr (p, e) ↦ checked-Answered services p req now new_sid (rw (there, e) at h)
          ]
      | inr empty ↦ bad-Answered services 412 (inr refl) (rw empty at h)
    ]
