-- ===== src/Event/Server/Lifecycle.antt =====
-- A subscription from its beginning to its end, as the device's handler sees it.
use dlna.Prelude.{
  ℕ, ◌≡◌, refl, ap, ◌∙◌, true, false, none, some, [], ◌∷◌, ◌++◌, Bytes, codes, length, All,
}
use dlna.Text.{CStr, cg_streq}
use dlna.Uri.{CgNetUri, cg_net_uri_new, cg_net_uri_setvalue}
use dlna.Event.Subscriber.{cg_upnp_subscriber_new, cg_upnp_subscriber_renew}
use dlna.Event.Service.{
  CgUpnpService, cg_upnp_service_addsubscriber, cg_upnp_service_removesubscriber,
  cg_upnp_service_getsubscriberbysid, remove_at, change_at,
}
use dlna.Event.Service.Lookup.{
  IsBare, Other, new_id, skip-new_id, getsubscriberbysid-last, remove_at-append, change_at-append,
}
use dlna.Event.Device.{Services, write, CgUpnpDevice, cg_upnp_device_getservicebyeventsuburl}
use dlna.Event.Device.Search.{
  SamePaths, write-SamePaths, write_same, getservicebyeventsuburl-SamePaths,
}
use dlna.Event.Server.{
  SubscriptionRequest, Outcome, setresponse, subscriber, subscribed, timeout_of, delivery, accepted,
  granted, cg_upnp_device_newsubscriptionrecieved, cg_upnp_device_renewsubscriptionrecieved,
  cg_upnp_device_unsubscriptionrecieved, cg_upnp_device_subscriptionrecieved,
}
use dlna.Event.Server.Requests.{IsSubscription, IsAbout, about-guards, about-getsid, handled}

module _ (now : ℕ) (u : Bytes) (services : Services) (dev : CgUpnpDevice) (p : ℕ)
    (req : SubscriptionRequest) (aux : Bytes) (url : CgNetUri) where
  -- the services behind the subscription
  abbrev after : Services
  after =
      write services p
        (cg_upnp_service_addsubscriber (services p) (subscriber now (new_id u) req url))

  subscribe :
      cg_upnp_device_getservicebyeventsuburl services dev req.uri ≡ some p
      → IsSubscription req aux
      → cg_net_uri_setvalue cg_net_uri_new (delivery aux) ≡ some url
      → cg_upnp_device_subscriptionrecieved now (new_id u) services dev req
        ≡ some (subscribed now (new_id u) services p req url)
  unfolding accepted cg_upnp_device_newsubscriptionrecieved cg_upnp_subscriber_new
  subscribe at s parsed =
      handled now (new_id u) services dev req p at s.guards
      ∙ rw (accepted, s.method, s.callback, cg_upnp_device_newsubscriptionrecieved, s.text, parsed)
          refl

  after-path : SamePaths after services
  unfolding cg_upnp_service_addsubscriber
  after-path = write-SamePaths services p _ refl

  after-list :
      (after p).subscriber_list
      ≡ (services p).subscriber_list ++ subscriber now (new_id u) req url ∷ []
  unfolding cg_upnp_service_addsubscriber
  after-list = ap (λ (s : CgUpnpService). s.subscriber_list) (write_same services p _)

  after-getsubscriberbysid :
      All (Other u) (services p).subscriber_list
      → IsBare u
      → cg_upnp_service_getsubscriberbysid (after p) (some u)
        ≡ some (some (length (services p).subscriber_list))
  after-getsubscriberbysid others bare =
      getsubscriberbysid-last (after p) u (services p).subscriber_list
        (subscriber now (new_id u) req url) bare after-list others (skip-new_id u)

  after-at :
      (url' : CStr)
      → cg_upnp_device_getservicebyeventsuburl services dev url' ≡ some p
      → cg_upnp_device_getservicebyeventsuburl after dev url' ≡ some p
  after-at url' at = getservicebyeventsuburl-SamePaths after services after-path dev url' ∙ at

  module _ (req' : SubscriptionRequest) (now' : ℕ) (new_sid' : Bytes) where
    -- A valid subscription to a service, sent to a device whose handler creates the id uuid:u for
    -- it, is accepted, and a later UNSUBSCRIBE request for the same service with this id in its
    -- header SID and without CALLBACK and NT is answered by 200 and leaves exactly the subscribers
    -- from before. The callback is a URL that is parsed, u is not empty and does not contain uuid,
    -- and the ids of the other subscribers can be read and are different.
    pub unsubscribe-subscribe :
        cg_upnp_device_getservicebyeventsuburl services dev req.uri ≡ some p
        → cg_upnp_device_getservicebyeventsuburl services dev req'.uri ≡ some p
        → IsSubscription req aux
        → cg_net_uri_setvalue cg_net_uri_new (delivery aux) ≡ some url
        → IsAbout req' u
        → cg_streq req'.method (some (codes "UNSUBSCRIBE")) ≡ true
        → IsBare u
        → All (Other u) (services p).subscriber_list
        → (o o' : Outcome) × (cg_upnp_device_subscriptionrecieved now (new_id u) services dev req
            ≡ some o)
          × (cg_upnp_device_subscriptionrecieved now' new_sid' o.services dev req' ≡ some o')
          × ((o'.services p).subscriber_list ≡ (services p).subscriber_list)
          × (o'.response ≡ some (setresponse 200))
    unfolding subscribed accepted cg_upnp_device_unsubscriptionrecieved
    unsubscribe-subscribe at at' s parsed a method bare others =
        let removed =
          cg_upnp_service_removesubscriber (after p) (length (services p).subscriber_list) in
        (
          subscribed now (new_id u) services p req url,
          record {
            services = write after p removed;
            response = some (setresponse 200);
            notifies = none;
          },
          subscribe at s parsed,
          handled now' new_sid' after dev req' p (after-at req'.uri at') (about-guards req' u a)
              ∙ rw
                  (
                    accepted,
                    method,
                    cg_upnp_device_unsubscriptionrecieved,
                    about-getsid req' u a,
                    after-getsubscriberbysid others bare,
                  )
                  refl,
          ap (λ (t : CgUpnpService). t.subscriber_list) (write_same after p removed)
              ∙ unfold cg_upnp_service_removesubscriber in
                (ap (λ l. remove_at l (length (services p).subscriber_list)) after-list
                  ∙ remove_at-append (services p).subscriber_list _),
          refl,
        )

    -- A valid subscription to a service, sent to a device whose handler creates the id uuid:u for
    -- it, is accepted, and a later request for the same service that is not an UNSUBSCRIBE, with
    -- this id in its header SID and without CALLBACK and NT, renews it: the new subscriber is
    -- still the last one and now has the timeout that the second request is granted and the time
    -- of that request, the other subscribers are as before, and the response tells the granted
    -- timeout. The callback is a URL that is parsed, u is not empty and does not contain uuid, and
    -- the ids of the other subscribers can be read and are different.
    pub renew-subscribe :
        cg_upnp_device_getservicebyeventsuburl services dev req.uri ≡ some p
        → cg_upnp_device_getservicebyeventsuburl services dev req'.uri ≡ some p
        → IsSubscription req aux
        → cg_net_uri_setvalue cg_net_uri_new (delivery aux) ≡ some url
        → IsAbout req' u
        → cg_streq req'.method (some (codes "UNSUBSCRIBE")) ≡ false
        → IsBare u
        → All (Other u) (services p).subscriber_list
        → (o o' : Outcome) × (cg_upnp_device_subscriptionrecieved now (new_id u) services dev req
            ≡ some o)
          × (cg_upnp_device_subscriptionrecieved now' new_sid' o.services dev req' ≡ some o')
          × ((o'.services p).subscriber_list
              ≡ (services p).subscriber_list
                ++ record (subscriber now (new_id u) req url) {
                  timeout = timeout_of req';
                  subscription_time = now';
                }
                  ∷ [])
          × (o'.response ≡ some (granted (some u) (timeout_of req')))
    unfolding subscribed accepted cg_upnp_device_renewsubscriptionrecieved
    renew-subscribe at at' s parsed a method bare others =
        let renewed : CgUpnpService = record (after p) {
          subscriber_list =
              change_at (after p).subscriber_list (length (services p).subscriber_list)
                (λ sub. cg_upnp_subscriber_renew now' (record sub { timeout = timeout_of req' }));
        } in
        (
          subscribed now (new_id u) services p req url,
          record {
            services = write after p renewed;
            response = some (granted (some u) (timeout_of req'));
            notifies = none;
          },
          subscribe at s parsed,
          handled now' new_sid' after dev req' p (after-at req'.uri at') (about-guards req' u a)
              ∙ rw
                  (
                    accepted,
                    method,
                    a.callback,
                    a.sid,
                    cg_upnp_device_renewsubscriptionrecieved,
                    about-getsid req' u a,
                    after-getsubscriberbysid others bare,
                  )
                  (ap
                    (λ sid. some (record {
                      services = write after p renewed;
                      response = some (granted sid (timeout_of req'));
                      notifies = none;
                    }))
                    (about-getsid req' u a)),
          ap (λ (t : CgUpnpService). t.subscriber_list) (write_same after p renewed)
              ∙ unfold cg_upnp_subscriber_renew in
                (ap
                    (λ l. change_at l (length (services p).subscriber_list) (λ sub.
                      cg_upnp_subscriber_renew now' (record sub { timeout = timeout_of req' })))
                    after-list
                  ∙ change_at-append (services p).subscriber_list _ _),
          refl,
        )
