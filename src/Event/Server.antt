-- ===== src/Event/Server.antt =====
-- Subscriptions: clinkc/src/cybergarage/upnp/cdevice_http_server.c. A handler returns the services
-- that it leaves, the response that it posts, and the service for which it starts a thread that
-- notifies all subscribers. `none` is a read outside a text. Its inputs are the clock and the id
-- that `cg_upnp_createuuid` makes; allocations succeed.
pub mod Answers
pub mod Grant
pub mod Requests
pub mod Lifecycle
pub mod Overread
use dlna.Prelude.{
  ℕ, Bool, true, false, not, ◌&&◌, ◌||◌, Option, none, some, List, [], ◌∷◌, Bytes, codes, ltb,
  if◌then◌else◌,
}
use dlna.Prelude.Int.{ℤ, pos, eqb_ℤ}
use dlna.Text.{CStr, cg_strlen, cg_strcmp, cg_streq}
use dlna.Text.Trim.{strltrim, strrtrim}
use dlna.Text.Decimal.{cg_long2str, long_buflen}
use dlna.Uri.{CgNetUri, ◌>>=◌, cg_net_uri_setvalue}
use dlna.Http.Headers.{
  HttpHeader, cg_http_headerlist_set, cg_http_headerlist_getvalue, cg_http_packet_hasheader,
}
use dlna.Event.Subscription.{
  limited, cg_upnp_event_subscription_gettimeout, cg_upnp_event_subscription_getsid,
  cg_upnp_event_subscription_response_setsid, cg_upnp_event_subscription_response_settimeout,
}
use dlna.Event.Subscriber.{CgUpnpSubscriber, cg_upnp_subscriber_new, cg_upnp_subscriber_renew}
use dlna.Event.Service.{
  CgUpnpService, cg_upnp_service_addsubscriber, cg_upnp_service_removesubscriber,
  cg_upnp_service_getsubscriberbysid, change_at,
}
use dlna.Event.Device.{Services, write, CgUpnpDevice, cg_upnp_device_getservicebyeventsuburl}

pub record SubscriptionRequest : Type 0 where
  pub method : CStr
  pub uri : CStr
  pub headers : List HttpHeader

pub record SubscriptionResponse : Type 0 where
  pub status_code : ℕ
  pub headers : List HttpHeader

pub record Outcome : Type 0 where
  pub services : Services
  pub response : Option SubscriptionResponse
  pub notifies : Option ℕ

abbrev pub has : Bytes → SubscriptionRequest → Bool
has name req = cg_http_packet_hasheader req.headers (some name)

abbrev pub value : Bytes → SubscriptionRequest → CStr
value name req = cg_http_headerlist_getvalue req.headers (some name)

-- `cg_upnp_event_subscription_subscriberesponse_setresponse`
unfoldable pub setresponse : ℕ → SubscriptionResponse
setresponse code = record {
  status_code = code;
  headers =
      cg_http_headerlist_set [] (some (codes "Content-Length"))
        (some (cg_long2str (pos 0) long_buflen));
}

unfoldable pub cg_upnp_device_badsubscriptionrecieved : Services → ℕ → Outcome
cg_upnp_device_badsubscriptionrecieved services code = record {
  services = services;
  response = some (record { status_code = code; headers = [] });
  notifies = none;
}

-- the response to an accepted subscription
unfoldable pub granted : CStr → ℤ → SubscriptionResponse
unfolding setresponse
granted sid timeout = record {
  status_code = 200;
  headers =
      cg_upnp_event_subscription_response_settimeout
        (cg_upnp_event_subscription_response_setsid (setresponse 200).headers sid) timeout;
}

-- the URL between the brackets of the header CALLBACK
abbrev pub delivery : Bytes → Bytes
delivery aux = strrtrim (strltrim aux (codes "<") 1) (codes ">") 1

-- the timeout that is granted
abbrev pub timeout_of : SubscriptionRequest → ℤ
timeout_of req = limited (cg_upnp_event_subscription_gettimeout (value (codes "TIMEOUT") req))

abbrev pub subscriber : ℕ → Bytes → SubscriptionRequest → CgNetUri → CgUpnpSubscriber
subscriber now new_sid req url = record (cg_upnp_subscriber_new now) {
  delivery_url = url;
  timeout = timeout_of req;
  sid = some new_sid;
}

unfoldable pub subscribed : ℕ → Bytes → Services → ℕ → SubscriptionRequest → CgNetUri → Outcome
unfolding granted
subscribed now new_sid services p req url = record {
  services =
      write services p
        (cg_upnp_service_addsubscriber (services p) (subscriber now new_sid req url));
  response = some (granted (some new_sid) (timeout_of req));
  notifies = some p;
}

unfoldable pub cg_upnp_device_newsubscriptionrecieved :
    ℕ → Bytes → Services → ℕ → SubscriptionRequest → Option Outcome
unfolding subscribed
cg_upnp_device_newsubscriptionrecieved now new_sid services p req =
    elim (value (codes "CALLBACK") req) [
      | none ↦ some (record { services = services; response = none; notifies = none })
      | some aux ↦
          cg_net_uri_setvalue (cg_upnp_subscriber_new now).delivery_url (delivery aux) >>= λ url.
          some (subscribed now new_sid services p req url)
    ]

unfoldable pub cg_upnp_device_renewsubscriptionrecieved :
    ℕ → Services → ℕ → SubscriptionRequest → Option Outcome
unfolding granted cg_upnp_device_badsubscriptionrecieved
cg_upnp_device_renewsubscriptionrecieved now services p req =
    let sid = cg_upnp_event_subscription_getsid (value (codes "SID") req) in
    let timeout = timeout_of req in
    cg_upnp_service_getsubscriberbysid (services p) sid >>= λ found. elim found [
      | none ↦ some (cg_upnp_device_badsubscriptionrecieved services 412)
      | some i ↦ some (record {
        services = write services p (record (services p) {
          subscriber_list =
              change_at (services p).subscriber_list i
                (λ sub. cg_upnp_subscriber_renew now (record sub { timeout = timeout }));
        });
        response = some (granted sid timeout);
        notifies = none;
      })
    ]

unfoldable pub cg_upnp_device_unsubscriptionrecieved :
    Services → ℕ → SubscriptionRequest → Option Outcome
unfolding setresponse cg_upnp_device_badsubscriptionrecieved
cg_upnp_device_unsubscriptionrecieved services p req =
    let sid = cg_upnp_event_subscription_getsid (value (codes "SID") req) in
    cg_upnp_service_getsubscriberbysid (services p) sid >>= λ found. elim found [
      | none ↦ some (cg_upnp_device_badsubscriptionrecieved services 412)
      | some i ↦ some (record {
        services = write services p (cg_upnp_service_removesubscriber (services p) i);
        response = some (setresponse 200);
        notifies = none;
      })
    ]

-- the guards on the headers, in their order: the code of the response if one fails
unfoldable pub refusal : SubscriptionRequest → Option ℕ
refusal req =
    if not (has (codes "CALLBACK") req) && not (has (codes "SID") req)
    then some 412
    else if has (codes "CALLBACK") req && not (ltb 0 (cg_strlen (value (codes "CALLBACK") req)))
    then some 412
    else if has (codes "SID") req && (has (codes "CALLBACK") req || has (codes "NT") req)
    then some 400
    else if has (codes "NT") req
        && not (eqb_ℤ (cg_strcmp (value (codes "NT") req) (some (codes "upnp:event"))) (pos 0))
    then some 412
    else none

-- what follows the guards
unfoldable pub accepted : ℕ → Bytes → Services → ℕ → SubscriptionRequest → Option Outcome
unfolding cg_upnp_device_badsubscriptionrecieved
accepted now new_sid services p req =
    if cg_streq req.method (some (codes "UNSUBSCRIBE"))
    then cg_upnp_device_unsubscriptionrecieved services p req
    else if has (codes "CALLBACK") req
    then cg_upnp_device_newsubscriptionrecieved now new_sid services p req
    else if has (codes "SID") req
    then cg_upnp_device_renewsubscriptionrecieved now services p req
    else some (cg_upnp_device_badsubscriptionrecieved services 412)

unfoldable pub checked : ℕ → Bytes → Services → ℕ → SubscriptionRequest → Option ℕ → Option Outcome
unfolding cg_upnp_device_badsubscriptionrecieved accepted
checked now new_sid services p req none = accepted now new_sid services p req
checked now new_sid services p req (some code) =
    some (cg_upnp_device_badsubscriptionrecieved services code)

unfoldable pub cg_upnp_device_subscriptionrecieved :
    ℕ → Bytes → Services → CgUpnpDevice → SubscriptionRequest → Option Outcome
unfolding cg_upnp_device_badsubscriptionrecieved checked refusal
cg_upnp_device_subscriptionrecieved now new_sid services dev req =
    if ltb 0 (cg_strlen req.uri)
    then elim (cg_upnp_device_getservicebyeventsuburl services dev req.uri) [
      | none ↦ some (cg_upnp_device_badsubscriptionrecieved services 412)
      | some p ↦ checked now new_sid services p req (refusal req)
    ]
    else some (cg_upnp_device_badsubscriptionrecieved services 412)
