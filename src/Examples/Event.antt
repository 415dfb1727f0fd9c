-- ===== src/Examples/Event.antt =====
-- Concrete inputs for the subscriptions of clinkc/src/cybergarage/upnp.
use dlna.Prelude.{
  ◌++◌, ℕ, ◌≤◌, ◌≡◌, refl, true, false, some, none, [], ◌∷◌, arith, Bytes, codes, All, ◌==◌,
  if◌then◌else◌,
}
use dlna.Prelude.Int.{pos, ltb_ℤ}
use dlna.Text.{cg_streq}
use dlna.Uri.{cg_net_uri_new, cg_net_uri_setvalue}
use dlna.Uri.Parse.{cg_net_uri_setvalue-print}
use dlna.Uri.Parts.{expected}
use dlna.Http.Headers.{HttpHeader, cg_http_headerlist_getvalue}
use dlna.Event.Subscription.{limited, cg_upnp_event_subscription_gettimeout}
use dlna.Event.Subscription.Timeout.{long_min, asked, limited-gettimeout, limited-gettimeout_min}
use dlna.Event.Subscriber.{CgUpnpSubscriber, cg_upnp_subscriber_new}
use dlna.Event.Service.{skip_uuid, cg_upnp_service_notifymain}
use dlna.Event.Service.Notify.{survivors, notifymain-survivors}
use dlna.Event.Service.Lookup.{IsBare, Other}
use dlna.Event.Device.{
  Services, CgUpnpDevice, device, nil, cons, cg_upnp_device_getservicebyeventsuburl,
}
use dlna.Event.Server.Overread.{subscriptionrecieved_overread}
use dlna.Event.Server.{has, value, refusal}
use dlna.Event.Server.{
  SubscriptionRequest, Outcome, granted, setresponse, subscriber, timeout_of, delivery,
  cg_upnp_device_subscriptionrecieved,
}
use dlna.Event.Server.Answers.{Answered, subscriptionrecieved-Answered}
use dlna.Event.Server.Lifecycle.{unsubscribe-subscribe, renew-subscribe}
use dlna.Event.Server.Requests.{IsSubscription, IsAbout}
use dlna.Event.Server.Grant.{timeout-granted}
use dlna.Examples.Uri.{event_url, event_url-IsWellFormed}

abbrev header : Bytes → Bytes → HttpHeader
header name value = record { name = some name; value = some value }

-- a device with one service, and an embedded device with another one
abbrev tree : CgUpnpDevice
tree = device (0 ∷ []) (cons (device (1 ∷ []) nil) nil)

-- a subscriber of the second service
abbrev old : CgUpnpSubscriber
old = record (cg_upnp_subscriber_new 5) { sid = some (codes "uuid:77"); timeout = pos 60 }

abbrev store : Services
store p = record {
  event_sub_path = if p == 0 then some (codes "/ev0") else some (codes "/ev1");
  subscriber_list = if p == 0 then [] else old ∷ [];
}

abbrev callback : Bytes
callback = codes "<http://10.0.0.2:4004/ev?s=1>"

abbrev subscribe_request : SubscriptionRequest
subscribe_request = record {
  method = some (codes "SUBSCRIBE");
  uri = some (codes "/ev1");
  headers =
      header (codes "Callback") callback
      ∷ header (codes "NT") (codes "upnp:event")
      ∷ header (codes "TIMEOUT") (codes "Second-1800")
      ∷ [];
}

abbrev about : Bytes → SubscriptionRequest
about method = record {
  method = some method;
  uri = some (codes "/ev1");
  headers =
      header (codes "SID") (codes "uuid:42") ∷ header (codes "TIMEOUT") (codes "Second-120") ∷ [];
}

at_1 : cg_upnp_device_getservicebyeventsuburl store tree (some (codes "/ev1")) ≡ some 1
unfolding cg_upnp_device_getservicebyeventsuburl dlna.Text.cg_strlen dlna.Event.Device.service_in
    dlna.Event.Device.service_by_url dlna.Text.cg_strcmp dlna.Text.strcmp dlna.Text.cg_streq
at_1 = refl

abbrev uuid : Bytes
uuid = codes "42"

uuid-IsBare : IsBare uuid
unfolding dlna.Text.Search.strstr dlna.Text.Search.is_prefix
uuid-IsBare = record { ne = λ e. absurd (cc); no_uuid = refl }

subscribe_request-IsSubscription : IsSubscription subscribe_request callback
unfolding dlna.Event.Server.refusal dlna.Text.cg_strlen dlna.Text.cg_strcmp dlna.Text.strcmp
    dlna.Text.cg_streq dlna.Http.Headers.cg_http_packet_hasheader
    dlna.Http.Headers.cg_http_headerlist_getvalue dlna.Http.Headers.get dlna.Text.cg_strcasecmp
    dlna.Text.strcasecmp dlna.Text.toupper
subscribe_request-IsSubscription = record {
  method = refl;
  guards = refl;
  callback = refl;
  text = refl;
}

about-IsAbout : (method : Bytes) → IsAbout (about method) (codes "42")
unfolding dlna.Http.Headers.cg_http_packet_hasheader dlna.Http.Headers.cg_http_headerlist_getvalue
    dlna.Http.Headers.get dlna.Text.cg_strcasecmp dlna.Text.strcasecmp dlna.Text.toupper
about-IsAbout method = record { callback = refl; nt = refl; sid = refl; text = refl }

parsed : cg_net_uri_setvalue cg_net_uri_new (delivery callback) ≡ some (expected event_url)
unfolding dlna.Text.Trim.strltrim dlna.Text.Trim.strrtrim dlna.Text.Search.is_one_of
    dlna.Text.Decimal.print_int
parsed = cg_net_uri_setvalue-print event_url event_url-IsWellFormed cg_net_uri_new (omega arith)

others : All (Other (codes "42")) (store 1).subscriber_list
unfolding skip_uuid dlna.Text.Search.cg_strstr dlna.Text.Search.strstr dlna.Text.Search.is_prefix
    dlna.Text.cg_strcmp dlna.Text.strcmp dlna.Text.cg_streq
others = ((some (codes "77"), refl, refl), tt)

unsubscribe_method : cg_streq (some (codes "UNSUBSCRIBE")) (some (codes "UNSUBSCRIBE")) ≡ true
unfolding dlna.Text.cg_strcmp dlna.Text.strcmp dlna.Text.cg_streq
unsubscribe_method = refl

subscribe_method : cg_streq (some (codes "SUBSCRIBE")) (some (codes "UNSUBSCRIBE")) ≡ false
unfolding dlna.Text.cg_strcmp dlna.Text.strcmp dlna.Text.cg_streq
subscribe_method = refl

unsubscribe-subscribe_example :
    (o o' : Outcome) × (cg_upnp_device_subscriptionrecieved 10
        (codes "uuid:42")
        store
        tree
        subscribe_request
      ≡ some o)
    × (cg_upnp_device_subscriptionrecieved 70 [] o.services tree (about (codes "UNSUBSCRIBE"))
        ≡ some o')
    × ((o'.services 1).subscriber_list ≡ old ∷ [])
    × (o'.response ≡ some (setresponse 200))
unsubscribe-subscribe_example =
    unsubscribe-subscribe 10 (codes "42") store tree 1 subscribe_request callback
      (expected event_url) (about (codes "UNSUBSCRIBE")) 70 [] at_1 at_1
      subscribe_request-IsSubscription parsed (about-IsAbout (codes "UNSUBSCRIBE"))
      unsubscribe_method uuid-IsBare others

renew-subscribe_example :
    (o o' : Outcome) × (cg_upnp_device_subscriptionrecieved 10
        (codes "uuid:42")
        store
        tree
        subscribe_request
      ≡ some o)
    × (cg_upnp_device_subscriptionrecieved 70 [] o.services tree (about (codes "SUBSCRIBE"))
        ≡ some o')
    × ((o'.services 1).subscriber_list
        ≡ old
          ∷ record (subscriber 10 (codes "uuid:42") subscribe_request (expected event_url)) {
            timeout = timeout_of (about (codes "SUBSCRIBE"));
            subscription_time = 70;
          }
          ∷ [])
    × (o'.response ≡ some (granted (some (codes "42")) (timeout_of (about (codes "SUBSCRIBE")))))
renew-subscribe_example =
    renew-subscribe 10 (codes "42") store tree 1 subscribe_request callback (expected event_url)
      (about (codes "SUBSCRIBE")) 70 [] at_1 at_1 subscribe_request-IsSubscription parsed
      (about-IsAbout (codes "SUBSCRIBE")) subscribe_method uuid-IsBare others

-- a request without headers
abbrev bare_request : SubscriptionRequest
bare_request = record { method = some (codes "SUBSCRIBE"); uri = some (codes "/ev1"); headers = [] }

abbrev refused : Outcome
refused = record {
  services = store;
  response = some (record { status_code = 412; headers = [] });
  notifies = none;
}

bare_request-refused :
    cg_upnp_device_subscriptionrecieved 10 (codes "uuid:42") store tree bare_request ≡ some refused
unfolding cg_upnp_device_subscriptionrecieved cg_upnp_device_getservicebyeventsuburl
    dlna.Text.cg_strlen dlna.Event.Device.service_in dlna.Event.Device.service_by_url
    dlna.Text.cg_strcmp dlna.Text.strcmp dlna.Text.cg_streq
    dlna.Http.Headers.cg_http_packet_hasheader dlna.Http.Headers.cg_http_headerlist_getvalue
    dlna.Http.Headers.get dlna.Text.cg_strcasecmp dlna.Text.strcasecmp dlna.Text.toupper
    dlna.Event.Server.refusal dlna.Event.Server.checked
    dlna.Event.Server.cg_upnp_device_badsubscriptionrecieved
bare_request-refused = refl

subscriptionrecieved-Answered_example : Answered store refused
subscriptionrecieved-Answered_example =
    subscriptionrecieved-Answered 10 (codes "uuid:42") store tree bare_request bare_request-refused

timeout-granted_example :
    cg_upnp_event_subscription_gettimeout (
      cg_http_headerlist_getvalue
        (granted (some (codes "42")) (timeout_of subscribe_request)).headers
        (some (codes "TIMEOUT")))
    ≡ timeout_of subscribe_request
timeout-granted_example = timeout-granted (some (codes "42")) subscribe_request

asked_above : ltb_ℤ long_min (asked (some (codes "Second-1800"))) ≡ true
unfolding asked dlna.Text.Search.cg_strstr dlna.Text.Search.strstr dlna.Text.Search.is_prefix
    dlna.Text.Decimal.cg_str2long dlna.Text.Trim.isspace
asked_above = refl

-- A negative timeout is granted where the negation of LONG_MIN overflows.
negative_timeout :
    limited (cg_upnp_event_subscription_gettimeout (some (codes "Second--9223372036854775808")))
    ≡ long_min
negative_timeout = limited-gettimeout_min (some (codes "Second--9223372036854775808")) (
    unfold asked dlna.Text.Search.cg_strstr dlna.Text.Search.strstr dlna.Text.Search.is_prefix
      dlna.Text.Decimal.cg_str2long dlna.Text.Trim.isspace in
    refl)

limited-gettimeout_example :
    (t : ℕ) × (limited (cg_upnp_event_subscription_gettimeout (some (codes "Second-1800"))) ≡ pos t)
    × (1 ≤ t)
    × (t ≤ 300)
limited-gettimeout_example = limited-gettimeout (some (codes "Second-1800")) asked_above

notifymain-survivors_example :
    (cg_upnp_service_notifymain 20 (λ i. i == 0) (store 1)).subscriber_list
    ≡ survivors 20 (λ i. i == 0) (old ∷ [])
notifymain-survivors_example = notifymain-survivors 20 (λ i. i == 0) (store 1)

abbrev cut_off : SubscriptionRequest
cut_off = record {
  method = some (codes "SUBSCRIBE");
  uri = some (codes "/ev1");
  headers = header (codes "SID") (codes "uuid:uuid") ∷ [];
}

cut_off-refusal : refusal cut_off ≡ none
unfolding refusal dlna.Http.Headers.cg_http_packet_hasheader dlna.Http.Headers.get
    dlna.Text.cg_strcasecmp dlna.Text.strcasecmp dlna.Text.toupper
cut_off-refusal = refl

cut_off_callback : has (codes "CALLBACK") cut_off ≡ false
unfolding dlna.Http.Headers.cg_http_packet_hasheader dlna.Http.Headers.get dlna.Text.cg_strcasecmp
    dlna.Text.strcasecmp dlna.Text.toupper
cut_off_callback = refl

cut_off_sid : has (codes "SID") cut_off ≡ true
unfolding dlna.Http.Headers.cg_http_packet_hasheader dlna.Http.Headers.get dlna.Text.cg_strcasecmp
    dlna.Text.strcasecmp dlna.Text.toupper
cut_off_sid = refl

cut_off_value : value (codes "SID") cut_off ≡ some (codes "uuid" ++ b':' ∷ codes "uuid")
unfolding dlna.Http.Headers.cg_http_headerlist_getvalue dlna.Http.Headers.get
    dlna.Text.cg_strcasecmp dlna.Text.strcasecmp dlna.Text.toupper
cut_off_value = refl

subscriptionrecieved_overread_example :
    cg_upnp_device_subscriptionrecieved 10 (codes "uuid:42") store tree cut_off ≡ none
subscriptionrecieved_overread_example =
    subscriptionrecieved_overread 10 (codes "uuid:42") store tree cut_off 1 (codes "uuid") [] [] old
      (codes "uuid:77") at_1 refl refl cut_off-refusal cut_off_callback cut_off_sid cut_off_value
      (omega arith, (omega arith, (omega arith, (omega arith, tt))))
