-- ===== src/Event/Server/Grant.antt =====
-- What a device tells a subscriber in its response.
use dlna.Prelude.{
  ℕ, zero, suc, ◌≤◌, ◌≡◌, refl, ap, ◌∙◌, Bool-cases, inl, inr, some, arith, Bytes, codes, ◌++◌,
}
use dlna.Prelude.Int.{ℤ, pos, eqb_ℤ, ltb_ℤ}
use dlna.Text.{CStr, cg_strcaseeq, cg_strcasecmp, strcasecmp, toupper}
use dlna.Text.Decimal.{cg_long2str, long_buflen}
use dlna.Http.Headers.{cg_http_headerlist_getvalue}
use dlna.Http.Headers.Laws.{getvalue-set}
use dlna.Event.Subscription.{
  cg_upnp_event_subscription_gettimeout, cg_upnp_event_subscription_totimeoutheaderstring,
  cg_upnp_event_subscription_response_setsid, cg_upnp_event_subscription_response_settimeout,
  sid_header, infinite_value, limited,
}
use dlna.Event.Subscription.Timeout.{
  long_min, asked, limited-gettimeout, limited-gettimeout_min, gettimeout-totimeoutheaderstring,
  gettimeout-totimeoutheaderstring_min,
}
use dlna.Event.Service.Lookup.{IsBare, new_id}
use dlna.Text.Search.{cg_strstr, strstr, is_prefix}
use dlna.Uri.{appended}
use dlna.Event.Server.{SubscriptionRequest, value, granted, setresponse, timeout_of}

timeout_text : (z : ℤ) → (v : Bytes) × (cg_upnp_event_subscription_totimeoutheaderstring z ≡ some v)
unfolding cg_upnp_event_subscription_totimeoutheaderstring
timeout_text z = elim (Bool-cases (eqb_ℤ z infinite_value)) [
  | inl infinite ↦ (codes "infinite", rw infinite refl)
  | inr finite ↦ (codes "Second-" ++ cg_long2str z long_buflen, rw finite refl)
]

granted_value :
    (sid : CStr) (z : ℤ)
    → cg_http_headerlist_getvalue (granted sid z).headers (some (codes "TIMEOUT"))
      ≡ cg_upnp_event_subscription_totimeoutheaderstring z
unfolding granted cg_upnp_event_subscription_response_settimeout cg_strcaseeq cg_strcasecmp
    strcasecmp toupper
granted_value sid z =
    let (v, e) = timeout_text z in
    rw e (
      getvalue-set (cg_upnp_event_subscription_response_setsid (setresponse 200).headers sid)
        (codes "TIMEOUT") (codes "TIMEOUT") v)

-- What a device can grant is read back.
limited_back :
    (v : CStr)
    → (z : ℤ) × (limited (cg_upnp_event_subscription_gettimeout v) ≡ z)
      × (cg_upnp_event_subscription_gettimeout (cg_upnp_event_subscription_totimeoutheaderstring z)
          ≡ z)
limited_back v = elim (Bool-cases (ltb_ℤ long_min (asked v))) [
  | inl above ↦ let (t, e, lo, hi) = limited-gettimeout v above in (pos t, e, back t lo hi)
  | inr min ↦ (long_min, limited-gettimeout_min v min, gettimeout-totimeoutheaderstring_min)
]
  where
    back :
        (t : ℕ)
        → 1 ≤ t
        → t ≤ 300
        → cg_upnp_event_subscription_gettimeout
            (cg_upnp_event_subscription_totimeoutheaderstring (pos t))
          ≡ pos t
    back zero lo hi = absurd (omega arith)
    back (suc n) lo hi = gettimeout-totimeoutheaderstring n (omega arith)

-- The timeout that a subscriber reads in the header TIMEOUT of the response to an accepted request
-- is the one that the device has granted, whatever the request asks for.
pub timeout-granted :
    (sid : CStr) (req : SubscriptionRequest)
    → cg_upnp_event_subscription_gettimeout (
        cg_http_headerlist_getvalue (granted sid (timeout_of req)).headers (some (codes "TIMEOUT")))
      ≡ timeout_of req
timeout-granted sid req =
    let (z, e, back) = limited_back (value (codes "TIMEOUT") req) in
    rw (timeout_of, e) (ap cg_upnp_event_subscription_gettimeout (granted_value sid z) ∙ back)

-- the header SID of a granted subscription
granted_sid :
    (sid : CStr) (v : Bytes) (req : SubscriptionRequest)
    → sid_header sid ≡ some v
    → cg_http_headerlist_getvalue (granted sid (timeout_of req)).headers (some (codes "SID"))
      ≡ some v
unfolding granted cg_upnp_event_subscription_response_settimeout
    cg_upnp_event_subscription_response_setsid cg_strcaseeq cg_strcasecmp strcasecmp toupper
granted_sid sid v req h =
    let (text, e) = timeout_text (timeout_of req) in
    rw e (
      getvalue-set (cg_upnp_event_subscription_response_setsid (setresponse 200).headers sid)
        (codes "TIMEOUT") (codes "SID") text
      ∙ rw h (getvalue-set (setresponse 200).headers (codes "SID") (codes "SID") v))

sid_header-new_id : (u : Bytes) → sid_header (some (new_id u)) ≡ some (new_id u)
unfolding sid_header appended cg_strstr strstr is_prefix
sid_header-new_id u = refl

sid_header-IsBare : (u : Bytes) → IsBare u → sid_header (some u) ≡ some (new_id u)
unfolding sid_header appended cg_strstr
sid_header-IsBare u b = rw (sid_header, b.no_uuid) refl

-- The header SID of the response to a new subscription and of the response to its renewal are the
-- same id uuid:u, where u is not empty and does not contain uuid.
pub sid-granted :
    (u : Bytes) (req : SubscriptionRequest)
    → IsBare u
    → (cg_http_headerlist_getvalue
          (granted (some (new_id u)) (timeout_of req)).headers
          (some (codes "SID"))
        ≡ some (new_id u))
      × (cg_http_headerlist_getvalue
            (granted (some u) (timeout_of req)).headers
            (some (codes "SID"))
          ≡ some (new_id u))
sid-granted u req b = (
  granted_sid (some (new_id u)) (new_id u) req (sid_header-new_id u),
  granted_sid (some u) (new_id u) req (sid_header-IsBare u b),
)
