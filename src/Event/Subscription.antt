-- ===== src/Event/Subscription.antt =====
-- clinkc/src/cybergarage/upnp/event/csubscription.c and csubscription_response.c: the values of the
-- headers SID and TIMEOUT.
pub mod Timeout
use dlna.Prelude.{
  ℕ, zero, suc, ◌+◌, ◌-◌, ◌^◌, ◌==◌, Bool, true, false, ◌||◌, Option, none, some, List, ◌++◌, Bytes,
  codes, drop, if◌then◌else◌,
}
use dlna.Prelude.Int.{ℤ, pos, negsuc, neg, eqb_ℤ, ltb_ℤ}
use dlna.Text.{CStr}
use dlna.Text.Search.{cg_strstr}
use dlna.Text.Decimal.{cg_long2str, cg_str2long, to_long, long_buflen}
use dlna.Uri.{appended}
use dlna.Http.Headers.{HttpHeader, cg_http_headerlist_set}

-- CG_UPNP_SUBSCRIPTION_INFINITE_VALUE
abbrev pub infinite_value : ℤ
infinite_value = negsuc 0

-- CG_UPNP_SUBSCRIPTION_MAX_TIMEOUT
abbrev pub max_timeout : ℤ
max_timeout = pos 300

unfoldable pub cg_upnp_event_subscription_totimeoutheaderstring : ℤ → CStr
cg_upnp_event_subscription_totimeoutheaderstring time =
    if eqb_ℤ time infinite_value
    then some (codes "infinite")
    else some (codes "Second-" ++ cg_long2str time long_buflen)

-- The number behind the minus sign, where 0 stands for no limit. In 64 bits the negation of LONG_MIN
-- is LONG_MIN again.
unfoldable pub seconds : ℤ → ℤ
seconds (pos zero) = infinite_value
seconds (pos (suc n)) = pos (suc n)
seconds (negsuc n) = if n == 2 ^ 63 - 1 then negsuc n else pos (suc n)

unfoldable pub cg_upnp_event_subscription_gettimeout : CStr → ℤ
unfolding seconds to_long
cg_upnp_event_subscription_gettimeout none = infinite_value
cg_upnp_event_subscription_gettimeout (some value) =
    elim (cg_strstr (some value) (some (codes "-"))) [
      | none ↦ infinite_value
      | some minus ↦ seconds (to_long (cg_str2long (some (drop (minus + 1) value))))
    ]

-- "Limit timeout to the given maximum"
unfoldable pub limited : ℤ → ℤ
limited timeout =
    if ltb_ℤ max_timeout timeout || eqb_ℤ timeout infinite_value then max_timeout else timeout

-- what stands behind the first colon
unfoldable pub cg_upnp_event_subscription_getsid : CStr → CStr
cg_upnp_event_subscription_getsid none = none
cg_upnp_event_subscription_getsid (some value) = elim (cg_strstr (some value) (some (codes ":"))) [
  | none ↦ some value
  | some colon ↦ some (drop (colon + 1) value)
]

-- the header SID of a subscription id, with "uuid:" in front if there is no "uuid" in it
unfoldable pub sid_header : CStr → CStr
unfolding appended
sid_header sid = elim (cg_strstr sid (some (codes "uuid"))) [
  | none ↦ appended (some (codes "uuid:")) sid
  | some i ↦ appended none sid
]

unfoldable pub cg_upnp_event_subscription_response_setsid : List HttpHeader → CStr → List HttpHeader
unfolding sid_header
cg_upnp_event_subscription_response_setsid headers sid =
    cg_http_headerlist_set headers (some (codes "SID")) (sid_header sid)

unfoldable pub cg_upnp_event_subscription_response_settimeout :
    List HttpHeader → ℤ → List HttpHeader
unfolding cg_upnp_event_subscription_totimeoutheaderstring
cg_upnp_event_subscription_response_settimeout headers value =
    cg_http_headerlist_set headers (some (codes "TIMEOUT"))
      (cg_upnp_event_subscription_totimeoutheaderstring value)
