-- ===== src/Event/Subscription/Timeout.antt =====
-- What a device grants, and what the two sides understand by it.
use dlna.Prelude.{
  true, false, ◌-◌, ◌<◌, ◌∙◌, ltb, ℕ, zero, suc, ◌+◌, ◌^◌, ◌≤◌, ◌⊎◌, inl, inr, ◌≡◌, refl, none,
  some, arith, codes, Bool-cases, drop,
}
use dlna.Prelude.Int.{ℤ, pos, negsuc, ltb_ℤ, eqb_ℤ}
use dlna.Text.{CStr}
use dlna.Text.Search.{strstr, cg_strstr, is_prefix}
use dlna.Text.Decimal.{cg_str2long, to_long}
use dlna.Text.Decimal.RoundTrip.{cg_str2long-cg_long2str, magnitude}
use dlna.Event.Subscription.{
  infinite_value, max_timeout, seconds, limited, cg_upnp_event_subscription_gettimeout,
  cg_upnp_event_subscription_totimeoutheaderstring,
}

-- LONG_MIN of 64 bits
abbrev pub long_min : ℤ
long_min = negsuc (2 ^ 63 - 1)

-- The number that a header TIMEOUT spells behind its first minus sign; without one, 0.
unfoldable pub asked : CStr → ℤ
asked none = pos 0
asked (some v) = elim (cg_strstr (some v) (some (codes "-"))) [
  | none ↦ pos 0
  | some i ↦ cg_str2long (some (drop (i + 1) v))
]

gettimeout-asked :
    (v : CStr) → cg_upnp_event_subscription_gettimeout v ≡ seconds (to_long (asked v))
unfolding cg_upnp_event_subscription_gettimeout asked seconds to_long
gettimeout-asked none = refl
gettimeout-asked (some v) = ground arith

-- Above LONG_MIN the number is turned positive, or stands for no limit.
seconds_cases :
    (z : ℤ)
    → ltb_ℤ long_min z ≡ true
    → (seconds (to_long z) ≡ infinite_value) ⊎ ((n : ℕ) × (seconds (to_long z) ≡ pos (suc n)))
unfolding seconds to_long
seconds_cases (pos zero) h = inl refl
seconds_cases (pos (suc n)) h = elim (Bool-cases (ltb (suc n) (2 ^ 63))) [
  | inl small ↦ inr (n, rw small refl)
  | inr big ↦ inr (2 ^ 63 - 2, rw big refl)
]
seconds_cases (negsuc n) h = inr (n, ground arith)

limited_pos : (n : ℕ) → (t : ℕ) × (limited (pos (suc n)) ≡ pos t) × (1 ≤ t) × (t ≤ 300)
unfolding limited
limited_pos n = elim (Bool-cases (ltb_ℤ max_timeout (pos (suc n)))) [
  | inl big ↦ rw big (300, refl, omega arith, omega arith)
  | inr small ↦ (suc n, ground arith, omega arith, ground arith)
]

-- Whatever a header TIMEOUT holds, the granted timeout is from 1 to 300 seconds, unless the number
-- behind its first minus sign is -2 ^ 63 or less.
pub limited-gettimeout :
    (v : CStr)
    → ltb_ℤ long_min (asked v) ≡ true
    → (t : ℕ) × (limited (cg_upnp_event_subscription_gettimeout v) ≡ pos t) × (1 ≤ t) × (t ≤ 300)
unfolding limited
limited-gettimeout v h = elim (seconds_cases (asked v) h) [
  | inl e ↦ rw (gettimeout-asked v, e) (300, refl, omega arith, omega arith)
  | inr (n, e) ↦ rw (gettimeout-asked v, e) (limited_pos n)
]

seconds_min : (z : ℤ) → ltb_ℤ long_min z ≡ false → seconds (to_long z) ≡ long_min
unfolding seconds to_long
seconds_min (pos n) h = ground arith
seconds_min (negsuc n) h = ground arith

-- If the number behind the first minus sign is -2 ^ 63 or less, the granted timeout is -2 ^ 63.
pub limited-gettimeout_min :
    (v : CStr)
    → ltb_ℤ long_min (asked v) ≡ false
    → limited (cg_upnp_event_subscription_gettimeout v) ≡ long_min
unfolding limited
limited-gettimeout_min v h = rw (gettimeout-asked v, seconds_min (asked v) h) refl

-- A number that is written to a header TIMEOUT is read from it as far as the minus sign behind the
-- word allows.
gettimeout-seconds :
    (z : ℤ)
    → eqb_ℤ z infinite_value ≡ false
    → magnitude z ≤ 2 ^ 63
    → cg_upnp_event_subscription_gettimeout (cg_upnp_event_subscription_totimeoutheaderstring z)
      ≡ seconds (to_long z)
unfolding cg_upnp_event_subscription_gettimeout cg_upnp_event_subscription_totimeoutheaderstring
    cg_strstr strstr is_prefix
gettimeout-seconds z finite h = rw (finite, cg_str2long-cg_long2str z h) refl

-- A timeout from 1 to 2 ^ 63 - 1 seconds survives being written to a header TIMEOUT and read from
-- it.
pub gettimeout-totimeoutheaderstring :
    (n : ℕ)
    → suc n < 2 ^ 63
    → cg_upnp_event_subscription_gettimeout
        (cg_upnp_event_subscription_totimeoutheaderstring (pos (suc n)))
      ≡ pos (suc n)
gettimeout-totimeoutheaderstring n h =
    gettimeout-seconds (pos (suc n)) refl (omega arith) ∙ (unfold seconds to_long in ground arith)

-- So does -2 ^ 63.
pub gettimeout-totimeoutheaderstring_min :
    cg_upnp_event_subscription_gettimeout
      (cg_upnp_event_subscription_totimeoutheaderstring long_min)
    ≡ long_min
gettimeout-totimeoutheaderstring_min =
    gettimeout-seconds long_min refl (omega arith) ∙ (unfold seconds to_long in refl)
