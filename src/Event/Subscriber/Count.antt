-- ===== src/Event/Subscriber/Count.antt =====
-- The event key of a subscriber.
use dlna.Prelude.{ℕ, zero, suc, ◌-◌, ◌^◌, ◌≤◌, ◌<◌, ◌≡◌, refl, arith}
use dlna.Event.Subscriber.{
  CgUpnpSubscriber, cg_upnp_subscriber_new, cg_upnp_subscriber_incrementnotifycount,
}

-- the subscriber after a number of notifications
abbrev pub notifications : ℕ → CgUpnpSubscriber → CgUpnpSubscriber
notifications zero sub = sub
notifications (suc n) sub = cg_upnp_subscriber_incrementnotifycount (notifications n sub)

-- The event key of a subscriber is from 1 to 2 ^ 32 - 1 after any number of notifications but
-- none.
pub notifications-bounds :
    (n now : ℕ)
    → (1 ≤ (notifications (suc n) (cg_upnp_subscriber_new now)).notify_count)
      × ((notifications (suc n) (cg_upnp_subscriber_new now)).notify_count ≤ 2 ^ 32 - 1)
unfolding cg_upnp_subscriber_incrementnotifycount
notifications-bounds n now = ground arith

-- After fewer than 2 ^ 32 notifications the event key of a new subscriber is their number.
pub notifications_count :
    (n now : ℕ) → n < 2 ^ 32 → (notifications n (cg_upnp_subscriber_new now)).notify_count ≡ n
unfolding cg_upnp_subscriber_incrementnotifycount cg_upnp_subscriber_new
notifications_count zero now h = refl
notifications_count (suc n) now h = ground (arith, notifications_count n now)
