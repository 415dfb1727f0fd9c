-- ===== src/Event/Service/Notify.antt =====
-- Who is left after a notification.
use dlna.Prelude.{ℕ, suc, ◌≡◌, refl, ap, Bool, List, [], ◌∷◌, Bool-cases, inl, inr, if◌then◌else◌}
use dlna.Event.Subscriber.{
  CgUpnpSubscriber, cg_upnp_subscriber_isexpired, cg_upnp_subscriber_notify,
  cg_upnp_subscriber_incrementnotifycount,
}
use dlna.Event.Service.{CgUpnpService, remove_expired, notify_each, cg_upnp_service_notifymain}

-- The subscribers whose notification succeeds, with their counts raised. The answers are in the
-- order of the notifications, of which expired subscribers get none.
abbrev pub survivors : ℕ → (ℕ → Bool) → List CgUpnpSubscriber → List CgUpnpSubscriber
survivors now answers [] = []
survivors now answers (sub ∷ subs) =
    let skipped = survivors now answers subs in
    let next = survivors now (λ i. answers (suc i)) subs in
    if cg_upnp_subscriber_isexpired now sub
    then skipped
    else if answers 0
    then cg_upnp_subscriber_incrementnotifycount sub ∷ next
    else next

notify_each-survivors :
    (now : ℕ) (answers : ℕ → Bool) (subs : List CgUpnpSubscriber)
    → notify_each answers (remove_expired now subs) ≡ survivors now answers subs
unfolding notify_each remove_expired cg_upnp_subscriber_notify
notify_each-survivors now answers [] = refl
notify_each-survivors now answers (sub ∷ subs) =
    elim (Bool-cases (cg_upnp_subscriber_isexpired now sub)) [
      | inl old ↦ rw old (notify_each-survivors now answers subs)
      | inr live ↦ elim (Bool-cases (answers 0)) [
        | inl reached ↦
            rw (live, notify_each, reached)
              (ap (λ l. cg_upnp_subscriber_incrementnotifycount sub ∷ l)
                (notify_each-survivors now (λ i. answers (suc i)) subs))
        | inr lost ↦
            rw (live, notify_each, lost) (notify_each-survivors now (λ i. answers (suc i)) subs)
      ]
    ]

-- A notification leaves exactly the subscribers that have not expired and whose notification
-- succeeds, in their order and with their counts raised.
pub notifymain-survivors :
    (now : ℕ) (answers : ℕ → Bool) (service : CgUpnpService)
    → (cg_upnp_service_notifymain now answers service).subscriber_list
      ≡ survivors now answers service.subscriber_list
unfolding cg_upnp_service_notifymain
notifymain-survivors now answers service = notify_each-survivors now answers service.subscriber_list
