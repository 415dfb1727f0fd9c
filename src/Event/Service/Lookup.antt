-- ===== src/Event/Service/Lookup.antt =====
-- Finding a subscriber by its id.
use dlna.Prelude.{
  ◌≡◌, ◌≢◌, ◌⊎◌, inl, inr, ◌∙◌, Option, refl, ap, true, false, none, some, List, [], ◌∷◌, ◌++◌,
  arith, Bytes, codes, length, ltb, All,
}
use dlna.Text.{CStr, cg_strlen, cg_streq}
use dlna.Text.Compare.{cg_streq_iff}
use dlna.Text.Search.{strstr, cg_strstr, is_prefix}
use dlna.Event.Subscriber.{CgUpnpSubscriber}
use dlna.Event.Service.{
  CgUpnpService, remove_at, change_at, skip_uuid, streq_at, find,
  cg_upnp_service_getsubscriberbysid,
}

-- a text in which "uuid" does not occur, and which is not empty
pub record IsBare (u : Bytes) : Type 0 where
  pub ne : u ≢ []
  pub no_uuid : strstr u (codes "uuid") ≡ none

-- a subscriber whose id can be read, and is another one
abbrev pub Other : Bytes → CgUpnpSubscriber → Type 0
Other u sub = (s : CStr) × (skip_uuid sub.sid ≡ some s) × (cg_streq (some u) s ≡ false)

-- the id that `cg_upnp_createuuid` makes of the text of a UUID
abbrev pub new_id : Bytes → Bytes
new_id u = codes "uuid:" ++ u

streq_refl : (u : Bytes) → cg_streq (some u) (some u) ≡ true
streq_refl u = (cg_streq_iff (some u) (some u)).1 (u, refl, refl)

pub skip-new_id : (u : Bytes) → skip_uuid (some (new_id u)) ≡ some (some u)
unfolding skip_uuid cg_strstr strstr is_prefix
skip-new_id u = ground arith

pub skip-bare : (u : Bytes) → IsBare u → skip_uuid (some u) ≡ some (some u)
unfolding skip_uuid cg_strstr
skip-bare u b = rw (skip_uuid, b.no_uuid) refl

pub find-append :
    (u : Bytes) (subs : List CgUpnpSubscriber) (sub : CgUpnpSubscriber)
    → All (Other u) subs
    → skip_uuid sub.sid ≡ some (some u)
    → find (some (some u)) (subs ++ sub ∷ []) ≡ some (some (length subs))
unfolding find streq_at
find-append u [] sub others e = rw (e, streq_refl u) refl
find-append u (s ∷ subs) sub ((id, e, other), others) h =
    rw (e, other, find-append u subs sub others h) refl

pub remove_at-append :
    (subs : List CgUpnpSubscriber) (sub : CgUpnpSubscriber)
    → remove_at (subs ++ sub ∷ []) (length subs) ≡ subs
remove_at-append [] sub = refl
remove_at-append (s ∷ subs) sub = ap (λ l. s ∷ l) (remove_at-append subs sub)

pub change_at-append :
    (subs : List CgUpnpSubscriber) (sub : CgUpnpSubscriber)
    (f : CgUpnpSubscriber → CgUpnpSubscriber)
    → change_at (subs ++ sub ∷ []) (length subs) f ≡ subs ++ f sub ∷ []
change_at-append [] sub f = refl
change_at-append (s ∷ subs) sub f = ap (λ l. s ∷ l) (change_at-append subs sub f)

-- the service of which the last subscriber alone has the id
pub getsubscriberbysid-last :
    (service : CgUpnpService) (u : Bytes) (subs : List CgUpnpSubscriber) (sub : CgUpnpSubscriber)
    → IsBare u
    → service.subscriber_list ≡ subs ++ sub ∷ []
    → All (Other u) subs
    → skip_uuid sub.sid ≡ some (some u)
    → cg_upnp_service_getsubscriberbysid service (some u) ≡ some (some (length subs))
unfolding cg_upnp_service_getsubscriberbysid cg_strlen
getsubscriberbysid-last service [] subs sub bare e others h = absurd (bare.ne refl)
getsubscriberbysid-last service (c ∷ u) subs sub bare e others h =
    let some_text : ltb 0 (length (c ∷ u)) ≡ true = ground arith in
    rw (some_text, skip-bare (c ∷ u) bare, e, find-append (c ∷ u) subs sub others h) refl

behind_cases : (id : Option CStr) → (streq_at none id ≡ none) ⊎ (streq_at none id ≡ some false)
unfolding streq_at
behind_cases none = inl refl
behind_cases (some none) = inr refl
behind_cases (some (some b)) = inl refl

behind_text : (t : Bytes) → streq_at none (skip_uuid (some t)) ≡ none
unfolding streq_at skip_uuid
behind_text t = ground arith

-- A pointer behind its text is read as soon as a subscriber has an id.
find_behind :
    (before after : List CgUpnpSubscriber) (sub : CgUpnpSubscriber) (t : Bytes)
    → sub.sid ≡ some t
    → find none (before ++ sub ∷ after) ≡ none
unfolding find
find_behind [] after sub t e = rw (e, behind_text t) refl
find_behind (s ∷ before) after sub t e = elim (behind_cases (skip_uuid s.sid)) [
  | inl read ↦ rw read refl
  | inr null ↦ rw (null, find_behind before after sub t e) refl
]

-- The search for an id that is just "uuid" reads behind its end, if a subscriber has an id.
pub getsubscriberbysid_uuid :
    (service : CgUpnpService) (before after : List CgUpnpSubscriber) (sub : CgUpnpSubscriber)
    (t : Bytes)
    → service.subscriber_list ≡ before ++ sub ∷ after
    → sub.sid ≡ some t
    → cg_upnp_service_getsubscriberbysid service (some (codes "uuid")) ≡ none
unfolding cg_upnp_service_getsubscriberbysid skip_uuid cg_strlen cg_strstr strstr is_prefix
getsubscriberbysid_uuid service before after sub t at e =
    ap (find none) at ∙ find_behind before after sub t e
