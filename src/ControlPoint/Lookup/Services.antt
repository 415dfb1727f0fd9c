-- ===== src/ControlPoint/Lookup/Services.antt =====
-- The search for a service by its type, `cg_upnp_device_getservicebytype` of
-- clinkc/src/cybergarage/upnp/cdevice.c.
use dlna.Prelude.{
  ◌≡◌, ◌≢◌, ◌≤◌, ◌<◌, ◌⊎◌, inl, inr, refl, ap, ◌∙◌, Bool, true, false, ◌||◌, none, some, List, ◌∷◌,
  ◌++◌, arith, Bytes, length, length-append, All, All-mono, ltb, Bool-cases,
}
use dlna.Text.{cg_strlen, cg_strcmp}
use dlna.Text.Compare.{strcmp_iff}
use dlna.Text.Search.Find.{Lacks}
use dlna.TypeName.{cg_upnp_servicetype_getschematype}
use dlna.TypeName.Colons.{type_name, schema_type}
use dlna.TypeName.Parts.{typename-parts}
use dlna.ControlPoint.{CgUpnpService, CgUpnpDevice}
use dlna.ControlPoint.Lookup.{same, is_schema_service, cg_upnp_device_getservicebytype}
use dlna.ControlPoint.Lookup.Order.{first, flat_one, all_services, first-hit, service_where-flat}

-- A service with a type of five parts, as for typename-parts.
pub record HasType (service : CgUpnpService) (a b c d e : Bytes) : Type 0 where
  pub type : service.service_type ≡ some (type_name a b c d e)
  pub far : 2 ≤ length a
  pub last : 0 < length e
  pub colon_a : Lacks b':' a
  pub colon_b : Lacks b':' b
  pub colon_c : Lacks b':' c
  pub colon_d : Lacks b':' d
  pub colon_e : Lacks b':' e

-- A service without a type, or one whose type is another text, with its version and without.
abbrev pub Differs : Bytes → CgUpnpService → Type 0
Differs text service =
    (service.service_type ≡ none)
    ⊎ ((a b c d e : Bytes) × HasType service a b c d e
        × (type_name a b c d e ≢ text)
        × (schema_type a b c d ≢ text))

schematype-parts :
    (service : CgUpnpService) (a b c d e : Bytes)
    → HasType service a b c d e
    → cg_upnp_servicetype_getschematype (some (type_name a b c d e)) ≡ some (schema_type a b c d)
schematype-parts service a b c d e h =
    ap (λ p. p.schematype)
      (typename-parts a b c d e h.far h.last h.colon_a h.colon_b h.colon_c h.colon_d h.colon_e).1

-- The test of a service with a type compares both texts.
test-parts :
    (text : Bytes) (service : CgUpnpService) (a b c d e : Bytes)
    → HasType service a b c d e
    → is_schema_service (some text) service ≡ (
        same (some (type_name a b c d e)) (some text)
        || same (some (schema_type a b c d)) (some text))
unfolding is_schema_service
test-parts text service a b c d e h = rw (h.type, schematype-parts service a b c d e h) refl

same-ne : (a b : Bytes) → a ≢ b → same (some a) (some b) ≡ false
unfolding cg_strcmp
same-ne a b ne = elim (Bool-cases (same (some a) (some b))) [
  | inl e ↦ absurd (ne ((strcmp_iff a b).0 e))
  | inr e ↦ e
]

same_refl : (a : Bytes) → same (some a) (some a) ≡ true
unfolding cg_strcmp
same_refl a = (strcmp_iff a a).1 refl

miss-Differs :
    (text : Bytes) (service : CgUpnpService)
    → Differs text service
    → is_schema_service (some text) service ≡ false
miss-Differs text service (inl e) = unfold is_schema_service in rw e refl
miss-Differs text service (inr (a, b, c, d, e, h, whole, part)) =
    test-parts text service a b c d e h ∙ rw (same-ne _ text whole, same-ne _ text part) refl

front_pos : (a s : Bytes) → 2 ≤ length a → ltb 0 (length (a ++ s)) ≡ true
front_pos a s h = ground (arith, length-append a s)

or_true : (b : Bool) → (b || true) ≡ true
or_true true = refl
or_true false = refl

-- If a service has a type of five parts, as for typename-parts, a search below a device for this
-- complete type, or for the type without its version, returns this service, unless a service
-- before it in the flat list of the tree has the text that is searched for as its type or as its
-- type without version. In the flat list every device, with its services, stands in front of the
-- devices embedded in it, and the services before it have no type or one of five parts.
pub getservicebytype-first :
    (dev : CgUpnpDevice) (before after : List CgUpnpService) (service : CgUpnpService)
    (a b c d e text : Bytes)
    → HasType service a b c d e
    → (text ≡ schema_type a b c d) ⊎ (text ≡ type_name a b c d e)
    → all_services (flat_one dev) ≡ before ++ (service ∷ after)
    → All (Differs text) before
    → cg_upnp_device_getservicebytype dev (some text) ≡ some service
unfolding cg_upnp_device_getservicebytype cg_strlen
getservicebytype-first dev before after service a b c d e text h asked at others =
    let some_text : ltb 0 (length text) ≡ true = filled asked in
    rw some_text (
      service_where-flat (is_schema_service (some text)) dev
      ∙ ap (first (is_schema_service (some text))) at
      ∙ first-hit (is_schema_service (some text)) before after service
          (All-mono (Differs text) (λ y. is_schema_service (some text) y ≡ false)
            (miss-Differs text) before others)
          (test-parts text service a b c d e h ∙ hit asked))
  where
    filled :
        (text ≡ schema_type a b c d) ⊎ (text ≡ type_name a b c d e) → ltb 0 (length text) ≡ true
    filled (inl is) = rw is (front_pos a _ h.far)
    filled (inr is) = rw is (front_pos a _ h.far)

    hit :
        (text ≡ schema_type a b c d) ⊎ (text ≡ type_name a b c d e)
        → (same (some (type_name a b c d e)) (some text)
            || same (some (schema_type a b c d)) (some text))
          ≡ true
    hit (inl is) = rw (is, same_refl (schema_type a b c d)) (or_true _)
    hit (inr is) = rw (is, same_refl (type_name a b c d e)) refl
