-- ===== src/TypeName/Parts.antt =====
-- A type of five parts is taken apart into them.
use dlna.Prelude.{◌≡◌, ◌≤◌, ◌<◌, ◌+◌, refl, ap, ◌∙◌, none, some, arith, Bytes, length}
use dlna.Text.{CStr}
use dlna.Text.Search.Find.{Lacks}
use dlna.TypeName.{
  cg_upnp_devicetype_getidentifier, cg_upnp_devicetype_geturn, cg_upnp_devicetype_getdevice,
  cg_upnp_devicetype_gettype, cg_upnp_devicetype_getschematype, cg_upnp_devicetype_getversion,
  cg_upnp_servicetype_getidentifier, cg_upnp_servicetype_geturn, cg_upnp_servicetype_getservice,
  cg_upnp_servicetype_gettype, cg_upnp_servicetype_getschematype, cg_upnp_servicetype_getversion,
  tail_of, copy_part, part_behind, part_at,
}
use dlna.TypeName.Colons.{
  type_name, schema_type, copy_part-inner, part_behind-inner, part_behind-last, from_b, colon_0,
  colon_1, colon_2, colon_3, behind_0, behind_1, behind_2, behind_3, schema,
}

-- What the six functions return of a type.
pub record TypeParts : Type 0 where
  pub identifier : CStr
  pub urn : CStr
  pub middle : CStr
  pub type : CStr
  pub schematype : CStr
  pub version : CStr

abbrev pub devicetype_parts : CStr → TypeParts
devicetype_parts text = record {
  identifier = cg_upnp_devicetype_getidentifier text;
  urn = cg_upnp_devicetype_geturn text;
  middle = cg_upnp_devicetype_getdevice text;
  type = cg_upnp_devicetype_gettype text;
  schematype = cg_upnp_devicetype_getschematype text;
  version = cg_upnp_devicetype_getversion text;
}

abbrev pub servicetype_parts : CStr → TypeParts
servicetype_parts text = record {
  identifier = cg_upnp_servicetype_getidentifier text;
  urn = cg_upnp_servicetype_geturn text;
  middle = cg_upnp_servicetype_getservice text;
  type = cg_upnp_servicetype_gettype text;
  schematype = cg_upnp_servicetype_getschematype text;
  version = cg_upnp_servicetype_getversion text;
}

abbrev pub five_parts : Bytes → Bytes → Bytes → Bytes → Bytes → TypeParts
five_parts a b c d e = record {
  identifier = some a;
  urn = some b;
  middle = some c;
  type = some d;
  schematype = some (schema_type a b c d);
  version = some e;
}

abbrev parts_of : CStr → CStr → CStr → CStr → CStr → CStr → TypeParts
parts_of identifier urn middle type schematype version = record {
  identifier = identifier;
  urn = urn;
  middle = middle;
  type = type;
  schematype = schematype;
  version = version;
}

TypeParts-cong :
    {a a' b b' c c' d d' e e' f f' : CStr}
    → a ≡ a'
    → b ≡ b'
    → c ≡ c'
    → d ≡ d'
    → e ≡ e'
    → f ≡ f'
    → parts_of a b c d e f ≡ parts_of a' b' c' d' e' f'
TypeParts-cong p q r s t u = rw (p, q, r, s, t, u) refl

servicetype-devicetype : (text : CStr) → servicetype_parts text ≡ devicetype_parts text
unfolding cg_upnp_devicetype_getidentifier cg_upnp_devicetype_geturn cg_upnp_devicetype_getdevice
    cg_upnp_devicetype_gettype cg_upnp_devicetype_getschematype cg_upnp_devicetype_getversion
    cg_upnp_servicetype_getidentifier cg_upnp_servicetype_geturn cg_upnp_servicetype_getservice
    cg_upnp_servicetype_gettype cg_upnp_servicetype_getschematype cg_upnp_servicetype_getversion
servicetype-devicetype none = refl
servicetype-devicetype (some s) = refl

pub devicetype-parts :
    (a b c d e : Bytes)
    → 2 ≤ length a
    → 0 < length e
    → Lacks b':' a
    → Lacks b':' b
    → Lacks b':' c
    → Lacks b':' d
    → Lacks b':' e
    → devicetype_parts (some (type_name a b c d e)) ≡ five_parts a b c d e
unfolding cg_upnp_devicetype_getidentifier cg_upnp_devicetype_geturn cg_upnp_devicetype_getdevice
    cg_upnp_devicetype_gettype cg_upnp_devicetype_getschematype cg_upnp_devicetype_getversion
    part_at
devicetype-parts a b c d e far last ha hb hc hd he =
    let text = type_name a b c d e in
    let len = length text in
    let p0 = copy_part-inner text a (from_b a b c d e ha hb hc hd) 0 (omega arith) refl ha in
    let p1 =
      ap (λ o. part_behind text o len) (colon_0 a b c d e ha hb hc hd)
      ∙ part_behind-inner text _ b _ (omega arith) (behind_0 a b c d e ha hb hc hd) hb in
    let p2 =
      ap (λ o. part_behind text o len) (colon_1 a b c d e ha hb hc hd)
      ∙ part_behind-inner text _ c _ (omega arith) (behind_1 a b c d e ha hb hc hd) hc in
    let p3 =
      ap (λ o. part_behind text o len) (colon_2 a b c d e ha hb hc hd)
      ∙ part_behind-inner text _ d _ (omega arith) (behind_2 a b c d e ha hb hc hd) hd in
    let p4 =
      ap (λ o. copy_part text 0 (tail_of o len) len) (colon_3 a b c d e ha hb hc hd)
      ∙ schema a b c d e ha hb hc hd (omega arith) in
    let p5 =
      ap (λ o. part_behind text o (len + 1)) (colon_3 a b c d e ha hb hc hd)
      ∙ part_behind-last text _ e last (behind_3 a b c d e ha hb hc hd) he in
    TypeParts-cong p0 p1 p2 p3 p4 p5

-- Of a type of five parts with colons between them, the functions for device types and those for
-- service types return each part, and the first four with their colons as the type without its
-- version. No part holds a colon, the first one has at least two bytes, and the last one is not
-- empty.
pub typename-parts :
    (a b c d e : Bytes)
    → 2 ≤ length a
    → 0 < length e
    → Lacks b':' a
    → Lacks b':' b
    → Lacks b':' c
    → Lacks b':' d
    → Lacks b':' e
    → (devicetype_parts (some (type_name a b c d e)) ≡ five_parts a b c d e)
      × (servicetype_parts (some (type_name a b c d e)) ≡ five_parts a b c d e)
typename-parts a b c d e far last ha hb hc hd he =
    let device = devicetype-parts a b c d e far last ha hb hc hd he in
    (device, servicetype-devicetype (some (type_name a b c d e)) ∙ device)
