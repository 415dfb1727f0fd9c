-- ===== src/ControlPoint/Usn.antt =====
-- The control point takes out of a USN the UDN that the device has put in front.
use mathlib.Core.Option
use dlna.Prelude.{
  ◌≡◌, ◌≤◌, ◌+◌, ◌-◌, ℕ, zero, suc, refl, sym, ap, ◌∙◌, true, none, some, [], ◌∷◌, ◌++◌, append-nil,
  arith, Bytes, codes, length, take, take-length_append, ltb, Bool-cases, inl, inr, Option,
}
use dlna.Text.Search.{strstr, is_prefix, cg_strstr}
use dlna.Text.Trim.{strrtrim}
use dlna.Text.Trim.Laws.{EndsClean}
use dlna.Text.Trim.Core.{strrtrim-back}
use dlna.Ssdp.{rootdevice}
use dlna.Ssdp.Device.{
  cg_upnp_device_getnotifydeviceusn, cg_upnp_device_getnotifydevicetypeusn,
  cg_upnp_service_getnotifyservicetypeusn, line_maxsize,
}
use dlna.ControlPoint.{cg_upnp_usn_getudn, udn_part, udn_len_max}

abbrev pub colons : Bytes
colons = codes "::"

map-none : (o : Option ℕ) → Option.map suc o ≡ none → o ≡ none
map-none none e = refl
map-none (some i) e = absurd (cc)

is_prefix-colons :
    (x : ℕ) (a b : Bytes)
    → is_prefix colons (x ∷ (a ++ (colons ++ b))) ≡ is_prefix colons (x ∷ (a ++ (58 ∷ [])))
unfolding is_prefix
is_prefix-colons x [] b = refl
is_prefix-colons x (y ∷ a) b = refl

strstr-colons :
    (a b : Bytes)
    → strstr (a ++ (58 ∷ [])) colons ≡ none
    → strstr (a ++ (colons ++ b)) colons ≡ some (length a)
unfolding strstr
strstr-colons [] b h = unfold is_prefix in refl
strstr-colons (x ∷ a) b h = elim (Bool-cases (is_prefix colons (x ∷ (a ++ (58 ∷ []))))) [
  | inl hit ↦ absurd (let bad = rw hit at h in cc)
  | inr miss ↦
      let rest = map-none (strstr (a ++ (58 ∷ [])) colons) (rw miss at h) in
      rw (is_prefix-colons x a b, miss, strstr-colons a b rest) refl
]

-- A UDN that the buffers have room for: it is not cut by "::", and no space is behind it.
pub record IsUdn (udn : Bytes) : Type 0 where
  pub whole : strstr (udn ++ (58 ∷ [])) colons ≡ none
  pub fits : length udn ≤ 125
  pub clean : EndsClean (codes " ") 1 udn

take-colons :
    (n : ℕ) (a b : Bytes)
    → length a + 2 ≤ n
    → take n (a ++ (colons ++ b)) ≡ a ++ (colons ++ take (n - length a - 2) b)
take-colons zero a b h = absurd (omega arith)
take-colons (suc zero) [] b h = absurd (omega arith)
take-colons (suc (suc n)) [] b h = ap (λ k. 58 ∷ 58 ∷ take k b) (omega arith)
take-colons (suc n) (x ∷ a) b h =
    ap (◌∷◌ x) (take-colons n a b (omega arith))
    ∙ ap (λ k. x ∷ (a ++ (colons ++ take k b))) (omega arith)

strrtrim-clean : (s : Bytes) → EndsClean (codes " ") 1 s → strrtrim s (codes " ") 1 ≡ s
strrtrim-clean s clean =
    ap (λ t. strrtrim t (codes " ") 1) (sym (append-nil s))
    ∙ strrtrim-back (codes " ") 1 s [] tt clean

usn_getudn-colons :
    (udn b : Bytes) → IsUdn udn → cg_upnp_usn_getudn (some (udn ++ (colons ++ b))) udn_len_max ≡ udn
unfolding cg_upnp_usn_getudn udn_part cg_strstr
usn_getudn-colons udn b h =
    let at = strstr-colons udn b h.whole in
    let room : ltb (length udn) 128 ≡ true = (let f = h.fits in ground arith) in
    rw (at, room, take-length_append udn (colons ++ b)) (strrtrim-clean udn h.clean)

usn_getudn-take :
    (udn b : Bytes)
    → IsUdn udn
    → cg_upnp_usn_getudn (some (take 127 (udn ++ (colons ++ b)))) udn_len_max ≡ udn
usn_getudn-take udn b h =
    let fits = h.fits in
    ap (λ t. cg_upnp_usn_getudn (some t) udn_len_max) (take-colons 127 udn b (omega arith))
    ∙ usn_getudn-colons udn _ h

-- cg_upnp_usn_getudn returns the UDN of a device from the USNs that the device writes for itself,
-- for its type and for the type of a service, also where the line buffer has cut the USN. The UDN
-- has at most 125 bytes, is not cut by a double colon and does not end with a space.
pub usn_getudn-usn :
    (udn type : Bytes)
    → IsUdn udn
    → (cg_upnp_usn_getudn
          (some (cg_upnp_device_getnotifydeviceusn true udn line_maxsize))
          udn_len_max
        ≡ udn)
      × (cg_upnp_usn_getudn
            (some (cg_upnp_device_getnotifydevicetypeusn udn type line_maxsize))
            udn_len_max
          ≡ udn)
      × (cg_upnp_usn_getudn
            (some (cg_upnp_service_getnotifyservicetypeusn udn type line_maxsize))
            udn_len_max
          ≡ udn)
unfolding cg_upnp_device_getnotifydeviceusn cg_upnp_device_getnotifydevicetypeusn
    cg_upnp_service_getnotifyservicetypeusn
usn_getudn-usn udn type h =
    (usn_getudn-take udn rootdevice h, usn_getudn-take udn type h, usn_getudn-take udn type h)
