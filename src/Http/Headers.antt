-- ===== src/Http/Headers.antt =====
-- clinkc/src/cybergarage/http/chttp_header.c and chttp_header_list.c. A header list is a List, and
-- `header` in the source is a position in it: the first header with the name.
pub mod Laws
use dlna.Prelude.{Bool, true, false, Option, none, some, List, [], ◌∷◌, ◌++◌, if◌then◌else◌}
use dlna.Prelude.Int.{pos, eqb_ℤ}
use dlna.Text.{CStr, cg_strcasecmp}
use dlna.Uri.{assigned}

pub record HttpHeader : Type 0 where
  pub name : CStr
  pub value : CStr

abbrev pub cg_http_header_new : HttpHeader
cg_http_header_new = record { name = none; value = none }

unfoldable pub cg_http_header_setname : HttpHeader → CStr → HttpHeader
cg_http_header_setname header name = record header { name = assigned header.name name }

unfoldable pub cg_http_header_setvalue : HttpHeader → CStr → HttpHeader
cg_http_header_setvalue header value = record header { value = assigned header.value value }

-- the test in the loop of `cg_http_headerlist_get`
unfoldable pub is_named : CStr → HttpHeader → Bool
is_named name header = elim header.name [
  | none ↦ false
  | some s ↦ eqb_ℤ (cg_strcasecmp (some s) name) (pos 0)
]

unfoldable pub get : List HttpHeader → CStr → Option HttpHeader
unfolding is_named
get [] name = none
get (header ∷ list) name = if is_named name header then some header else get list name

unfoldable pub cg_http_headerlist_get : List HttpHeader → CStr → Option HttpHeader
unfolding get
cg_http_headerlist_get list none = none
cg_http_headerlist_get list (some name) = get list (some name)

-- the list behind `cg_http_header_setvalue` of the header that was found
unfoldable pub set_found : List HttpHeader → CStr → CStr → List HttpHeader
unfolding is_named cg_http_header_setvalue
set_found [] name value = []
set_found (header ∷ list) name value =
    if is_named name header
    then cg_http_header_setvalue header value ∷ list
    else header ∷ set_found list name value

unfoldable pub cg_http_headerlist_set : List HttpHeader → CStr → CStr → List HttpHeader
unfolding cg_http_headerlist_get set_found cg_http_header_setname cg_http_header_setvalue
cg_http_headerlist_set list name value = elim (cg_http_headerlist_get list name) [
  | none ↦
      list ++ cg_http_header_setvalue (cg_http_header_setname cg_http_header_new name) value ∷ []
  | some header ↦ set_found list name value
]

abbrev pub value_of : Option HttpHeader → CStr
value_of none = none
value_of (some header) = header.value

unfoldable pub cg_http_headerlist_getvalue : List HttpHeader → CStr → CStr
unfolding cg_http_headerlist_get
cg_http_headerlist_getvalue list name = value_of (cg_http_headerlist_get list name)

-- the macro `cg_http_packet_hasheader`
unfoldable pub cg_http_packet_hasheader : List HttpHeader → CStr → Bool
unfolding cg_http_headerlist_get
cg_http_packet_hasheader list name = elim (cg_http_headerlist_get list name) [
  | none ↦ false
  | some header ↦ true
]
