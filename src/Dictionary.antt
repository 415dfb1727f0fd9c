-- ===== src/Dictionary.antt =====
-- clinkc/src/cybergarage/util/cdictionary.c and cdictionary_elem.c. A dictionary is the list of its
-- elements, and an element in the source is a position in it.
pub mod Laws
use dlna.Prelude.{
  Bool, true, false, ◌&&◌, Option, none, some, List, [], ◌∷◌, ◌++◌, if◌then◌else◌, ltb,
}
use dlna.Text.{CStr, cg_strlen, cg_streq}
use dlna.Uri.{assigned}

pub record CgDictionaryElement : Type 0 where
  pub key : CStr
  pub value : CStr

abbrev pub cg_dictionary_element_new : CgDictionaryElement
cg_dictionary_element_new = record { key = none; value = none }

unfoldable pub cg_dictionary_element_setkey : CgDictionaryElement → CStr → CgDictionaryElement
cg_dictionary_element_setkey elem name = record elem { key = assigned elem.key name }

unfoldable pub cg_dictionary_element_setvalue : CgDictionaryElement → CStr → CgDictionaryElement
cg_dictionary_element_setvalue elem val = record elem { value = assigned elem.value val }

-- the tests in the loop of `cg_dictionary_getelement`
unfoldable pub has_key : CStr → CgDictionaryElement → Bool
has_key key elem = ltb 0 (cg_strlen elem.key) && cg_streq elem.key key

-- the loop
unfoldable pub find_key : List CgDictionaryElement → CStr → Option CgDictionaryElement
unfolding has_key
find_key [] key = none
find_key (elem ∷ dir) key = if has_key key elem then some elem else find_key dir key

unfoldable pub cg_dictionary_getelement :
    List CgDictionaryElement → CStr → Option CgDictionaryElement
unfolding find_key
cg_dictionary_getelement dir key = if ltb 0 (cg_strlen key) then find_key dir key else none

abbrev pub set_element : CgDictionaryElement → CStr → CStr → CgDictionaryElement
set_element elem key value =
    cg_dictionary_element_setvalue (cg_dictionary_element_setkey elem key) value

-- the dictionary behind the changes of the element that was found
unfoldable pub change_found : List CgDictionaryElement → CStr → CStr → List CgDictionaryElement
unfolding has_key cg_dictionary_element_setkey cg_dictionary_element_setvalue
change_found [] key value = []
change_found (elem ∷ dir) key value =
    if has_key key elem then set_element elem key value ∷ dir else elem ∷ change_found dir key value

-- what is done with the element that was found or not
unfoldable pub store :
    Option CgDictionaryElement → List CgDictionaryElement → CStr → CStr → List CgDictionaryElement
unfolding change_found cg_dictionary_element_setkey cg_dictionary_element_setvalue
store none dir key value = dir ++ set_element cg_dictionary_element_new key value ∷ []
store (some elem) dir key value = change_found dir key value

unfoldable pub cg_dictionary_setvalue :
    List CgDictionaryElement → CStr → CStr → List CgDictionaryElement
unfolding cg_dictionary_getelement store
cg_dictionary_setvalue dir key value = store (cg_dictionary_getelement dir key) dir key value

abbrev pub element_value : Option CgDictionaryElement → CStr
element_value none = none
element_value (some elem) = elem.value

unfoldable pub cg_dictionary_getvalue : List CgDictionaryElement → CStr → CStr
unfolding cg_dictionary_getelement
cg_dictionary_getvalue dir key = element_value (cg_dictionary_getelement dir key)
