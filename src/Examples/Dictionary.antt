-- ===== src/Examples/Dictionary.antt =====
-- A dictionary of two entries.
use dlna.Prelude.{◌≡◌, some, List, [], ◌∷◌, arith, codes, if◌then◌else◌}
use dlna.Text.{cg_streq}
use dlna.Dictionary.{CgDictionaryElement, cg_dictionary_setvalue, cg_dictionary_getvalue}
use dlna.Dictionary.Laws.{getvalue-setvalue}

abbrev two_entries : List CgDictionaryElement
two_entries =
    record { key = some (codes "a"); value = some (codes "1") }
    ∷ record { key = some (codes "b"); value = some (codes "2") }
    ∷ []

getvalue-setvalue_example :
    cg_dictionary_getvalue
      (cg_dictionary_setvalue two_entries (some (codes "b")) (some (codes "3")))
      (some (codes "a"))
    ≡ (if cg_streq (some (codes "b")) (some (codes "a"))
        then some (codes "3")
        else cg_dictionary_getvalue two_entries (some (codes "a")))
getvalue-setvalue_example =
    getvalue-setvalue (codes "b") (codes "a") (codes "3") (omega arith) two_entries (omega arith)
