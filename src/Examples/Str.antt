-- ===== src/Examples/Str.antt =====
-- Concrete inputs for clinkc/src/cybergarage/util/cstring.c and clinkc/src/cybergarage/xml.
use dlna.Prelude.{
  ℕ, zero, suc, ◌≡◌, refl, ap, true, some, [], ◌∷◌, arith, Bytes, codes, length, ltb,
}
use dlna.Str.{Memory, CgString, cg_string_new, cg_string_naddvalue, cg_string_setvalue}
use dlna.Text.Search.Find.{Lacks}
use dlna.Str.Safety.{Call, Made, Made-InBounds, InBounds}
use dlna.Str.Value.{text, Succeeds}
use dlna.Str.Replace.{cg_string_replace}
use dlna.Xml.Escape.{escape_table, cg_xml_escapechars, cg_xml_unescapechars}
use dlna.Xml.Escape.RoundTrip.{
  escaped, cg_xml_escapechars-escaped, cg_xml_unescapechars-cg_xml_escapechars,
}

unfoldable zeros : ℕ → Bytes
zeros zero = []
zeros (suc n) = 0 ∷ zeros n

length-zeros : (n : ℕ) → length (zeros n) ≡ n
unfolding zeros
length-zeros zero = refl
length-zeros (suc n) = ap suc (length-zeros n)

abbrev heap : Memory
heap = record { alloc = λ n. true; fresh = zeros; length-fresh = length-zeros }

heap-Succeeds : Succeeds heap
heap-Succeeds n = refl

-- a heap that has no block of fewer than 20 bytes
abbrev large_blocks : Memory
large_blocks = record { alloc = λ n. ltb 19 n; fresh = zeros; length-fresh = length-zeros }

abbrev tag : CgString
tag = record { value = some (codes "<a>"); mem_size = 4; value_size = 3 }

tag-Lacks : Lacks 0 (text tag)
tag-Lacks = omega arith

abbrev two_calls : CgString
two_calls =
    (cg_string_naddvalue heap (cg_string_setvalue heap cg_string_new (some (codes "uu")))
      (some (codes "id:")) 2).0

two_calls-Made : Made heap two_calls
two_calls-Made =
    Made.next (Made.next Made.new (Call.setvalue (some (codes "uu"))))
      (Call.naddvalue (some (codes "id:")) 2 (omega arith))

Made-InBounds_example : InBounds two_calls
Made-InBounds_example = Made-InBounds heap two_calls-Made

cg_xml_escapechars-escaped_example :
    (str' : CgString) × (cg_xml_escapechars heap tag ≡ some (str', str'.value))
    × (text str' ≡ escaped (codes "<a>"))
cg_xml_escapechars-escaped_example = cg_xml_escapechars-escaped heap heap-Succeeds tag tag-Lacks

cg_xml_unescapechars-cg_xml_escapechars_example :
    (str' str'' : CgString) × (cg_xml_escapechars heap tag ≡ some (str', str'.value))
    × (cg_xml_unescapechars heap str' ≡ some (str'', str''.value))
    × (text str'' ≡ codes "<a>")
cg_xml_unescapechars-cg_xml_escapechars_example =
    cg_xml_unescapechars-cg_xml_escapechars heap heap-Succeeds tag tag-Lacks

-- Behind a byte 0 the text is lost.
cut_text :
    (cg_string_replace heap
      (record { value = some (b'a' ∷ 0 ∷ b'b' ∷ []); mem_size = 4; value_size = 3 })
      escape_table)
    ≡ some (record { value = some (b'a' ∷ []); mem_size = 2; value_size = 1 }, some (b'a' ∷ []))
unfolding cg_string_replace cg_string_setvalue dlna.Str.cg_string_setnvalue dlna.Text.strncmp
    cg_string_naddvalue cg_string_new zeros
cut_text = refl
