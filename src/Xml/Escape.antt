-- ===== src/Xml/Escape.antt =====
-- `cg_xml_escapechars` and `cg_xml_unescapechars` of clinkc/src/cybergarage/xml/cxml_function.c.
pub mod RoundTrip
use dlna.Prelude.{Option, some, [], ◌∷◌, Bytes, codes}
use dlna.Text.{CStr}
use dlna.Str.{Memory, CgString}
use dlna.Str.Replace.{Table, cg_string_replace}

abbrev pub escape_table : Table
escape_table =
    (codes "&", codes "&amp;")
    ∷ (codes ">", codes "&gt;")
    ∷ (codes "<", codes "&lt;")
    ∷ (codes "\"", codes "&quot;")
    ∷ (codes "'", codes "&apos;")
    ∷ []

abbrev pub unescape_table : Table
unescape_table =
    (codes "&amp;", codes "&")
    ∷ (codes "&gt;", codes ">")
    ∷ (codes "&lt;", codes "<")
    ∷ (codes "&quot;", codes "\"")
    ∷ (codes "&apos;", codes "'")
    ∷ []

unfoldable pub cg_xml_escapechars : Memory → CgString → Option (CgString × CStr)
cg_xml_escapechars mem str = cg_string_replace mem str escape_table

unfoldable pub cg_xml_unescapechars : Memory → CgString → Option (CgString × CStr)
cg_xml_unescapechars mem str = cg_string_replace mem str unescape_table
