-- ===== src/Examples/Text.antt =====
-- Concrete inputs for clinkc/src/cybergarage/util/cstring_function.c.
use dlna.Prelude.{◌≡◌, refl, some, ◌++◌, arith, Bytes, codes}
use dlna.Prelude.Int.{negsuc}
use dlna.Text.{CStr, cg_streq}
use dlna.Text.Trim.{cg_strtrim}
use dlna.Text.Trim.Laws.{AllDelim, StartsClean, EndsClean, cg_strtrim-split}
use dlna.Text.Decimal.{cg_str2long, cg_long2str, long_buflen}
use dlna.Text.Decimal.RoundTrip.{cg_str2long-cg_long2str}

trimmed : cg_strtrim (some (codes " \tPT5M \t")) (some (codes " \t")) 2 ≡ some (codes "PT5M")
unfolding cg_strtrim dlna.Text.Search.is_one_of
trimmed = refl

cg_strtrim-split_example :
    (r front back : Bytes) × (cg_strtrim (some (codes " a b ")) (some (codes " ")) 1 ≡ some r)
    × (codes " a b " ≡ front ++ (r ++ back))
    × AllDelim (codes " ") 1 front
    × AllDelim (codes " ") 1 back
    × StartsClean (codes " ") 1 r
    × EndsClean (codes " ") 1 r
cg_strtrim-split_example = cg_strtrim-split (codes " ") 1 (codes " a b ")

cg_str2long-cg_long2str_example :
    cg_str2long (some (cg_long2str (negsuc 9223372036854775807) long_buflen))
    ≡ negsuc 9223372036854775807
cg_str2long-cg_long2str_example = cg_str2long-cg_long2str (negsuc 9223372036854775807) (omega arith)
