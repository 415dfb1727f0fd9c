-- ===== src/Examples/Http.antt =====
-- Concrete inputs for clinkc/src/cybergarage/http.
use dlna.Prelude.{◌≡◌, some, [], ◌∷◌, List, codes, if◌then◌else◌}
use dlna.Text.{cg_strcaseeq}
use dlna.Http.Headers.{HttpHeader, cg_http_headerlist_set, cg_http_headerlist_getvalue}
use dlna.Http.Headers.Laws.{getvalue-set}

abbrev headers : List HttpHeader
headers =
    record { name = some (codes "HOST"); value = some (codes "10.0.0.2") }
    ∷ record { name = some (codes "nt"); value = some (codes "upnp:event") }
    ∷ []

getvalue-set_example :
    cg_http_headerlist_getvalue
      (cg_http_headerlist_set headers (some (codes "NT")) (some (codes "x")))
      (some (codes "Host"))
    ≡ (if cg_strcaseeq (some (codes "NT")) (some (codes "Host"))
        then some (codes "x")
        else cg_http_headerlist_getvalue headers (some (codes "Host")))
getvalue-set_example = getvalue-set headers (codes "NT") (codes "Host") (codes "x")
