-- ===== src/Uri/Printing.antt =====
-- The functions of clinkc/src/cybergarage/net/curi.c that put a URI together again, and the test of
-- a relative URL against it.
use dlna.Prelude.{ℕ, Bool, not, Option, none, some, [], ◌∷◌, Bytes, codes, ltb, ◌==◌, if◌then◌else◌}
use dlna.Prelude.Int.{pos, eqb_ℤ}
use dlna.Text.{CStr, cg_strlen, cg_strcmp}
use dlna.Text.Search.{cg_strchr}
use dlna.Text.Decimal.{cg_int2str}
use dlna.Uri.{CgNetUri, ◌>>=◌, appended, assigned, cg_net_uri_new, cg_net_uri_setvalue}

-- `portStr`
abbrev pub port_buflen : ℕ
port_buflen = 32

-- the query, unless the path holds a question mark
unfoldable pub add_query : CStr → CStr → Option ℕ → CStr
unfolding appended
add_query out query (some i) = out
add_query out query none =
    if ltb 0 (cg_strlen query) then appended (appended out (some (codes "?"))) query else out

unfoldable pub rebuilt_path : CStr → CStr → CStr → CStr
unfolding appended add_query
rebuilt_path out none query = out
rebuilt_path out (some []) query = out
rebuilt_path out (some (c ∷ s)) query =
    let rooted = if not (c == b'/') then appended out (some (codes "/")) else out in
    add_query (appended rooted (some (c ∷ s))) query (cg_strchr (some (c ∷ s)) (some (codes "?")) 1)

unfoldable pub cg_net_uri_rebuild : CgNetUri → CgNetUri
unfolding appended rebuilt_path
cg_net_uri_rebuild u =
    let scheme = appended (assigned u.uri u.protocol) (some (codes "://")) in
    let address = appended (appended scheme u.host) (some (codes ":")) in
    let with_port = appended address (some (cg_int2str u.port port_buflen)) in
    record u { uri = rebuilt_path with_port u.path u.query }

unfoldable pub cg_net_uri_getvalue : CgNetUri → CgNetUri × CStr
unfolding cg_net_uri_rebuild
cg_net_uri_getvalue u = let v = cg_net_uri_rebuild u in (v, v.uri)

-- The path, or `request` as it is made anew of the path and the query.
unfoldable pub cg_net_uri_getrequest : CgNetUri → CgNetUri × CStr
unfolding appended
cg_net_uri_getrequest u =
    if ltb 0 (cg_strlen u.query)
    then (let request =
          appended (appended (assigned u.request u.path) (some (codes "?"))) u.query in
        (record u { request = request }, request))
    else (u, u.path)

unfoldable pub cg_net_uri_isequivalent : Bytes → CStr → Option Bool
unfolding cg_net_uri_setvalue
cg_net_uri_isequivalent url relative_url = cg_net_uri_setvalue cg_net_uri_new url >>= λ u.
    some (eqb_ℤ (cg_strcmp u.path relative_url) (pos 0))
