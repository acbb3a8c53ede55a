-- ===== src/Bridge/Headers.antt =====
-- src/shim/bridge.mjs: which headers of the engine ride the fetch, a session rule, or nothing.
pub mod Carried
pub mod Partition
use browsception.Prelude.{
  Text, codes, List, Bool, [], ◌∷◌, ◌||◌, lower, any, if◌then◌else◌, text_eq, starts_with,
}
use browsception.BridgeRules.{Fields, set_field, dnr_request_headers}

unfoldable pub drop_headers : List Text
drop_headers =
    codes "accept-charset"
    ∷ codes "accept-encoding"
    ∷ codes "access-control-request-headers"
    ∷ codes "access-control-request-method"
    ∷ codes "connection"
    ∷ codes "content-length"
    ∷ codes "cookie2"
    ∷ codes "date"
    ∷ codes "dnt"
    ∷ codes "expect"
    ∷ codes "host"
    ∷ codes "keep-alive"
    ∷ codes "te"
    ∷ codes "trailer"
    ∷ codes "transfer-encoding"
    ∷ codes "upgrade"
    ∷ codes "via"
    ∷ []

unfoldable pub is_dropped : Text → Bool
is_dropped name =
    any (λ h. text_eq name h) drop_headers
    || starts_with name (codes "proxy-")
    || starts_with name (codes "sec-")

unfoldable pub is_dnr_header : Text → Bool
is_dnr_header name = any (λ h. text_eq name h) dnr_request_headers

-- The headers that go to `fetch`, under the names that the engine wrote.
unfoldable pub fetch_headers : Fields → Fields
fetch_headers [] = []
fetch_headers ((name, value) ∷ headers) =
    let rest = fetch_headers headers in
    if is_dnr_header (lower name)
    then rest
    else if is_dropped (lower name)
    then rest
    else (name, value) ∷ rest

-- `dnr`: the last value of each header that rides a rule, under its name in lower case.
unfoldable pub dnr_fields : Fields → Fields → Fields
dnr_fields dnr [] = dnr
dnr_fields dnr ((name, value) ∷ headers) =
    let set = dnr_fields (set_field (lower name) value dnr) headers in
    let kept = dnr_fields dnr headers in if is_dnr_header (lower name) then set else kept
