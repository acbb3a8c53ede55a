-- ===== src/BridgeRules.antt =====
-- src/ext/bridge-rules.mjs: the session rules that the fetch bridge installs for its own requests.
use browsception.Prelude.{
  ℕ, Text, codes, List, Option, none, some, [], ◌∷◌, if◌then◌else◌, ◌++◌, text_eq, map,
}
use browsception.Dnr.{
  Rule, Condition, HeaderOp, modify_headers, set_header, xmlhttprequest, remove_header,
}

-- `BRIDGE_RULE`
abbrev pub base_id : ℕ
base_id = 9001

abbrev pub base_priority : ℕ
base_priority = 1

abbrev pub per_request_priority : ℕ
per_request_priority = 2

abbrev pub per_request_min_id : ℕ
per_request_min_id = 10000

abbrev pub per_request_max_id : ℕ
per_request_max_id = 100000

unfoldable pub dnr_request_headers : List Text
dnr_request_headers =
    codes "cookie"
    ∷ codes "referer"
    ∷ codes "origin"
    ∷ codes "user-agent"
    ∷ codes "sec-fetch-dest"
    ∷ codes "sec-fetch-mode"
    ∷ codes "sec-fetch-site"
    ∷ codes "sec-fetch-user"
    ∷ []

unfoldable pub client_hint_headers : List Text
client_hint_headers =
    codes "sec-ch-ua"
    ∷ codes "sec-ch-ua-arch"
    ∷ codes "sec-ch-ua-bitness"
    ∷ codes "sec-ch-ua-full-version"
    ∷ codes "sec-ch-ua-full-version-list"
    ∷ codes "sec-ch-ua-mobile"
    ∷ codes "sec-ch-ua-model"
    ∷ codes "sec-ch-ua-platform"
    ∷ codes "sec-ch-ua-platform-version"
    ∷ codes "sec-ch-ua-wow64"
    ∷ []

-- An object whose properties are texts, as the list of its properties in insertion order.
abbrev pub Fields : Type 0
Fields = List (Text × Text)

unfoldable pub field : Text → Fields → Option Text
field name [] = none
field name ((n, v) ∷ fields) = if text_eq n name then some v else field name fields

unfoldable pub set_field : Text → Text → Fields → Fields
set_field name value [] = (name, value) ∷ []
set_field name value ((n, v) ∷ fields) =
    if text_eq n name then (name, value) ∷ fields else (n, v) ∷ set_field name value fields

unfoldable pub delete_field : Text → Fields → Fields
delete_field name [] = []
delete_field name ((n, v) ∷ fields) =
    let rest = delete_field name fields in if text_eq n name then rest else (n, v) ∷ rest

abbrev pub bridge_condition : Text → Option Text → Condition
bridge_condition ext_id filter = record {
  regex_filter = none;
  url_filter = filter;
  resource_types = xmlhttprequest ∷ [];
  tab_ids = none;
  initiator_domains = some (ext_id ∷ []);
}

abbrev set_user_agent : Option Text → List HeaderOp
set_user_agent none = []
set_user_agent (some ua) = set_header (codes "user-agent") ua ∷ []

unfoldable pub base_session_rules : Text → Option Text → List Rule
base_session_rules ext_id user_agent =
    record {
      id = base_id;
      priority = base_priority;
      action = modify_headers (
          set_user_agent user_agent
          ++ remove_header (codes "origin")
            ∷ remove_header (codes "referer")
            ∷ map remove_header client_hint_headers);
      condition = bridge_condition ext_id none;
    }
    ∷ []

abbrev pub set_if : Text → Option Text → List HeaderOp → List HeaderOp
set_if name none ops = ops
set_if name (some v) ops = set_header name v ∷ ops

unfoldable pub header_ops : List Text → Fields → List HeaderOp
header_ops [] h = []
header_ops (name ∷ names) h = set_if name (field name h) (header_ops names h)

abbrev pub carried : ℕ → Text → Text → List HeaderOp → Option Rule
carried id url ext_id [] = none
carried id url ext_id (op ∷ ops) = some (record {
  id = id;
  priority = per_request_priority;
  action = modify_headers (op ∷ ops);
  condition = bridge_condition ext_id (some (b'|' ∷ (url ++ b'|' ∷ [])));
})

unfoldable pub per_request_header_rule : ℕ → Text → Fields → Text → Option Rule
per_request_header_rule id url h ext_id = carried id url ext_id (header_ops dnr_request_headers h)
