-- ===== src/Bridge/Tests.antt =====
-- Cases of test/tier0 and test/tier1 on the bridge, and inputs that the theorems apply to.
use browsception.Prelude.{
  ◌≡◌, refl, codes, [], ◌∷◌, some, true, false, ℕ, arith, ◌<◌, ◌≤◌, text_eq, lower, starts_with,
  Text, ◌↔◌, List, none, has_code, strip_dots, ends_with,
}
use mathlib.Core.List.{Memᴰ}
use browsception.Bridge.RuleIds.{alloc_rule_id, search_id, has_id}
use browsception.BridgeRules.{
  per_request_min_id, per_request_max_id, Fields, dnr_request_headers, set_field, field, header_ops,
  client_hint_headers, per_request_header_rule, base_session_rules, per_request_priority,
  bridge_condition, delete_field,
}
use browsception.Bridge.Stream.{
  deliver, number_text, unstripped, is_stripped, response_headers, entry_taken,
}
use browsception.Bridge.RuleIds.Fresh.{alloc_rule_id_fresh}
use browsception.Bridge.Headers.{fetch_headers, dnr_fields, is_dropped, is_dnr_header, drop_headers}
use browsception.Bridge.Stream.Window.{IsDelivery, deliver-IsDelivery}
use browsception.Bridge.Headers.Partition.{IsFetchable, fetch_headers_lem}
use browsception.Capture.{is_redirect_entry, has_header, header_values, Entry}
use browsception.Prelude.Maps.{get, put, delete}
use browsception.Bridge.{
  Bridge, Pending, Options, Request, installing_rule, Effect, abort_fetch, update_session_rules,
  by_cancel, net_fail, cancelled, clear_idle, fail, finish, remove_id, Step, recovering,
  net_redirect,
}
use browsception.Bridge.Ledger.{IsLedger}
use browsception.Bridge.Events.{react, net_cancel, net_begin}
use browsception.Host.{Url, is_http_url, has_http_scheme}
use browsception.Dnr.{Rule, modify_headers, set_header}
use browsception.Bridge.Requests.{
  begun, begin, begin_allowed, adopt_ua, install_base, update, install_rule, start_fetch, cancel,
  redirect_to, fetch_rejected, rule_installed, base_installed,
}
use browsception.Bridge.Ledger.Runs.{Reaches-IsLedger, then, here}
use browsception.Guard.{
  evaluate_request, octets_from, parse_ipv4, is_private_hostname, is_private_host, bare_host,
  is_bad_port,
}
use browsception.Bridge.RuleIds.Begin.{begin_ends}
use browsception.Bridge.Races.{cancelled_redirect}
use browsception.Bridge.Headers.Carried.{rule_ops, IsRuled, last_value}

bridge : Unit {0}
unfolding text_eq lower starts_with is_dropped drop_headers is_dnr_header dnr_request_headers
    fetch_headers dnr_fields set_field field header_ops client_hint_headers per_request_header_rule
    base_session_rules search_id has_id alloc_rule_id deliver number_text is_redirect_entry
    has_header header_values unstripped is_stripped response_headers get put delete react begin
    begin_allowed adopt_ua install_base update install_rule start_fetch fail finish cancel remove_id
    delete_field evaluate_request is_http_url has_http_scheme octets_from parse_ipv4
    is_private_hostname is_private_host bare_host is_bad_port has_code strip_dots ends_with
    redirect_to entry_taken fetch_rejected rule_installed base_installed
bridge = tt

-- A cookie and a header of the host next to two that pass, one in another case.
abbrev mixed_headers : Fields
mixed_headers =
    (codes "Accept", codes "a")
    ∷ (codes "COOKIE", codes "b")
    ∷ (codes "Host", codes "c")
    ∷ (codes "Sec-CH-UA", codes "d")
    ∷ (codes "x-y", codes "e")
    ∷ []

header_tests :
    (fetch_headers mixed_headers ≡ (codes "Accept", codes "a") ∷ (codes "x-y", codes "e") ∷ [])
    × (dnr_fields [] mixed_headers ≡ (codes "cookie", codes "b") ∷ [])
    × (is_dropped (codes "proxy-authorization") ≡ true)
    × (is_dnr_header (codes "sec-fetch-mode") ≡ true)
unfolding bridge
header_tests = (refl, refl, refl, refl)

rule_id_tests :
    (search_id 3 (10001 ∷ []) 10000 ≡ some 10002)
    × (search_id 3 [] 99999 ≡ some 10000)
    × (search_id 3 (10000 ∷ 10001 ∷ []) 99999 ≡ some 10002)
unfolding bridge
rule_id_tests = (refl, refl, refl)

number_tests : (number_text 5 0 ≡ codes "0") × (number_text 5 1024 ≡ codes "1024")
unfolding bridge
number_tests = (refl, refl)

stream_tests :
    ((deliver 2 3 0 5 (1 ∷ 2 ∷ 3 ∷ 4 ∷ 5 ∷ []) 0 0).slices ≡ (1 ∷ 2 ∷ []) ∷ (3 ∷ 4 ∷ []) ∷ [])
    × ((deliver 2 3 0 5 (1 ∷ 2 ∷ 3 ∷ 4 ∷ 5 ∷ []) 0 0).rest ≡ 5 ∷ [])
    × ((deliver 2 3 0 5 (1 ∷ 2 ∷ 3 ∷ 4 ∷ 5 ∷ []) 0 0).max_unacked ≡ 4)
unfolding bridge
stream_tests = (refl, refl, refl)

fetch_headers_lem_example :
    ((h : Text × Text)
      → Memᴰ h (fetch_headers mixed_headers) ↔ (Memᴰ h mixed_headers × IsFetchable h))
    × ((n v : Text)
        → Memᴰ (set_header n v) (
            rule_ops (
              per_request_header_rule 10000
                (codes "https://a.b/")
                (dnr_fields [] mixed_headers)
                (codes "id")))
          ↔ (IsRuled n × (last_value n mixed_headers ≡ some v)))
fetch_headers_lem_example =
    fetch_headers_lem mixed_headers 10000 (codes "https://a.b/") (codes "id")

alloc_rule_id_fresh_example :
    (j : ℕ) × (alloc_rule_id (10001 ∷ 10002 ∷ []) 10000 ≡ some j)
    × (has_id j (10001 ∷ 10002 ∷ []) ≡ false)
    × (per_request_min_id ≤ j)
    × (j < per_request_max_id)
alloc_rule_id_fresh_example =
    alloc_rule_id_fresh (10001 ∷ 10002 ∷ []) 10000 (omega arith) (omega arith) (omega arith)

deliver-IsDelivery_example :
    IsDelivery 2 3 0 0 (1 ∷ 2 ∷ 3 ∷ 4 ∷ 5 ∷ []) (deliver 2 3 0 5 (1 ∷ 2 ∷ 3 ∷ 4 ∷ 5 ∷ []) 0 0)
deliver-IsDelivery_example =
    deliver-IsDelivery 2 3 0 5 (1 ∷ 2 ∷ 3 ∷ 4 ∷ 5 ∷ []) 0 0 (omega arith) (omega arith)

abbrev site : Url
site = record {
  href = codes "https://a.b/";
  protocol = codes "https:";
  username = [];
  password = [];
  hostname = codes "a.b";
  port = [];
}

abbrev options : Options
options = record {
  parse = λ s. some site;
  is_native = λ s. false;
  allow_private_network = false;
  max_response_bytes = 1000;
  window_bytes = 100;
  ext_id = codes "x";
}

abbrev idle_bridge : Bridge
idle_bridge = record {
  inflight = [];
  next_rule_id = per_request_min_id;
  used_rule_ids = [];
  user_agent = none;
  adopted_ua = false;
  base_started = true;
  tasks = [];
}

idle_bridge-IsLedger : IsLedger idle_bridge.inflight idle_bridge.used_rule_ids
unfolding bridge
idle_bridge-IsLedger = record { held = λ id i e. cc; owned = λ i e. cc; single = λ id j i e k. cc }

-- A request with a cookie, in flight with the rule that carries it.
abbrev with_cookie : Request
with_cookie = record {
  id = 1;
  url = codes "https://a.b/";
  is_main = true;
  method = none;
  headers = (codes "Cookie", codes "c") ∷ [];
  body = none;
}

abbrev pending_cookie : Pending
pending_cookie = record (begun with_cookie) { rule_id = some 10001 }

abbrev carries_cookie : Rule
carries_cookie = record {
  id = 10001;
  priority = per_request_priority;
  action = modify_headers (set_header (codes "cookie") (codes "c") ∷ []);
  condition = bridge_condition (codes "x") (some (codes "|https://a.b/|"));
}

abbrev busy_bridge : Bridge
busy_bridge = record idle_bridge {
  inflight = (1, pending_cookie) ∷ [];
  next_rule_id = 10001;
  used_rule_ids = 10001 ∷ [];
  tasks = (1, installing_rule with_cookie []) ∷ [];
}

begin_test :
    react options idle_bridge (net_begin with_cookie)
    ≡ some (busy_bridge, update_session_rules [] (carries_cookie ∷ []) ∷ [])
unfolding bridge
begin_test = refl

abbrev cancelled_bridge : Bridge
cancelled_bridge = record busy_bridge { inflight = []; used_rule_ids = [] }

abbrev cancel_effects : List Effect
cancel_effects =
    abort_fetch 1 by_cancel
    ∷ net_fail 1 cancelled none
    ∷ clear_idle 1
    ∷ update_session_rules (10001 ∷ []) []
    ∷ []

cancel_test : react options busy_bridge (net_cancel 1) ≡ some (cancelled_bridge, cancel_effects)
unfolding bridge
cancel_test = refl

free_id : get 1 idle_bridge.inflight ≡ none
unfolding bridge
free_id = refl

Reaches-IsLedger_example : IsLedger cancelled_bridge.inflight cancelled_bridge.used_rule_ids
Reaches-IsLedger_example =
    Reaches-IsLedger options idle_bridge cancelled_bridge idle_bridge-IsLedger (
      then busy_bridge (net_cancel 1) cancel_effects
        (then idle_bridge (net_begin with_cookie) _ (here refl) free_id begin_test) tt cancel_test)

begin_ends_example : (s : Step) × (begin options with_cookie idle_bridge ≡ some s)
begin_ends_example =
    begin_ends options with_cookie idle_bridge (omega arith) (omega arith) (omega arith)

-- The same request after its fetch rejected.
abbrev recovering_bridge : Bridge
recovering_bridge = record busy_bridge { tasks = (1, recovering with_cookie (codes "e")) ∷ [] }

abbrev hop_entry : Entry
hop_entry = record { status = 302; headers = (codes "location", codes "/x") ∷ [] }

recovering_facts :
    (get 1 recovering_bridge.inflight ≡ some pending_cookie)
    × (get 1 recovering_bridge.tasks ≡ some (recovering with_cookie (codes "e")))
    × (is_redirect_entry (some hop_entry) ≡ true)
unfolding bridge
recovering_facts = (refl, refl, refl)

cancelled_redirect_example :
    (Memᴰ (net_fail 1 cancelled none) (cancel 1 recovering_bridge).1)
    × ((entry_taken 1 (some hop_entry) (cancel 1 recovering_bridge).0).1
        ≡ net_redirect 1 302 (codes "https://a.b/") ((codes "location", codes "/x") ∷ []) ∷ [])
cancelled_redirect_example =
    cancelled_redirect 1 recovering_bridge pending_cookie with_cookie (codes "e") hop_entry
      recovering_facts.0 recovering_facts.1 recovering_facts.2
