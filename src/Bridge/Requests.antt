-- ===== src/Bridge/Requests.antt =====
-- src/shim/bridge.mjs: `#begin` up to the response, one function for each resumption, and `#cancel`
-- and `#ack`. `none` stands for the search of `#allocRuleId` that does not end.
use browsception.Prelude.{
  ℕ, Text, codes, Option, [], ◌++◌, true, none, Bool, if◌then◌else◌, some, ◌&&◌, false, ◌∷◌,
  text_eq, List,
}
use browsception.Prelude.Maps.{get, put, delete, Map}
use browsception.Host.{is_http_url}
use browsception.Dnr.{Rule}
use browsception.Guard.{evaluate_request}
use browsception.Capture.{Entry}
use browsception.BridgeRules.{
  Fields, field, delete_field, base_session_rules, per_request_header_rule, base_id,
}
use browsception.Bridge.{
  Bridge, Step, Task, Pending, Request, Response, Options, net_redirect, AbortReason, fetching,
  by_cancel, installing_base, fetch, installing_rule, update_session_rules, fail, cancel_body,
  finish, abort_fetch, protocol, claiming, cancelled, take_entry, recovering, native_navigation,
  guard, Effect,
}
use browsception.Bridge.Headers.{fetch_headers, dnr_fields}
use browsception.Bridge.RuleIds.{alloc_rule_id}
use browsception.State.{overlay}

-- Ends the run of a request, or lets it wait.
abbrev pub ended : ℕ → Bridge → Bridge
ended id b = record b { tasks = delete id b.tasks }

abbrev pub waiting : ℕ → Task → Bridge → Bridge
waiting id t b = record b { tasks = put id t b.tasks }

abbrev pub and_then : Step → (Bridge → Step) → Step
and_then s f = let t = f s.0 in (t.0, s.1 ++ t.1)

-- Writes to the request's record, which nothing reads once the request is over.
abbrev pub update_at : ℕ → (Pending → Pending) → Bridge → Option Pending → Bridge
update_at id f b none = b
update_at id f b (some st) = record b { inflight = put id (f st) b.inflight }

unfoldable pub update : ℕ → (Pending → Pending) → Bridge → Bridge
update id f b = update_at id f b (get id b.inflight)

abbrev pub begun : Request → Pending
begun req = record {
  abort_reason = none;
  rule_id = none;
  sent = 0;
  acked = 0;
  has_ack_waiter = false;
  url = req.url;
  is_main = req.is_main;
  fetched = false;
  took = false;
}

abbrev pub first_abort : AbortReason → Option AbortReason → Option AbortReason
first_abort r none = some r
first_abort r (some q) = some q

-- `#redirect`
unfoldable pub redirect_to : ℕ → Request → Entry → Bridge → Step
redirect_to id req entry b =
    and_then (b, net_redirect id entry.status req.url entry.headers ∷ []) (finish id)

-- The call of `fetch`, to the suspension.
unfoldable pub start_fetch : Request → Fields → Bridge → Step
start_fetch req headers b = (
  waiting req.id (fetching req) (update req.id (λ st. record st { fetched = true }) b),
  fetch req.id req.url (overlay (codes "GET") req.method) headers req.body ∷ [],
)

-- From the rule's installation on.
unfoldable pub install_rule : Request → Fields → Option Rule → Bridge → Step
install_rule req headers none b = start_fetch req headers b
install_rule req headers (some rule) b =
    (waiting req.id (installing_rule req headers) b, update_session_rules [] (rule ∷ []) ∷ [])

abbrev is_adopted : Text → Option Text → Bool
is_adopted ua none = false
is_adopted ua (some sent) = text_eq ua sent

unfoldable pub install_base : Options → Bridge → Step
install_base o b = (
  record b { base_started = true },
  update_session_rules (base_id ∷ []) (base_session_rules o.ext_id b.user_agent) ∷ [],
)

-- Whether the user agent is the one sent so far, and whether one was adopted.
abbrev pub adopt_at : Options → Text → Bridge → Bool → Bool → Bool × Step
adopt_at o ua b true adopted = (b.base_started, (b, []))
adopt_at o ua b false true = (false, (b, []))
adopt_at o ua b false false =
    (true, install_base o (record b { adopted_ua = true; user_agent = some ua }))

-- `#adoptUA`: whether there is an installation to await.
unfoldable pub adopt_ua : Options → Text → Bridge → Bool × Step
adopt_ua o ua b = adopt_at o ua b (is_adopted ua b.user_agent) b.adopted_ua

abbrev pub adopt : Options → Option Text → Bridge → Bool × Step
adopt o none b = (false, (b, []))
adopt o (some ua) b = adopt_ua o ua b

abbrev pub give_rule :
    Options → Request → Fields → Bridge → Option ℕ → Option (Option Rule × Bridge)
give_rule o req dnr b none = none
give_rule o req dnr b (some i) =
    let taken = record b { next_rule_id = i; used_rule_ids = i ∷ b.used_rule_ids } in
    some (
      per_request_header_rule i req.url dnr o.ext_id,
      update req.id (λ st. record st { rule_id = some i }) taken,
    )

-- The rule for the fields that are left, and the state in which its id is used.
abbrev pub with_rule : Options → Request → Fields → Bridge → Option (Option Rule × Bridge)
with_rule o req [] b = some (none, b)
with_rule o req (f ∷ dnr) b =
    give_rule o req (f ∷ dnr) b (alloc_rule_id b.used_rule_ids b.next_rule_id)

abbrev pub await_rules : Request → Fields → Bool → Option Rule × Bridge → Step
await_rules req headers true (rule, b) = (waiting req.id (installing_base req headers rule) b, [])
await_rules req headers false (rule, b) = install_rule req headers rule b

abbrev pub await_all : Request → List Effect → Bool → Option (Option Rule × Bridge) → Option Step
await_all req installs awaits none = none
await_all req installs awaits (some r) =
    let next = await_rules req (fetch_headers req.headers) awaits r in
    some (next.0, installs ++ next.1)

-- With the user agent adopted or not.
abbrev pub begin_adopted : Options → Request → Fields → Bool × Step → Option Step
begin_adopted o req dnr (awaits, (b, installs)) =
    let left = if awaits then delete_field (codes "user-agent") dnr else dnr in
    await_all req installs awaits (with_rule o req left b)

-- From the guard's verdict on.
unfoldable pub begin_allowed : Options → Request → Bridge → Option Step
begin_allowed o req b =
    let dnr = dnr_fields [] req.headers in
    begin_adopted o req dnr (adopt o (field (codes "user-agent") dnr) b)

-- By the native disposition and the guard's verdict.
abbrev pub begin_judged : Options → Request → Text → Bridge → Bool → Bool → Option Step
begin_judged o req reason b true allowed = some (
    and_then (fail req.id cancelled (some (codes "native disposition")) b)
      (λ c. (c, native_navigation req.url ∷ [])))
begin_judged o req reason b false false = some (fail req.id guard (some reason) b)
begin_judged o req reason b false true = begin_allowed o req b

-- `#begin`
unfoldable pub begin : Options → Request → Bridge → Option Step
begin o req b =
    let verdict = evaluate_request o.parse req.url o.allow_private_network in
    let native = req.is_main && is_http_url o.parse req.url && o.is_native req.url in
    begin_judged o req verdict.reason (record b { inflight = put req.id (begun req) b.inflight })
      native verdict.allow

-- What became of an installation: `none`, or the message of the error.
abbrev pub base_task : Option Task → Option (Request × Fields × Option Rule)
base_task (some (installing_base req headers rule)) = some (req, headers, rule)
base_task _ = none

abbrev pub base_result : ℕ → Bridge → Option Text → Option (Request × Fields × Option Rule) → Step
base_result id b result none = (b, [])
base_result id b none (some (req, headers, rule)) = install_rule req headers rule b
base_result id b (some e) (some task) = fail id protocol (some (codes "dnr: " ++ e)) (ended id b)

unfoldable pub base_installed : ℕ → Option Text → Bridge → Step
base_installed id result b = base_result id b result (base_task (get id b.tasks))

abbrev pub rule_task : Option Task → Option (Request × Fields)
rule_task (some (installing_rule req headers)) = some (req, headers)
rule_task _ = none

abbrev pub rule_result : ℕ → Bridge → Option Text → Option (Request × Fields) → Step
rule_result id b result none = (b, [])
rule_result id b none (some (req, headers)) = start_fetch req headers b
rule_result id b (some e) (some task) = fail id protocol (some (codes "dnr: " ++ e)) (ended id b)

unfoldable pub rule_installed : ℕ → Option Text → Bridge → Step
rule_installed id result b = rule_result id b result (rule_task (get id b.tasks))

abbrev pub fetch_task : Option Task → Option Request
fetch_task (some (fetching req)) = some req
fetch_task _ = none

abbrev pub cancel_response : ℕ → Response → List Effect
cancel_response id res = if res.has_body then cancel_body id ∷ [] else []

abbrev pub resolved_at : ℕ → Response → Bridge → Option Pending → Option Request → Step
resolved_at id res b st none = (b, [])
resolved_at id res b none (some req) = (ended id b, cancel_response id res)
resolved_at id res b (some st) (some req) =
    (waiting id (claiming req res) b, take_entry id req.url ∷ [])

unfoldable pub fetch_resolved : ℕ → Response → Bridge → Step
fetch_resolved id res b = resolved_at id res b (get id b.inflight) (fetch_task (get id b.tasks))

abbrev pub rejected_live : ℕ → Request → Text → Bridge → Option AbortReason → Step
rejected_live id req message b (some r) = fail id cancelled none (ended id b)
rejected_live id req message b none =
    (waiting id (recovering req message) b, take_entry id req.url ∷ [])

abbrev pub rejected_at : ℕ → Text → Bridge → Option Pending → Option Request → Step
rejected_at id message b st none = (b, [])
rejected_at id message b none (some req) = (ended id b, [])
rejected_at id message b (some st) (some req) = rejected_live id req message b st.abort_reason

unfoldable pub fetch_rejected : ℕ → Text → Bridge → Step
fetch_rejected id message b =
    rejected_at id message b (get id b.inflight) (fetch_task (get id b.tasks))

-- `ctrl.abort`: only the first reason counts.
abbrev pub abort : ℕ → AbortReason → Bridge → Step
abort id r b = (
  update id (λ st. record st { abort_reason = first_abort r st.abort_reason }) b,
  abort_fetch id r ∷ [],
)

abbrev pub cancel_at : ℕ → Bridge → Option Pending → Step
cancel_at id b none = (b, [])
cancel_at id b (some st) = and_then (abort id by_cancel b) (fail id cancelled none)

-- `#cancel`
unfoldable pub cancel : ℕ → Bridge → Step
cancel id b = cancel_at id b (get id b.inflight)

abbrev pub abort_each : Map Pending → List Effect
abort_each [] = []
abort_each ((id, st) ∷ m) = abort_fetch id by_cancel ∷ abort_each m

-- `dispose`, less the end of the capture.
unfoldable pub dispose : Bridge → Step
dispose b = (
  record b { inflight = [] },
  abort_each b.inflight ++ update_session_rules (base_id ∷ b.used_rule_ids) [] ∷ [],
)
