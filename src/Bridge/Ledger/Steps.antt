-- ===== src/Bridge/Ledger/Steps.antt =====
-- Every event keeps the ledger of rule ids.
use browsception.Prelude.{ℕ, Text, List, [], ◌∷◌, Option, none, some, Bool, true, false, refl}
use browsception.Prelude.Maps.{get}
use browsception.Capture.{Entry}
use browsception.BridgeRules.{Fields}
use browsception.Bridge.{
  Bridge, Request, Response, Options, Pending, Progress, AbortReason, idle, protocol, network,
  too_large, cancelled, by_cancel, over_cap,
}
use browsception.Bridge.Ledger.{IsLedger, finish-IsLedger, fail-IsLedger, update-IsLedger}
use browsception.Bridge.Stream.{
  chunk_at, receive, recovered, send_chunk, idle_at, claimed, body_end_at, read_failed_at, ack_at,
  claimed_at, after_delivery, Taking, woken_at, start_stream, redirect_entry, taken_at, credited,
  after_rejection, failure_kind, after_response,
}
use browsception.Bridge.Requests.{
  rejected_live, rejected_at, resolved_at, install_rule, abort, redirect_to, rule_result,
  start_fetch, cancel_at, ended, base_result, update,
}
use browsception.Dnr.{Rule}

abbrev pub IsKept : Bridge → Type 0
IsKept b = IsLedger b.inflight b.used_rule_ids

redirect_to-IsKept :
    (id : ℕ) (req : Request) (entry : Entry) (b : Bridge)
    → IsKept b
    → IsKept (redirect_to id req entry b).0
unfolding redirect_to
redirect_to-IsKept id req entry b l = finish-IsLedger id b l

start_fetch-IsKept :
    (req : Request) (headers : Fields) (b : Bridge)
    → IsKept b
    → IsKept (start_fetch req headers b).0
unfolding start_fetch
start_fetch-IsKept req headers b l =
    update-IsLedger req.id (λ st. record st { fetched = true }) b (λ st. refl) l

pub install_rule-IsKept :
    (req : Request) (headers : Fields) (rule : Option Rule) (b : Bridge)
    → IsKept b
    → IsKept (install_rule req headers rule b).0
unfolding install_rule
install_rule-IsKept req headers none b l = start_fetch-IsKept req headers b l
install_rule-IsKept req headers (some rule) b l = l

pub base_result-IsKept :
    (id : ℕ) (b : Bridge) (result : Option Text) (task : Option (Request × Fields × Option Rule))
    → IsKept b
    → IsKept (base_result id b result task).0
base_result-IsKept id b result none l = l
base_result-IsKept id b none (some (req, headers, rule)) l =
    install_rule-IsKept req headers rule b l
base_result-IsKept id b (some e) (some task) l = fail-IsLedger id protocol _ (ended id b) l

pub rule_result-IsKept :
    (id : ℕ) (b : Bridge) (result : Option Text) (task : Option (Request × Fields))
    → IsKept b
    → IsKept (rule_result id b result task).0
rule_result-IsKept id b result none l = l
rule_result-IsKept id b none (some (req, headers)) l = start_fetch-IsKept req headers b l
rule_result-IsKept id b (some e) (some task) l = fail-IsLedger id protocol _ (ended id b) l

pub resolved_at-IsKept :
    (id : ℕ) (res : Response) (b : Bridge) (st : Option Pending) (task : Option Request)
    → IsKept b
    → IsKept (resolved_at id res b st task).0
resolved_at-IsKept id res b st none l = l
resolved_at-IsKept id res b none (some req) l = l
resolved_at-IsKept id res b (some st) (some req) l = l

rejected_live-IsKept :
    (id : ℕ) (req : Request) (message : Text) (b : Bridge) (r : Option AbortReason)
    → IsKept b
    → IsKept (rejected_live id req message b r).0
rejected_live-IsKept id req message b none l = l
rejected_live-IsKept id req message b (some r) l = fail-IsLedger id cancelled none (ended id b) l

pub rejected_at-IsKept :
    (id : ℕ) (message : Text) (b : Bridge) (st : Option Pending) (task : Option Request)
    → IsKept b
    → IsKept (rejected_at id message b st task).0
rejected_at-IsKept id message b st none l = l
rejected_at-IsKept id message b none (some req) l = l
rejected_at-IsKept id message b (some st) (some req) l =
    rejected_live-IsKept id req message b st.abort_reason l

abort-IsKept : (id : ℕ) (r : AbortReason) (b : Bridge) → IsKept b → IsKept (abort id r b).0
abort-IsKept id r b l = update-IsLedger id _ b (λ st. refl) l

pub cancel_at-IsKept :
    (id : ℕ) (b : Bridge) (st : Option Pending) → IsKept b → IsKept (cancel_at id b st).0
cancel_at-IsKept id b none l = l
cancel_at-IsKept id b (some st) l =
    fail-IsLedger id cancelled none (abort id by_cancel b).0 (abort-IsKept id by_cancel b l)

start_stream-IsKept :
    (id : ℕ) (has_body : Bool) (b : Bridge) → IsKept b → IsKept (start_stream id has_body b).0
start_stream-IsKept id true b l = l
start_stream-IsKept id false b l = finish-IsLedger id (ended id b) l

recovered-IsKept :
    (id : ℕ) (req : Request) (message : Text) (b : Bridge) (hop : Option Entry)
    → IsKept b
    → IsKept (recovered id req message b hop).0
recovered-IsKept id req message b none l = fail-IsLedger id network _ (ended id b) l
recovered-IsKept id req message b (some hop) l = redirect_to-IsKept id req hop (ended id b) l

claimed-IsKept :
    (id : ℕ) (req : Request) (res : Response) (entry : Option Entry) (b : Bridge)
    (hop : Option Entry)
    → IsKept b
    → IsKept (claimed id req res entry b hop).0
claimed-IsKept id req res entry b (some hop) l = redirect_to-IsKept id req hop (ended id b) l
claimed-IsKept id req res entry b none l = start_stream-IsKept id res.has_body b l

claimed_at-IsKept :
    (id : ℕ) (req : Request) (res : Response) (entry : Option Entry) (b : Bridge)
    (st : Option Pending)
    → IsKept b
    → IsKept (claimed_at id req res entry b st).0
claimed_at-IsKept id req res entry b none l = l
claimed_at-IsKept id req res entry b (some st) l =
    claimed-IsKept id req res entry b (redirect_entry entry) l

pub taken_at-IsKept :
    (id : ℕ) (entry : Option Entry) (b : Bridge) (task : Option Taking)
    → IsKept b
    → IsKept (taken_at id entry b task).0
taken_at-IsKept id entry b none l = l
taken_at-IsKept id entry b (some (after_rejection req message)) l =
    recovered-IsKept id req message (update id (λ st. record st { took = true }) b)
      (redirect_entry entry) (update-IsLedger id (λ st. record st { took = true }) b (λ st. refl) l)
taken_at-IsKept id entry b (some (after_response req res)) l =
    let c = update id (λ st. record st { took = true }) b in
    claimed_at-IsKept id req res entry c (get id c.inflight)
      (update-IsLedger id (λ st. record st { took = true }) b (λ st. refl) l)

after_delivery-IsKept :
    (id : ℕ) (p : Progress) (rest : List ℕ) (b : Bridge)
    → IsKept b
    → IsKept (after_delivery id p rest b)
after_delivery-IsKept id p [] b l = l
after_delivery-IsKept id p (c ∷ rest) b l =
    update-IsLedger id (λ st. record st { has_ack_waiter = true }) b (λ st. refl) l

send_chunk-IsKept :
    (o : Options) (id : ℕ) (value : List ℕ) (p : Progress) (st : Pending) (b : Bridge)
    → IsKept b
    → IsKept (send_chunk o id value p st b).0
unfolding send_chunk
send_chunk-IsKept o id value p st b l =
    after_delivery-IsKept id _ _ _ (update-IsLedger id _ b (λ st. refl) l)

receive-IsKept :
    (o : Options) (id : ℕ) (value : List ℕ) (p : Progress) (st : Pending) (b : Bridge) (over : Bool)
    → IsKept b
    → IsKept (receive o id value p st b over).0
receive-IsKept o id value p st b true l =
    fail-IsLedger id too_large _ (abort id over_cap (ended id b)).0
      (abort-IsKept id over_cap (ended id b) l)
receive-IsKept o id value p st b false l = send_chunk-IsKept o id value p st b l

pub chunk_at-IsKept :
    (o : Options) (id : ℕ) (value : List ℕ) (b : Bridge) (st : Option Pending) (p : Option Progress)
    → IsKept b
    → IsKept (chunk_at o id value b st p).0
chunk_at-IsKept o id value b st none l = l
chunk_at-IsKept o id value b none (some p) l = l
chunk_at-IsKept o id value b (some st) (some p) l = receive-IsKept o id value _ st b _ l

pub body_end_at-IsKept :
    (id : ℕ) (b : Bridge) (st : Option Pending) (p : Option Progress)
    → IsKept b
    → IsKept (body_end_at id b st p).0
body_end_at-IsKept id b st none l = l
body_end_at-IsKept id b none (some p) l = l
body_end_at-IsKept id b (some st) (some p) l = finish-IsLedger id (ended id b) l

pub read_failed_at-IsKept :
    (id : ℕ) (message : Text) (b : Bridge) (st : Option Pending) (p : Option Progress)
    → IsKept b
    → IsKept (read_failed_at id message b st p).0
read_failed_at-IsKept id message b st none l = l
read_failed_at-IsKept id message b none (some p) l = l
read_failed_at-IsKept id message b (some st) (some p) l =
    fail-IsLedger id (failure_kind st.abort_reason) _ (ended id b) l

pub woken_at-IsKept :
    (o : Options) (id : ℕ) (b : Bridge) (st : Option Pending) (run : Option (List ℕ × Progress))
    → IsKept b
    → IsKept (woken_at o id b st run).0
woken_at-IsKept o id b st none l = l
woken_at-IsKept o id b none (some run) l = l
woken_at-IsKept o id b (some st) (some (rest, p)) l = send_chunk-IsKept o id rest p st b l

pub idle_at-IsKept :
    (id : ℕ) (b : Bridge) (st : Option Pending) → IsKept b → IsKept (idle_at id b st).0
idle_at-IsKept id b none l = l
idle_at-IsKept id b (some st) l = abort-IsKept id idle b l

pub ack_at-IsKept :
    (o : Options) (id bytes : ℕ) (b : Bridge) (st : Option Pending)
    → IsKept b
    → IsKept (ack_at o id bytes b st).0
ack_at-IsKept o id bytes b none l = l
ack_at-IsKept o id bytes b (some st) l = update-IsLedger id (credited o bytes) b (λ st. refl) l
