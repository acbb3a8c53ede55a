-- ===== src/Bridge/Ledger/Runs.antt =====
-- Runs of the bridge.
use browsception.Prelude.{◌≡◌, List, none, some, subst, sym}
use browsception.Prelude.Maps.{get}
use browsception.Bridge.{Bridge, Options, Effect}
use browsception.Bridge.Events.{
  Event, react, net_begin, net_cancel, net_ack, base_rule, rule, response, rejection, captured,
  chunk, end_of_body, broken, credit, idle_timer,
}
use browsception.Bridge.Ledger.{IsLedger}
use browsception.Bridge.Ledger.Begin.{IsKeptStep, begin-IsKeptStep}
use browsception.Bridge.Ledger.Steps.{
  IsKept, cancel_at-IsKept, ack_at-IsKept, base_result-IsKept, rule_result-IsKept,
  resolved_at-IsKept, rejected_at-IsKept, taken_at-IsKept, chunk_at-IsKept, body_end_at-IsKept,
  read_failed_at-IsKept, woken_at-IsKept, idle_at-IsKept,
}
use browsception.Bridge.Requests.{
  base_installed, rule_installed, fetch_resolved, fetch_rejected, cancel,
}
use browsception.Bridge.Stream.{
  entry_taken, chunk_read, body_ended, read_failed, woken, idle_fired, ack,
}

-- The engine does not begin a request under the id of one in flight.
abbrev pub IsNew : Bridge → Event → Type 0
IsNew b (net_begin req) = get req.id b.inflight ≡ none
IsNew b _ = Unit

react-IsKeptStep :
    (o : Options) (b : Bridge) (e : Event) → IsNew b e → IsKept b → IsKeptStep (react o b e)
unfolding react base_installed rule_installed fetch_resolved fetch_rejected cancel entry_taken
    chunk_read body_ended read_failed woken idle_fired ack
react-IsKeptStep o b (net_begin req) new l = begin-IsKeptStep o req b new l
react-IsKeptStep o b (net_cancel id) new l = cancel_at-IsKept id b (get id b.inflight) l
react-IsKeptStep o b (net_ack id bytes) new l = ack_at-IsKept o id bytes b (get id b.inflight) l
react-IsKeptStep o b (base_rule id result) new l = base_result-IsKept id b result _ l
react-IsKeptStep o b (rule id result) new l = rule_result-IsKept id b result _ l
react-IsKeptStep o b (response id res) new l = resolved_at-IsKept id res b (get id b.inflight) _ l
react-IsKeptStep o b (rejection id message) new l =
    rejected_at-IsKept id message b (get id b.inflight) _ l
react-IsKeptStep o b (captured id entry) new l = taken_at-IsKept id entry b _ l
react-IsKeptStep o b (chunk id bytes) new l = chunk_at-IsKept o id bytes b (get id b.inflight) _ l
react-IsKeptStep o b (end_of_body id) new l = body_end_at-IsKept id b (get id b.inflight) _ l
react-IsKeptStep o b (broken id message) new l =
    read_failed_at-IsKept id message b (get id b.inflight) _ l
react-IsKeptStep o b (credit id) new l = woken_at-IsKept o id b (get id b.inflight) _ l
react-IsKeptStep o b (idle_timer id) new l = idle_at-IsKept id b (get id b.inflight) l

-- The states that the bridge comes to from one state, whatever happens in whatever order.
pub data Reaches (o : Options) (b : Bridge) : Bridge → Type 0 where
  here : {d : Bridge} → d ≡ b → Reaches o b d
  then :
      {d : Bridge} (c : Bridge) (e : Event) (effects : List Effect)
      → Reaches o b c
      → IsNew c e
      → react o c e ≡ some (d, effects)
      → Reaches o b d

-- The rule ids in use are at every moment exactly those of the requests in flight, no two requests
-- share one, and a request that is over has given its id back: this holds in each state that the
-- bridge comes to by any sequence of events from a state where it holds, as long as the engine
-- does not begin a request under the id of one that is in flight.
pub Reaches-IsLedger :
    (o : Options) (b d : Bridge)
    → IsLedger b.inflight b.used_rule_ids
    → Reaches o b d
    → IsLedger d.inflight d.used_rule_ids
Reaches-IsLedger o b d l (here e) = subst IsKept (sym e) l
Reaches-IsLedger o b d l (then c e effects before new stepped) =
    let kept = react-IsKeptStep o c e new (Reaches-IsLedger o b c l before) in
    subst IsKeptStep stepped kept
