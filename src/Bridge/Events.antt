-- ===== src/Bridge/Events.antt =====
-- Everything that can happen to the bridge: what the engine asks for, what the browser's promises
-- give, and the timer. Each event resumes at most one run, and runs it to its next `await`.
use browsception.Prelude.{ℕ, Text, List, Option, some}
use browsception.Capture.{Entry}
use browsception.Bridge.{Bridge, Step, Request, Response, Options}
use browsception.Bridge.Requests.{
  begin, base_installed, rule_installed, fetch_resolved, fetch_rejected, cancel,
}
use browsception.Bridge.Stream.{
  entry_taken, chunk_read, body_ended, read_failed, woken, idle_fired, ack,
}

pub data Event : Type 0 where
  net_begin : Request → Event
  net_cancel : ℕ → Event
  net_ack : ℕ → ℕ → Event
  base_rule rule : ℕ → Option Text → Event
  response : ℕ → Response → Event
  rejection : ℕ → Text → Event
  captured : ℕ → Option Entry → Event
  chunk : ℕ → List ℕ → Event
  end_of_body : ℕ → Event
  broken : ℕ → Text → Event
  credit : ℕ → Event
  idle_timer : ℕ → Event

unfoldable pub react : Options → Bridge → Event → Option Step
react o b (net_begin req) = begin o req b
react o b (net_cancel id) = some (cancel id b)
react o b (net_ack id bytes) = some (ack o id bytes b)
react o b (base_rule id result) = some (base_installed id result b)
react o b (rule id result) = some (rule_installed id result b)
react o b (response id res) = some (fetch_resolved id res b)
react o b (rejection id message) = some (fetch_rejected id message b)
react o b (captured id entry) = some (entry_taken id entry b)
react o b (chunk id bytes) = some (chunk_read o id bytes b)
react o b (end_of_body id) = some (body_ended id b)
react o b (broken id message) = some (read_failed id message b)
react o b (credit id) = some (woken o id b)
react o b (idle_timer id) = some (idle_fired id b)
