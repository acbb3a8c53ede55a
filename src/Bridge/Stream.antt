-- ===== src/Bridge/Stream.antt =====
-- src/shim/bridge.mjs: what the capture gave, `#stream` and `#ack`.
pub mod Window
use browsception.Prelude.{
  ℕ, Text, codes, List, Option, [], ◌∷◌, none, some, suc, zero, Bool, ◌/◌, text_eq, ◌++◌, true,
  if◌then◌else◌, take, ◌+◌, ◌||◌, map, length, ltb, drop, false, ◌%◌, max, ◌-◌, leb, ◌&&◌,
}
use browsception.Prelude.Maps.{get}
use browsception.Capture.{Entry, is_redirect_entry, set_cookies_of}
use browsception.BridgeRules.{Fields}
use browsception.Bridge.{
  Bridge, Step, Pending, Request, Response, Options, Progress, reading, AbortReason, blocked,
  net_done, idle, slice_bytes, arm_idle, finish, abort_fetch, recovering, fail, cancel_body, NetErr,
  net_response, network, over_cap, net_data, timeout, wake, claiming, too_large, cancelled, Task,
}
use browsception.Bridge.Requests.{
  ended, waiting, update, and_then, redirect_to, first_abort, cancel_response, abort,
}

-- `${n}` of a number.
unfoldable pub number_text : ℕ → ℕ → Text
number_text zero n = []
number_text (suc fuel) n =
    let front = number_text fuel (n / 10) in
    if ltb n 10 then (48 + n) ∷ [] else front ++ (48 + n % 10) ∷ []

-- Headers of the host that do not pass on: `stripped`.
unfoldable pub is_stripped : Text → Bool
is_stripped k =
    text_eq k (codes "set-cookie")
    || text_eq k (codes "content-encoding")
    || text_eq k (codes "content-length")
    || text_eq k (codes "transfer-encoding")

unfoldable pub unstripped : Fields → Fields
unstripped [] = []
unstripped ((k, v) ∷ headers) =
    let rest = unstripped headers in if is_stripped k then rest else (k, v) ∷ rest

abbrev cookies_of : Option Entry → List Text
cookies_of none = []
cookies_of (some entry) = set_cookies_of entry

unfoldable pub response_headers : Response → Option Entry → Fields
response_headers res entry =
    unstripped res.headers ++ map (λ v. (codes "set-cookie", v)) (cookies_of entry)

abbrev no_progress : Progress
no_progress = record { bytes = 0; chunks = 0; max_unacked = 0 }

-- The end of a stream that is still in flight.
abbrev pub stream_done : ℕ → Progress → Bridge → Step
stream_done id p b = and_then (b, net_done id p ∷ []) (finish id)

abbrev pub start_stream : ℕ → Bool → Bridge → Step
start_stream id true b = (waiting id (reading no_progress) b, arm_idle id ∷ [])
start_stream id false b = and_then (ended id b, arm_idle id ∷ []) (stream_done id no_progress)

-- Whether the capture shows a redirect, and its entry.
abbrev pub redirect_entry : Option Entry → Option Entry
redirect_entry none = none
redirect_entry (some entry) = if is_redirect_entry (some entry) then some entry else none

-- After the fetch rejected.
abbrev pub recovered : ℕ → Request → Text → Bridge → Option Entry → Step
recovered id req message b none = fail id network (some message) (ended id b)
recovered id req message b (some entry) = redirect_to id req entry (ended id b)

-- After the fetch resolved.
abbrev pub claimed : ℕ → Request → Response → Option Entry → Bridge → Option Entry → Step
claimed id req res entry b (some hop) =
    and_then (ended id b, cancel_response id res) (redirect_to id req hop)
claimed id req res entry b none =
    and_then (b, net_response id (record res { headers = response_headers res entry }) ∷ [])
      (start_stream id res.has_body)

abbrev pub claimed_at : ℕ → Request → Response → Option Entry → Bridge → Option Pending → Step
claimed_at id req res entry b none = (ended id b, cancel_response id res)
claimed_at id req res entry b (some st) = claimed id req res entry b (redirect_entry entry)

-- The two runs that wait for the capture.
pub data Taking : Type 0 where
  after_rejection : Request → Text → Taking
  after_response : Request → Response → Taking

abbrev pub taking_task : Option Task → Option Taking
taking_task (some (recovering req message)) = some (after_rejection req message)
taking_task (some (claiming req res)) = some (after_response req res)
taking_task _ = none

abbrev pub taken_at : ℕ → Option Entry → Bridge → Option Taking → Step
taken_at id entry b none = (b, [])
taken_at id entry b0 (some (after_rejection req message)) =
    let b = update id (λ st. record st { took = true }) b0 in
    recovered id req message b (redirect_entry entry)
taken_at id entry b0 (some (after_response req res)) =
    let b = update id (λ st. record st { took = true }) b0 in
    claimed_at id req res entry b (get id b.inflight)

-- What `capture.take` resolves to.
unfoldable pub entry_taken : ℕ → Option Entry → Bridge → Step
entry_taken id entry b = taken_at id entry b (taking_task (get id b.tasks))

-- The slices of a chunk that the credit lets through, and what is left of the chunk.
pub record Delivery : Type 0 where
  pub slices : List (List ℕ)
  pub sent : ℕ
  pub max_unacked : ℕ
  pub rest : List ℕ

abbrev add_slice : List ℕ → Delivery → Delivery
add_slice slice d = record d { slices = slice ∷ d.slices }

abbrev pub stopped : ℕ → ℕ → List ℕ → Delivery
stopped sent max_unacked rest = record {
  slices = [];
  sent = sent;
  max_unacked = max_unacked;
  rest = rest;
}

-- The `for` loop over a chunk, with `fuel` rounds.
unfoldable pub deliver : (slice window acked : ℕ) → ℕ → List ℕ → ℕ → ℕ → Delivery
deliver slice window acked zero value sent max_unacked = stopped sent max_unacked value
deliver slice window acked (suc fuel) [] sent max_unacked = stopped sent max_unacked []
deliver slice window acked (suc fuel) (c ∷ value) sent max_unacked =
    let part = take slice (c ∷ value) in
    let after = sent + length part in
    let next =
      deliver slice window acked fuel (drop slice (c ∷ value)) after
        (max max_unacked (after - acked)) in
    if leb (acked + window) sent then stopped sent max_unacked (c ∷ value) else add_slice part next

abbrev pub after_delivery : ℕ → Progress → List ℕ → Bridge → Bridge
after_delivery id p [] b = waiting id (reading p) b
after_delivery id p (c ∷ rest) b =
    waiting id (blocked (c ∷ rest) p) (update id (λ st. record st { has_ack_waiter = true }) b)

unfoldable pub send_chunk : Options → ℕ → List ℕ → Progress → Pending → Bridge → Step
send_chunk o id value p st b =
    let d =
      deliver slice_bytes o.window_bytes st.acked (length value) value st.sent p.max_unacked in
    (
      after_delivery id (record p { max_unacked = d.max_unacked }) d.rest
          (update id (λ st. record st { sent = d.sent }) b),
      map (net_data id) d.slices,
    )

abbrev pub cap_message : Options → Text
cap_message o = codes "cap " ++ number_text (suc o.max_response_bytes) o.max_response_bytes

-- A chunk, and whether it takes the response over its cap.
abbrev pub receive : Options → ℕ → List ℕ → Progress → Pending → Bridge → Bool → Step
receive o id value p st b true =
    and_then (and_then (ended id b, arm_idle id ∷ []) (abort id over_cap))
      (fail id too_large (some (cap_message o)))
receive o id value p st b false = and_then (b, arm_idle id ∷ []) (send_chunk o id value p st)

abbrev pub read_task : Option Task → Option Progress
read_task (some (reading p)) = some p
read_task _ = none

abbrev pub chunk_at : Options → ℕ → List ℕ → Bridge → Option Pending → Option Progress → Step
chunk_at o id value b st none = (b, [])
chunk_at o id value b none (some p) = (ended id b, cancel_body id ∷ [])
chunk_at o id value b (some st) (some p) =
    let next = record p { bytes = p.bytes + length value; chunks = suc p.chunks } in
    receive o id value next st b (ltb o.max_response_bytes next.bytes)

-- `reader.read()` gave a chunk.
unfoldable pub chunk_read : Options → ℕ → List ℕ → Bridge → Step
chunk_read o id value b = chunk_at o id value b (get id b.inflight) (read_task (get id b.tasks))

abbrev pub body_end_at : ℕ → Bridge → Option Pending → Option Progress → Step
body_end_at id b st none = (b, [])
body_end_at id b none (some p) = (ended id b, cancel_body id ∷ [])
body_end_at id b (some st) (some p) = stream_done id p (ended id b)

-- `reader.read()` gave `done`.
unfoldable pub body_ended : ℕ → Bridge → Step
body_ended id b = body_end_at id b (get id b.inflight) (read_task (get id b.tasks))

abbrev pub failure_kind : Option AbortReason → NetErr
failure_kind none = network
failure_kind (some idle) = timeout
failure_kind (some _) = cancelled

abbrev pub read_failed_at : ℕ → Text → Bridge → Option Pending → Option Progress → Step
read_failed_at id message b st none = (b, [])
read_failed_at id message b none (some p) = (ended id b, [])
read_failed_at id message b (some st) (some p) =
    fail id (failure_kind st.abort_reason) (some message) (ended id b)

-- `reader.read()` rejected.
unfoldable pub read_failed : ℕ → Text → Bridge → Step
read_failed id message b =
    read_failed_at id message b (get id b.inflight) (read_task (get id b.tasks))

abbrev pub blocked_task : Option Task → Option (List ℕ × Progress)
blocked_task (some (blocked rest p)) = some (rest, p)
blocked_task _ = none

abbrev pub woken_at : Options → ℕ → Bridge → Option Pending → Option (List ℕ × Progress) → Step
woken_at o id b st none = (b, [])
woken_at o id b none (some run) = (ended id b, cancel_body id ∷ [])
woken_at o id b (some st) (some (rest, p)) = send_chunk o id rest p st b

-- A waiter resolved: the test of the credit is made again.
unfoldable pub woken : Options → ℕ → Bridge → Step
woken o id b = woken_at o id b (get id b.inflight) (blocked_task (get id b.tasks))

abbrev pub idle_at : ℕ → Bridge → Option Pending → Step
idle_at id b none = (b, [])
idle_at id b (some st) = abort id idle b

-- The idle timer fired.
unfoldable pub idle_fired : ℕ → Bridge → Step
idle_fired id b = idle_at id b (get id b.inflight)

abbrev pub credited : Options → ℕ → Pending → Pending
credited o bytes st =
    let has_credit = ltb st.sent (st.acked + bytes + o.window_bytes) in
    record st {
      acked = st.acked + bytes;
      has_ack_waiter = if has_credit then false else st.has_ack_waiter;
    }

abbrev pub ack_at : Options → ℕ → ℕ → Bridge → Option Pending → Step
ack_at o id bytes b none = (b, [])
ack_at o id bytes b (some st) = (
  update id (credited o bytes) b,
  if ltb st.sent (st.acked + bytes + o.window_bytes) && st.has_ack_waiter then wake id ∷ [] else [],
)

-- `#ack`
unfoldable pub ack : Options → ℕ → ℕ → Bridge → Step
ack o id bytes b = ack_at o id bytes b (get id b.inflight)
