-- ===== src/Bridge.antt =====
-- src/shim/bridge.mjs: the state of the fetch bridge, the effects of its steps, and how a request
-- ends. A request is one run of `#begin` and `#stream`, suspended at each `await`: `Task` is where
-- it waits and the locals that it keeps. The children hold one function for each resumption.
pub mod Headers
pub mod RuleIds
pub mod Requests
pub mod Stream
pub mod Events
pub mod Ledger
pub mod Races
mod Tests
use browsception.Prelude.{
  ℕ, Text, List, Option, Bool, true, some, [], ◌∷◌, ◌*◌, if◌then◌else◌, false, ◌++◌, none, ◌&&◌,
  not, ◌==◌,
}
use browsception.Prelude.Maps.{Map, get, delete}
use browsception.Host.{UrlParser}
use browsception.Dnr.{Rule}
use browsception.BridgeRules.{Fields}

-- `NET_ERR`, `NET_WINDOW_BYTES` and `SLICE_BYTES`
pub data NetErr : Type 0 where
  guard network timeout too_large cancelled protocol : NetErr

abbrev pub net_window_bytes : ℕ
net_window_bytes = 4 * 1024 * 1024

abbrev pub slice_bytes : ℕ
slice_bytes = 64 * 1024

-- What `ctrl.abort` was called with: nothing by a cancellation.
pub data AbortReason : Type 0 where
  by_cancel idle over_cap : AbortReason

-- A request of the engine: the parsed JSON, `headers` in order, and the body's bytes.
pub record Request : Type 0 where
  pub id : ℕ
  pub url : Text
  pub is_main : Bool
  pub method : Option Text
  pub headers : Fields
  pub body : Option (List ℕ)

-- The value of `#inflight` at a request. `unacked` is `sent - acked`, which the source lets go below
-- zero: the two counters keep it exact.
pub record Pending : Type 0 where
  pub abort_reason : Option AbortReason
  pub rule_id : Option ℕ
  pub sent : ℕ
  pub acked : ℕ
  pub has_ack_waiter : Bool
  pub url : Text
  pub is_main : Bool
  pub fetched : Bool
  pub took : Bool

-- A response as `fetch` gives it, less its body.
pub record Response : Type 0 where
  pub status : ℕ
  pub status_text : Text
  pub url : Text
  pub headers : Fields
  pub has_body : Bool

-- The counters of one stream.
pub record Progress : Type 0 where
  pub bytes : ℕ
  pub chunks : ℕ
  pub max_unacked : ℕ

pub data Task : Type 0 where
  -- awaiting the base rule, then the request's own rule
  installing_base : Request → Fields → Option Rule → Task
  installing_rule : Request → Fields → Task
  fetching : Request → Task
  -- awaiting the capture: after the fetch rejected with a message, or resolved
  recovering : Request → Text → Task
  claiming : Request → Response → Task
  -- awaiting `reader.read()`
  reading : Progress → Task
  -- awaiting credit for the rest of a chunk
  blocked : List ℕ → Progress → Task

pub record Bridge : Type 0 where
  pub inflight : Map Pending
  pub next_rule_id : ℕ
  pub used_rule_ids : List ℕ
  pub user_agent : Option Text
  pub adopted_ua : Bool
  -- whether `#baseInstall` holds a promise
  pub base_started : Bool
  pub tasks : Map Task

-- The options of the constructor, and the extension's id.
pub record Options : Type 0 where
  pub parse : UrlParser
  pub is_native : Text → Bool
  pub allow_private_network : Bool
  pub max_response_bytes : ℕ
  pub window_bytes : ℕ
  pub ext_id : Text

pub data Effect : Type 0 where
  net_response : ℕ → Response → Effect
  net_data : ℕ → List ℕ → Effect
  net_done : ℕ → Progress → Effect
  net_fail : ℕ → NetErr → Option Text → Effect
  net_redirect : ℕ → ℕ → Text → Fields → Effect
  native_navigation : Text → Effect
  main_load_failed : Text → NetErr → Option Text → Effect
  -- `updateSessionRules` with `removeRuleIds` and `addRules`
  update_session_rules : List ℕ → List Rule → Effect
  -- `fetch`: the url, method, headers and body
  fetch : ℕ → Text → Text → Fields → Option (List ℕ) → Effect
  abort_fetch : ℕ → AbortReason → Effect
  cancel_body : ℕ → Effect
  -- `capture.take` and `capture.discard`
  take_entry : ℕ → Text → Effect
  discard_entry : Text → Effect
  arm_idle clear_idle wake : ℕ → Effect

abbrev pub Step : Type 0
Step = Bridge × List Effect

unfoldable pub remove_id : ℕ → List ℕ → List ℕ
remove_id i [] = []
remove_id i (j ∷ js) = let rest = remove_id i js in if j == i then rest else j ∷ rest

abbrev pub release : Option ℕ → List ℕ → List ℕ
release none used = used
release (some i) used = remove_id i used

abbrev release_effects : Option ℕ → List Effect
release_effects none = []
release_effects (some i) = update_session_rules (i ∷ []) [] ∷ []

-- A request that is in flight, and one that is not.
abbrev pub finish_at : ℕ → Bridge → Option Pending → Step
finish_at id b none = (b, [])
finish_at id b (some st) = (
  record b { inflight = delete id b.inflight; used_rule_ids = release st.rule_id b.used_rule_ids },
  (if not st.took && st.fetched then discard_entry st.url ∷ [] else [])
      ++ (clear_idle id ∷ (if st.has_ack_waiter then wake id ∷ [] else []))
      ++ release_effects st.rule_id,
)

-- `#finish`
unfoldable pub finish : ℕ → Bridge → Step
finish id b = finish_at id b (get id b.inflight)

abbrev is_cancelled : NetErr → Bool
is_cancelled cancelled = true
is_cancelled _ = false

abbrev pub fail_at : ℕ → NetErr → Option Text → Bridge → Option Pending → Step
fail_at id kind message b none = (b, [])
fail_at id kind message b (some st) =
    let ended = finish id b in
    (
      ended.0,
      net_fail id kind message
          ∷ (ended.1
              ++ (if st.is_main && not (is_cancelled kind)
                  then main_load_failed st.url kind message ∷ []
                  else [])),
    )

-- `#fail`
unfoldable pub fail : ℕ → NetErr → Option Text → Bridge → Step
fail id kind message b = fail_at id kind message b (get id b.inflight)
