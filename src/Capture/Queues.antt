-- ===== src/Capture/Queues.antt =====
-- src/shim/redirect-capture.mjs: `push`, `take`, its timer, `discard`, `pending`, `stop` and the sweep.
use browsception.Prelude.{
  ℕ, Text, List, [], ◌∷◌, Option, none, some, length, if◌then◌else◌, ltb, ◌+◌, ◌++◌, leb, ◌==◌, ◌-◌,
}
use browsception.Prelude.TextMap.{TextMap, insert, remove}
use browsception.Host.{Url, UrlParser}
use browsception.Capture.{Capture, Stamped, Resolution, waiters_at, resolved, queue_at}

-- `MAX_ENTRY_AGE_MS` and `SWEEP_INTERVAL_MS`
abbrev pub max_entry_age_ms : ℕ
max_entry_age_ms = 30_000

abbrev pub sweep_interval_ms : ℕ
sweep_interval_ms = 5_000

abbrev href_or : Text → Option Url → Text
href_or url none = url
href_or url (some u) = u.href

-- `keyOf`
unfoldable pub key_of : UrlParser → Text → Text
key_of parse url = href_or url (parse url)

unfoldable pub fresh_entries : ℕ → ℕ → List Stamped → List Stamped
fresh_entries now age [] = []
fresh_entries now age (e ∷ q) =
    let rest = fresh_entries now age q in if ltb (now - e.at) age then e ∷ rest else rest

-- An empty queue is deleted.
abbrev pub keep_queue : Text → List Stamped → TextMap (List Stamped) → TextMap (List Stamped)
keep_queue key [] m = remove key m
keep_queue key (e ∷ q) m = (key, e ∷ q) ∷ m

unfoldable pub fresh_queues : ℕ → ℕ → TextMap (List Stamped) → TextMap (List Stamped)
fresh_queues now age [] = []
fresh_queues now age ((key, q) ∷ m) =
    keep_queue key (fresh_entries now age q) (fresh_queues now age m)

-- The members of a map whose time is not past.
unfoldable pub unexpired {ℓ} : {V : Type ℓ} → (V → ℕ) → ℕ → ℕ → TextMap V → TextMap V
unexpired at now age [] = []
unexpired at now age ((k, v) ∷ m) =
    let rest = unexpired at now age m in if leb age (now - at v) then rest else (k, v) ∷ rest

-- `#sweep`
unfoldable pub sweep : ℕ → Capture → Capture
sweep now s = if ltb (now - s.last_sweep) s.sweep_interval then s else record s {
  last_sweep = now;
  queues = fresh_queues now s.max_age s.queues;
  redirects = unexpired (λ r. r.at) now s.max_age s.redirects;
  continued = unexpired (λ at. at) now s.max_age s.continued;
}

-- The waiters of the key and its queue.
abbrev pub push_at : Text → Stamped → Capture → List ℕ → Capture × List Resolution
push_at key e s (w ∷ ws) =
    (record s { waiters = insert key ws s.waiters }, resolved w (some e.entry) ∷ [])
push_at key e s [] = (record s { queues = insert key (queue_at key s ++ e ∷ []) s.queues }, [])

-- `push`, with the place of the entry.
unfoldable pub push : Text → Stamped → Capture → Capture × List Resolution
push key e s = let swept = sweep e.at s in push_at key e swept (waiters_at key swept)

abbrev pub set_queue : Text → List Stamped → TextMap (List Stamped) → TextMap (List Stamped)
set_queue key [] m = remove key m
set_queue key (e ∷ q) m = insert key (e ∷ q) m

abbrev pub take_at : Text → ℕ → Capture → List Stamped → Capture × List Resolution
take_at key taker s (e ∷ q) =
    (record s { queues = set_queue key q s.queues }, resolved taker (some e.entry) ∷ [])
take_at key taker s [] =
    (record s { waiters = insert key (waiters_at key s ++ taker ∷ []) s.waiters }, [])

-- `take`, and `discard`, which takes and drops what it gets.
unfoldable pub claim_entry : Text → ℕ → Capture → Capture × List Resolution
claim_entry key taker s = take_at key taker s (queue_at key s)

unfoldable pub without : ℕ → List ℕ → List ℕ
without w [] = []
without w (v ∷ ws) = if v == w then ws else v ∷ without w ws

abbrev pub set_waiters : Text → List ℕ → TextMap (List ℕ) → TextMap (List ℕ)
set_waiters key [] m = remove key m
set_waiters key (w ∷ ws) m = insert key (w ∷ ws) m

-- The timer of a taker that still waits.
unfoldable pub time_out : Text → ℕ → Capture → Capture × List Resolution
time_out key taker s = (
  record s { waiters = set_waiters key (without taker (waiters_at key s)) s.waiters },
  resolved taker none ∷ [],
)

unfoldable pub pending_in : TextMap (List Stamped) → ℕ
pending_in [] = 0
pending_in ((key, q) ∷ m) = length q + pending_in m

abbrev pub pending : Capture → ℕ
pending s = pending_in s.queues

-- `stop`, less the listeners; no start comes after it.
abbrev pub stop : Capture → Capture
stop s = record s { queues = []; waiters = []; redirects = []; continued = [] }

-- The constructor.
abbrev pub new_capture : Capture
new_capture = record {
  entries = [];
  next_entry = 0;
  queues = [];
  waiters = [];
  redirects = [];
  continued = [];
  last_sweep = 0;
  max_age = max_entry_age_ms;
  sweep_interval = sweep_interval_ms;
}
