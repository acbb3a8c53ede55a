-- ===== src/Capture.antt =====
-- src/shim/redirect-capture.mjs: a captured response header event, and the state that the events of
-- `chrome.webRequest` and the bridge's takes share. The children hold the operations.
pub mod Queues
pub mod Listeners
pub mod Exclusive
pub mod Lanes
pub mod Headers
mod Tests
use browsception.Prelude.{
  ℕ, Text, codes, List, [], ◌∷◌, Option, Bool, any, false, text_eq, some, leb, ◌&&◌, ltb, none,
  if◌then◌else◌, map,
}
use browsception.BridgeRules.{Fields}
use browsception.Prelude.Maps.{Map}
use browsception.Prelude.TextMap.{lookup, TextMap}

pub record Entry : Type 0 where
  pub status : ℕ
  pub headers : Fields

unfoldable pub has_header : Text → Fields → Bool
has_header name headers = any (λ h. text_eq h.0 name) headers

unfoldable pub header_values : Text → List (Text × Text) → List Text
header_values name [] = []
header_values name ((k, v) ∷ headers) =
    let rest = header_values name headers in if text_eq k name then v ∷ rest else rest

abbrev pub set_cookies_of : Entry → List Text
set_cookies_of entry = header_values (codes "set-cookie") entry.headers

unfoldable pub is_redirect_entry : Option Entry → Bool
is_redirect_entry none = false
is_redirect_entry (some entry) =
    leb 300 entry.status && ltb entry.status 400 && has_header (codes "location") entry.headers

-- An entry is one mutable object, which a queue, a taker and `#redirects` may hold together: they
-- hold its place in `entries`. A taker is the number of its call of `take`.
pub record Stamped : Type 0 where
  pub at : ℕ
  pub entry : ℕ

pub record Capture : Type 0 where
  pub entries : Map Entry
  pub next_entry : ℕ
  pub queues : TextMap (List Stamped)
  pub waiters : TextMap (List ℕ)
  pub redirects : TextMap Stamped
  pub continued : TextMap ℕ
  pub last_sweep : ℕ
  pub max_age : ℕ
  pub sweep_interval : ℕ

-- The promise of a taker resolves, with the place of an entry or with `null`.
pub data Resolution : Type 0 where
  resolved : ℕ → Option ℕ → Resolution

abbrev pub list_of {ℓ} : {A : Type ℓ} → Option (List A) → List A
list_of none = []
list_of (some xs) = xs

abbrev pub queue_at : Text → Capture → List Stamped
queue_at key s = list_of (lookup key s.queues)

abbrev pub waiters_at : Text → Capture → List ℕ
waiters_at key s = list_of (lookup key s.waiters)
