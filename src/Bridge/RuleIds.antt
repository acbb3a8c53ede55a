-- ===== src/Bridge/RuleIds.antt =====
-- src/shim/bridge.mjs: `#allocRuleId`, the cursor over the ids of per-request rules.
pub mod Fresh
pub mod Begin
use browsception.Prelude.{
  ℕ, List, Bool, Option, none, some, suc, false, ◌-◌, if◌then◌else◌, leb, zero, ◌∷◌, ◌+◌, ◌==◌,
  ◌||◌, [],
}
use browsception.BridgeRules.{per_request_min_id, per_request_max_id}

unfoldable pub has_id : ℕ → List ℕ → Bool
has_id i [] = false
has_id i (j ∷ js) = j == i || has_id i js

abbrev pub next_id : ℕ → ℕ
next_id i = if leb (per_request_max_id - 1) i then per_request_min_id else i + 1

-- The `do … while` with `fuel` rounds.
unfoldable pub search_id : ℕ → List ℕ → ℕ → Option ℕ
search_id zero used i = none
search_id (suc fuel) used i =
    let later = search_id fuel used (next_id i) in
    if has_id (next_id i) used then later else some (next_id i)

-- One round for each id that there is.
abbrev pub search_rounds : ℕ
search_rounds = per_request_max_id - per_request_min_id

unfoldable pub alloc_rule_id : List ℕ → ℕ → Option ℕ
alloc_rule_id used i = search_id search_rounds used i
