-- ===== src/ServiceWorker/Events.antt =====
-- src/ext/sw.mjs: what its calls leave in the browser, and the events that it answers.
use browsception.Host.{UrlParser}
use browsception.Prelude.{
  List, Option, ℕ, Text, [], some, none, ◌∷◌, ◌++◌, Bool, if◌then◌else◌, ◌==◌, any,
}
use browsception.ServiceWorker.{
  Kept, Call, open_natively, update_dynamic_rules, on_removed, update_session_rules, on_updated,
  set_session, do_apply, remove_session, update_tab, set_badge_text, set_badge_color, send_response,
}
use browsception.Dnr.{Rule}
use browsception.DnrRules.{Tab}
use browsception.Prelude.TextMap.{insert, remove}
use browsception.State.{Stored}

-- `updateSessionRules` and `updateDynamicRules`: first the removals, then the additions.
unfoldable pub without_ids : List ℕ → List Rule → List Rule
without_ids ids [] = []
without_ids ids (r ∷ rules) =
    let rest = without_ids ids rules in if any (λ id. id == r.id) ids then rest else r ∷ rest

abbrev pub replace_rules : List ℕ → List Rule → List Rule → List Rule
replace_rules ids added rules = without_ids ids rules ++ added

unfoldable pub find_rule : ℕ → List Rule → Option Rule
find_rule id [] = none
find_rule id (r ∷ rules) = if r.id == id then some r else find_rule id rules

abbrev pub keep_call : Kept → Call → Kept
keep_call k (update_dynamic_rules ids added) = record k {
  dynamic_rules = replace_rules ids added k.dynamic_rules;
}
keep_call k (update_session_rules ids added) = record k {
  session_rules = replace_rules ids added k.session_rules;
}
keep_call k (set_session key value) = record k { session = insert key value k.session }
keep_call k (remove_session key) = record k { session = remove key k.session }
keep_call k (update_tab tab_id url) = k
keep_call k (set_badge_text tab_id t) = k
keep_call k (set_badge_color tab_id t) = k
keep_call k (send_response ok) = k

unfoldable pub keep_calls : Kept → List Call → Kept
keep_calls k [] = k
keep_calls k (c ∷ calls) = keep_calls (keep_call k c) calls

-- What happens to the script and around it: a message of the popup, a tab that goes away or
-- changes, a reconcile, the bridge's own session rules, changed settings, and other tabs.
pub data WorkerEvent : Type 0 where
  asked_natively : Option ℕ → Text → WorkerEvent
  tab_removed : ℕ → WorkerEvent
  tab_updated : ℕ → Tab → Bool → Bool → WorkerEvent
  reconciled : WorkerEvent
  bridge_rules : List ℕ → List Rule → WorkerEvent
  settings_changed : Stored → WorkerEvent
  tabs_changed : List Tab → WorkerEvent

abbrev pub calls_or_none : Option (List Call) → List Call
calls_or_none none = []
calls_or_none (some calls) = calls

abbrev pub answer : UrlParser → Text → Kept → WorkerEvent → Kept
answer parse base k (asked_natively tab_id url) = keep_calls k (open_natively parse tab_id url)
answer parse base k (tab_removed tab_id) = keep_calls k (on_removed tab_id)
answer parse base k (tab_updated tab_id tab u l) =
    keep_calls k (on_updated base k.stored tab_id tab u l)
answer parse base k reconciled = keep_calls k (calls_or_none (do_apply parse base k))
answer parse base k (bridge_rules ids added) = keep_call k (update_session_rules ids added)
answer parse base k (settings_changed stored) = record k { stored = stored }
answer parse base k (tabs_changed tabs) = record k { tabs = tabs }

unfoldable pub answer_all : UrlParser → Text → Kept → List WorkerEvent → Kept
answer_all parse base k [] = k
answer_all parse base k (e ∷ events) = answer_all parse base (answer parse base k e) events
