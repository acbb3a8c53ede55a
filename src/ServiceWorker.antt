-- ===== src/ServiceWorker.antt =====
-- src/ext/sw.mjs: the background script. A handler answers the calls of the browser that it makes,
-- in order; Kept is what those calls leave behind.
pub mod Decimal
pub mod Grants
pub mod Events
pub mod Rules
pub mod Quiet
pub mod Mirror
pub mod Hatch
pub mod Granted
pub mod Stays
mod Tests
use browsception.Prelude.{
  ℕ, Text, Option, List, Bool, ◌++◌, if◌then◌else◌, codes, [], some, false, ◌||◌, all, ◌∷◌, true,
  suc, none, starts_with, map, drop,
}
use browsception.Prelude.Maps.{Map, put, get}
use browsception.State.{Stored, get_state, State}
use browsception.Host.{UrlParser, Url, has_http_scheme}
use browsception.Prelude.TextMap.{TextMap}
use browsception.DnrRules.{
  escape_rule_id, SweepAction, Tab, desired_rule_state, RuleState, escape_session_rule,
  sweep_action, tab_url,
}
use browsception.Dnr.{Rule}
use browsception.Bridge.Stream.{number_text}
use browsception.ViewerUrl.{viewer_target}
use browsception.ListMatch.{is_digit, normalize_entry}
use browsception.Guard.{number_from}

-- The calls of chrome.* that the script makes.
pub data Call : Type 0 where
  update_dynamic_rules update_session_rules : List ℕ → List Rule → Call
  set_session : Text → Text → Call
  remove_session : Text → Call
  update_tab : ℕ → Text → Call
  set_badge_text set_badge_color : ℕ → Text → Call
  send_response : Bool → Call

-- `ESCAPE_PREFIX` and `ESCAPE_KEY`
abbrev pub escape_prefix : Text
escape_prefix = codes "escape:"

unfoldable pub escape_key : ℕ → Text
escape_key tab_id = escape_prefix ++ number_text (suc tab_id) tab_id

-- `map.set(Number(…), entry)`; a key that is no decimal number is NaN, the id of no tab.
abbrev pub note_grant : Text → Text → Map Text → Map Text
note_grant digits entry map =
    if all is_digit digits then put (number_from 0 digits) entry map else map

unfoldable pub grants_from : Map Text → TextMap Text → Map Text
grants_from map [] = map
grants_from map ((k, entry) ∷ session) =
    grants_from (if starts_with k escape_prefix then note_grant (drop 7 k) entry map else map)
      session

-- `escapeGrants`
unfoldable pub escape_grants : TextMap Text → Map Text
escape_grants session = grants_from [] session

abbrev pub sweep_call : ℕ → Option SweepAction → List Call
sweep_call id none = []
sweep_call id (some (SweepAction.native url)) = update_tab id url ∷ []
sweep_call id (some (SweepAction.sandbox url)) = update_tab id url ∷ []

-- A tab may have no id.
abbrev pub sweep_at : UrlParser → State → Text → Map Text → Tab → Option ℕ → List Call
sweep_at parse state viewer_base escapes tab none = []
sweep_at parse state viewer_base escapes tab (some id) =
    sweep_call id (sweep_action parse state tab viewer_base (get id escapes))

unfoldable pub sweep_tab : UrlParser → State → Text → Map Text → Tab → List Call
sweep_tab parse state viewer_base escapes tab = sweep_at parse state viewer_base escapes tab tab.id

-- `sweep`
unfoldable pub sweep_tabs : UrlParser → State → Text → Map Text → List Tab → List Call
sweep_tabs parse state viewer_base escapes [] = []
sweep_tabs parse state viewer_base escapes (tab ∷ tabs) =
    sweep_tab parse state viewer_base escapes tab ++ sweep_tabs parse state viewer_base escapes tabs

abbrev pub is_sandboxed : Option Text → Bool
is_sandboxed none = false
is_sandboxed (some target) = true

-- `updateBadge`
unfoldable pub update_badge : Text → State → ℕ → Text → List Call
update_badge viewer_base state tab_id url =
    let sandboxed = is_sandboxed (viewer_target url viewer_base) in
    set_badge_text tab_id
      (if state.active then if sandboxed then codes "S" else [] else codes "off")
    ∷ (if sandboxed then set_badge_color tab_id (codes "#44cc88") ∷ [] else [])

abbrev pub badge_at : Text → State → Tab → Option ℕ → List Call
badge_at viewer_base state tab none = []
badge_at viewer_base state tab (some id) = update_badge viewer_base state id (tab_url tab)

-- `refreshBadges`
unfoldable pub refresh_badges : Text → State → List Tab → List Call
refresh_badges viewer_base state [] = []
refresh_badges viewer_base state (tab ∷ tabs) =
    badge_at viewer_base state tab tab.id ++ refresh_badges viewer_base state tabs

-- What the browser keeps for the script.
pub record Kept : Type 0 where
  pub stored : Stored
  pub session : TextMap Text
  pub dynamic_rules : List Rule
  pub session_rules : List Rule
  pub tabs : List Tab

abbrev pub apply_desired : UrlParser → State → Text → Kept → Option RuleState → Option (List Call)
apply_desired parse state viewer_base k none = none
apply_desired parse state viewer_base k (some desired) = some (
    update_dynamic_rules (map (λ r. r.id) k.dynamic_rules) desired.dynamic_rules
    ∷ (sweep_tabs parse state viewer_base (escape_grants k.session) k.tabs
        ++ refresh_badges viewer_base state k.tabs))

-- `doApply`; `none` where `desiredRuleState` throws. No hatch is given to `desiredRuleState`.
unfoldable pub do_apply : UrlParser → Text → Kept → Option (List Call)
do_apply parse viewer_base k =
    let state = get_state k.stored in
    apply_desired parse state viewer_base k (desired_rule_state state [] viewer_base)

-- `chrome.tabs.onUpdated`, for a change with a URL or a tab that is loading.
abbrev pub on_updated : Text → Stored → ℕ → Tab → Bool → Bool → List Call
on_updated viewer_base stored tab_id tab has_url is_loading =
    if has_url || is_loading
    then update_badge viewer_base (get_state stored) tab_id (tab_url tab)
    else []

-- The grant of a tab: its rule, its mirror in the session storage, and the navigation.
abbrev pub grant_calls : ℕ → Text → Text → List Call
grant_calls tab_id entry url =
    update_session_rules (escape_rule_id tab_id ∷ []) (escape_session_rule tab_id entry ∷ [])
    ∷ set_session (escape_key tab_id) entry
    ∷ update_tab tab_id url
    ∷ send_response true
    ∷ []

abbrev pub grant_entry : Option ℕ → Text → Option Text → List Call
grant_entry (some tab_id) url (some (c ∷ entry)) = grant_calls tab_id (c ∷ entry) url
grant_entry _ url _ = send_response false ∷ []

abbrev pub grant_parsed : UrlParser → Option ℕ → Option Url → List Call
grant_parsed parse tab_id none = send_response false ∷ []
grant_parsed parse tab_id (some u) =
    if has_http_scheme u
    then grant_entry tab_id u.href (normalize_entry parse u.hostname)
    else send_response false ∷ []

-- The answer to the popup's `open-natively`.
unfoldable pub open_natively : UrlParser → Option ℕ → Text → List Call
open_natively parse tab_id url = grant_parsed parse tab_id (parse url)

-- `chrome.tabs.onRemoved`
unfoldable pub on_removed : ℕ → List Call
on_removed tab_id =
    update_session_rules (escape_rule_id tab_id ∷ []) [] ∷ remove_session (escape_key tab_id) ∷ []
