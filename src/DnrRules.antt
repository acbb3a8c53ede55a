-- ===== src/DnrRules.antt =====
-- src/ext/dnr-rules.mjs: the rule set that a state asks for, the test whether a URL is sandboxed,
-- and what the tab sweep does with a tab.
pub mod Filter
pub mod Engine
pub mod Installed
pub mod Interception
pub mod Agreement
pub mod Grants
pub mod Ids
pub mod Sweep
pub mod Dots
mod ModelEngine
mod Tests
use browsception.Prelude.{
  ℕ, ◌+◌, Text, codes, text_eq, starts_with, Bool, true, false, not, ◌&&◌, ◌||◌, Option, none, some,
  List, [], ◌∷◌, ◌++◌, map, ◌==◌, if◌then◌else◌, drop,
}
use browsception.Host.{Url, UrlParser, has_http_scheme, is_http_url}
use browsception.Dnr.{Rule, Condition, Action, allow, redirect, ResourceType, main_frame}
use browsception.State.{State, Mode, unknown}
use browsception.ListMatch.{entry_matches, is_ip_literal, list_matches}
use browsception.ViewerUrl.{viewer_target, viewer_url_for}

abbrev pub catchall_rule_id : ℕ
catchall_rule_id = 1

-- `PRIORITY`
abbrev pub catchall_priority : ℕ
catchall_priority = 1

abbrev pub list_redirect_priority : ℕ
list_redirect_priority = 1

abbrev pub allow_priority : ℕ
allow_priority = 10

abbrev pub escape_priority : ℕ
escape_priority = 100

-- `ID_BASE`
abbrev pub allow_base : ℕ
allow_base = 1000

abbrev pub redirect_base : ℕ
redirect_base = 2000

abbrev pub escape_base : ℕ
escape_base = 100000

unfoldable pub escape_host : Text → Text
escape_host [] = []
escape_host (c ∷ s) = (if c == b'.' then codes "\\." else c ∷ []) ++ escape_host s

abbrev pub is_exact : Text → Bool
is_exact entry = starts_with entry (b'=' ∷ [])

abbrev pub bare_entry : Text → Text
bare_entry entry = if is_exact entry then drop 1 entry else entry

abbrev pub sub_filter : Text → Text
sub_filter entry = if is_exact entry || is_ip_literal entry then [] else codes "(?:[^/:@?#]+\\.)?"

unfoldable pub entry_regex : Text → Text
entry_regex entry =
    codes "^https?://"
    ++ (sub_filter entry ++ (escape_host (bare_entry entry) ++ codes "(?::\\d+)?(?:[/?#].*)?$"))

abbrev pub main_frame_filter : Text → Condition
main_frame_filter filter = record {
  regex_filter = some filter;
  url_filter = none;
  resource_types = main_frame ∷ [];
  tab_ids = none;
  initiator_domains = none;
}

abbrev pub catchall_filter : Text
catchall_filter = codes "^https?://.*"

-- The substitution of every redirect: the viewer, with the matched URL as its raw target.
abbrev pub viewer_substitution : Text → Text
viewer_substitution viewer_base = viewer_url_for viewer_base (codes "\\0") []

abbrev pub catchall_rule : Text → Rule
catchall_rule viewer_base = record {
  id = catchall_rule_id;
  priority = catchall_priority;
  action = redirect (viewer_substitution viewer_base);
  condition = main_frame_filter catchall_filter;
}

abbrev pub allow_rule : ℕ → Text → Rule
allow_rule i entry = record {
  id = allow_base + i;
  priority = allow_priority;
  action = allow;
  condition = main_frame_filter (entry_regex entry);
}

abbrev pub redirect_rule : Text → ℕ → Text → Rule
redirect_rule viewer_base i entry = record {
  id = redirect_base + i;
  priority = list_redirect_priority;
  action = redirect (viewer_substitution viewer_base);
  condition = main_frame_filter (entry_regex entry);
}

unfoldable pub catchall_rules : Text → List Rule
catchall_rules viewer_base = catchall_rule viewer_base ∷ []

-- `list.forEach((entry, i) => rules.push(…))`
unfoldable pub rules_from : (ℕ → Text → Rule) → ℕ → List Text → List Rule
rules_from rule i [] = []
rules_from rule i (e ∷ es) = rule i e ∷ rules_from rule (i + 1) es

unfoldable pub escape_rule_id : ℕ → ℕ
escape_rule_id tab_id = escape_base + tab_id

unfoldable pub escape_session_rule : ℕ → Text → Rule
unfolding escape_rule_id
escape_session_rule tab_id entry = record {
  id = escape_rule_id tab_id;
  priority = escape_priority;
  action = allow;
  condition = record {
    regex_filter = some (entry_regex entry);
    url_filter = none;
    resource_types = main_frame ∷ [];
    tab_ids = some (tab_id ∷ []);
    initiator_domains = none;
  };
}

pub record RuleState : Type 0 where
  pub dynamic_rules : List Rule
  pub session_rules : List Rule

abbrev mode_rules : Mode → State → Text → Option (List Rule)
mode_rules Mode.whitelist state viewer_base =
    some (catchall_rules viewer_base ++ rules_from allow_rule 0 state.whitelist)
mode_rules Mode.blacklist state viewer_base =
    some (rules_from (redirect_rule viewer_base) 0 state.blacklist)
mode_rules (unknown m) state viewer_base = none

abbrev with_session : List (ℕ × Text) → Option (List Rule) → Option RuleState
with_session hatches none = none
with_session hatches (some rules) = some (record {
  dynamic_rules = rules;
  session_rules = map (λ h. escape_session_rule h.0 h.1) hatches;
})

-- `none` where `desiredRuleState` throws on an unknown mode.
unfoldable pub desired_rule_state : State → List (ℕ × Text) → Text → Option RuleState
desired_rule_state state hatches viewer_base =
    if state.active
    then with_session hatches (mode_rules state.mode state viewer_base)
    else some (record { dynamic_rules = []; session_rules = [] })

abbrev pub sandboxed_host : Mode → State → Text → Bool
sandboxed_host Mode.whitelist state host = not (list_matches state.whitelist host)
sandboxed_host Mode.blacklist state host = list_matches state.blacklist host
sandboxed_host (unknown m) state host = list_matches state.blacklist host

unfoldable pub should_sandbox : UrlParser → State → Text → Bool
should_sandbox parse state url = if not state.active then false else elim (parse url) [
  | none ↦ false
  | some u ↦ if not (has_http_scheme u) then false else sandboxed_host state.mode state u.hostname
]

pub record Tab : Type 0 where
  pub id : Option ℕ
  pub pending_url : Option Text
  pub url : Option Text

-- `a || b` on texts: an empty text counts as missing.
abbrev or_else : Option Text → Text → Text
or_else none t = t
or_else (some []) t = t
or_else (some (c ∷ s)) t = c ∷ s

unfoldable pub tab_url : Tab → Text
tab_url tab = or_else tab.pending_url (or_else tab.url [])

pub data SweepAction : Type 0 where
  native sandbox : Text → SweepAction

-- Does a live grant for the tab cover the URL?
abbrev pub escapes : UrlParser → Option Text → Text → Bool
escapes parse none url = false
escapes parse (some entry) url = elim (parse url) [
  | none ↦ false
  | some u ↦ entry_matches entry u.hostname
]

-- The branch for a tab that is a viewer, and the one for any other tab.
sweep_viewer : UrlParser → State → Text → Option SweepAction
sweep_viewer parse state target =
    if should_sandbox parse state target
    then none
    else if is_http_url parse target
    then some (native target)
    else none

sweep_native : UrlParser → State → Text → Text → Option Text → Option SweepAction
sweep_native parse state viewer_base url escape_entry =
    if not (should_sandbox parse state url)
    then none
    else if escapes parse escape_entry url
    then none
    else some (sandbox (viewer_url_for viewer_base url []))

unfoldable pub sweep_action : UrlParser → State → Tab → Text → Option Text → Option SweepAction
unfolding sweep_viewer sweep_native
sweep_action parse state tab viewer_base escape_entry =
    elim (viewer_target (tab_url tab) viewer_base) [
      | some target ↦ sweep_viewer parse state target
      | none ↦ sweep_native parse state viewer_base (tab_url tab) escape_entry
    ]
