-- ===== src/Popup.antt =====
-- src/ext/actions.mjs and src/ext/popup.mjs: what the popup offers for a tab, and what a click does.
pub mod Clicks
pub mod Offers
mod Tests
use browsception.Prelude.{
  Text, codes, List, [], ◌∷◌, ◌++◌, Option, none, some, Bool, true, false, not, if◌then◌else◌,
  starts_with, ◌||◌,
}
use browsception.Host.{Url, UrlParser, is_http_url}
use browsception.ListMatch.{entry_matches, normalize_entry}
use browsception.State.{State, Mode, unknown}
use browsception.DnrRules.{Tab, tab_url}
use browsception.ViewerUrl.{viewer_target}

pub data Disposition : Type 0 where
  sandboxed native other : Disposition

pub data Op : Type 0 where
  trust untrust sandbox unsandbox open_native_once : Op

pub record SiteAction : Type 0 where
  pub op : Op
  pub entry : Option Text
  pub label : Text

-- `coveringEntry`
unfoldable pub covering_entry : List Text → Text → Option Text
covering_entry [] host = none
covering_entry (e ∷ list) host =
    let rest = covering_entry list host in if entry_matches e host then some e else rest

abbrev pub open_once : SiteAction
open_once = record { op = open_native_once; entry = none; label = codes "Open natively once" }

abbrev pub add_action : Op → Text → Text → SiteAction
add_action op entry label = record { op = op; entry = some entry; label = label }

-- The action that removes the entry that covers the host, where there is one.
abbrev pub removal : Op → Text → Option Text → List SiteAction
removal op list none = []
removal op list (some covering) =
    add_action op covering
      (codes "Remove " ++ (covering ++ (codes " from " ++ (list ++ codes " list"))))
    ∷ []

abbrev pub whitelist_actions : State → Disposition → Text → Text → List SiteAction
whitelist_actions state sandboxed host entry =
    add_action trust entry (codes "Trust " ++ (host ++ codes " — always run natively"))
    ∷ open_once
    ∷ []
whitelist_actions state _ host entry =
    removal untrust (codes "trusted") (covering_entry state.whitelist host)

abbrev pub blacklist_actions : State → Disposition → Text → Text → List SiteAction
blacklist_actions state native host entry = add_action sandbox entry (codes "Sandbox " ++ host) ∷ []
blacklist_actions state _ host entry =
    removal unsandbox (codes "sandbox") (covering_entry state.blacklist host) ++ open_once ∷ []

abbrev pub actions_for : State → Mode → Disposition → Text → Option Text → List SiteAction
actions_for state mode disposition host none = []
actions_for state Mode.whitelist disposition host (some entry) =
    whitelist_actions state disposition host entry
actions_for state Mode.blacklist disposition host (some entry) =
    blacklist_actions state disposition host entry
actions_for state (unknown m) disposition host (some entry) =
    blacklist_actions state disposition host entry

abbrev pub is_other : Disposition → Bool
is_other other = true
is_other _ = false

-- `primaryActions`, for a host that is there.
abbrev pub actions_at : UrlParser → State → Disposition → Option Text → List SiteAction
actions_at parse state disposition none = []
actions_at parse state disposition (some []) = []
actions_at parse state disposition (some (c ∷ host)) =
    if not state.active
    then []
    else if is_other disposition
    then []
    else actions_for state state.mode disposition (c ∷ host) (normalize_entry parse (c ∷ host))

unfoldable pub primary_actions : UrlParser → State → Disposition → Option Text → List SiteAction
primary_actions parse state disposition host = actions_at parse state disposition host

pub record Inspection : Type 0 where
  pub disposition : Disposition
  pub host : Option Text
  pub url : Option Text

abbrev nothing_there : Inspection
nothing_there = record { disposition = other; host = none; url = none }

abbrev seen_as : Disposition → Text → Option Url → Option Inspection
seen_as d url none = none
seen_as d url (some u) = some (record { disposition = d; host = some u.hostname; url = some url })

abbrev inspect_target : UrlParser → Text → Option Text → Option Inspection
inspect_target parse url (some target) =
    if is_http_url parse target then seen_as sandboxed target (parse target) else some nothing_there
inspect_target parse url none =
    if starts_with url (codes "http:") || starts_with url (codes "https:")
    then seen_as native url (parse url)
    else some nothing_there

abbrev tab_url_of : Option Tab → Text
tab_url_of none = []
tab_url_of (some tab) = tab_url tab

-- `inspectTab`; `none` where `new URL` throws.
unfoldable pub inspect_tab : UrlParser → Text → Option Tab → Option Inspection
inspect_tab parse viewer_base tab =
    let url = tab_url_of tab in inspect_target parse url (viewer_target url viewer_base)
