-- ===== src/Popup/Clicks.antt =====
-- src/ext/popup.mjs: the handlers of the popup's controls.
use browsception.Prelude.{
  Text, List, [], ◌∷◌, ◌++◌, none, some, Bool, false, if◌then◌else◌, text_eq, ◌||◌,
}
use browsception.State.{State, Mode}
use browsception.Popup.{
  Op, SiteAction, trust, untrust, sandbox, unsandbox, open_native_once, unknown,
}

unfoldable pub has_entry : Text → List Text → Bool
has_entry e [] = false
has_entry e (x ∷ list) = text_eq x e || has_entry e list

-- `if (!lists[key].includes(entry)) lists[key].push(entry)`
unfoldable pub add_entry : Text → List Text → List Text
add_entry e list = if has_entry e list then list else list ++ e ∷ []

-- `lists[key].filter((e) => e !== entry)`
unfoldable pub remove_entry : Text → List Text → List Text
remove_entry e [] = []
remove_entry e (x ∷ list) = let rest = remove_entry e list in if text_eq x e then rest else x ∷ rest

-- What a click asks for: a message to the service worker, or a new list to store.
pub data Click : Type 0 where
  open_natively : Click
  store_whitelist store_blacklist : List Text → Click

abbrev pub click_on : State → Op → Text → Click
click_on state open_native_once entry = open_natively
click_on state trust entry = store_whitelist (add_entry entry state.whitelist)
click_on state untrust entry = store_whitelist (remove_entry entry state.whitelist)
click_on state sandbox entry = store_blacklist (add_entry entry state.blacklist)
click_on state unsandbox entry = store_blacklist (remove_entry entry state.blacklist)

-- `action.entry ?? normalizeEntry(host)`: every action on a list has its entry.
abbrev pub entry_of : SiteAction → Text
entry_of a = elim a.entry [ none ↦ [] | some e ↦ e ]

-- The state once the new list is stored.
abbrev pub stored : State → Click → State
stored state open_natively = state
stored state (store_whitelist list) = record state { whitelist = list }
stored state (store_blacklist list) = record state { blacklist = list }

unfoldable pub click : State → SiteAction → State
click state a = stored state (click_on state a.op (entry_of a))

-- The change of the master switch.
abbrev pub set_active : Bool → State → State
set_active active state = record state { active = active }

abbrev pub switch_to : Mode → Bool → State → State
switch_to Mode.whitelist confirmed state =
    if confirmed then record state { mode = Mode.blacklist } else state
switch_to Mode.blacklist confirmed state = record state { mode = Mode.whitelist }
switch_to (unknown m) confirmed state = record state { mode = Mode.whitelist }

-- The mode switch; leaving the whitelist mode asks first.
unfoldable pub switch_mode : Bool → State → State
switch_mode confirmed state = switch_to state.mode confirmed state
