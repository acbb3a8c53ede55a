-- ===== src/State.antt =====
-- src/ext/state.mjs: the activation, mode and list state, and the overlay of stored keys over the
-- defaults. What `chrome.storage.sync` answers is a parameter: a value for each key that is set.
mod Tests
use browsception.Prelude.{ℕ, Text, Bool, true, false, Option, none, some, List, []}

pub data Mode : Type 0 where
  whitelist blacklist : Mode
  -- any other stored text
  unknown : Text → Mode

pub record State : Type 0 where
  pub active : Bool
  pub mode : Mode
  pub whitelist : List Text
  pub blacklist : List Text
  pub allow_private_network : Bool

-- `storage.sync.get(keys)`: only explicitly set keys are there.
pub record Stored : Type 0 where
  pub active : Option Bool
  pub mode : Option Mode
  pub whitelist : Option (List Text)
  pub blacklist : Option (List Text)
  pub allow_private_network : Option Bool

abbrev pub default_state : State
default_state = record {
  active = true;
  mode = Mode.whitelist;
  whitelist = [];
  blacklist = [];
  allow_private_network = false;
}

abbrev pub overlay {ℓ} : {A : Type ℓ} → A → Option A → A
overlay d none = d
overlay d (some v) = v

unfoldable pub get_state : Stored → State
get_state s = record {
  active = overlay default_state.active s.active;
  mode = overlay default_state.mode s.mode;
  whitelist = overlay default_state.whitelist s.whitelist;
  blacklist = overlay default_state.blacklist s.blacklist;
  allow_private_network = overlay default_state.allow_private_network s.allow_private_network;
}
