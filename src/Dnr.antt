-- ===== src/Dnr.antt =====
-- The rule objects that the extension hands to `chrome.declarativeNetRequest`: the fields that
-- src/ext/dnr-rules.mjs and src/ext/bridge-rules.mjs set, `none` where a rule leaves one out.
use browsception.Prelude.{ℕ, Text, Option, List}

pub data ResourceType : Type 0 where
  main_frame xmlhttprequest : ResourceType

pub data HeaderOp : Type 0 where
  set_header : Text → Text → HeaderOp
  remove_header : Text → HeaderOp

pub data Action : Type 0 where
  allow : Action
  -- with its `regexSubstitution`
  redirect : Text → Action
  modify_headers : List HeaderOp → Action

pub record Condition : Type 0 where
  pub regex_filter : Option Text
  pub url_filter : Option Text
  pub resource_types : List ResourceType
  pub tab_ids : Option (List ℕ)
  pub initiator_domains : Option (List Text)

pub record Rule : Type 0 where
  pub id : ℕ
  pub priority : ℕ
  pub action : Action
  pub condition : Condition
