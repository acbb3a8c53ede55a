-- ===== src/ServiceWorker/Quiet.antt =====
-- src/ext/sw.mjs: the session storage as a mirror of the session rules, and the calls that leave both alone.
use browsception.ServiceWorker.Events.{
  WorkerEvent, find_rule, bridge_rules, keep_calls, keep_call, calls_or_none,
}
use browsception.Prelude.{
  List, ℕ, Option, All, Text, ◌≡◌, some, none, ◌<◌, ◌∷◌, [], Bool-cases, inl, inr, All-append, ◌++◌,
}
use browsception.ServiceWorker.{
  Kept, escape_key, update_badge, Call, refresh_badges, sweep_call, sweep_tabs,
  update_session_rules, sweep_tab, set_session, is_sandboxed, badge_at, remove_session, sweep_at,
  update_dynamic_rules, apply_desired, update_tab, escape_grants, set_badge_text, set_badge_color,
  send_response,
}
use browsception.ServiceWorker.Grants.{IsSession}
use browsception.Dnr.{Rule}
use browsception.DnrRules.{
  escape_rule_id, escape_session_rule, escape_base, SweepAction, RuleState, Tab, tab_url,
  sweep_action,
}
use browsception.Prelude.TextMap.{lookup}
use browsception.Host.{UrlParser}
use browsception.State.{State}
use browsception.Prelude.Maps.{Map, get}
use browsception.ViewerUrl.{viewer_target}

abbrev pub rule_of : ℕ → Option Text → Option Rule
rule_of tab_id none = none
rule_of tab_id (some entry) = some (escape_session_rule tab_id entry)

-- The session rule of each tab is the one of the grant in the session storage, and there is none
-- where there is no grant.
pub record IsMirror (k : Kept) : Type 0 where
  pub keys : IsSession k.session
  pub rules :
      (n : ℕ)
      → find_rule (escape_rule_id n) k.session_rules ≡ rule_of n (lookup (escape_key n) k.session)

-- The bridge keeps to ids below those of grants.
abbrev pub IsBridgeRules : List ℕ → List Rule → Type 0
IsBridgeRules ids added = All (λ id. id < escape_base) ids × All (λ r. r.id < escape_base) added

abbrev pub IsAllowed : WorkerEvent → Type 0
IsAllowed (bridge_rules ids added) = IsBridgeRules ids added
IsAllowed _ = Unit

-- A call that touches no rule and no stored grant.
abbrev pub IsQuiet : Call → Type 0
IsQuiet (update_dynamic_rules ids added) = ⊥
IsQuiet (update_session_rules ids added) = ⊥
IsQuiet (set_session key value) = ⊥
IsQuiet (remove_session key) = ⊥
IsQuiet _ = Unit

quiet_call : (k : Kept) (c : Call) → IsQuiet c → IsMirror k → IsMirror (keep_call k c)
quiet_call k (update_session_rules ids added) q m = absurd q
quiet_call k (set_session key value) q m = absurd q
quiet_call k (remove_session key) q m = absurd q
quiet_call k (update_dynamic_rules ids added) q m = absurd q
quiet_call k (update_tab tab_id url) q m = m
quiet_call k (set_badge_text tab_id t) q m = m
quiet_call k (set_badge_color tab_id t) q m = m
quiet_call k (send_response ok) q m = m

pub quiet_calls :
    (k : Kept) (calls : List Call) → All IsQuiet calls → IsMirror k → IsMirror (keep_calls k calls)
unfolding keep_calls
quiet_calls k [] q m = m
quiet_calls k (c ∷ calls) q m = quiet_calls (keep_call k c) calls q.1 (quiet_call k c q.0 m)

sweep_call-IsQuiet : (id : ℕ) (a : Option SweepAction) → All IsQuiet (sweep_call id a)
sweep_call-IsQuiet id none = tt
sweep_call-IsQuiet id (some (SweepAction.native url)) = (tt, tt)
sweep_call-IsQuiet id (some (SweepAction.sandbox url)) = (tt, tt)

pub update_badge-IsQuiet :
    (base : Text) (state : State) (id : ℕ) (url : Text)
    → All IsQuiet (update_badge base state id url)
unfolding update_badge
update_badge-IsQuiet base state id url = elim (Bool-cases (is_sandboxed (viewer_target url base))) [
  | inl boxed ↦ rw boxed (tt, (tt, tt))
  | inr free ↦ rw free (tt, tt)
]

module _ (parse : UrlParser) (base : Text) where
  sweep_at-IsQuiet :
      (state : State) (escapes : Map Text) (tab : Tab) (id : Option ℕ)
      → All IsQuiet (sweep_at parse state base escapes tab id)
  sweep_at-IsQuiet state escapes tab none = tt
  sweep_at-IsQuiet state escapes tab (some id) =
      sweep_call-IsQuiet id (sweep_action parse state tab base (get id escapes))

  sweep_tabs-IsQuiet :
      (state : State) (escapes : Map Text) (tabs : List Tab)
      → All IsQuiet (sweep_tabs parse state base escapes tabs)
  unfolding sweep_tabs sweep_tab
  sweep_tabs-IsQuiet state escapes [] = tt
  sweep_tabs-IsQuiet state escapes (tab ∷ tabs) =
      All-append IsQuiet _ _ (sweep_at-IsQuiet state escapes tab tab.id)
        (sweep_tabs-IsQuiet state escapes tabs)

  badge_at-IsQuiet :
      (state : State) (tab : Tab) (id : Option ℕ) → All IsQuiet (badge_at base state tab id)
  badge_at-IsQuiet state tab none = tt
  badge_at-IsQuiet state tab (some id) = update_badge-IsQuiet base state id (tab_url tab)

  refresh_badges-IsQuiet :
      (state : State) (tabs : List Tab) → All IsQuiet (refresh_badges base state tabs)
  unfolding refresh_badges
  refresh_badges-IsQuiet state [] = tt
  refresh_badges-IsQuiet state (tab ∷ tabs) =
      All-append IsQuiet _ _ (badge_at-IsQuiet state tab tab.id) (refresh_badges-IsQuiet state tabs)

  pub reconcile_calls-IsQuiet :
      (state : State) (k : Kept)
      → All IsQuiet (
          sweep_tabs parse state base (escape_grants k.session) k.tabs
          ++ refresh_badges base state k.tabs)
  reconcile_calls-IsQuiet state k =
      All-append IsQuiet _ _ (sweep_tabs-IsQuiet state (escape_grants k.session) k.tabs)
        (refresh_badges-IsQuiet state k.tabs)

  pub desired-IsMirror :
      (state : State) (k : Kept) (d : Option RuleState)
      → IsMirror k
      → IsMirror (keep_calls k (calls_or_none (apply_desired parse state base k d)))
  unfolding keep_calls
  desired-IsMirror state k none m = m
  desired-IsMirror state k (some desired) m =
      quiet_calls _ _ (reconcile_calls-IsQuiet state k) (record { keys = m.keys; rules = m.rules })
