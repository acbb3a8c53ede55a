-- ===== src/DnrRules/Grants.antt =====
-- The escape hatch: a grant for one tab.
use browsception.Prelude.{
  ◌≡◌, refl, sym, ap, ◌∙◌, Text, ℕ, Bool, true, List, [], ◌++◌, some, none, arith, inl, inr,
  Option-cases,
}
use mathlib.Core.List.Memᴰ
use mathlib.Core.List.{Memᴰ}
use browsception.Dnr.{Rule}
use browsception.State.{State, Mode}
use browsception.DnrRules.{RuleState, desired_rule_state, escape_session_rule, mode_rules}
use browsception.DnrRules.Engine.{Navigation, Applies, RuleEngine, IsSound}
use browsception.DnrRules.Installed.{
  desired_inv, no_rules, redirect_of, session_of, mode_rules-priority,
}
use browsception.DnrRules.Filter.Urls.{WebUrl, IsWebUrl}
use browsception.DnrRules.Interception.{request, entry_regex_iff}
use browsception.ListMatch.{entry_matches, canonical_host}

module _ (re2 : Text → Text → Bool) (engine : RuleEngine re2) (w : WebUrl) (web : IsWebUrl w)
    (canonical : canonical_host w.host ≡ w.host) (tab_id : ℕ) where
  abbrev q : Navigation
  q = request re2 w web canonical tab_id

  granted_obeyed :
      (hatches : List (ℕ × Text)) (m : Mode) (state : State) (base : Text) (rules : List Rule)
      (entry : Text)
      → mode_rules m state base ≡ some rules
      → IsSound re2 entry
      → Memᴰ (tab_id, entry) hatches
      → entry_matches entry w.host ≡ true
      → redirect_of (engine.obeyed (rules ++ session_of hatches) q) ≡ none
  unfolding escape_session_rule
  granted_obeyed hatches m state base rules entry e sound granted matched =
      let grant = escape_session_rule tab_id entry in
      let listed : Memᴰ grant (rules ++ session_of hatches) =
        Memᴰ.append_right rules
          (Memᴰ.map (λ (h : ℕ × Text). escape_session_rule h.0 h.1) granted) in
      let applies : Applies re2 grant q = record {
        kind = Memᴰ.head refl;
        tab = Memᴰ.head refl;
        filter = (entry_regex_iff re2 w web canonical tab_id entry sound).1 matched;
      } in
      elim (Option-cases (engine.obeyed (rules ++ session_of hatches) q)) [
        | inl missing ↦ ap redirect_of missing
        | inr (r, k) ↦
            let beats = engine.highest (rules ++ session_of hatches) q r grant k listed applies in
            elim (Memᴰ.append_cases rules (engine.listed (rules ++ session_of hatches) q r k).0) [
              | inl l ↦ absurd (omega (arith, beats, mode_rules-priority m state base rules r e l))
              | inr s ↦
                  let (h, _, same) =
                    Memᴰ.of_map (λ (h : ℕ × Text). escape_session_rule h.0 h.1) hatches s in
                  ap redirect_of (k ∙ ap some (sym same))
            ]
      ]

  -- A grant beats every other rule: a main-frame request for a web URL in the tab that it was given
  -- to is not redirected, where the granted entry is sound (its filter is read as its pattern) and
  -- matches the URL's host, which has no dot at an end and is in lower case; whatever the state and
  -- the other grants.
  pub granted_passes :
      (base : Text) (hatches : List (ℕ × Text)) (state : State) (rs : RuleState) (entry : Text)
      → desired_rule_state state hatches base ≡ some rs
      → IsSound re2 entry
      → Memᴰ (tab_id, entry) hatches
      → entry_matches entry w.host ≡ true
      → redirect_of (engine.obeyed (rs.dynamic_rules ++ rs.session_rules) q) ≡ none
  unfolding desired_rule_state
  granted_passes base hatches state rs entry e sound granted matched =
      elim (desired_inv state.active (mode_rules state.mode state base) hatches rs e) [
        | inl (off, nothing') ↦
            rw nothing' (no_rules (engine.obeyed [] q) (λ r k. (engine.listed [] q r k).0))
        | inr (on, (rules, k, same)) ↦
            rw same
              (granted_obeyed hatches state.mode state base rules entry k sound granted matched)
      ]
