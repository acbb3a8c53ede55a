-- ===== src/DnrRules/Installed.antt =====
-- The rules that `desired_rule_state` asks for, taken apart.
use browsception.Prelude.{
  ◌≡◌, refl, sym, ap, Text, ℕ, true, false, List, [], ◌∷◌, ◌++◌, some, none, arith, Option, inl,
  inr, ◌⊎◌, if◌then◌else◌, Bool, ◌+◌, ◌≤◌, subst,
}
use mathlib.Core.List.Memᴰ
use mathlib.Core.List.{Memᴰ, map}
use browsception.Dnr.{Rule, redirect}
use browsception.State.{State, Mode, unknown}
use browsception.DnrRules.{
  RuleState, escape_session_rule, with_session, mode_rules, catchall_rules, rules_from,
  allow_priority, catchall_rule, allow_rule, redirect_rule,
}

-- The text that the obeyed rule redirects to.
abbrev pub redirect_of : Option Rule → Option Text
redirect_of none = none
redirect_of (some r) = elim r.action [ redirect t ↦ some t | _ ↦ none ]

module _ (rule : ℕ → Text → Rule) where
  pub rules_from_inv :
      (i : ℕ) (es : List Text) (r : Rule)
      → Memᴰ r (rules_from rule i es)
      → (j : ℕ) × (e : Text) × Memᴰ e es × (r ≡ rule j e)
  unfolding rules_from
  rules_from_inv i [] r m = elim m [ ]
  rules_from_inv i (e ∷ es) r (Memᴰ.head k) = (i, e, Memᴰ.head refl, k)
  rules_from_inv i (e ∷ es) r (Memᴰ.tail m) =
      let (j, d, n, k) = rules_from_inv (i + 1) es r m in (j, d, Memᴰ.tail n, k)

  pub rules_from_intro :
      (i : ℕ) (es : List Text) (e : Text)
      → Memᴰ e es
      → (j : ℕ) × Memᴰ (rule j e) (rules_from rule i es)
  unfolding rules_from
  rules_from_intro i [] e m = elim m [ ]
  rules_from_intro i (d ∷ es) e (Memᴰ.head k) = (i, Memᴰ.head (ap (rule i) k))
  rules_from_intro i (d ∷ es) e (Memᴰ.tail m) =
      let (j, n) = rules_from_intro (i + 1) es e m in (j, Memᴰ.tail n)

abbrev pub session_of : List (ℕ × Text) → List Rule
session_of hatches = map (λ h. escape_session_rule h.0 h.1) hatches

abbrev pub rules_of : Option RuleState → List Rule
rules_of none = []
rules_of (some rs) = rs.dynamic_rules ++ rs.session_rules

-- The rules that a state asks for are none, or those of its mode and one for each grant.
pub desired_inv :
    (active : Bool) (o : Option (List Rule)) (hatches : List (ℕ × Text)) (rs : RuleState)
    → (if active
        then with_session hatches o
        else some (record { dynamic_rules = []; session_rules = [] }))
      ≡ some rs
    → ((active ≡ false) × (rs.dynamic_rules ++ rs.session_rules ≡ []))
      ⊎ ((active ≡ true)
          × ((rules : List Rule) × (o ≡ some rules)
              × (rs.dynamic_rules ++ rs.session_rules ≡ rules ++ session_of hatches)))
desired_inv false o hatches rs e = inl (refl, ap (λ (o : Option RuleState). rules_of o) (sym e))
desired_inv true none hatches rs e = cc
desired_inv true (some rules) hatches rs e =
    inr (refl, (rules, refl, ap (λ (o : Option RuleState). rules_of o) (sym e)))

pub no_rules : (o : Option Rule) → ((r : Rule) → o ≡ some r → Memᴰ r []) → redirect_of o ≡ none
no_rules none h = refl
no_rules (some r) h = absurd (Memᴰ.not-nil (h r refl))

-- Every dynamic rule has a lower priority than a grant.
pub mode_rules-priority :
    (m : Mode) (state : State) (base : Text) (rules : List Rule) (r : Rule)
    → mode_rules m state base ≡ some rules
    → Memᴰ r rules
    → r.priority ≤ allow_priority
unfolding catchall_rules
mode_rules-priority Mode.whitelist state base rules r e m =
    let same : rules ≡ catchall_rule base ∷ rules_from allow_rule 0 state.whitelist = cc in
    elim (Memᴰ.cases_cons (subst (Memᴰ r) same m)) [
      | inl k ↦ omega (arith, ap (λ (x : Rule). x.priority) k)
      | inr n ↦
          let (j, d, _, k) = rules_from_inv allow_rule 0 state.whitelist r n in
          omega (arith, ap (λ (x : Rule). x.priority) k)
    ]
mode_rules-priority Mode.blacklist state base rules r e m =
    let same : rules ≡ rules_from (redirect_rule base) 0 state.blacklist = cc in
    let (j, d, _, k) =
      rules_from_inv (redirect_rule base) 0 state.blacklist r (subst (Memᴰ r) same m) in
    omega (arith, ap (λ (x : Rule). x.priority) k)
mode_rules-priority (unknown t) state base rules r e m = cc
