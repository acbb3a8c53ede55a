-- ===== src/DnrRules/Ids.antt =====
-- The ids of one rule set are distinct.
use browsception.Prelude.{
  ℕ, ◌+◌, ◌≤◌, ◌≡◌, ◌≢◌, Text, List, [], ◌∷◌, map, some, none, All, arith, false, true,
  if◌then◌else◌, ◌<◌, Bool, Option, subst, refl,
}
use browsception.Dnr.{Rule}
use browsception.State.{State, Mode, unknown}
use browsception.DnrRules.{
  desired_rule_state, rules_from, catchall_rules, mode_rules, RuleState, catchall_rule, allow_rule,
  with_session, redirect_rule,
}

abbrev pub AreDistinct : List ℕ → Type 0
AreDistinct [] = Unit
AreDistinct (x ∷ xs) = All (λ y. x ≢ y) xs × AreDistinct xs

abbrev pub ids : List Rule → List ℕ
ids rs = map (λ r. r.id) rs

All-above : (n m : ℕ) (xs : List ℕ) → n < m → All (λ y. m ≤ y) xs → All (λ y. n ≢ y) xs
All-above n m [] h k = tt
All-above n m (x ∷ xs) h k = (omega (arith, k.0), All-above n m xs h k.1)

module _ (rule : ℕ → Text → Rule) (base : ℕ)
    (numbered : (i : ℕ) (e : Text) → (rule i e).id ≡ base + i) where
  rules_from-above :
      (i m : ℕ) (es : List Text) → m ≤ base + i → All (λ y. m ≤ y) (ids (rules_from rule i es))
  unfolding rules_from
  rules_from-above i m [] h = tt
  rules_from-above i m (e ∷ es) h =
      (omega (arith, numbered i e), rules_from-above (i + 1) m es (omega arith))

  rules_from-AreDistinct : (i : ℕ) (es : List Text) → AreDistinct (ids (rules_from rule i es))
  unfolding rules_from
  rules_from-AreDistinct i [] = tt
  rules_from-AreDistinct i (e ∷ es) = (
    All-above (rule i e).id (base + (i + 1)) (ids (rules_from rule (i + 1) es))
        (omega (arith, numbered i e)) (rules_from-above (i + 1) (base + (i + 1)) es (omega arith)),
    rules_from-AreDistinct (i + 1) es,
  )

mode_rules-AreDistinct :
    (m : Mode) (state : State) (base : Text) (rules : List Rule)
    → mode_rules m state base ≡ some rules
    → AreDistinct (ids rules)
unfolding catchall_rules
mode_rules-AreDistinct Mode.whitelist state base rules e =
    let same : catchall_rule base ∷ rules_from allow_rule 0 state.whitelist ≡ rules = cc in
    subst (λ rs. AreDistinct (ids rs)) same
      (
        All-above 1 1000 (ids (rules_from allow_rule 0 state.whitelist)) (omega arith)
            (rules_from-above allow_rule 1000 (λ i d. refl) 0 1000 state.whitelist (omega arith)),
        rules_from-AreDistinct allow_rule 1000 (λ i d. refl) 0 state.whitelist,
      )
mode_rules-AreDistinct Mode.blacklist state base rules e =
    let same : rules_from (redirect_rule base) 0 state.blacklist ≡ rules = cc in
    subst (λ rs. AreDistinct (ids rs)) same
      (rules_from-AreDistinct (redirect_rule base) 2000 (λ i d. refl) 0 state.blacklist)
mode_rules-AreDistinct (unknown t) state base rules e = cc

-- Whatever the lists, no two of the dynamic rules that a state asks for share an id, so
-- `updateDynamicRules` can take them in one call.
pub dynamic_ids-AreDistinct :
    (state : State) (hatches : List (ℕ × Text)) (base : Text) (rs : RuleState)
    → desired_rule_state state hatches base ≡ some rs
    → AreDistinct (ids rs.dynamic_rules)
unfolding desired_rule_state
dynamic_ids-AreDistinct state hatches base rs e =
    by_case state.active (mode_rules state.mode state base)
      (mode_rules-AreDistinct state.mode state base) e
  where
    by_case :
        (active : Bool) (o : Option (List Rule))
        → ((rules : List Rule) → o ≡ some rules → AreDistinct (ids rules))
        → (if active
            then with_session hatches o
            else some (record { dynamic_rules = []; session_rules = [] }))
          ≡ some rs
        → AreDistinct (ids rs.dynamic_rules)
    by_case false o h k = subst (λ x. AreDistinct (ids x)) {x = []} (cc) tt
    by_case true none h k = cc
    by_case true (some rules) h k = subst (λ x. AreDistinct (ids x)) {x = rules} (cc) (h rules refl)
