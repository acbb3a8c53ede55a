-- ===== src/ServiceWorker/Hatch.antt =====
-- src/ext/sw.mjs: what a reconcile achieves.
use browsception.ServiceWorker.Events.{keep_calls, keep_call, without_ids, replace_rules}
use browsception.ServiceWorker.{
  Call, Kept, update_dynamic_rules, update_session_rules, set_session, remove_session, update_tab,
  set_badge_text, set_badge_color, send_response, do_apply, apply_desired,
}
use browsception.DnrRules.{RuleState, desired_rule_state}
use browsception.Host.{UrlParser}
use browsception.State.{State, get_state}
use browsception.Prelude.{
  Text, ℕ, List, ◌≡◌, All, some, ◌∷◌, true, ◌∙◌, [], refl, none, Option, any, ◌==◌, ◌++◌, map,
  arith, All-map, ap, some_inj,
}
use browsception.Dnr.{Rule}
use browsception.ServiceWorker.Quiet.{IsQuiet, reconcile_calls-IsQuiet}

-- A call that is quiet leaves the dynamic rules alone.
quiet_dynamic : (k : Kept) (c : Call) → IsQuiet c → (keep_call k c).dynamic_rules ≡ k.dynamic_rules
quiet_dynamic k (update_dynamic_rules ids added) q = absurd q
quiet_dynamic k (update_session_rules ids added) q = absurd q
quiet_dynamic k (set_session key value) q = absurd q
quiet_dynamic k (remove_session key) q = absurd q
quiet_dynamic k (update_tab tab_id url) q = refl
quiet_dynamic k (set_badge_text tab_id t) q = refl
quiet_dynamic k (set_badge_color tab_id t) q = refl
quiet_dynamic k (send_response ok) q = refl

quiet_dynamics :
    (k : Kept) (calls : List Call)
    → All IsQuiet calls
    → (keep_calls k calls).dynamic_rules ≡ k.dynamic_rules
unfolding keep_calls
quiet_dynamics k [] q = refl
quiet_dynamics k (c ∷ calls) q = quiet_dynamics (keep_call k c) calls q.1 ∙ quiet_dynamic k c q.0

-- All rules are removed by their own ids.
without_own :
    (ids : List ℕ) (rules : List Rule)
    → All (λ r. any (λ id. id == r.id) ids ≡ true) rules
    → without_ids ids rules ≡ []
unfolding without_ids
without_own ids [] own = refl
without_own ids (r ∷ rules) own = rw own.0 (without_own ids rules own.1)

abbrev ids_of : List Rule → List ℕ
ids_of rules = map (λ r. r.id) rules

any_own : (rules : List Rule) → All (λ r. any (λ id. id == r.id) (ids_of rules) ≡ true) rules
any_own [] = tt
any_own (r ∷ rules) = (ground arith, All-map _ _ (λ s h. ground (arith, h)) rules (any_own rules))

installed :
    (parse : UrlParser) (base : Text) (state : State) (k : Kept) (d : Option RuleState)
    (calls : List Call)
    → apply_desired parse state base k d ≡ some calls
    → (desired : RuleState) × (d ≡ some desired)
      × ((keep_calls k calls).dynamic_rules ≡ desired.dynamic_rules)
unfolding keep_calls
installed parse base state k none calls h = cc
installed parse base state k (some desired) calls h =
    let replaced = replace_rules (ids_of k.dynamic_rules) desired.dynamic_rules k.dynamic_rules in
    (
      desired,
      refl,
      rw (← some_inj h) (
          quiet_dynamics (record k { dynamic_rules = replaced }) _
            (reconcile_calls-IsQuiet parse base state k)
          ∙ ap (λ rules. rules ++ desired.dynamic_rules)
              (without_own (ids_of k.dynamic_rules) k.dynamic_rules (any_own k.dynamic_rules))),
    )

-- A reconcile that comes to its end leaves exactly the dynamic rules that the stored state wants,
-- whatever rules were installed before.
pub do_apply-installs :
    (parse : UrlParser) (base : Text) (k : Kept) (calls : List Call)
    → do_apply parse base k ≡ some calls
    → (desired : RuleState) × (desired_rule_state (get_state k.stored) [] base ≡ some desired)
      × ((keep_calls k calls).dynamic_rules ≡ desired.dynamic_rules)
unfolding do_apply
do_apply-installs parse base k calls h =
    installed parse base (get_state k.stored) k (desired_rule_state (get_state k.stored) [] base)
      calls h
