-- ===== src/ServiceWorker/Rules.antt =====
-- Rule lists under removals and additions.
use browsception.ServiceWorker.Events.{find_rule, without_ids, replace_rules}
use browsception.Prelude.{
  List, ℕ, Option, All, Text, ◌≡◌, some, none, if◌then◌else◌, ◌<◌, ◌++◌, any, ◌==◌, ◌∷◌, arith, [],
  Bool-cases, refl, inl, ==_iff, inr, ap, false, ◌+◌,
}
use browsception.Dnr.{Rule}
use browsception.DnrRules.{escape_rule_id, escape_session_rule, escape_base}

pub find_rule-without_ids :
    (id : ℕ) (ids : List ℕ) (rules : List Rule)
    → find_rule id (without_ids ids rules)
      ≡ (if any (λ i. i == id) ids then none else find_rule id rules)
unfolding find_rule without_ids
find_rule-without_ids id ids [] = ground arith
find_rule-without_ids id ids (r ∷ rules) = elim (Bool-cases (r.id == id)) [
  | inl same ↦
      let e = ap (λ n. any (λ i. i == n) ids) ((==_iff r.id id).0 same) in
      ground (arith, find_rule-without_ids id ids rules)
  | inr differ ↦ ground (arith, find_rule-without_ids id ids rules)
]

abbrev pub or_rule : Option Rule → Option Rule → Option Rule
or_rule none other = other
or_rule (some r) other = some r

pub or_rule-none : (o : Option Rule) → or_rule o none ≡ o
or_rule-none none = refl
or_rule-none (some r) = refl

pub find_rule-append :
    (id : ℕ) (rules more : List Rule)
    → find_rule id (rules ++ more) ≡ or_rule (find_rule id rules) (find_rule id more)
unfolding find_rule
find_rule-append id [] more = refl
find_rule-append id (s ∷ rules) more = elim (Bool-cases (s.id == id)) [
  | inl same ↦ rw same refl
  | inr differ ↦ rw differ (find_rule-append id rules more)
]

pub find_rule_low :
    (id : ℕ) (rules : List Rule) → All (λ r. r.id < id) rules → find_rule id rules ≡ none
unfolding find_rule
find_rule_low id [] low = refl
find_rule_low id (r ∷ rules) low = ground (arith, low.0, find_rule_low id rules low.1)

pub without-grant :
    (t n : ℕ) (rules : List Rule)
    → find_rule (escape_rule_id n) (without_ids (escape_rule_id t ∷ []) rules)
      ≡ (if t == n then none else find_rule (escape_rule_id n) rules)
unfolding escape_rule_id
without-grant t n rules =
    ground (arith, find_rule-without_ids (escape_rule_id n) (escape_rule_id t ∷ []) rules)

granted :
    (t n : ℕ) (entry : Text) (found : Option Rule)
    → or_rule
        (if t == n then none else found)
        (find_rule (escape_rule_id n) (escape_session_rule t entry ∷ []))
      ≡ (if t == n then some (escape_session_rule n entry) else found)
unfolding find_rule escape_session_rule escape_rule_id
granted t n entry found = elim (Bool-cases (t == n)) [
  | inl same ↦ rw ((==_iff t n).0 same) (ground arith)
  | inr differ ↦
      let apart : (escape_base + t == escape_base + n) ≡ false = ground arith in
      rw (apart, differ) (or_rule-none found)
]

pub with-grant :
    (t n : ℕ) (entry : Text) (rules : List Rule)
    → find_rule
        (escape_rule_id n)
        (replace_rules (escape_rule_id t ∷ []) (escape_session_rule t entry ∷ []) rules)
      ≡ (if t == n then some (escape_session_rule n entry) else find_rule (escape_rule_id n) rules)
with-grant t n entry rules =
    rw
      (
        find_rule-append (escape_rule_id n) (without_ids (escape_rule_id t ∷ []) rules)
            (escape_session_rule t entry ∷ []),
        without-grant t n rules,
      )
      (granted t n entry (find_rule (escape_rule_id n) rules))

pub low_any : (id : ℕ) (ids : List ℕ) → All (λ i. i < id) ids → any (λ i. i == id) ids ≡ false
low_any id [] low = refl
low_any id (i ∷ ids) low = ground (arith, low.0, low_any id ids low.1)
