-- ===== src/Bridge/RuleIds/Fresh.antt =====
-- `#allocRuleId` finds an id that is free.
use browsception.Prelude.{
  ℕ, zero, suc, ◌+◌, ◌-◌, ◌%◌, ◌≤◌, ◌<◌, ◌≡◌, List, [], ◌∷◌, Option, none, some, true, false, arith,
  length, refl, ◌≢◌, Bool-cases, ◌∙◌, sym, inl, inr, subst,
}
use browsception.Bridge.{remove_id}
use browsception.Bridge.RuleIds.{has_id, next_id, search_id, search_rounds, alloc_rule_id}
use browsception.BridgeRules.{per_request_min_id, per_request_max_id}

-- The cursor after so many rounds.
cursor : ℕ → ℕ → ℕ
cursor zero i = i
cursor (suc k) i = cursor k (next_id i)

cursor-ring : (k i : ℕ) → 10000 ≤ i → i < 100000 → cursor k i ≡ 10000 + (i - 10000 + k) % 90000
unfolding cursor
cursor-ring zero i lo hi = omega arith
cursor-ring (suc k) i lo hi =
    let a : 10000 ≤ next_id i = ground arith in
    let b : next_id i < 100000 = ground arith in
    let c : (next_id i - 10000) ≡ (i - 10000 + 1) % 90000 = ground arith in
    omega (arith, cursor-ring k (next_id i) a b, c)

pub search_id_fresh :
    (fuel : ℕ) (used : List ℕ) (i j : ℕ) → search_id fuel used i ≡ some j → has_id j used ≡ false
unfolding search_id
search_id_fresh zero used i j h = cc
search_id_fresh (suc fuel) used i j h = elim (Bool-cases (has_id (next_id i) used)) [
  | inl e ↦ search_id_fresh fuel used (next_id i) j (rw e at h)
  | inr e ↦ let same : next_id i ≡ j = ground (arith, h, e) in rw (sym same) e
]

search_found :
    (fuel : ℕ) (used : List ℕ) (i j : ℕ)
    → 10000 ≤ i
    → search_id fuel used i ≡ some j
    → (has_id j used ≡ false) × (10000 ≤ j) × (j < 100000)
unfolding search_id
search_found zero used i j lo h = cc
search_found (suc fuel) used i j lo h = elim (Bool-cases (has_id (next_id i) used)) [
  | inl e ↦
      let a : 10000 ≤ next_id i = ground arith in search_found fuel used (next_id i) j a (rw e at h)
  | inr e ↦
      let same : next_id i ≡ j = ground (arith, h, e) in
      (
        subst (λ k. has_id k used ≡ false) same e,
        rw (sym same) (ground arith),
        rw (sym same) (ground arith),
      )
]

search_missed :
    (fuel : ℕ) (used : List ℕ) (i k : ℕ)
    → search_id fuel used i ≡ none
    → k < fuel
    → has_id (cursor (suc k) i) used ≡ true
unfolding search_id cursor
search_missed zero used i k h l = absurd (omega (arith, l))
search_missed (suc fuel) used i zero h l = ground (arith, h)
search_missed (suc fuel) used i (suc k) h l = elim (Bool-cases (has_id (next_id i) used)) [
  | inl e ↦ search_missed fuel used (next_id i) k (rw e at h) (omega (arith, l))
  | inr e ↦ ground (arith, h, e)
]

pub has_id-remove_id :
    (i j : ℕ) (used : List ℕ) → has_id j used ≡ true → i ≢ j → has_id j (remove_id i used) ≡ true
unfolding has_id remove_id
has_id-remove_id i j [] h n = cc
has_id-remove_id i j (x ∷ used) h n = ground (arith, has_id-remove_id i j used)

length-remove_id_le : (i : ℕ) (used : List ℕ) → length (remove_id i used) ≤ length used
unfolding remove_id
length-remove_id_le i [] = omega arith
length-remove_id_le i (x ∷ used) = ground (arith, length-remove_id_le i used)

length-remove_id :
    (i : ℕ) (used : List ℕ) → has_id i used ≡ true → length (remove_id i used) < length used
unfolding has_id remove_id
length-remove_id i [] h = cc
length-remove_id i (x ∷ used) h =
    ground (arith, length-remove_id i used, length-remove_id_le i used)

-- A list that holds all of a range is at least as long.
length_of_range :
    (lo n : ℕ) (used : List ℕ)
    → ((j : ℕ) → lo ≤ j → j < lo + n → has_id j used ≡ true)
    → n ≤ length used
length_of_range lo zero used all' = omega arith
length_of_range lo (suc n) used all' =
    let top = all' (lo + n) (omega arith) (omega arith) in
    let below = length_of_range lo n (remove_id (lo + n) used) (λ j a b.
      has_id-remove_id (lo + n) j used (all' j a (omega (arith, b))) (omega (arith, b))) in
    omega (arith, below, length-remove_id (lo + n) used top)

search_exhausted :
    (used : List ℕ) (i : ℕ)
    → 10000 ≤ i
    → i < 100000
    → search_id search_rounds used i ≡ none
    → 90000 ≤ length used
search_exhausted used i lo hi h = length_of_range 10000 90000 used (λ j a b.
    let k = (j + 90000 - i - 1 + 90000) % 90000 in
    let at : cursor (suc k) i ≡ j = cursor-ring (suc k) i lo hi ∙ (omega (arith, a, b, lo, hi)) in
    rw (sym at) (search_missed search_rounds used i k h (omega arith)))

-- With the cursor inside the range of per-request ids and fewer ids in use than the range has, the
-- search ends, with an id of the range that is not in use.
pub alloc_rule_id_fresh :
    (used : List ℕ) (i : ℕ)
    → per_request_min_id ≤ i
    → i < per_request_max_id
    → length used < per_request_max_id - per_request_min_id
    → (j : ℕ) × (alloc_rule_id used i ≡ some j)
      × (has_id j used ≡ false)
      × (per_request_min_id ≤ j)
      × (j < per_request_max_id)
unfolding alloc_rule_id
alloc_rule_id_fresh used i lo hi room = found (search_id search_rounds used i) refl
  where
    found :
        (o : Option ℕ)
        → search_id search_rounds used i ≡ o
        → (j : ℕ) × (search_id search_rounds used i ≡ some j)
          × (has_id j used ≡ false)
          × (per_request_min_id ≤ j)
          × (j < per_request_max_id)
    found none e = absurd (omega (arith, search_exhausted used i lo hi e, room))
    found (some j) e = let (a, b, c) = search_found search_rounds used i j lo e in (j, e, a, b, c)
