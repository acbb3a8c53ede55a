-- ===== src/Bridge/Ledger.antt =====
-- The ids in use are those of the requests in flight, one for each: what `#finish` and
-- `#allocRuleId` keep between them.
pub mod Steps
pub mod Begin
pub mod Runs
use browsception.Prelude.{
  ℕ, ◌≡◌, ◌≢◌, List, [], ◌∷◌, Option, none, some, true, false, arith, if◌then◌else◌, ◌∙◌, sym, refl,
  Text, ap, ◌==◌, Bool-cases, inl, inr,
}
use browsception.Prelude.Maps.{Map, get, put, delete, get-put, get-delete}
use browsception.Bridge.{
  Bridge, Pending, finish, fail, remove_id, release, finish_at, fail_at, NetErr,
}
use browsception.Bridge.RuleIds.Fresh.{has_id-remove_id}
use browsception.Bridge.RuleIds.{has_id}
use browsception.Bridge.Requests.{update, update_at}

abbrev pub rule_of_pending : Option Pending → Option ℕ
rule_of_pending none = none
rule_of_pending (some st) = st.rule_id

-- The rule id of a request in flight.
abbrev pub rule_of : Map Pending → ℕ → Option ℕ
rule_of m id = rule_of_pending (get id m)

pub record IsLedger (m : Map Pending) (used : List ℕ) : Type 0 where
  pub held : (id i : ℕ) → rule_of m id ≡ some i → has_id i used ≡ true
  pub owned : (i : ℕ) → has_id i used ≡ true → (id : ℕ) × (rule_of m id ≡ some i)
  pub single : (id j i : ℕ) → rule_of m id ≡ some i → rule_of m j ≡ some i → id ≡ j

pub IsLedger-same :
    (m n : Map Pending) (used : List ℕ)
    → ((id : ℕ) → rule_of n id ≡ rule_of m id)
    → IsLedger m used
    → IsLedger n used
IsLedger-same m n used same l = record {
  held = λ id i e. l.held id i (sym (same id) ∙ e);
  owned = λ i e. let (id, k) = l.owned i e in (id, same id ∙ k);
  single = λ id j i e k. l.single id j i (sym (same id) ∙ e) (sym (same j) ∙ k);
}

pub rule_of-put :
    (k j : ℕ) (st : Pending) (m : Map Pending)
    → rule_of (put k st m) j ≡ (if k == j then st.rule_id else rule_of m j)
rule_of-put k j st m = ground (arith, get-put k j st m)

rule_of-delete :
    (k j : ℕ) (m : Map Pending) → rule_of (delete k m) j ≡ (if k == j then none else rule_of m j)
rule_of-delete k j m = ground (arith, get-delete k j m)

pub rule_of-put_same :
    (k : ℕ) (st : Pending) (m : Map Pending)
    → st.rule_id ≡ rule_of m k
    → (j : ℕ) → rule_of (put k st m) j ≡ rule_of m j
rule_of-put_same k st m e j = ground (arith, rule_of-put k j st m)

some_inv : {i j : ℕ} → some i ≡ some j → i ≡ j
some_inv e = cc

remove_id_inv :
    (i k : ℕ) (used : List ℕ)
    → has_id k (remove_id i used) ≡ true
    → (k ≢ i) × (has_id k used ≡ true)
unfolding has_id remove_id
remove_id_inv i k [] h = cc
remove_id_inv i k (j ∷ used) h = elim (Bool-cases (j == i)) [
  | inl e ↦ let (n, p) = remove_id_inv i k used (ground (arith, h, e)) in (n, ground (arith, p))
  | inr e ↦ elim (Bool-cases (j == k)) [
    | inl f ↦ (λ s. ground (arith, e, f, s), ground (arith, f))
    | inr f ↦
        let (n, p) = remove_id_inv i k used (ground (arith, h, e, f)) in (n, ground (arith, p))
  ]
]

pub IsLedger-take :
    (m : Map Pending) (used : List ℕ) (id i : ℕ) (st : Pending)
    → rule_of m id ≡ none
    → has_id i used ≡ false
    → st.rule_id ≡ some i
    → IsLedger m used
    → IsLedger (put id st m) (i ∷ used)
unfolding has_id
IsLedger-take m used id i st unheld fresh e l = record {
  held = λ j k h. ground (arith, rule_of-put id j st m, l.held j k);
  owned = λ k h. elim (Bool-cases (i == k)) [
    | inl f ↦ (id, ground (arith, rule_of-put id id st m, e, f))
    | inr f ↦
        let (j, a) = l.owned k (ground (arith, h, f)) in
        (j, ground (arith, rule_of-put id j st m, a, unheld))
  ];
  single = λ j n k h h'.
      ground (
        arith,
        rule_of-put id j st m,
        rule_of-put id n st m,
        l.held j k,
        l.held n k,
        l.single j n k,
      );
}

IsLedger-release :
    (m : Map Pending) (used : List ℕ) (id : ℕ) (r : Option ℕ)
    → rule_of m id ≡ r
    → IsLedger m used
    → IsLedger (delete id m) (release r used)
IsLedger-release m used id none e l =
    IsLedger-same m (delete id m) used (λ j. ground (arith, rule_of-delete id j m, e)) l
IsLedger-release m used id (some i) e l = record {
  held = λ j k h.
      let other : id ≢ j = λ same. ground (arith, rule_of-delete id j m, same, h) in
      let before : rule_of m j ≡ some k = ground (arith, rule_of-delete id j m, h) in
      let apart : i ≢ k = λ same. other (l.single id j k (e ∙ ap some same) before) in
      has_id-remove_id i k used (l.held j k before) apart;
  owned = λ k h.
      let (apart, kept) = remove_id_inv i k used h in
      let (j, a) = l.owned k kept in
      let other : id ≢ j = λ same. apart (some_inv (sym a ∙ sym (ap (rule_of m) same) ∙ e)) in
      (j, ground (arith, rule_of-delete id j m, a, other));
  single =
      λ j n k h h'. ground (arith, rule_of-delete id j m, rule_of-delete id n m, l.single j n k);
}

IsLedger-drop :
    (m : Map Pending) (used : List ℕ) (id : ℕ) (st : Pending)
    → get id m ≡ some st
    → IsLedger m used
    → IsLedger (delete id m) (release st.rule_id used)
IsLedger-drop m used id st e l = IsLedger-release m used id st.rule_id (ap rule_of_pending e) l

pub finish-IsLedger :
    (id : ℕ) (b : Bridge)
    → IsLedger b.inflight b.used_rule_ids
    → IsLedger (finish id b).0.inflight (finish id b).0.used_rule_ids
unfolding finish
finish-IsLedger id b l = at (get id b.inflight) refl
  where
    at :
        (o : Option Pending)
        → get id b.inflight ≡ o
        → IsLedger (finish_at id b o).0.inflight (finish_at id b o).0.used_rule_ids
    at none e = l
    at (some st) e = IsLedger-drop b.inflight b.used_rule_ids id st e l

pub fail-IsLedger :
    (id : ℕ) (kind : NetErr) (message : Option Text) (b : Bridge)
    → IsLedger b.inflight b.used_rule_ids
    → IsLedger (fail id kind message b).0.inflight (fail id kind message b).0.used_rule_ids
unfolding fail
fail-IsLedger id kind message b l = at (get id b.inflight)
  where
    at :
        (o : Option Pending)
        → IsLedger
            (fail_at id kind message b o).0.inflight
            (fail_at id kind message b o).0.used_rule_ids
    at none = l
    at (some st) = finish-IsLedger id b l

pub update-IsLedger :
    (id : ℕ) (f : Pending → Pending) (b : Bridge)
    → ((st : Pending) → (f st).rule_id ≡ st.rule_id)
    → IsLedger b.inflight b.used_rule_ids
    → IsLedger (update id f b).inflight (update id f b).used_rule_ids
unfolding update
update-IsLedger id f b kept l = at (get id b.inflight) refl
  where
    at :
        (o : Option Pending)
        → get id b.inflight ≡ o
        → IsLedger (update_at id f b o).inflight (update_at id f b o).used_rule_ids
    at none e = l
    at (some st) e =
        IsLedger-same b.inflight (put id (f st) b.inflight) b.used_rule_ids
          (rule_of-put_same id (f st) b.inflight (kept st ∙ sym (ap rule_of_pending e))) l
