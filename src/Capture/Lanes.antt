-- ===== src/Capture/Lanes.antt =====
-- What the capture promises: each key is a lane of its own, a queue of entries and a queue of takers,
-- both first in, first out.
use browsception.Prelude.{
  ℕ, Text, ◌≡◌, List, [], ◌∷◌, ◌++◌, refl, arith, if◌then◌else◌, text_eq, ltb, ◌-◌, Bool-cases, inl,
  inr, ap, subst, ◌∙◌, text_eq_iff, some, none,
}
use browsception.Prelude.TextMap.{TextMap, lookup, insert, remove, lookup-insert, lookup-remove}
use browsception.Capture.{Capture, Stamped, queue_at, waiters_at, list_of, Resolution, resolved}
use browsception.Capture.Queues.{
  sweep, fresh_entries, fresh_queues, without, set_queue, keep_queue, set_waiters, take_at, push_at,
  push, claim_entry, time_out,
}

pub record Lane : Type 0 where
  pub queued : List Stamped
  pub waiting : List ℕ

abbrev pub lane : Text → Capture → Lane
lane key s = record { queued = queue_at key s; waiting = waiters_at key s }

-- An entry goes to the first taker, or to the end of the queue.
abbrev pub offer : Stamped → Lane → Lane
offer e l = elim l.waiting [
  | w ∷ ws ↦ record l { waiting = ws }
  | [] ↦ record l { queued = l.queued ++ e ∷ [] }
]

-- A taker gets the first entry, or waits behind the others.
abbrev pub claim : ℕ → Lane → Lane
claim taker l = elim l.queued [
  | e ∷ q ↦ record l { queued = q }
  | [] ↦ record l { waiting = l.waiting ++ taker ∷ [] }
]

abbrev pub give_up : ℕ → Lane → Lane
give_up taker l = record l { waiting = without taker l.waiting }

abbrev pub drop_old : ℕ → ℕ → Lane → Lane
drop_old now age l = record l { queued = fresh_entries now age l.queued }

-- Whose promise an offer resolves, with the entry's place, and whose a claim does.
abbrev pub offered : Stamped → Lane → List Resolution
offered e l = elim l.waiting [ w ∷ ws ↦ resolved w (some e.entry) ∷ [] | [] ↦ [] ]

abbrev pub claimed : ℕ → Lane → List Resolution
claimed taker l = elim l.queued [ e ∷ q ↦ resolved taker (some e.entry) ∷ [] | [] ↦ [] ]

-- An operation on the lane of one key leaves the others alone.
abbrev pub on_key : Text → Text → (Lane → Lane) → Lane → Lane
on_key key j f l = if text_eq key j then f l else l

list_of-insert {ℓ} :
    {A : Type ℓ} (key j : Text) (xs : List A) (m : TextMap (List A))
    → list_of (lookup j (insert key xs m)) ≡ (if text_eq key j then xs else list_of (lookup j m))
list_of-insert key j xs m = ground (arith, lookup-insert key j xs m)

list_of-remove {ℓ} :
    {A : Type ℓ} (key j : Text) (m : TextMap (List A))
    → list_of (lookup j (remove key m)) ≡ (if text_eq key j then [] else list_of (lookup j m))
list_of-remove key j m = ground (arith, lookup-remove key j m)

list_of-set_queue :
    (key j : Text) (q : List Stamped) (m : TextMap (List Stamped))
    → list_of (lookup j (set_queue key q m)) ≡ (if text_eq key j then q else list_of (lookup j m))
list_of-set_queue key j [] m = list_of-remove key j m
list_of-set_queue key j (e ∷ q) m = list_of-insert key j (e ∷ q) m

list_of-set_waiters :
    (key j : Text) (ws : List ℕ) (m : TextMap (List ℕ))
    → list_of (lookup j (set_waiters key ws m))
      ≡ (if text_eq key j then ws else list_of (lookup j m))
list_of-set_waiters key j [] m = list_of-remove key j m
list_of-set_waiters key j (w ∷ ws) m = list_of-insert key j (w ∷ ws) m

list_of-keep_queue :
    (key j : Text) (q : List Stamped) (m : TextMap (List Stamped))
    → list_of (lookup j (keep_queue key q m)) ≡ (if text_eq key j then q else list_of (lookup j m))
unfolding lookup
list_of-keep_queue key j [] m = list_of-remove key j m
list_of-keep_queue key j (e ∷ q) m = ground arith

list_of-fresh_queues :
    (now age : ℕ) (j : Text) (m : TextMap (List Stamped))
    → list_of (lookup j (fresh_queues now age m)) ≡ fresh_entries now age (list_of (lookup j m))
unfolding lookup fresh_queues fresh_entries
list_of-fresh_queues now age j [] = refl
list_of-fresh_queues now age j ((key, q) ∷ m) = ground (
  arith,
  list_of-keep_queue key j (fresh_entries now age q) (fresh_queues now age m),
  list_of-fresh_queues now age j m,
)

pub sweep-lane :
    (now : ℕ) (j : Text) (s : Capture)
    → lane j (sweep now s) ≡ (
        if ltb (now - s.last_sweep) s.sweep_interval
        then lane j s
        else drop_old now s.max_age (lane j s))
unfolding sweep
sweep-lane now j s = elim (Bool-cases (ltb (now - s.last_sweep) s.sweep_interval)) [
  | inl early ↦ rw early refl
  | inr due ↦ rw due (
      ap (λ q. record { queued = q; waiting = waiters_at j s })
        (list_of-fresh_queues now s.max_age j s.queues))
]

-- A lane whose queue, or whose takers, are replaced at one key.
on_key-queue :
    (key j : Text) (s : Capture) (q : List Stamped) (m : TextMap (List Stamped))
    → list_of (lookup j m) ≡ (if text_eq key j then q else queue_at j s)
    → lane j (record s { queues = m }) ≡ on_key key j (λ l. record l { queued = q }) (lane j s)
on_key-queue key j s q m e = elim (Bool-cases (text_eq key j)) [
  | inl same ↦ rw same (ap (λ q. record { queued = q; waiting = waiters_at j s }) (rw same at e))
  | inr other ↦ rw other (ap (λ q. record { queued = q; waiting = waiters_at j s }) (rw other at e))
]

on_key-waiting :
    (key j : Text) (s : Capture) (ws : List ℕ) (m : TextMap (List ℕ))
    → list_of (lookup j m) ≡ (if text_eq key j then ws else waiters_at j s)
    → lane j (record s { waiters = m }) ≡ on_key key j (λ l. record l { waiting = ws }) (lane j s)
on_key-waiting key j s ws m e = elim (Bool-cases (text_eq key j)) [
  | inl same ↦ rw same (ap (λ ws. record { queued = queue_at j s; waiting = ws }) (rw same at e))
  | inr other ↦ rw other (ap (λ ws. record { queued = queue_at j s; waiting = ws }) (rw other at e))
]

-- Operations that agree on the lane of the key agree on every lane.
on_key-same :
    (key j : Text) (s : Capture) (f g : Lane → Lane)
    → f (lane key s) ≡ g (lane key s)
    → on_key key j f (lane j s) ≡ on_key key j g (lane j s)
on_key-same key j s f g e = elim (Bool-cases (text_eq key j)) [
  | inl same ↦ rw same (subst (λ i. f (lane i s) ≡ g (lane i s)) ((text_eq_iff key j).0 same) e)
  | inr other ↦ rw other refl
]

push_at-lane :
    (key j : Text) (e : Stamped) (s : Capture) (ws : List ℕ)
    → waiters_at key s ≡ ws
    → lane j (push_at key e s ws).0 ≡ on_key key j (offer e) (lane j s)
push_at-lane key j e s [] none' =
    on_key-queue key j s _ _ (list_of-insert key j (queue_at key s ++ e ∷ []) s.queues)
    ∙ on_key-same key j s (λ l. record l { queued = queue_at key s ++ e ∷ [] }) (offer e)
        (rw none' refl)
push_at-lane key j e s (w ∷ ws) some' =
    on_key-waiting key j s _ _ (list_of-insert key j ws s.waiters)
    ∙ on_key-same key j s (λ l. record l { waiting = ws }) (offer e) (rw some' refl)

take_at-lane :
    (key j : Text) (taker : ℕ) (s : Capture) (q : List Stamped)
    → queue_at key s ≡ q
    → lane j (take_at key taker s q).0 ≡ on_key key j (claim taker) (lane j s)
take_at-lane key j taker s [] none' =
    on_key-waiting key j s _ _ (list_of-insert key j (waiters_at key s ++ taker ∷ []) s.waiters)
    ∙ on_key-same key j s (λ l. record l { waiting = waiters_at key s ++ taker ∷ [] }) (claim taker)
        (rw none' refl)
take_at-lane key j taker s (e ∷ q) some' =
    on_key-queue key j s _ _ (list_of-set_queue key j q s.queues)
    ∙ on_key-same key j s (λ l. record l { queued = q }) (claim taker) (rw some' refl)

push_at-offered :
    (key : Text) (e : Stamped) (s : Capture) (ws : List ℕ)
    → waiters_at key s ≡ ws
    → (push_at key e s ws).1 ≡ offered e (lane key s)
push_at-offered key e s [] none' = rw none' refl
push_at-offered key e s (w ∷ ws) some' = rw some' refl

take_at-claimed :
    (key : Text) (taker : ℕ) (s : Capture) (q : List Stamped)
    → queue_at key s ≡ q
    → (take_at key taker s q).1 ≡ claimed taker (lane key s)
take_at-claimed key taker s [] none' = rw none' refl
take_at-claimed key taker s (e ∷ q) some' = rw some' refl

pub capture-lanes :
    (key j : Text) (e : Stamped) (taker : ℕ) (s : Capture)
    → (lane j (push key e s).0 ≡ on_key key j (offer e) (lane j (sweep e.at s)))
      × ((push key e s).1 ≡ offered e (lane key (sweep e.at s)))
      × (lane j (claim_entry key taker s).0 ≡ on_key key j (claim taker) (lane j s))
      × ((claim_entry key taker s).1 ≡ claimed taker (lane key s))
      × (lane j (time_out key taker s).0 ≡ on_key key j (give_up taker) (lane j s))
      × ((time_out key taker s).1 ≡ resolved taker none ∷ [])
      × (lane j (sweep e.at s) ≡ (
          if ltb (e.at - s.last_sweep) s.sweep_interval
          then lane j s
          else drop_old e.at s.max_age (lane j s)))
unfolding push claim_entry time_out
capture-lanes key j e taker s = (
  push_at-lane key j e (sweep e.at s) _ refl,
  push_at-offered key e (sweep e.at s) _ refl,
  take_at-lane key j taker s _ refl,
  take_at-claimed key taker s _ refl,
  on_key-waiting key j s _ _
        (list_of-set_waiters key j (without taker (waiters_at key s)) s.waiters)
      ∙ on_key-same key j s (λ l. record l { waiting = without taker (waiters_at key s) })
          (give_up taker) refl,
  refl,
  sweep-lane e.at j s,
)
