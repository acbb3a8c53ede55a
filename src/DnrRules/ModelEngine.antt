-- ===== src/DnrRules/ModelEngine.antt =====
-- A rule engine that meets the interface: it obeys the first rule of the highest priority among
-- those that apply.
use browsception.Prelude.{
  ℕ, ◌≤◌, ◌≡◌, ◌↔◌, refl, Text, List, [], ◌∷◌, some, none, Option, Bool, true, false, ◌&&◌, arith,
  leb, ◌==◌, if◌then◌else◌, any, Bool-cases, inl, inr, sym, ap, any_inv, subst, any_intro,
}
use mathlib.Core.List.Memᴰ
use mathlib.Core.List.{Memᴰ}
use browsception.Dnr.{Rule, ResourceType, main_frame, xmlhttprequest}
use browsception.DnrRules.Engine.{Navigation, Applies, RuleEngine, TabFits, FilterFits}

kind_eq : ResourceType → ResourceType → Bool
kind_eq main_frame main_frame = true
kind_eq xmlhttprequest xmlhttprequest = true
kind_eq _ _ = false

kind_eq_iff : (a b : ResourceType) → (kind_eq a b ≡ true) ↔ (a ≡ b)
unfolding kind_eq
kind_eq_iff main_frame main_frame = ground arith
kind_eq_iff xmlhttprequest xmlhttprequest = ground arith
kind_eq_iff main_frame _ = ground arith
kind_eq_iff xmlhttprequest _ = ground arith

tab_fits : Option (List ℕ) → ℕ → Bool
tab_fits none t = true
tab_fits (some ids) t = any (λ i. t == i) ids

filter_fits : (Text → Text → Bool) → Option Text → Text → Bool
filter_fits re2 none url = true
filter_fits re2 (some filter) url = re2 filter url

applies : (Text → Text → Bool) → Navigation → Rule → Bool
unfolding tab_fits filter_fits
applies re2 q r =
    any (λ k. kind_eq q.kind k) r.condition.resource_types
    && (tab_fits r.condition.tab_ids q.tab && filter_fits re2 r.condition.regex_filter q.url)

tab_fits_iff : (o : Option (List ℕ)) (t : ℕ) → (tab_fits o t ≡ true) ↔ TabFits o t
unfolding tab_fits
tab_fits_iff none t = (λ _. tt, λ _. refl)
tab_fits_iff (some ids) t = (
  λ h.
      let (x, m, e) = any_inv (λ i. t == i) ids h in
      subst (λ y. Memᴰ y ids) {x = x} (ground arith) m,
  λ m. any_intro (λ i. t == i) ids m (ground arith),
)

filter_fits_iff :
    (re2 : Text → Text → Bool) (o : Option Text) (url : Text)
    → (filter_fits re2 o url ≡ true) ↔ FilterFits re2 o url
unfolding filter_fits
filter_fits_iff re2 none url = (λ _. tt, λ _. refl)
filter_fits_iff re2 (some f) url = (λ h. h, λ h. h)

module _ (re2 : Text → Text → Bool) (q : Navigation) where
  applies_sound : (r : Rule) → applies re2 q r ≡ true → Applies re2 r q
  unfolding applies
  applies_sound r h =
      let (k, m, e) = any_inv (λ k. kind_eq q.kind k) r.condition.resource_types (ground arith) in
      record {
        kind = subst (λ y. Memᴰ y r.condition.resource_types) (sym ((kind_eq_iff q.kind k).0 e)) m;
        tab = (tab_fits_iff r.condition.tab_ids q.tab).0 (ground arith);
        filter = (filter_fits_iff re2 r.condition.regex_filter q.url).0 (ground arith);
      }

  applies_complete : (r : Rule) → Applies re2 r q → applies re2 q r ≡ true
  unfolding applies
  applies_complete r a = ground (
    arith,
    any_intro (λ k. kind_eq q.kind k) r.condition.resource_types a.kind
        ((kind_eq_iff q.kind q.kind).1 refl),
    (tab_fits_iff r.condition.tab_ids q.tab).1 a.tab,
    (filter_fits_iff re2 r.condition.regex_filter q.url).1 a.filter,
  )

  better : Rule → Option Rule → Option Rule
  better r none = some r
  better r (some s) = if leb s.priority r.priority then some r else some s

  best : List Rule → Option Rule
  best [] = none
  best (r ∷ rs) = let rest = best rs in if applies re2 q r then better r rest else rest

  -- Membership, applicability and maximality of the choice, by induction on the list.
  abbrev IsBest : List Rule → Option Rule → Type 0
  IsBest rs none = (s : Rule) → Memᴰ s rs → ¬ Applies re2 s q
  IsBest rs (some r) =
      Memᴰ r rs
      × Applies re2 r q
      × ((s : Rule) → Memᴰ s rs → Applies re2 s q → s.priority ≤ r.priority)

  skip :
      (r : Rule) (rs : List Rule) (o : Option Rule)
      → applies re2 q r ≡ false
      → IsBest rs o
      → IsBest (r ∷ rs) o
  skip r rs none miss h = λ s m a. elim (Memᴰ.cases_cons m) [
    | inl e ↦ cc (miss, applies_complete r (subst (λ x. Applies re2 x q) e a))
    | inr n ↦ h s n a
  ]
  skip r rs (some t) miss (m, a, top) = (
    Memᴰ.tail m,
    a,
    λ s n b. elim (Memᴰ.cases_cons n) [
      | inl e ↦ cc (miss, applies_complete r (subst (λ x. Applies re2 x q) e b))
      | inr k ↦ top s k b
    ],
  )

  take_first :
      (r : Rule) (rs : List Rule)
      → Applies re2 r q
      → ((s : Rule) → Memᴰ s rs → Applies re2 s q → s.priority ≤ r.priority)
      → IsBest (r ∷ rs) (some r)
  take_first r rs a top = (
    Memᴰ.head refl,
    a,
    λ s n b. elim (Memᴰ.cases_cons n) [
      | inl e ↦ omega (arith, ap (λ (x : Rule). x.priority) e)
      | inr k ↦ top s k b
    ],
  )

  step :
      (r : Rule) (rs : List Rule) (o : Option Rule)
      → Applies re2 r q
      → IsBest rs o
      → IsBest (r ∷ rs) (better r o)
  unfolding better
  step r rs none a h = take_first r rs a (λ s m b. absurd (h s m b))
  step r rs (some t) a (m, b, top) = elim (Bool-cases (leb t.priority r.priority)) [
    | inl le ↦ rw le (take_first r rs a (λ s n c. ground (arith, top s n c)))
    | inr gt ↦ rw gt (
      Memᴰ.tail m,
      b,
      λ s n c. elim (Memᴰ.cases_cons n) [
        | inl e ↦ ground (arith, ap (λ (x : Rule). x.priority) e)
        | inr k ↦ top s k c
      ],
    )
  ]

  best-IsBest : (rs : List Rule) → IsBest rs (best rs)
  unfolding best
  best-IsBest [] = λ s m a. elim m [ ]
  best-IsBest (r ∷ rs) = elim (Bool-cases (applies re2 q r)) [
    | inl hit ↦ rw hit (step r rs (best rs) (applies_sound r hit) (best-IsBest rs))
    | inr miss ↦ rw miss (skip r rs (best rs) miss (best-IsBest rs))
  ]

pub model_engine : (re2 : Text → Text → Bool) → RuleEngine re2
model_engine re2 = record {
  obeyed = λ rs q. best re2 q rs;
  listed = λ rs q r e. let (m, a, _) = subst (IsBest re2 q rs) e (best-IsBest re2 q rs) in (m, a);
  highest = λ rs q r s e m a. (subst (IsBest re2 q rs) e (best-IsBest re2 q rs)).2 s m a;
  some_rule = λ rs q s m a e. (subst (IsBest re2 q rs) e (best-IsBest re2 q rs)) s m a;
}
