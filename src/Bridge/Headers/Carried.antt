-- ===== src/Bridge/Headers/Carried.antt =====
-- src/shim/bridge.mjs and src/ext/bridge-rules.mjs: the headers of the engine that a session rule sets.
use browsception.Dnr.{allow, redirect, modify_headers, HeaderOp, Rule, set_header}
use mathlib.Core.List.{Memᴰ}
use mathlib.Core.List.Memᴰ
use browsception.BridgeRules.{
  Fields, header_ops, field, set_field, dnr_request_headers, per_request_header_rule, carried,
  set_if,
}
use browsception.Prelude.{
  Text, List, Option, codes, Bool, some, ◌≡◌, none, any, if◌then◌else◌, ◌∷◌, true, refl, text_eq,
  [], lower, false, ◌↔◌, Bool-cases, inl, inr, text_eq_iff, ℕ, text_eq_swap, any_inv, subst, ◌∙◌,
  sym, ◌⊎◌, any_intro, text_eq_refl,
}
use browsception.Bridge.Headers.{dnr_fields, is_dnr_header}

-- The engine's cookies, where it navigates from, what it calls itself, and its fetch metadata.
abbrev pub rule_names : List Text
rule_names =
    codes "cookie"
    ∷ codes "referer"
    ∷ codes "origin"
    ∷ codes "user-agent"
    ∷ codes "sec-fetch-dest"
    ∷ codes "sec-fetch-mode"
    ∷ codes "sec-fetch-site"
    ∷ codes "sec-fetch-user"
    ∷ []

abbrev pub IsRuled : Text → Type 0
IsRuled name = Memᴰ name rule_names

abbrev orelse {ℓ} : {A : Type ℓ} → Option A → Option A → Option A
orelse none y = y
orelse (some x) y = some x

-- The last value that the engine gives for a name, in whatever case it writes it.
unfoldable pub last_value : Text → Fields → Option Text
last_value n [] = none
last_value n ((name, value) ∷ headers) =
    orelse (last_value n headers) (if text_eq (lower name) n then some value else none)

-- What a rule does to the headers of its requests.
abbrev pub rule_ops : Option Rule → List HeaderOp
rule_ops none = []
rule_ops (some r) = elim r.action [ allow ↦ [] | redirect url ↦ [] | modify_headers ops ↦ ops ]

pub any_named :
    (n : Text) (names : List Text) → (any (λ h. text_eq n h) names ≡ true) ↔ Memᴰ n names
any_named n names = (
  λ h.
      let (x, m, e) = any_inv (λ h. text_eq n h) names h in
      subst (λ y. Memᴰ y names) (sym ((text_eq_iff n x).0 e)) m,
  λ m. any_intro (λ h. text_eq n h) names m (text_eq_refl n),
)

pub is_dnr_header_iff : (n : Text) → (is_dnr_header n ≡ true) ↔ IsRuled n
unfolding is_dnr_header dnr_request_headers
is_dnr_header_iff n = any_named n rule_names

if_twice {ℓ} :
    {A : Type ℓ} (b : Bool) (x y z : A)
    → (if b then x else z) ≡ (if b then x else if b then y else z)
if_twice true x y z = refl
if_twice false x y z = refl

-- Tests for two different names, in either order.
if_apart :
    (k j n v w : Text) (z : Option Text)
    → text_eq j k ≡ false
    → (if text_eq j n then some w else if text_eq k n then some v else z)
      ≡ (if text_eq k n then some v else if text_eq j n then some w else z)
if_apart k j n v w z other = elim (Bool-cases (text_eq j n)) [
  | inr f ↦ rw f refl
  | inl t ↦
      let e = (text_eq_iff j n).0 t in
      let apart : text_eq k n ≡ false = text_eq_swap n k (rw (← e) other) in rw (t, apart) refl
]

field-set_field :
    (k n v : Text) (fields : Fields)
    → field n (set_field k v fields) ≡ (if text_eq k n then some v else field n fields)
unfolding field set_field
field-set_field k n v [] = refl
field-set_field k n v ((j, w) ∷ fields) = elim (Bool-cases (text_eq j k)) [
  | inl same ↦
      let e = (text_eq_iff j k).0 same in
      rw (same, e) (if_twice (text_eq k n) (some v) (some w) (field n fields))
  | inr other ↦ rw (other, field-set_field k n v fields) (if_apart k j n v w (field n fields) other)
]

orelse_assoc :
    (x : Option Text) (b : Bool) (v : Text) (y : Option Text)
    → orelse x (if b then some v else y) ≡ orelse (orelse x (if b then some v else none)) y
orelse_assoc none true v y = refl
orelse_assoc none false v y = refl
orelse_assoc (some x) b v y = refl

orelse-none : (x : Option Text) → orelse x none ≡ x
orelse-none none = refl
orelse-none (some x) = refl

other_name : (k n : Text) → is_dnr_header k ≡ false → is_dnr_header n ≡ true → text_eq k n ≡ false
other_name k n d ruled = elim (Bool-cases (text_eq k n)) [
  | inr f ↦ f
  | inl t ↦ let e = (text_eq_iff k n).0 t in cc
]

field-dnr_fields :
    (n : Text) (dnr headers : Fields)
    → is_dnr_header n ≡ true
    → field n (dnr_fields dnr headers) ≡ orelse (last_value n headers) (field n dnr)
unfolding dnr_fields last_value
field-dnr_fields n dnr [] ruled = refl
field-dnr_fields n dnr ((name, value) ∷ headers) ruled =
    elim (Bool-cases (is_dnr_header (lower name))) [
      | inl d ↦
          rw
            (
              d,
              field-dnr_fields n (set_field (lower name) value dnr) headers ruled,
              field-set_field (lower name) n value dnr,
            )
            (orelse_assoc (last_value n headers) (text_eq (lower name) n) value (field n dnr))
      | inr d ↦
          rw
            (
              d,
              field-dnr_fields n dnr headers ruled,
              other_name (lower name) n d ruled,
              orelse-none (last_value n headers),
            )
            refl
    ]

-- One operation more, where there is a value.
set_if_iff :
    (m : Text) (o : Option Text) (ops : List HeaderOp) (n v : Text)
    → Memᴰ (set_header n v) (set_if m o ops) ↔ ((n ≡ m) × (o ≡ some v)) ⊎ Memᴰ (set_header n v) ops
set_if_iff m none ops n v =
    (λ h. inr h, λ h. elim h [ inl p ↦ let e = p.1 in absurd cc | inr k ↦ k ])
set_if_iff m (some w) ops n v = (
  λ h. elim h [ Memᴰ.head e ↦ inl (cc, cc) | Memᴰ.tail k ↦ inr k ],
  λ h. elim h [ inl p ↦ let a = p.0 in let b = p.1 in Memᴰ.head cc | inr k ↦ Memᴰ.tail k ],
)

-- The operations set the fields of the names.
header_ops_iff :
    (names : List Text) (fields : Fields) (n v : Text)
    → Memᴰ (set_header n v) (header_ops names fields) ↔ (Memᴰ n names × (field n fields ≡ some v))
unfolding header_ops
header_ops_iff [] fields n v = (λ m. absurd (Memᴰ.not-nil m), λ p. absurd (Memᴰ.not-nil p.0))
header_ops_iff (m ∷ names) fields n v =
    let rest = header_ops_iff names fields n v in
    let here' = set_if_iff m (field m fields) (header_ops names fields) n v in
    (
      λ h. elim (here'.0 h) [
        | inl (e, f) ↦ (Memᴰ.head e, subst (λ k. field k fields ≡ some v) (sym e) f)
        | inr k ↦ let (l, f) = rest.0 k in (Memᴰ.tail l, f)
      ],
      λ (l, f). here'.1 (elim l [
        | Memᴰ.head e ↦ inl (e, subst (λ k. field k fields ≡ some v) e f)
        | Memᴰ.tail k ↦ inr (rest.1 (k, f))
      ]),
    )

rule_ops-carried :
    (id : ℕ) (url ext_id : Text) (ops : List HeaderOp) → rule_ops (carried id url ext_id ops) ≡ ops
rule_ops-carried id url ext_id [] = refl
rule_ops-carried id url ext_id (op ∷ ops) = refl

-- What the rule of a request sets, from the engine's headers.
pub rule_sets_iff :
    (id : ℕ) (url ext_id : Text) (headers : Fields) (n v : Text)
    → Memᴰ
        (set_header n v)
        (rule_ops (per_request_header_rule id url (dnr_fields [] headers) ext_id))
      ↔ (IsRuled n × (last_value n headers ≡ some v))
unfolding per_request_header_rule dnr_request_headers field
rule_sets_iff id url ext_id headers n v =
    let fields = dnr_fields [] headers in
    let sets = header_ops_iff rule_names fields n v in
    let value : IsRuled n → field n fields ≡ last_value n headers = λ ruled.
      field-dnr_fields n [] headers ((is_dnr_header_iff n).1 ruled)
      ∙ orelse-none (last_value n headers) in
    let same = rule_ops-carried id url ext_id (header_ops rule_names fields) in
    (
      λ h.
          let (ruled, e) = sets.0 (subst (λ ops. Memᴰ (set_header n v) ops) same h) in
          (ruled, sym (value ruled) ∙ e),
      λ (ruled, e).
          subst (λ ops. Memᴰ (set_header n v) ops) (sym same) (sets.1 (ruled, value ruled ∙ e)),
    )
