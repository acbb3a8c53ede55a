-- ===== src/Bridge/Headers/Partition.antt =====
-- src/shim/bridge.mjs: the three ways of the engine's headers.
use mathlib.Core.List.{Memᴰ}
use mathlib.Core.List.Memᴰ
use browsception.BridgeRules.{Fields, per_request_header_rule}
use browsception.Bridge.Headers.Carried.{
  IsRuled, any_named, is_dnr_header_iff, rule_sets_iff, rule_ops, last_value,
}
use browsception.Bridge.Headers.{fetch_headers, is_dropped, drop_headers, dnr_fields, is_dnr_header}
use browsception.Prelude.{
  List, Text, Bool, ℕ, ◌||◌, lower, codes, ◌⊎◌, ◌∷◌, ◌≡◌, ◌↔◌, ◌++◌, true, [], subst,
  starts_with_iff, inl, sym, inr, any, text_eq, false, starts_with, refl, some, Bool-cases,
}
use browsception.Dnr.{set_header}

-- The names that are the host's own.
abbrev pub host_names : List Text
host_names =
    codes "accept-charset"
    ∷ codes "accept-encoding"
    ∷ codes "access-control-request-headers"
    ∷ codes "access-control-request-method"
    ∷ codes "connection"
    ∷ codes "content-length"
    ∷ codes "cookie2"
    ∷ codes "date"
    ∷ codes "dnt"
    ∷ codes "expect"
    ∷ codes "host"
    ∷ codes "keep-alive"
    ∷ codes "te"
    ∷ codes "trailer"
    ∷ codes "transfer-encoding"
    ∷ codes "upgrade"
    ∷ codes "via"
    ∷ []

abbrev pub HasPrefix : Text → Text → Type 0
HasPrefix p name = (r : Text) × (name ≡ p ++ r)

abbrev pub IsHosted : Text → Type 0
IsHosted name =
    Memᴰ name host_names ⊎ HasPrefix (codes "proxy-") name ⊎ HasPrefix (codes "sec-") name

-- A header that `fetch` may carry.
abbrev pub IsFetchable : Text × Text → Type 0
IsFetchable h = ¬ IsRuled (lower h.0) × ¬ IsHosted (lower h.0)

or_iff : (a b : Bool) → ((a || b) ≡ true) ↔ (a ≡ true) ⊎ (b ≡ true)
or_iff true b = (λ h. inl refl, λ h. refl)
or_iff false b = (λ h. inr h, λ h. elim h [ inl e ↦ cc | inr e ↦ e ])

is_dropped_iff : (n : Text) → (is_dropped n ≡ true) ↔ IsHosted n
unfolding is_dropped drop_headers
is_dropped_iff n =
    let listed = any_named n host_names in
    let proxy = starts_with_iff n (codes "proxy-") in
    let sec = starts_with_iff n (codes "sec-") in
    let first = or_iff (any (λ h. text_eq n h) host_names) (starts_with n (codes "proxy-")) in
    let either =
      or_iff (any (λ h. text_eq n h) host_names || starts_with n (codes "proxy-"))
        (starts_with n (codes "sec-")) in
    (
      λ h. elim (either.0 h) [
        | inl a ↦ elim (first.0 a) [ inl b ↦ inl (listed.0 b) | inr b ↦ inr (inl (proxy.0 b)) ]
        | inr c ↦ inr (inr (sec.0 c))
      ],
      λ h. either.1 (elim h [
        | inl a ↦ inl (first.1 (inl (listed.1 a)))
        | inr b ↦ elim b [ inl c ↦ inl (first.1 (inr (proxy.1 c))) | inr c ↦ inr (sec.1 c) ]
      ]),
    )

-- What the fetch's headers are to those of the engine.
abbrev Partitions : Fields → Fields → Type 0
Partitions headers kept = (h : Text × Text) → Memᴰ h kept ↔ (Memᴰ h headers × IsFetchable h)

skipping :
    (h : Text × Text) (headers kept : Fields)
    → ¬ IsFetchable h
    → Partitions headers kept
    → Partitions (h ∷ headers) kept
skipping h headers kept bad same k = (
  λ m. let (l, ok) = (same k).0 m in (Memᴰ.tail l, ok),
  λ (l, ok). elim l [
    | Memᴰ.head e ↦ absurd (bad (subst IsFetchable e ok))
    | Memᴰ.tail m ↦ (same k).1 (m, ok)
  ],
)

keeping :
    (h : Text × Text) (headers kept : Fields)
    → IsFetchable h
    → Partitions headers kept
    → Partitions (h ∷ headers) (h ∷ kept)
keeping h headers kept fits same k = (
  λ m. elim m [
    | Memᴰ.head e ↦ (Memᴰ.head e, subst IsFetchable (sym e) fits)
    | Memᴰ.tail l ↦ let (l, ok) = (same k).0 l in (Memᴰ.tail l, ok)
  ],
  λ (m, ok). elim m [ Memᴰ.head e ↦ Memᴰ.head e | Memᴰ.tail l ↦ Memᴰ.tail ((same k).1 (l, ok)) ],
)

fetch_headers-Partitions : (headers : Fields) → Partitions headers (fetch_headers headers)
unfolding fetch_headers
fetch_headers-Partitions [] = λ k. (λ m. absurd (Memᴰ.not-nil m), λ p. absurd (Memᴰ.not-nil p.0))
fetch_headers-Partitions (h ∷ headers) =
    let n = lower h.0 in
    let rest = fetch_headers-Partitions headers in
    elim (Bool-cases (is_dnr_header n)) [
      | inl e ↦ rw e (skipping h headers _ (λ ok. ok.0 ((is_dnr_header_iff n).0 e)) rest)
      | inr e ↦ elim (Bool-cases (is_dropped n)) [
        | inl d ↦ rw (e, d) (skipping h headers _ (λ ok. ok.1 ((is_dropped_iff n).0 d)) rest)
        | inr d ↦
            let fits : IsFetchable h = (
              λ ruled. let t = (is_dnr_header_iff n).1 ruled in absurd cc,
              λ hosted. let t = (is_dropped_iff n).1 hosted in absurd cc,
            ) in
            rw (e, d) (keeping h headers _ fits rest)
      ]
    ]

-- Each header of the engine takes one of three ways, by its name in lower case. Cookies, referer,
-- origin, user agent and fetch metadata never ride the fetch, and the rule made from those that are
-- collected sets exactly their last values: an operation of it sets a name to a value if and only if
-- the name is one of these and the value is the last one that the engine gave. The headers that the
-- host owns, and all others that begin with proxy- or sec-, take neither way; and every other one is
-- among those of the fetch, with its name and value, exactly if it is among the engine's.
pub fetch_headers_lem :
    (headers : Fields) (id : ℕ) (url ext_id : Text)
    → ((h : Text × Text) → Memᴰ h (fetch_headers headers) ↔ (Memᴰ h headers × IsFetchable h))
      × ((n v : Text)
          → Memᴰ
              (set_header n v)
              (rule_ops (per_request_header_rule id url (dnr_fields [] headers) ext_id))
            ↔ (IsRuled n × (last_value n headers ≡ some v)))
fetch_headers_lem headers id url ext_id =
    (fetch_headers-Partitions headers, λ n v. rule_sets_iff id url ext_id headers n v)
