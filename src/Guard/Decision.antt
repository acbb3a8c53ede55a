-- ===== src/Guard/Decision.antt =====
-- What the guard lets through.
use browsception.Prelude.{
  ℕ, ◌≤◌, ◌<◌, ◌≡◌, ◌↔◌, ◌⊎◌, refl, ap, Text, [], ◌∷◌, ◌++◌, some, none, arith, true, false, Bool,
  Bool-cases, inl, inr, List, Option, All, All-append, codes, subst, ◌∙◌, sym,
}
use browsception.Host.{Url, UrlParser, has_http_scheme}
use browsception.Guard.{
  is_private_ipv4, evaluate_request, evaluate_url, is_private_host, bare_host, is_bad_port,
  drop_open, drop_close, parse_ipv4, Verdict, deny, is_some_text,
}
use browsception.Guard.Ipv4.{decimal, dotted, parse_ipv4-dotted}

no_text : (t : Text) → is_some_text t ≡ false → t ≡ []
no_text [] h = refl
no_text (c ∷ t) h = cc

abbrev Passes : Bool → Url → Type 0
Passes override u =
    (has_http_scheme u ≡ true)
    × (u.username ≡ [])
    × (u.password ≡ [])
    × (is_bad_port u.port ≡ false)
    × ((override ≡ true) ⊎ (is_private_host (bare_host u.hostname) ≡ false))

evaluate_url_sound :
    (override : Bool) (u : Url) → (evaluate_url override u).allow ≡ true → Passes override u
unfolding evaluate_url
evaluate_url_sound override u h = (
  ground arith,
  no_text u.username (ground arith),
  no_text u.password (ground arith),
  ground arith,
  ground arith,
)

evaluate_url_complete :
    (override : Bool) (u : Url) → Passes override u → (evaluate_url override u).allow ≡ true
unfolding evaluate_url
evaluate_url_complete override u (scheme, name, password, port, host) =
    let a : is_some_text u.username ≡ false = ap is_some_text name in
    let b : is_some_text u.password ≡ false = ap is_some_text password in ground arith

-- The guard allows a request exactly if its URL parses, is http(s), carries no user information and
-- no port of the bad list, and its host is not private, unless the override is on.
pub allowed_iff :
    (parse : UrlParser) (url : Text) (override : Bool)
    → ((evaluate_request parse url override).allow ≡ true) ↔ (
        (u : Url) × (parse url ≡ some u)
        × (has_http_scheme u ≡ true)
        × (u.username ≡ [])
        × (u.password ≡ [])
        × (is_bad_port u.port ≡ false)
        × ((override ≡ true) ⊎ (is_private_host (bare_host u.hostname) ≡ false)))
unfolding evaluate_request
allowed_iff parse url override = by_case (parse url)
  where
    by_case :
        (o : Option Url)
        → ((elim o as (λ _. Verdict) [
          | none ↦ deny (codes "unparseable-url")
          | some u ↦ evaluate_url override u
        ]).allow
            ≡ true)
          ↔ ((u : Url) × (o ≡ some u)
              × (has_http_scheme u ≡ true)
              × (u.username ≡ [])
              × (u.password ≡ [])
              × (is_bad_port u.port ≡ false)
              × ((override ≡ true) ⊎ (is_private_host (bare_host u.hostname) ≡ false)))
    by_case none = (λ h. cc, λ (u, e, _, _, _, _, _). cc)
    by_case (some v) = (
      λ h. let (s, n, p, b, k) = evaluate_url_sound override v h in (v, refl, s, n, p, b, k),
      λ (u, e, s, n, p, b, k).
          let same : u ≡ v = cc in
          evaluate_url_complete override v (subst (Passes override) same (s, n, p, b, k)),
    )

-- The ranges of private IPv4 addresses, by their first two numbers.
abbrev pub IsPrivateRange : ℕ → ℕ → Type 0
IsPrivateRange a b =
    (a ≡ 0)
    ⊎ (a ≡ 10)
    ⊎ (a ≡ 127)
    ⊎ (a ≡ 255)
    ⊎ ((a ≡ 172) × (16 ≤ b) × (b ≤ 31))
    ⊎ ((a ≡ 192) × (b ≡ 168))
    ⊎ ((a ≡ 169) × (b ≡ 254))
    ⊎ ((a ≡ 100) × (64 ≤ b) × (b ≤ 127))

is_private_ipv4_iff :
    (a b : ℕ) (o : List ℕ) → (is_private_ipv4 (a ∷ b ∷ o) ≡ true) ↔ IsPrivateRange a b
unfolding is_private_ipv4
is_private_ipv4_iff a b o = (λ h. ground arith, λ h. ground arith)

abbrev IsUnbracketed : Text → Type 0
IsUnbracketed = All (λ c. c < 91)

decimal-IsUnbracketed : (v : ℕ) → v ≤ 255 → IsUnbracketed (decimal v)
decimal-IsUnbracketed v h = ground arith

drop_close_of_unbracketed : (s : Text) → IsUnbracketed s → drop_close s ≡ s
unfolding drop_close
drop_close_of_unbracketed [] h = refl
drop_close_of_unbracketed (c ∷ []) h = ground (arith, h.0)
drop_close_of_unbracketed (c ∷ d ∷ s) h = ap (◌∷◌ c) (drop_close_of_unbracketed (d ∷ s) h.1)

bare_host_of_unbracketed : (s : Text) → IsUnbracketed s → bare_host s ≡ s
unfolding bare_host
bare_host_of_unbracketed [] h = unfold drop_close in refl
bare_host_of_unbracketed (c ∷ s) h =
    let kept : drop_open (c ∷ s) ≡ c ∷ s = ground (arith, h.0) in
    rw kept (drop_close_of_unbracketed (c ∷ s) h)

dotted-IsUnbracketed :
    (a b c d : ℕ) → a ≤ 255 → b ≤ 255 → c ≤ 255 → d ≤ 255 → IsUnbracketed (dotted a b c d)
dotted-IsUnbracketed a b c d ha hb hc hd =
    join a (decimal b ++ b'.' ∷ (decimal c ++ b'.' ∷ decimal d)) ha (
      join b (decimal c ++ b'.' ∷ decimal d) hb
        (join c (decimal d) hc (decimal-IsUnbracketed d hd)))
  where
    join : (v : ℕ) (s : Text) → v ≤ 255 → IsUnbracketed s → IsUnbracketed (decimal v ++ b'.' ∷ s)
    join v s h k =
        All-append (λ c. c < 91) (decimal v) (b'.' ∷ s) (decimal-IsUnbracketed v h) (omega arith, k)

evaluate_request_of_parsed :
    (parse : UrlParser) (url : Text) (u : Url) (override : Bool)
    → parse url ≡ some u
    → evaluate_request parse url override ≡ evaluate_url override u
unfolding evaluate_request
evaluate_request_of_parsed parse url u override parsed = rw (parsed, evaluate_request) refl

private_host_of_octets :
    (h : Text) (o : List ℕ) → parse_ipv4 h ≡ some o → is_private_host h ≡ is_private_ipv4 o
unfolding is_private_host
private_host_of_octets h o e = rw (e, is_private_host) refl

private_host-dotted :
    (u : Url) (a b c d : ℕ)
    → u.hostname ≡ dotted a b c d
    → a ≤ 255
    → b ≤ 255
    → c ≤ 255
    → d ≤ 255
    → is_private_host (bare_host u.hostname) ≡ is_private_ipv4 (a ∷ b ∷ c ∷ d ∷ [])
private_host-dotted u a b c d host ha hb hc hd =
    let bare : bare_host u.hostname ≡ dotted a b c d =
      ap bare_host host
      ∙ bare_host_of_unbracketed (dotted a b c d) (dotted-IsUnbracketed a b c d ha hb hc hd) in
    rw bare (
      private_host_of_octets (dotted a b c d) (a ∷ b ∷ c ∷ d ∷ [])
        (parse_ipv4-dotted a b c d ha hb hc hd))

-- With the override off, a request for an http(s) URL without user information or bad port, whose
-- host is a dotted quad of numbers of at most 255, is refused exactly if the first two numbers lie
-- in a private range.
pub ipv4_refused_iff :
    (parse : UrlParser) (url : Text) (u : Url) (a b c d : ℕ)
    → parse url ≡ some u
    → has_http_scheme u ≡ true
    → u.username ≡ []
    → u.password ≡ []
    → is_bad_port u.port ≡ false
    → u.hostname ≡ dotted a b c d
    → a ≤ 255
    → b ≤ 255
    → c ≤ 255
    → d ≤ 255
    → ((evaluate_request parse url false).allow ≡ false) ↔ IsPrivateRange a b
ipv4_refused_iff parse url u a b c d parsed scheme name password port host ha hb hc hd =
    let test = private_host-dotted u a b c d host ha hb hc hd in
    let range = is_private_ipv4_iff a b (c ∷ d ∷ []) in
    let verdict = ap (λ v. v.allow) (evaluate_request_of_parsed parse url u false parsed) in
    let private = is_private_host (bare_host u.hostname) in
    (
      λ h. elim (Bool-cases private) [
        | inl t ↦ range.0 (sym test ∙ t)
        | inr t ↦
            let passed = evaluate_url_complete false u (scheme, name, password, port, inr t) in cc
      ],
      λ h. elim (Bool-cases (evaluate_url false u).allow) [
        | inl t ↦
            let (_, _, _, _, off) = evaluate_url_sound false u t in
            let on : private ≡ true = test ∙ range.1 h in ground (arith, off, on)
        | inr t ↦ verdict ∙ t
      ],
    )
