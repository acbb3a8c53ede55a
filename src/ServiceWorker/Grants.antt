-- ===== src/ServiceWorker/Grants.antt =====
-- `escapeGrants`: the sweep sees exactly the grants that the session storage holds.
use browsception.Prelude.TextMap.{TextMap, lookup, remove, insert, lookup-insert, lookup-remove}
use browsception.ServiceWorker.{escape_key, grants_from, escape_grants, note_grant, escape_prefix}
use browsception.Prelude.{
  [], ◌∷◌, Text, ℕ, Option, starts_with, some, text_eq, ◌≡◌, drop, sym, none, ◌==◌, true, false,
  Bool-cases, suc, ◌∙◌, refl, inl, ap, arith, starts_with-append, ==_iff, text_eq_iff, text_eq_refl,
  inr, Bool, if◌then◌else◌, text_eq_swap,
}
use browsception.Prelude.Maps.{get, Map, put, get-put}
use browsception.Guard.{number_from}
use browsception.ServiceWorker.Decimal.{number_from-number_text, number_text-digits}
use browsception.Bridge.Stream.{number_text}

abbrev pub IsEscapeKey : Text → Type 0
IsEscapeKey k = (n : ℕ) × (k ≡ escape_key n)

-- A storage with each key once, whose keys with the prefix of grants are keys of tabs.
abbrev pub IsSession : TextMap Text → Type 0
IsSession [] = Unit
IsSession ((k, entry) ∷ session) =
    (starts_with k escape_prefix ≡ true → IsEscapeKey k)
    × (lookup k session ≡ none)
    × IsSession session

abbrev pub or_grant : Option Text → Option Text → Option Text
or_grant none other = other
or_grant (some entry) other = some entry

or_grant-none : (o : Option Text) → or_grant o none ≡ o
or_grant-none none = refl
or_grant-none (some e) = refl

merged :
    (same : Bool) (entry : Text) (found other : Option Text)
    → (same ≡ true → found ≡ none)
    → or_grant found (if same then some entry else other)
      ≡ or_grant (if same then some entry else found) other
merged true entry found other h = rw (h refl) refl
merged false entry found other h = refl

digits_of_key : (n : ℕ) → drop 7 (escape_key n) ≡ number_text (suc n) n
unfolding escape_key
digits_of_key n = refl

read_key : (n : ℕ) → number_from 0 (drop 7 (escape_key n)) ≡ n
read_key n = rw (digits_of_key n) (number_from-number_text (suc n) n (omega arith))

pub escape_key_inj : (m n : ℕ) → escape_key m ≡ escape_key n → m ≡ n
escape_key_inj m n h = sym (read_key m) ∙ ap (λ k. number_from 0 (drop 7 k)) h ∙ read_key n

pub escape_key-eq : (m n : ℕ) → text_eq (escape_key m) (escape_key n) ≡ (m == n)
escape_key-eq m n = elim (Bool-cases (m == n)) [
  | inl same ↦ let e = (==_iff m n).0 same in rw same (rw e (text_eq_refl (escape_key n)))
  | inr differ ↦ elim (Bool-cases (text_eq (escape_key m) (escape_key n))) [
    | inl t ↦
        let e = escape_key_inj m n ((text_eq_iff (escape_key m) (escape_key n)).0 t) in ground arith
    | inr f ↦ rw (f, differ) refl
  ]
]

starts_with-escape_key : (n : ℕ) → starts_with (escape_key n) escape_prefix ≡ true
unfolding escape_key
starts_with-escape_key n = starts_with-append escape_prefix (number_text (suc n) n)

note_grant-key :
    (m : ℕ) (entry : Text) (map : Map Text)
    → note_grant (drop 7 (escape_key m)) entry map ≡ put m entry map
note_grant-key m entry map = rw (digits_of_key m) (
    rw (number_text-digits (suc m) m)
      (ap (λ k. put k entry map) (number_from-number_text (suc m) m (omega arith))))

no_prefix_apart :
    (n : ℕ) (k : Text) → starts_with k escape_prefix ≡ false → text_eq k (escape_key n) ≡ false
no_prefix_apart n k h = elim (Bool-cases (text_eq k (escape_key n))) [
  | inl t ↦ let e = (text_eq_iff k (escape_key n)).0 t in let p = starts_with-escape_key n in cc
  | inr f ↦ f
]

get-grants_from :
    (n : ℕ) (session : TextMap Text) (map : Map Text)
    → IsSession session
    → get n (grants_from map session) ≡ or_grant (lookup (escape_key n) session) (get n map)
unfolding grants_from lookup
get-grants_from n [] map ok = refl
get-grants_from n ((k, entry) ∷ session) map ok = elim (Bool-cases (starts_with k escape_prefix)) [
  | inr no_prefix ↦
      let rest = get-grants_from n session map ok.2 in
      rw (no_prefix, no_prefix_apart n k no_prefix) rest
  | inl prefix ↦
      let (m, e) = ok.0 prefix in
      let rest = get-grants_from n session (put m entry map) ok.2 in
      let once : lookup (escape_key m) session ≡ none = rw (← e) ok.1 in
      rw
        (
          e,
          starts_with-escape_key m,
          note_grant-key m entry map,
          rest,
          get-put m n entry map,
          escape_key-eq m n,
        )
        (merged (m == n) entry (lookup (escape_key n) session) (get n map)
          (λ same. rw (← (==_iff m n).0 same) once))
]

-- The sweep finds for a tab exactly the grant that the session storage holds for it, where the
-- storage's keys with the prefix are keys of tabs.
pub get-escape_grants :
    (n : ℕ) (session : TextMap Text)
    → IsSession session
    → get n (escape_grants session) ≡ lookup (escape_key n) session
unfolding escape_grants get
get-escape_grants n session ok =
    get-grants_from n session [] ok ∙ or_grant-none (lookup (escape_key n) session)

pub IsSession-insert :
    (n : ℕ) (entry : Text) (session : TextMap Text)
    → IsSession session
    → IsSession (insert (escape_key n) entry session)
unfolding insert lookup
IsSession-insert n entry [] ok = (λ h. (n, refl), refl, tt)
IsSession-insert n entry ((k, old) ∷ session) ok = elim (Bool-cases (text_eq k (escape_key n))) [
  | inl same ↦
      let e = (text_eq_iff k (escape_key n)).0 same in rw same (λ h. (n, refl), rw (← e) ok.1, ok.2)
  | inr differ ↦
      let other : text_eq (escape_key n) k ≡ false = text_eq_swap k (escape_key n) differ in
      rw differ (
        ok.0,
        rw (lookup-insert (escape_key n) k entry session, other) ok.1,
        IsSession-insert n entry session ok.2,
      )
]

pub IsSession-remove :
    (key : Text) (session : TextMap Text) → IsSession session → IsSession (remove key session)
unfolding remove
IsSession-remove key [] ok = tt
IsSession-remove key ((k, old) ∷ session) ok = elim (Bool-cases (text_eq k key)) [
  | inl same ↦ rw same (IsSession-remove key session ok.2)
  | inr differ ↦ rw differ (
    ok.0,
    rw (lookup-remove key k session, text_eq_swap k key differ) ok.1,
    IsSession-remove key session ok.2,
  )
]
