-- ===== src/Guard/Ipv4.antt =====
-- Dotted quads: the guard reads the four numbers back, so each private range is refused however the
-- rest of the address goes.
use browsception.Prelude.{
  ℕ, ◌+◌, ◌-◌, ◌*◌, ◌/◌, ◌%◌, ◌≤◌, ◌<◌, ◌≡◌, Text, [], ◌∷◌, ◌++◌, some, arith, ltb, if◌then◌else◌,
  Bool-cases, inl, inr, ◌∙◌, ap, sym, append-nil,
}
use browsception.Guard.{octets_from, parse_ipv4, cons_octet}

-- The decimal text of a number below 1000.
abbrev pub decimal : ℕ → Text
decimal v =
    if ltb v 10
    then (48 + v) ∷ []
    else if ltb v 100
    then (48 + v / 10) ∷ (48 + v % 10) ∷ []
    else (48 + v / 100) ∷ (48 + v / 10 % 10) ∷ (48 + v % 10) ∷ []

abbrev pub dotted : ℕ → ℕ → ℕ → ℕ → Text
dotted a b c d = decimal a ++ b'.' ∷ (decimal b ++ b'.' ∷ (decimal c ++ b'.' ∷ decimal d))

digit_step :
    (k n v d : ℕ) (s : Text)
    → d < 10
    → n < 3
    → octets_from k n v ((48 + d) ∷ s) ≡ octets_from k (n + 1) (v * 10 + d) s
unfolding octets_from
digit_step k n v d s h j = let same : 48 + d - 48 ≡ d = omega arith in rw same (ground arith)

dot_step :
    (k n v : ℕ) (s : Text)
    → 0 < n
    → octets_from (k + 1) n v (b'.' ∷ s) ≡ cons_octet v (octets_from k 0 0 s)
unfolding octets_from
dot_step k n v s h = let same : k + 1 - 1 ≡ k = omega arith in rw same (ground arith)

one_digit : (k v : ℕ) (s : Text) → v < 10 → octets_from k 0 0 ((48 + v) ∷ s) ≡ octets_from k 1 v s
one_digit k v s h =
    let e : 0 * 10 + v ≡ v = omega arith in
    digit_step k 0 0 v s h (omega arith) ∙ ap (λ t. octets_from k 1 t s) e

two_digits :
    (k v : ℕ) (s : Text)
    → v < 100
    → octets_from k 0 0 ((48 + v / 10) ∷ (48 + v % 10) ∷ s) ≡ octets_from k 2 v s
two_digits k v s h =
    let e : v / 10 * 10 + v % 10 ≡ v = omega arith in
    one_digit k (v / 10) ((48 + v % 10) ∷ s) (omega arith)
    ∙ digit_step k 1 (v / 10) (v % 10) s (omega arith) (omega arith)
    ∙ ap (λ t. octets_from k 2 t s) e

three_digits :
    (k v : ℕ) (s : Text)
    → v < 1000
    → octets_from k 0 0 ((48 + v / 100) ∷ (48 + v / 10 % 10) ∷ (48 + v % 10) ∷ s)
      ≡ octets_from k 3 v s
three_digits k v s h =
    let first : v / 10 / 10 ≡ v / 100 = omega arith in
    let e : v / 10 * 10 + v % 10 ≡ v = omega arith in
    ap (λ t. octets_from k 0 0 ((48 + t) ∷ (48 + v / 10 % 10) ∷ (48 + v % 10) ∷ s)) (sym first)
    ∙ two_digits k (v / 10) ((48 + v % 10) ∷ s) (omega arith)
    ∙ digit_step k 2 (v / 10) (v % 10) s (omega arith) (omega arith)
    ∙ ap (λ t. octets_from k 3 t s) e

-- Reading a number of up to three digits, whatever follows.
decimal-read :
    (k v : ℕ) (s : Text)
    → v < 1000
    → (n : ℕ) × (0 < n) × (octets_from k 0 0 (decimal v ++ s) ≡ octets_from k n v s)
decimal-read k v s h = elim (Bool-cases (ltb v 10)) [
  | inl one ↦ (1, omega arith, rw one (one_digit k v s (ground arith)))
  | inr many ↦ elim (Bool-cases (ltb v 100)) [
    | inl two ↦ (2, omega arith, rw (many, two) (two_digits k v s (ground arith)))
    | inr three ↦ (3, omega arith, rw (many, three) (three_digits k v s h))
  ]
]

decimal-dot :
    (k v : ℕ) (s : Text)
    → v < 1000
    → octets_from (k + 1) 0 0 (decimal v ++ b'.' ∷ s) ≡ cons_octet v (octets_from k 0 0 s)
decimal-dot k v s h =
    let (n, some', e) = decimal-read (k + 1) v (b'.' ∷ s) h in e ∙ dot_step k n v s some'

decimal-end : (v : ℕ) → v < 1000 → octets_from 0 0 0 (decimal v) ≡ some (v ∷ [])
decimal-end v h =
    let (n, some', e) = decimal-read 0 v [] h in
    ap (octets_from 0 0 0) (sym (append-nil (decimal v))) ∙ e ∙ end_step n some'
  where
    end_step : (n : ℕ) → 0 < n → octets_from 0 n v [] ≡ some (v ∷ [])
    end_step n k = unfold octets_from in ground arith

-- The dotted text of four numbers of at most 255 is read back as the four numbers.
pub parse_ipv4-dotted :
    (a b c d : ℕ)
    → a ≤ 255
    → b ≤ 255
    → c ≤ 255
    → d ≤ 255
    → parse_ipv4 (dotted a b c d) ≡ some (a ∷ b ∷ c ∷ d ∷ [])
unfolding parse_ipv4
parse_ipv4-dotted a b c d ha hb hc hd =
    rw
      (
        decimal-dot 2 a (decimal b ++ b'.' ∷ (decimal c ++ b'.' ∷ decimal d)) (omega arith),
        decimal-dot 1 b (decimal c ++ b'.' ∷ decimal d) (omega arith),
        decimal-dot 0 c (decimal d) (omega arith),
        decimal-end d (omega arith),
      )
      (ground arith)
