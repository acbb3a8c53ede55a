-- ===== src/ServiceWorker/Decimal.antt =====
-- Numbers as decimal texts, which src/ext/sw.mjs makes keys of: the text is read back to the number.
use browsception.Prelude.{
  ℕ, all, ◌<◌, Text, ◌≡◌, ◌++◌, true, ◌∷◌, arith, suc, [], refl, Bool-cases, ◌*◌, ltb, ◌+◌, ◌-◌,
  inl, inr, ◌%◌, ◌/◌, zero,
}
use browsception.Guard.{number_from}
use browsception.Bridge.Stream.{number_text}
use browsception.ListMatch.{is_digit}

number_from-append :
    (n c : ℕ) (s : Text) → number_from n (s ++ c ∷ []) ≡ number_from n s * 10 + (c - 48)
unfolding number_from
number_from-append n c [] = refl
number_from-append n c (d ∷ s) = number_from-append (n * 10 + (d - 48)) c s

all_digits-append :
    (c : ℕ) (s : Text)
    → is_digit c ≡ true
    → all is_digit s ≡ true
    → all is_digit (s ++ c ∷ []) ≡ true
all_digits-append c [] h k = rw h refl
all_digits-append c (d ∷ s) h k = ground (arith, all_digits-append c s h)

-- The text of a number, with fuel above it, is read back.
pub number_from-number_text : (fuel n : ℕ) → n < fuel → number_from 0 (number_text fuel n) ≡ n
unfolding number_text
number_from-number_text zero n h = omega arith
number_from-number_text (suc fuel) n h = elim (Bool-cases (ltb n 10)) [
  | inl small ↦ rw small (unfold number_from in omega arith)
  | inr large ↦
      let back : number_from 0 (number_text fuel (n / 10)) ≡ n / 10 =
        number_from-number_text fuel (n / 10) (ground arith) in
      rw large (
        rw (number_from-append 0 (48 + n % 10) (number_text fuel (n / 10)))
          (rw back (ground arith)))
]

pub number_text-digits : (fuel n : ℕ) → all is_digit (number_text fuel n) ≡ true
unfolding number_text
number_text-digits zero n = refl
number_text-digits (suc fuel) n = elim (Bool-cases (ltb n 10)) [
  | inl small ↦ rw small (ground arith)
  | inr large ↦ rw large (
      all_digits-append (48 + n % 10) (number_text fuel (n / 10)) (ground arith)
        (number_text-digits fuel (n / 10)))
]
