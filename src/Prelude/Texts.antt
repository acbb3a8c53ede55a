-- ===== src/Prelude/Texts.antt =====
-- Texts as lists of UTF-16 code units, and the `String.prototype` methods that the sources call.
-- `lower` maps the ASCII letters, and the two other characters whose lower case holds an ASCII
-- letter (U+0130, U+212A); it leaves the rest of Unicode alone, on which no test in the sources
-- depends.
use Prim.Native.Nat.{ℕ, ◌+◌}
use Prim.Native.Char.{code}
use Prim.Native.String.{String}
use mathlib.Core.Path.{◌≡◌, refl, sym, ap, ◌∙◌}
use mathlib.Core.Logic.{◌↔◌, inl, inr}
use mathlib.Core.Bool.{Bool, true, false, ◌&&◌, ◌||◌}
use mathlib.Core.List.{List, [], ◌∷◌, ◌++◌, reverse, reverse-cons, reverse-reverse}
use native.Mathlib.Omega.{arith}
use browsception.Prelude.Lists.{All, All-append}
use browsception.Prelude.Tests.{Bool-cases, leb, ◌==◌, if◌then◌else◌}

abbrev pub Text : Type 0
Text = List ℕ

abbrev pub codes : String → Text
codes String.[] = []
codes (String.◌∷◌ c s) = code c ∷ codes s

unfoldable pub text_eq : Text → Text → Bool
text_eq [] [] = true
text_eq [] (d ∷ t) = false
text_eq (c ∷ s) [] = false
text_eq (c ∷ s) (d ∷ t) = c == d && text_eq s t

pub text_eq_iff : (s t : Text) → (text_eq s t ≡ true) ↔ (s ≡ t)
unfolding text_eq
text_eq_iff [] [] = ground arith
text_eq_iff [] (d ∷ t) = ground arith
text_eq_iff (c ∷ s) [] = ground arith
text_eq_iff (c ∷ s) (d ∷ t) = ground (arith, text_eq_iff s t)

pub text_eq_refl : (s : Text) → text_eq s s ≡ true
text_eq_refl s = (text_eq_iff s s).1 refl

pub text_eq_swap : (s t : Text) → text_eq s t ≡ false → text_eq t s ≡ false
text_eq_swap s t h = elim (Bool-cases (text_eq t s)) [
  | inl k ↦ let back = (text_eq_iff s t).1 (sym ((text_eq_iff t s).0 k)) in cc
  | inr k ↦ k
]

unfoldable pub lower_char : ℕ → Text
lower_char c =
    if leb b'A' c && leb c b'Z'
    then (c + 32) ∷ []
    else if c == 0x130
    then b'i' ∷ 0x307 ∷ []
    else if c == 0x212a
    then b'k' ∷ []
    else c ∷ []

-- `s.toLowerCase()`
unfoldable pub lower : Text → Text
unfolding lower_char
lower [] = []
lower (c ∷ s) = lower_char c ++ lower s

lower-lower_char : (c : ℕ) (s : Text) → lower (lower_char c ++ s) ≡ lower_char c ++ lower s
unfolding lower
lower-lower_char c s = ground arith

pub lower_idem : (s : Text) → lower (lower s) ≡ lower s
unfolding lower
lower_idem [] = refl
lower_idem (c ∷ s) = lower-lower_char c (lower s) ∙ ap (λ t. lower_char c ++ t) (lower_idem s)

-- `s.startsWith(p)`
unfoldable pub starts_with : Text → Text → Bool
starts_with s [] = true
starts_with [] (d ∷ p) = false
starts_with (c ∷ s) (d ∷ p) = c == d && starts_with s p

pub starts_with-append : (p s : Text) → starts_with (p ++ s) p ≡ true
unfolding starts_with
starts_with-append [] s = refl
starts_with-append (c ∷ p) s = ground (arith, starts_with-append p s)

pub starts_with_iff : (s p : Text) → (starts_with s p ≡ true) ↔ ((r : Text) × (s ≡ p ++ r))
unfolding starts_with
starts_with_iff s [] = (λ _. (s, refl), λ _. refl)
starts_with_iff [] (d ∷ p) = (λ h. cc, λ (r, e). cc)
starts_with_iff (c ∷ s) (d ∷ p) = (
  λ h. let (r, e) = (starts_with_iff s p).0 (ground arith) in (r, ground arith),
  λ (r, e). ground (arith, (starts_with_iff s p).1 (r, ground arith)),
)

-- `s.endsWith(p)`
unfoldable pub ends_with : Text → Text → Bool
ends_with [] p = text_eq [] p
ends_with (c ∷ s) p = text_eq (c ∷ s) p || ends_with s p

pub ends_with-append : (r p : Text) → ends_with (r ++ p) p ≡ true
unfolding ends_with text_eq
ends_with-append [] [] = refl
ends_with-append [] (d ∷ p) = ground (arith, text_eq_refl p)
ends_with-append (c ∷ r) p = ground (arith, ends_with-append r p)

ends_with_sound : (s p : Text) → ends_with s p ≡ true → (r : Text) × (s ≡ r ++ p)
unfolding ends_with
ends_with_sound [] p h = ([], (text_eq_iff [] p).0 h)
ends_with_sound (c ∷ s) p h = elim (Bool-cases (text_eq (c ∷ s) p)) [
  | inl e ↦ ([], (text_eq_iff (c ∷ s) p).0 e)
  | inr n ↦ let (r, e) = ends_with_sound s p (rw n at h) in (c ∷ r, ap (◌∷◌ c) e)
]

pub ends_with_iff : (s p : Text) → (ends_with s p ≡ true) ↔ ((r : Text) × (s ≡ r ++ p))
ends_with_iff s p = (ends_with_sound s p, λ (r, e). rw e (ends_with-append r p))

abbrev drop_dot : ℕ → Text → Text
drop_dot c [] = if c == b'.' then [] else c ∷ []
drop_dot c (d ∷ s) = c ∷ d ∷ s

-- `s.replace(/\.+$/, '')`
unfoldable pub strip_dots : Text → Text
strip_dots [] = []
strip_dots (c ∷ s) = drop_dot c (strip_dots s)

-- `s.includes(c)`, for a text of one character
unfoldable pub has_code : ℕ → Text → Bool
has_code c [] = false
has_code c (d ∷ s) = c == d || has_code c s

-- White space and line terminators of ECMAScript.
abbrev pub is_space : ℕ → Bool
is_space c =
    leb 9 c && leb c 13
    || c == 32
    || c == 0xa0
    || c == 0x1680
    || leb 0x2000 c && leb c 0x200a
    || c == 0x2028
    || c == 0x2029
    || c == 0x202f
    || c == 0x205f
    || c == 0x3000
    || c == 0xfeff

drop_spaces : Text → Text
drop_spaces [] = []
drop_spaces (c ∷ s) = let rest = drop_spaces s in if is_space c then rest else c ∷ s

-- `s.trim()`
unfoldable pub trim : Text → Text
unfolding drop_spaces
trim s = reverse (drop_spaces (reverse (drop_spaces s)))

-- Texts that the methods above leave as they are.
drop_spaces_of_none : (s : Text) → All (λ c. is_space c ≡ false) s → drop_spaces s ≡ s
unfolding drop_spaces
drop_spaces_of_none [] h = refl
drop_spaces_of_none (c ∷ s) h = rw h.0

All-reverse : (P : ℕ → Type 0) (s : Text) → All P s → All P (reverse s)
All-reverse P [] h = tt
All-reverse P (c ∷ s) h =
    rw reverse-cons (All-append P (reverse s) (c ∷ []) (All-reverse P s h.1) (h.0, tt))

All-drop_spaces : (P : ℕ → Type 0) (s : Text) → All P s → All P (drop_spaces s)
unfolding drop_spaces
All-drop_spaces P [] h = tt
All-drop_spaces P (c ∷ s) h = elim (Bool-cases (is_space c)) [
  | inl e ↦ rw e (All-drop_spaces P s h.1)
  | inr e ↦ rw e h
]

-- What holds of every character of a text holds of those that are left.
pub All-trim : (P : ℕ → Type 0) (s : Text) → All P s → All P (trim s)
unfolding trim
All-trim P s h = All-reverse P _ (All-drop_spaces P _ (All-reverse P _ (All-drop_spaces P s h)))

pub trim_of_no_space : (s : Text) → All (λ c. is_space c ≡ false) s → trim s ≡ s
unfolding trim
trim_of_no_space s h =
    rw
      (
        drop_spaces_of_none s h,
        drop_spaces_of_none (reverse s) (All-reverse (λ c. is_space c ≡ false) s h),
      )
      (reverse-reverse s)

pub lower_of_fixed : (s : Text) → All (λ c. lower_char c ≡ c ∷ []) s → lower s ≡ s
unfolding lower
lower_of_fixed [] h = refl
lower_of_fixed (c ∷ s) h = rw (h.0) (ap (◌∷◌ c) (lower_of_fixed s h.1))

-- `strip_dots` leaves a text alone or takes dots off its end, and none are left.
pub strip_dots_idem : (s : Text) → strip_dots (strip_dots s) ≡ strip_dots s
unfolding strip_dots
strip_dots_idem [] = refl
strip_dots_idem (c ∷ s) = ground (arith, strip_dots_idem s)

abbrev pub cons_line : ℕ → List Text → List Text
cons_line c [] = (c ∷ []) ∷ []
cons_line c (l ∷ ls) = (c ∷ l) ∷ ls

-- `s.split('\n')`
unfoldable pub split_lines : Text → List Text
split_lines [] = [] ∷ []
split_lines (c ∷ s) = let rest = split_lines s in if c == 10 then [] ∷ rest else cons_line c rest
