-- ===== src/Regex/Matcher.antt =====
-- The matcher by derivatives accepts exactly the texts that match.
use browsception.Prelude.{
  ℕ, Text, ◌≡◌, ◌↔◌, inl, inr, refl, Bool, true, false, [], ◌∷◌, ◌++◌, arith, ap, sym, Bool-cases,
  subst, ◌==◌, not, has_code,
}
use browsception.Regex.{
  Regex, nothing, empty, chr, dot, digit, one_of, none_of, seq, alt, opt_chr, opt_group, plus, star,
  Repeats, stop, again, Matches, nullable, derivative, accepts, when,
}

nil_of_append : (u v : Text) → [] ≡ u ++ v → (u ≡ []) × (v ≡ [])
nil_of_append [] v e = (refl, sym e)
nil_of_append (c ∷ u) v e = cc

nullable_sound : (r : Regex) → nullable r ≡ true → Matches r []
unfolding nullable
nullable_sound empty h = refl
nullable_sound (seq a b) h =
    ([], [], refl, nullable_sound a (ground arith), nullable_sound b (ground arith))
nullable_sound (alt a b) h = elim (Bool-cases (nullable a)) [
  | inl p ↦ inl (nullable_sound a p)
  | inr p ↦ inr (nullable_sound b (ground arith))
]
nullable_sound (opt_chr c) h = inl refl
nullable_sound (opt_group r) h = inl refl
nullable_sound (plus r) h = ([], [], refl, nullable_sound r h, stop refl)
nullable_sound (star r) h = stop refl
nullable_sound _ h = cc

nullable_complete : (r : Regex) → Matches r [] → nullable r ≡ true
unfolding nullable
nullable_complete empty m = refl
nullable_complete (seq a b) (u, v, e, p, q) =
    let (eu, ev) = nil_of_append u v e in
    ground (arith, nullable_complete a (rw eu at p), nullable_complete b (rw ev at q))
nullable_complete (alt a b) (inl p) = ground (arith, nullable_complete a p)
nullable_complete (alt a b) (inr p) = ground (arith, nullable_complete b p)
nullable_complete (opt_chr c) m = refl
nullable_complete (opt_group r) m = refl
nullable_complete (plus r) (u, v, e, p, q) = nullable_complete r (rw (nil_of_append u v e).0 at p)
nullable_complete (star r) m = refl
nullable_complete (chr c) m = cc
nullable_complete dot (d, e, h) = cc
nullable_complete digit (d, e, h) = cc
nullable_complete (one_of cs) (d, e, h) = cc
nullable_complete (none_of cs) (d, e, h) = cc
nullable_complete nothing m = absurd m

when_inv : (b : Bool) (r : Regex) (s : Text) → Matches (when b r) s → (b ≡ true) × Matches r s
when_inv true r s m = (refl, m)
when_inv false r s m = absurd m

when_intro : (b : Bool) (r : Regex) (s : Text) → b ≡ true → Matches r s → Matches (when b r) s
when_intro true r s h m = m
when_intro false r s h m = cc

derivative_sound : (c : ℕ) (r : Regex) (s : Text) → Matches (derivative c r) s → Matches r (c ∷ s)
unfolding derivative
derivative_sound c (chr d) s m = let (h, e) = when_inv (c == d) empty s m in ground arith
derivative_sound c dot s m =
    let (h, e) = when_inv (not (c == 10)) empty s m in (c, ap (◌∷◌ c) e, ground arith)
derivative_sound c digit s m = let (h, e) = when_inv _ empty s m in (c, ap (◌∷◌ c) e, h)
derivative_sound c (one_of cs) s m = let (h, e) = when_inv _ empty s m in (c, ap (◌∷◌ c) e, h)
derivative_sound c (none_of cs) s m =
    let (h, e) = when_inv (not (has_code c cs)) empty s m in (c, ap (◌∷◌ c) e, ground arith)
derivative_sound c (seq a b) s (inl (u, v, e, p, q)) =
    (c ∷ u, v, ap (◌∷◌ c) e, derivative_sound c a u p, q)
derivative_sound c (seq a b) s (inr m) =
    let (h, q) = when_inv (nullable a) (derivative c b) s m in
    ([], c ∷ s, refl, nullable_sound a h, derivative_sound c b s q)
derivative_sound c (alt a b) s (inl p) = inl (derivative_sound c a s p)
derivative_sound c (alt a b) s (inr p) = inr (derivative_sound c b s p)
derivative_sound c (opt_chr d) s m = let (h, e) = when_inv (c == d) empty s m in inr (ground arith)
derivative_sound c (opt_group r) s m = inr (derivative_sound c r s m)
derivative_sound c (plus r) s (u, v, e, p, q) =
    (c ∷ u, v, ap (◌∷◌ c) e, derivative_sound c r u p, q)
derivative_sound c (star r) s (u, v, e, p, q) =
    again c u v (ap (◌∷◌ c) e) (derivative_sound c r u p) q
derivative_sound c nothing s m = absurd m
derivative_sound c empty s m = absurd m

-- A round of a repetition that begins with `c`.
Repeats-inv :
    (P : Text → Type 0) (c : ℕ) (t s : Text)
    → t ≡ c ∷ s
    → Repeats P t
    → (u : Text) × (v : Text) × (s ≡ u ++ v) × P (c ∷ u) × Repeats P v
Repeats-inv P c t s k (stop e) = cc
Repeats-inv P c t s k (again d u v e p q) = (u, v, cc, subst (λ x. P (x ∷ u)) (cc) p, q)

derivative_complete :
    (c : ℕ) (r : Regex) (s : Text) → Matches r (c ∷ s) → Matches (derivative c r) s
unfolding derivative
derivative_complete c (chr d) s m = when_intro (c == d) empty s (ground arith) (cc)
derivative_complete c dot s (d, e, h) = when_intro (not (c == 10)) empty s (ground arith) (cc)
derivative_complete c digit s (d, e, h) = when_intro _ empty s (ground arith) (cc)
derivative_complete c (one_of cs) s (d, e, h) =
    when_intro (has_code c cs) empty s (ground arith) (cc)
derivative_complete c (none_of cs) s (d, e, h) =
    when_intro (not (has_code c cs)) empty s (ground arith) (cc)
derivative_complete c (seq a b) s ([], v, e, p, q) = inr (
    when_intro (nullable a) (derivative c b) s (nullable_complete a p)
      (derivative_complete c b s (subst (Matches b) (sym e) q)))
derivative_complete c (seq a b) s (d ∷ u, v, e, p, q) =
    inl (u, v, cc, derivative_complete c a u (subst (λ x. Matches a (x ∷ u)) (cc) p), q)
derivative_complete c (alt a b) s (inl p) = inl (derivative_complete c a s p)
derivative_complete c (alt a b) s (inr p) = inr (derivative_complete c b s p)
derivative_complete c (opt_chr d) s (inl e) = cc
derivative_complete c (opt_chr d) s (inr e) = when_intro (c == d) empty s (ground arith) (cc)
derivative_complete c (opt_group r) s (inl e) = cc
derivative_complete c (opt_group r) s (inr m) = derivative_complete c r s m
derivative_complete c (plus r) s ([], v, e, p, q) =
    let (u, w, k, first, rest) = Repeats-inv (Matches r) c v s (sym e) q in
    (u, w, k, derivative_complete c r u first, rest)
derivative_complete c (plus r) s (d ∷ u, v, e, p, q) =
    (u, v, cc, derivative_complete c r u (subst (λ x. Matches r (x ∷ u)) (cc) p), q)
derivative_complete c (star r) s m =
    let (u, w, k, first, rest) = Repeats-inv (Matches r) c (c ∷ s) s refl m in
    (u, w, k, derivative_complete c r u first, rest)
derivative_complete c nothing s m = absurd m
derivative_complete c empty s m = cc

pub accepts_iff : (r : Regex) (s : Text) → (accepts r s ≡ true) ↔ Matches r s
unfolding accepts
accepts_iff r [] = (nullable_sound r, nullable_complete r)
accepts_iff r (c ∷ s) = (
  λ h. derivative_sound c r s ((accepts_iff (derivative c r) s).0 h),
  λ m. (accepts_iff (derivative c r) s).1 (derivative_complete c r s m),
)
