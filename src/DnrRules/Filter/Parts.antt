-- ===== src/DnrRules/Filter/Parts.antt =====
-- What the parts of an entry's pattern match.
use browsception.DnrRules.Filter.Urls.{scheme_part}
use browsception.DnrRules.Filter.{scheme_pattern, digit, ◌∷◌}
use browsception.Prelude.{
  Bool, Text, All, ◌↔◌, has_code, ◌≡◌, ◌==◌, ◌++◌, true, false, [], codes, inr, inl, subst, ◌⊎◌,
  refl, arith, ℕ, ap,
}
use browsception.Regex.{literal, Regex, Repeats, Matches, none_of, seq, stop, dot, again}
use browsception.ListMatch.{is_digit}

literal_sound : (h u : Text) → Matches (literal h) u → u ≡ h
unfolding literal
literal_sound [] u m = m
literal_sound (c ∷ h) u (a, b, e, ea, mb) = cc (literal_sound h b mb)

literal_complete : (h : Text) → Matches (literal h) h
unfolding literal
literal_complete [] = refl
literal_complete (c ∷ h) = (c ∷ [], h, refl, refl, literal_complete h)

pub literal_iff : (h u : Text) → Matches (literal h) u ↔ (u ≡ h)
literal_iff h u = (literal_sound h u, λ e. rw e (literal_complete h))

-- A repetition of one character class.
pub Repeats-none_of :
    (cs v : Text) → Repeats (Matches (none_of cs)) v → All (λ c. has_code c cs ≡ false) v
Repeats-none_of cs v (stop e) = rw e tt
Repeats-none_of cs v (again c u w e (d, k, h) r) =
    let rest = Repeats-none_of cs w r in
    subst (All (λ c. has_code c cs ≡ false)) {x = d ∷ w} (cc)
      (let p : All (λ c. has_code c cs ≡ false) (d ∷ w) = (h, rest) in p)

pub none_of-Repeats :
    (cs v : Text) → All (λ c. has_code c cs ≡ false) v → Repeats (Matches (none_of cs)) v
none_of-Repeats cs [] h = stop refl
none_of-Repeats cs (c ∷ v) h = again c [] v refl (c, refl, h.0) (none_of-Repeats cs v h.1)

pub digit-Repeats : (v : Text) → All (λ c. is_digit c ≡ true) v → Repeats (Matches digit) v
digit-Repeats [] h = stop refl
digit-Repeats (c ∷ v) h = again c [] v refl (c, refl, h.0) (digit-Repeats v h.1)

pub dot-Repeats : (v : Text) → All (λ c. (c == 10) ≡ false) v → Repeats (Matches dot) v
dot-Repeats [] h = stop refl
dot-Repeats (c ∷ v) h = again c [] v refl (c, refl, h.0) (dot-Repeats v h.1)

-- The character behind `http`.
abbrev fifth : Text → ℕ
fifth (a ∷ b ∷ c ∷ d ∷ e ∷ s) = e
fifth _ = 0

scheme_cut :
    (secure : Bool) (c v rest : Text)
    → (c ≡ []) ⊎ (c ≡ codes "s")
    → scheme_part secure ++ rest ≡ (codes "http" ++ (c ++ codes "://")) ++ v
    → v ≡ rest
scheme_cut true c v rest (inl e) h = absurd (omega (arith, ap fifth (rw e at h)))
scheme_cut true c v rest (inr e) h = cc (rw e at h)
scheme_cut false c v rest (inl e) h = cc (rw e at h)
scheme_cut false c v rest (inr e) h = absurd (omega (arith, ap fifth (rw e at h)))

-- The scheme is read off a web URL, whichever of the two it is.
pub scheme_inv :
    (secure : Bool) (r : Regex) (rest : Text)
    → Matches (seq scheme_pattern r) (scheme_part secure ++ rest)
    → Matches r rest
scheme_inv secure r rest (u, v, e, (a, b, e1, ma, (c, d, e2, mc, md)), mr) =
    let ea = literal_sound (codes "http") a ma in
    let ed = literal_sound (codes "://") d md in
    let eu : u ≡ codes "http" ++ (c ++ codes "://") = cc in
    subst (Matches r) (scheme_cut secure c v rest mc (rw eu at e)) mr

pub scheme_intro :
    (secure : Bool) (r : Regex) (rest : Text)
    → Matches r rest
    → Matches (seq scheme_pattern r) (scheme_part secure ++ rest)
scheme_intro true r rest m = (
  codes "https://",
  rest,
  refl,
  (
    codes "http",
    codes "s://",
    refl,
    literal_complete (codes "http"),
    (codes "s", codes "://", refl, inr refl, literal_complete (codes "://")),
  ),
  m,
)
scheme_intro false r rest m = (
  codes "http://",
  rest,
  refl,
  (
    codes "http",
    codes "://",
    refl,
    literal_complete (codes "http"),
    ([], codes "://", refl, inl refl, literal_complete (codes "://")),
  ),
  m,
)
