-- ===== src/DnrRules/Filter/Matching.antt =====
-- The pattern of an entry matches the web URLs whose host the entry covers.
use browsception.DnrRules.Filter.Urls.{
  WebUrl, IsWebUrl, write, from_host, port_part, delimiters, IsHostText, IsTail, IsEnd, cut_unique,
}
use browsception.DnrRules.Filter.Parts.{
  literal_iff, Repeats-none_of, none_of-Repeats, digit-Repeats, dot-Repeats, scheme_inv,
  scheme_intro,
}
use browsception.DnrRules.Filter.{port_pattern, tail_pattern, sub_pattern, entry_pattern}
use browsception.DnrRules.{is_exact, bare_entry, ◌∷◌}
use browsception.Regex.{Regex, Matches, seq, literal, empty, opt_group, plus, none_of, chr}
use browsception.Prelude.{
  has_code, Text, ◌≡◌, ℕ, All, ◌++◌, ◌∙◌, codes, inl, ap, sym, true, inr, arith, [], refl,
  append_assoc, ◌⊎◌, All-append, ◌↔◌, All-append_left, false, text_eq, Bool-cases, starts_with,
  drop, ◌||◌, text_eq_iff, ends_with, ends_with_iff,
}
use browsception.ListMatch.{is_digit, entry_covers, is_ip_literal}

abbrev rest_pattern : Regex
rest_pattern = seq port_pattern tail_pattern

delimiter_of_slash : (d : ℕ) → has_code d (codes "/?#") ≡ true → has_code d delimiters ≡ true
unfolding has_code
delimiter_of_slash d h = ground arith

tail-IsEnd : (t : Text) → Matches tail_pattern t → IsEnd t
tail-IsEnd t (inl e) = rw e tt
tail-IsEnd t (inr (u, v, e, (d, k, h), m)) = rw (e, k) (delimiter_of_slash d h)

rest-IsEnd : (z : Text) → Matches rest_pattern z → IsEnd z
rest-IsEnd z (p, t, e, inl k, mt) = rw (e, k) (tail-IsEnd t mt)
rest-IsEnd z (p, t, e, inr (c, ds, k, kc, m), mt) = rw (e, k, kc) (unfold has_code in refl)

written_rest-IsEnd : (port tail : Text) → IsTail tail → IsEnd (port_part port ++ tail)
unfolding has_code
written_rest-IsEnd (d ∷ ds) tail h = refl
written_rest-IsEnd [] [] h = tt
written_rest-IsEnd [] (c ∷ t) h = delimiter_of_slash c h.0

tail_complete : (tail : Text) → IsTail tail → Matches tail_pattern tail
tail_complete [] h = inl refl
tail_complete (c ∷ t) (h, k) = inr (c ∷ [], t, refl, (c, refl, h), dot-Repeats t k)

rest_complete :
    (port tail : Text)
    → All (λ d. is_digit d ≡ true) port
    → IsTail tail
    → Matches rest_pattern (port_part port ++ tail)
rest_complete [] tail hp ht = ([], tail, refl, inl refl, tail_complete tail ht)
rest_complete (d ∷ ds) tail hp ht = (
  b':' ∷ d ∷ ds,
  tail,
  refl,
  inr (b':' ∷ [], d ∷ ds, refl, refl, (d ∷ [], ds, refl, (d, refl, hp.0), digit-Repeats ds hp.1)),
  tail_complete tail ht,
)

abbrev sub_group : Regex
sub_group = opt_group (seq (plus (none_of delimiters)) (chr b'.'))

abbrev IsHostChar : ℕ → Type 0
IsHostChar c = has_code c delimiters ≡ false

sub_shape :
    (u : Text) → Matches sub_group u → (u ≡ []) ⊎ ((p : Text) × (u ≡ p ++ b'.' ∷ []) × IsHostText p)
sub_shape u (inl k) = inl k
sub_shape u (inr (p, q, k, (d, v, kp, (c, kc, hc), mv), kq)) =
    let shape : p ≡ c ∷ v = cc in
    let chars : IsHostText (c ∷ v) = (hc, Repeats-none_of delimiters v mv) in inr (c ∷ v, cc, chars)

sub_intro : (c : ℕ) (p : Text) → IsHostText (c ∷ p) → Matches sub_group ((c ∷ p) ++ b'.' ∷ [])
sub_intro c p h = inr (
  c ∷ p,
  b'.' ∷ [],
  refl,
  (c ∷ [], p, refl, (c, refl, h.0), none_of-Repeats delimiters p h.1),
  refl,
)

dotted-IsHostText : (p b : Text) → IsHostText p → IsHostText b → IsHostText ((p ++ b'.' ∷ []) ++ b)
unfolding has_code
dotted-IsHostText p b hp hb =
    All-append IsHostChar (p ++ b'.' ∷ []) b (All-append IsHostChar p (b'.' ∷ []) hp (refl, tt)) hb

-- The host of a URL whose text behind the scheme is `sub`, `h` and the rest.
module _ (w : WebUrl) (web : IsWebUrl w) where
  host_of_parts :
      (sub h z : Text)
      → IsHostText (sub ++ h)
      → Matches rest_pattern z
      → from_host w ≡ sub ++ (h ++ z)
      → w.host ≡ sub ++ h
  host_of_parts sub h z plain mz e =
      cut_unique w.host (sub ++ h) (port_part w.port ++ w.tail) z web.host_text plain
        (written_rest-IsEnd w.port w.tail web.tail_text) (rest-IsEnd z mz)
        (e ∙ sym (append_assoc sub h z))

  parts_of_host :
      (sub h : Text) (r : Regex)
      → w.host ≡ sub ++ h
      → Matches r sub
      → Matches (seq r (seq (literal h) rest_pattern)) (from_host w)
  parts_of_host sub h r e m = (
    sub,
    h ++ (port_part w.port ++ w.tail),
    ap (λ t. t ++ (port_part w.port ++ w.tail)) e ∙ append_assoc sub h (port_part w.port ++ w.tail),
    m,
    (
      h,
      port_part w.port ++ w.tail,
      refl,
      (literal_iff h h).1 refl,
      rest_complete w.port w.tail web.port_digits web.tail_text,
    ),
  )

  parts_read :
      (b : Text) (r : Regex)
      → Matches (seq r (seq (literal b) rest_pattern)) (from_host w)
      → (u : Text) × (z : Text) × Matches r u
        × Matches rest_pattern z
        × (from_host w ≡ u ++ (b ++ z))
  parts_read b r (u, v, e, mu, (h, z, e2, mh, mz)) =
      let eh = (literal_iff b h).0 mh in (u, z, mu, mz, e ∙ cc)

  exact_sound :
      (b : Text)
      → IsHostText b
      → Matches (seq empty (seq (literal b) rest_pattern)) (from_host w)
      → w.host ≡ b
  exact_sound b plain m =
      let (u, z, mu, mz, e) = parts_read b empty m in host_of_parts [] b z plain mz (rw mu at e)

  sub_sound :
      (b : Text)
      → IsHostText b
      → Matches (seq sub_group (seq (literal b) rest_pattern)) (from_host w)
      → (w.host ≡ b) ⊎ ((sub : Text) × (w.host ≡ sub ++ b'.' ∷ b))
  sub_sound b plain m =
      let (u, z, mu, mz, e) = parts_read b sub_group m in
      elim (sub_shape u mu) [
        | inl k ↦ inl (host_of_parts [] b z plain mz (rw k at e))
        | inr (p, k, hp) ↦ inr (
          p,
          host_of_parts (p ++ b'.' ∷ []) b z (dotted-IsHostText p b hp plain) mz (rw k at e)
              ∙ append_assoc p (b'.' ∷ []) b,
        )
      ]

  sub_complete :
      (b : Text)
      → (w.host ≡ b) ⊎ ((sub : Text) × (w.host ≡ sub ++ b'.' ∷ b))
      → Matches (seq sub_group (seq (literal b) rest_pattern)) (from_host w)
  sub_complete b (inl e) = parts_of_host [] b sub_group e (inl refl)
  sub_complete b (inr ([], e)) = absurd (unfold starts_with in cc (rw e at web.host_start))
  sub_complete b (inr (c ∷ p, e)) =
      let chars : IsHostText (c ∷ p) =
        All-append_left IsHostChar (c ∷ p) (b'.' ∷ b) (rw e at web.host_text) in
      parts_of_host ((c ∷ p) ++ b'.' ∷ []) b sub_group
        (e ∙ sym (append_assoc (c ∷ p) (b'.' ∷ []) b)) (sub_intro c p chars)

  exact_iff :
      (b : Text)
      → IsHostText b
      → Matches (seq empty (seq (literal b) rest_pattern)) (from_host w) ↔ (text_eq w.host b ≡ true)
  exact_iff b plain = (
    λ m. (text_eq_iff w.host b).1 (exact_sound b plain m),
    λ h. parts_of_host [] b empty ((text_eq_iff w.host b).0 h) refl,
  )

  sub_iff :
      (b : Text)
      → IsHostText b
      → Matches (seq sub_group (seq (literal b) rest_pattern)) (from_host w)
        ↔ ((text_eq w.host b || ends_with w.host (b'.' ∷ b)) ≡ true)
  sub_iff b plain = (
    λ m. elim (sub_sound b plain m) [
      | inl e ↦ ground (arith, (text_eq_iff w.host b).1 e)
      | inr (p, e) ↦ ground (arith, (ends_with_iff w.host (b'.' ∷ b)).1 (p, e))
    ],
    λ h. elim (Bool-cases (text_eq w.host b)) [
      | inl e ↦ sub_complete b (inl ((text_eq_iff w.host b).0 e))
      | inr n ↦ sub_complete b (inr ((ends_with_iff w.host (b'.' ∷ b)).0 (ground arith)))
    ],
  )

  behind_scheme_iff :
      (entry : Text)
      → IsHostText (bare_entry entry)
      → Matches
          (seq (sub_pattern entry) (seq (literal (bare_entry entry)) rest_pattern))
          (from_host w)
        ↔ (entry_covers entry w.host ≡ true)
  unfolding entry_covers
  behind_scheme_iff entry plain = elim (Bool-cases (is_exact entry)) [
    | inl m ↦ rw m (exact_iff (drop 1 entry) (rw m at plain))
    | inr m ↦ elim (Bool-cases (is_ip_literal entry)) [
      | inl i ↦ rw (m, i) (exact_iff entry (rw m at plain))
      | inr i ↦ rw (m, i) (sub_iff entry (rw m at plain))
    ]
  ]

  -- For an entry whose host part holds only characters of a hostname, the pattern of its filter
  -- matches a web URL exactly if the entry covers the URL's host.
  pub pattern_iff :
      (entry : Text)
      → IsHostText (bare_entry entry)
      → Matches (entry_pattern entry) (write w) ↔ (entry_covers entry w.host ≡ true)
  unfolding entry_pattern write
  pattern_iff entry plain =
      let both = behind_scheme_iff entry plain in
      let r = seq (sub_pattern entry) (seq (literal (bare_entry entry)) rest_pattern) in
      (
        λ m. both.0 (scheme_inv w.secure r (from_host w) m),
        λ h. scheme_intro w.secure r (from_host w) (both.1 h),
      )
