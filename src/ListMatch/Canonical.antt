-- ===== src/ListMatch/Canonical.antt =====
-- The canonical form that `normalizeEntry` answers with.
use browsception.Prelude.{
  ℕ, zero, suc, ◌+◌, Text, ◌≡◌, inl, inr, refl, Bool-cases, Bool, true, false, some, [], ◌∷◌, arith,
  starts_with, ◌||◌, has_code, trim, lower, lower_char, strip_dots, is_space, trim_of_no_space,
  lower_of_fixed, All, leb, ◌==◌, Option, text_eq, sym, none,
}
use browsception.Host.{UrlParser}
use browsception.ListMatch.{
  is_label_char, is_labels, is_quad, is_ip_literal, is_usable, pasted_host, with_mark, without_mark,
  normalize_lowered, checked, normalize_entry, finish_entry,
}

-- What a text of labels is made of.
abbrev pub IsHostChar : ℕ → Type 0
IsHostChar c = (is_label_char c || c == b'.') ≡ true

pub is_labels-All : (seen : Bool) (s : Text) → is_labels seen s ≡ true → All IsHostChar s
unfolding is_labels
is_labels-All seen [] h = tt
is_labels-All seen (c ∷ s) h = elim (Bool-cases (c == b'.')) [
  | inl d ↦ (ground arith, is_labels-All false s (ground arith))
  | inr d ↦ (ground arith, is_labels-All true s (ground arith))
]

is_quad-is_labels : (dots n : ℕ) (s : Text) → is_quad dots n s ≡ true → is_labels (leb 1 n) s ≡ true
unfolding is_labels is_quad
is_quad-is_labels dots n [] h = ground arith
is_quad-is_labels dots n (c ∷ s) h = ground (
  arith,
  is_quad-is_labels (elim dots [ zero ↦ 0 | suc d ↦ d ]) 0 s,
  is_quad-is_labels dots (n + 1) s,
)

-- A usable text with no colon is a sequence of labels.
pub usable-is_labels :
    (s : Text) → is_usable s ≡ true → has_code b':' s ≡ false → is_labels false s ≡ true
unfolding is_ip_literal
usable-is_labels s h k = ground (arith, is_quad-is_labels 3 0 s)

pub strip_dots_of_labels : (seen : Bool) (s : Text) → is_labels seen s ≡ true → strip_dots s ≡ s
unfolding is_labels strip_dots
strip_dots_of_labels seen [] h = refl
strip_dots_of_labels seen (c ∷ []) h = ground arith
strip_dots_of_labels seen (c ∷ d ∷ s) h =
    ground (arith, strip_dots_of_labels true (d ∷ s), strip_dots_of_labels false (d ∷ s))

host_char-fixed : (c : ℕ) → IsHostChar c → (lower_char c ≡ c ∷ []) × (is_space c ≡ false)
unfolding lower_char
host_char-fixed c h = (ground arith, ground arith)

pub host_chars-fixed :
    (s : Text)
    → All IsHostChar s
    → All (λ c. lower_char c ≡ c ∷ []) s × All (λ c. is_space c ≡ false) s
host_chars-fixed [] h = (tt, tt)
host_chars-fixed (c ∷ s) h =
    let (a, b) = host_char-fixed c h.0 in
    let (as', bs) = host_chars-fixed s h.1 in ((a, as'), (b, bs))

-- The marked form of a host of labels is left alone by `trim` and `lower`.
pub mark-fixed :
    (exact : Bool) (s : Text)
    → All IsHostChar s
    → (trim (with_mark exact s) ≡ with_mark exact s)
      × (lower (with_mark exact s) ≡ with_mark exact s)
mark-fixed false s h =
    let (low, plain) = host_chars-fixed s h in (trim_of_no_space s plain, lower_of_fixed s low)
mark-fixed true s h =
    let (low, plain) = host_chars-fixed s h in
    (
      trim_of_no_space (b'=' ∷ s) (refl, plain),
      lower_of_fixed (b'=' ∷ s) (unfold lower_char in refl, low),
    )

pub no_code : (s : Text) → All IsHostChar s → (has_code b'/' s ≡ false) × (has_code b':' s ≡ false)
unfolding has_code
no_code [] h = (refl, refl)
no_code (c ∷ s) h = let (a, b) = no_code s h.1 in (ground arith, ground arith)

pub not_marked : (s : Text) → All IsHostChar s → starts_with s (b'=' ∷ []) ≡ false
unfolding starts_with
not_marked [] h = refl
not_marked (c ∷ s) h = ground arith

mark-read :
    (exact : Bool) (s : Text)
    → All IsHostChar s
    → (starts_with (with_mark exact s) (b'=' ∷ []) ≡ exact)
      × (without_mark exact (with_mark exact s) ≡ s)
mark-read false s h = (not_marked s h, refl)
mark-read true s h = (unfold starts_with in refl, refl)

-- What `normalizeEntry` answers, taken apart.
finish_inv :
    (exact : Bool) (o : Option Text) {e : Text}
    → finish_entry exact o ≡ some e
    → (host : Text) × (o ≡ some host)
      × (is_usable (strip_dots host) ≡ true)
      × (e ≡ with_mark exact (strip_dots host))
unfolding checked
finish_inv exact none h = cc
finish_inv exact (some host) h = (host, refl, ground arith, ground arith)

pub normalize_lowered_inv :
    (parse : UrlParser) (s : Text) {e : Text}
    → normalize_lowered parse s ≡ some e
    → (host : Text) × (pasted_host parse (without_mark (starts_with s (b'=' ∷ [])) s) ≡ some host)
      × (is_usable (strip_dots host) ≡ true)
      × (e ≡ with_mark (starts_with s (b'=' ∷ [])) (strip_dots host))
unfolding normalize_lowered
normalize_lowered_inv parse s h = finish_inv (starts_with s (b'=' ∷ [])) _ h

pub normalize_entry_inv :
    (parse : UrlParser) (input : Text) {e : Text}
    → normalize_entry parse input ≡ some e
    → normalize_lowered parse (lower (trim input)) ≡ some e
unfolding normalize_entry
normalize_entry_inv parse input h = ground arith

pub with_mark-ne-nil :
    (exact : Bool) (s : Text) → is_labels false s ≡ true → text_eq (with_mark exact s) [] ≡ false
unfolding is_labels text_eq
with_mark-ne-nil true s h = refl
with_mark-ne-nil false [] h = sym h
with_mark-ne-nil false (c ∷ s) h = refl

-- A marked or unmarked host of labels is normalised to itself.
normalize_lowered_of_labels :
    (parse : UrlParser) (exact : Bool) (s : Text)
    → is_labels false s ≡ true
    → normalize_lowered parse (with_mark exact s) ≡ some (with_mark exact s)
unfolding normalize_lowered pasted_host checked
normalize_lowered_of_labels parse exact s h =
    let chars = is_labels-All false s h in
    let (m, w) = mark-read exact s chars in
    let (slash, colon) = no_code s chars in
    rw (m, w) (ground (arith, strip_dots_of_labels false s h))

pub normalize_of_labels :
    (parse : UrlParser) (exact : Bool) (s : Text)
    → is_labels false s ≡ true
    → normalize_entry parse (with_mark exact s) ≡ some (with_mark exact s)
unfolding normalize_entry
normalize_of_labels parse exact s h =
    let (t, l) = mark-fixed exact s (is_labels-All false s h) in
    rw (t, l, with_mark-ne-nil exact s h) (normalize_lowered_of_labels parse exact s h)

pub has_code-with_mark :
    (exact : Bool) (s : Text) → has_code b':' (with_mark exact s) ≡ false → has_code b':' s ≡ false
unfolding has_code
has_code-with_mark true s h = h
has_code-with_mark false s h = h

-- Normalising an entry a second time changes nothing, unless it is an IPv6 literal (the one kind
-- of entry with a colon, which goes through the URL parser again).
pub normalize_entry_idem :
    (parse : UrlParser) (input e : Text)
    → normalize_entry parse input ≡ some e
    → has_code b':' e ≡ false
    → normalize_entry parse e ≡ some e
normalize_entry_idem parse input e h colon =
    let (host, _, usable, shape) =
      normalize_lowered_inv parse _ (normalize_entry_inv parse input h) in
    let exact = starts_with (lower (trim input)) (b'=' ∷ []) in
    let plain = has_code-with_mark exact (strip_dots host) (rw shape at colon) in
    rw shape (
      normalize_of_labels parse exact (strip_dots host)
        (usable-is_labels (strip_dots host) usable plain))
