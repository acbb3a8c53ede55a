-- ===== src/Zip/Order.antt =====
-- scripts/lib/zip.mjs: the order in which the entries are written.
use browsception.Zip.{ZipEntry, text_lt, insert_entry, sort_entries}
use browsception.Prelude.{
  Text, List, ◌∷◌, ◌≡◌, true, Bool-cases, false, [], if◌then◌else◌, text_eq, inl, refl, arith, inr,
  text_eq_iff, ◌<◌, ltb, ◌⊎◌,
}

-- The order of texts by their code units, the shorter of two texts first where it begins the other.
abbrev pub IsAtMost : Text → Text → Type 0
IsAtMost [] t = Unit
IsAtMost (c ∷ s) [] = ⊥
IsAtMost (c ∷ s) (d ∷ t) = (c < d) ⊎ (c ≡ d) × IsAtMost s t

-- The name of each entry is at most that of the next.
abbrev pub IsSorted : List ZipEntry → Type 0
IsSorted [] = Unit
IsSorted (x ∷ []) = Unit
IsSorted (x ∷ y ∷ es) = IsAtMost x.name y.name × IsSorted (y ∷ es)

-- The entries of one name, in their order.
unfoldable pub named : Text → List ZipEntry → List ZipEntry
named n [] = []
named n (x ∷ es) = let rest = named n es in if text_eq x.name n then x ∷ rest else rest

text_lt-asym : (s t : Text) → text_lt s t ≡ true → text_lt t s ≡ false
unfolding text_lt
text_lt-asym [] [] h = refl
text_lt-asym [] (d ∷ t) h = refl
text_lt-asym (c ∷ s) [] h = cc
text_lt-asym (c ∷ s) (d ∷ t) h = ground (arith, text_lt-asym s t)

text_lt_irrefl : (s : Text) → text_lt s s ≡ false
unfolding text_lt
text_lt_irrefl [] = refl
text_lt_irrefl (c ∷ s) = ground (arith, text_lt_irrefl s)

at_most : (s t : Text) → text_lt t s ≡ false → IsAtMost s t
unfolding text_lt
at_most [] t h = tt
at_most (c ∷ s) [] h = cc
at_most (c ∷ s) (d ∷ t) h = elim (Bool-cases (ltb c d)) [
  | inl below ↦ inl (ground arith)
  | inr above ↦ inr (ground arith, at_most s t (ground arith))
]

-- The new entry comes first, or the list's first stays first.
insert_behind :
    (x e : ZipEntry) (es : List ZipEntry)
    → text_lt e.name x.name ≡ false
    → IsSorted (x ∷ es)
    → IsSorted (x ∷ insert_entry e es)
unfolding insert_entry
insert_behind x e [] le ok = (at_most x.name e.name le, tt)
insert_behind x e (y ∷ es) le ok = elim (Bool-cases (text_lt y.name e.name)) [
  | inl below ↦ rw below (ok.0, insert_behind y e es (text_lt-asym y.name e.name below) ok.1)
  | inr above ↦ rw above (at_most x.name e.name le, (at_most e.name y.name above, ok.1))
]

insert_entry-IsSorted :
    (e : ZipEntry) (es : List ZipEntry) → IsSorted es → IsSorted (insert_entry e es)
unfolding insert_entry
insert_entry-IsSorted e [] ok = tt
insert_entry-IsSorted e (x ∷ es) ok = elim (Bool-cases (text_lt x.name e.name)) [
  | inl below ↦ rw below (insert_behind x e es (text_lt-asym x.name e.name below) ok)
  | inr above ↦ rw above (at_most e.name x.name above, ok)
]

pub sort_entries-IsSorted : (es : List ZipEntry) → IsSorted (sort_entries es)
unfolding sort_entries
sort_entries-IsSorted [] = tt
sort_entries-IsSorted (e ∷ es) =
    insert_entry-IsSorted e (sort_entries es) (sort_entries-IsSorted es)

-- Of two names one of which is below the other, one at most is a given name.
not_named : (n s t : Text) → text_lt s t ≡ true → text_eq s n ≡ true → text_eq t n ≡ false
not_named n s t below same = elim (Bool-cases (text_eq t n)) [
  | inr other ↦ other
  | inl also ↦
      let irr = text_lt_irrefl n in
      let s≡n = (text_eq_iff s n).0 same in let t≡n = (text_eq_iff t n).0 also in cc
]

named-insert_entry :
    (n : Text) (e : ZipEntry) (es : List ZipEntry) → named n (insert_entry e es) ≡ named n (e ∷ es)
unfolding named insert_entry
named-insert_entry n e [] = refl
named-insert_entry n e (x ∷ es) = elim (Bool-cases (text_lt x.name e.name)) [
  | inl below ↦
      rw below (ground (arith, named-insert_entry n e es, not_named n x.name e.name below))
  | inr above ↦ rw above refl
]

pub named-sort_entries : (n : Text) (es : List ZipEntry) → named n (sort_entries es) ≡ named n es
unfolding sort_entries named
named-sort_entries n [] = refl
named-sort_entries n (e ∷ es) =
    rw (named-insert_entry n e (sort_entries es), named-sort_entries n es) refl
