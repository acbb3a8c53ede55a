-- ===== src/ListMatch/Covers.antt =====
-- Which hostnames an entry covers, said without the code's tests.
use browsception.Prelude.{
  Text, ◌≡◌, ◌≢◌, ◌↔◌, inl, inr, refl, Bool-cases, true, false, [], ◌∷◌, ◌++◌, arith, starts_with,
  text_eq, text_eq_iff, ends_with_iff, drop,
}
use browsception.ListMatch.{is_ip_literal, entry_covers, entry_matches, canonical_host}

pub data CoversHost (entry host : Text) : Type 0 where
  exact : entry ≡ b'=' ∷ host → CoversHost entry host
  same : starts_with entry (b'=' ∷ []) ≡ false → host ≡ entry → CoversHost entry host
  below :
      starts_with entry (b'=' ∷ []) ≡ false
      → is_ip_literal entry ≡ false
      → (sub : Text) → host ≡ sub ++ b'.' ∷ entry
      → CoversHost entry host

marked_shape :
    (e host : Text) → starts_with e (b'=' ∷ []) ≡ true → host ≡ drop 1 e → e ≡ b'=' ∷ host
unfolding starts_with
marked_shape [] host h k = cc
marked_shape (c ∷ e) host h k = ground arith

entry_covers_sound : (e host : Text) → entry_covers e host ≡ true → CoversHost e host
unfolding entry_covers
entry_covers_sound e host h = elim (Bool-cases (starts_with e (b'=' ∷ []))) [
  | inl m ↦ exact (marked_shape e host m ((text_eq_iff host (drop 1 e)).0 (rw m at h)))
  | inr m ↦ elim (Bool-cases (text_eq host e)) [
    | inl s ↦ same m ((text_eq_iff host e).0 s)
    | inr d ↦
        let ip : is_ip_literal e ≡ false = ground arith in
        let (sub, eq) = (ends_with_iff host (b'.' ∷ e)).0 (ground arith) in below m ip sub eq
  ]
]

entry_covers_complete : (e host : Text) → CoversHost e host → entry_covers e host ≡ true
unfolding entry_covers
entry_covers_complete e host (exact eq) =
    rw eq (unfold starts_with in (text_eq_iff host host).1 refl)
entry_covers_complete e host (same m eq) = ground (arith, text_eq_iff host e)
entry_covers_complete e host (below m ip sub eq) =
    ground (arith, (ends_with_iff host (b'.' ∷ e)).1 (sub, eq))

pub entry_covers_iff : (e host : Text) → (entry_covers e host ≡ true) ↔ CoversHost e host
entry_covers_iff e host = (entry_covers_sound e host, entry_covers_complete e host)

-- A stored entry matches a hostname exactly when neither is empty and the entry covers the
-- hostname in lower case without its dots at the end: an entry marked `=` covers the host after
-- the mark, any other covers itself, and one that is no IP literal also covers what ends in a dot
-- and the entry.
pub entry_matches_iff :
    (entry hostname : Text)
    → (entry_matches entry hostname ≡ true)
      ↔ ((entry ≢ []) × (hostname ≢ []) × CoversHost entry (canonical_host hostname))
unfolding entry_matches
entry_matches_iff entry hostname =
    let e = text_eq_iff entry [] in
    let n = text_eq_iff hostname [] in
    let covers = entry_covers_iff entry (canonical_host hostname) in
    (
      λ h. (ground (arith, e), ground (arith, n), covers.0 (ground arith)),
      λ (a, b, c). ground (arith, e, n, covers.1 c),
    )
