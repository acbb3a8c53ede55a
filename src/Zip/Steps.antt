-- ===== src/Zip/Steps.antt =====
-- scripts/lib/zip.mjs: one member at a time, as it is written and as the reader meets it.
use browsception.Prelude.{
  List, ℕ, All, drop, length, ◌+◌, ◌++◌, ◌≡◌, true, ◌∷◌, suc, [], ap, zero, refl, some, arith, sym,
  >>=_inv, Option, ◌∙◌, some_inj, ◌>>=◌, none, subst, drop-append, take-append,
}
use browsception.Zip.{
  Member, fits, local_fields, write_members, Written, central_fields, add_member,
}
use browsception.Zip.Reader.{read_body, read_member}
use browsception.Zip.Fields.{
  local_of, read_u32, read_u16, central_of, header-lengths, local_written, central_written,
}

drop-nil {ℓ} : {A : Type ℓ} (n : ℕ) → drop {A = A} n [] ≡ []
drop-nil zero = refl
drop-nil (suc n) = refl

suc_add : (m n : ℕ) → suc m + n ≡ suc (m + n)
suc_add m n = omega arith

pub drop-drop {ℓ} : {A : Type ℓ} (m n : ℕ) (xs : List A) → drop (m + n) xs ≡ drop n (drop m xs)
drop-drop zero n xs = ap (λ k. drop k xs) (omega arith)
drop-drop (suc m) n [] = drop-nil (suc m + n) ∙ sym (drop-nil n)
drop-drop (suc m) n (x ∷ xs) = ap (λ k. drop k (x ∷ xs)) (suc_add m n) ∙ drop-drop m n xs

-- Behind a header of n bytes.
pub drop_header :
    (n : ℕ) (header rest : List ℕ) → length header ≡ n → drop n (header ++ rest) ≡ rest
drop_header n header rest h = rw (← h) (drop-append header rest)

-- A member's body is found behind its local header, its name and its body.
pub read_body-at :
    (at_header name body rest : List ℕ)
    → read_u32 0 at_header ≡ 0x04034b50
    → read_u16 26 at_header ≡ length name
    → drop 30 at_header ≡ name ++ (body ++ rest)
    → read_body (length body) at_header ≡ some body
unfolding read_body
read_body-at at_header name body rest signature names behind =
    rw
      (
        signature,
        names,
        drop-drop 30 (length name) at_header,
        behind,
        drop-append name (body ++ rest),
        take-append body rest,
      )
      refl

pub read_member-at :
    (m : Member) (dir file rest : List ℕ) (offset : ℕ)
    → read_u32 0 dir ≡ 0x02014b50
    → read_u16 10 dir ≡ m.method
    → read_u32 16 dir ≡ m.crc
    → read_u32 20 dir ≡ length m.body
    → read_u32 24 dir ≡ m.raw_length
    → read_u16 28 dir ≡ length m.name
    → read_u32 42 dir ≡ offset
    → drop 46 dir ≡ m.name ++ rest
    → read_body (length m.body) (drop offset file) ≡ some m.body
    → read_member dir file ≡ some m
unfolding read_member
read_member-at m dir file rest offset signature method crc size raw names at behind body =
    rw (size, at, body, signature, method, crc, raw, names, behind, take-append m.name rest) refl

members_step :
    (m : Member) (w : Written) (local cd : Option (List ℕ)) (f : List ℕ → Option Written)
    → (local >>= λ l. cd >>= λ c. f l >>= λ w'. some (add_member m l c w')) ≡ some w
    → (l : List ℕ) × (c : List ℕ) × (w' : Written) × (local ≡ some l)
      × (cd ≡ some c)
      × (f l ≡ some w')
      × (w ≡ add_member m l c w')
members_step m w none cd f h = cc
members_step m w (some l) none f h = cc
members_step m w (some l) (some c) f h =
    let (w', e, k) = >>=_inv (f l) (λ w'. some (add_member m l c w')) h in
    (l, c, w', refl, refl, e, sym (some_inj k))

pub record Step (m : Member) (ms : List Member) (offset : ℕ) (w : Written) : Type 0 where
  pub rest : Written
  pub local_fit : All (λ f. fits f ≡ true) (local_fields m)
  pub central_fit : All (λ f. fits f ≡ true) (central_fields m offset)
  pub wrote : write_members (offset + (30 + length m.name + length m.body)) ms ≡ some rest
  pub whole : w ≡ add_member m (local_of m) (central_of m offset) rest

pub write_members_inv :
    (m : Member) (ms : List Member) (offset : ℕ) (w : Written)
    → write_members offset (m ∷ ms) ≡ some w
    → Step m ms offset w
unfolding write_members
write_members_inv m ms offset w h =
    let (l, c, w', hl, hc, hw, e) = members_step m w _ _ _ h in
    let (el, local_ok) = local_written m l hl in
    let (ec, central_ok) = central_written m offset c hc in
    let long : length l ≡ 30 = ap (λ h. length h) el ∙ (header-lengths m offset).0 in
    record {
      rest = w';
      local_fit = local_ok;
      central_fit = central_ok;
      wrote =
          subst (λ n. write_members (offset + (n + length m.name + length m.body)) ms ≡ some w')
            long hw;
      whole = e ∙ ap (λ h. add_member m h c w') el ∙ ap (λ h. add_member m (local_of m) h w') ec;
    }
