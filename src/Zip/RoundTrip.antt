-- ===== src/Zip/RoundTrip.antt =====
-- scripts/lib/zip.mjs: what is written is read back.
use browsception.Prelude.{
  List, ℕ, All, drop, length, ◌+◌, ◌++◌, ◌≡◌, true, ◌∷◌, suc, [], ap, refl, some, arith, sym,
  >>=_inv, ◌∙◌, some_inj, append_assoc, length-append, ◌-◌, drop-append,
}
use browsception.Zip.{
  Member, fits, local_fields, write_members, Written, concat_buffers, put_fields, alloc,
  central_fields, Result, finish_archive, end_fields,
}
use browsception.Zip.Reader.{read_member, read_members, read_zip}
use browsception.Zip.Fields.{
  local_of, read_u32, read_u16, central_of, read-central_of, header-lengths, read-local_of,
  end_written, read-end_of, length-end_of,
}
use browsception.Zip.Steps.{drop-drop, read_member-at, write_members_inv, drop_header, read_body-at}

-- A local header with its member, and a directory record, before anything else.
local_behind :
    (m : Member) (out after : List ℕ)
    → (local_of m ++ (m.name ++ (m.body ++ out))) ++ after
      ≡ local_of m ++ (m.name ++ (m.body ++ (out ++ after)))
local_behind m out after = simp append_assoc

central_behind :
    (m : Member) (offset : ℕ) (central : List (List ℕ)) (behind : List ℕ)
    → concat_buffers ((central_of m offset ++ m.name) ∷ central) ++ behind
      ≡ central_of m offset ++ (m.name ++ (concat_buffers central ++ behind))
unfolding concat_buffers
central_behind m offset central behind = simp append_assoc

-- The member that was written first is read from its record.
read_member-first :
    (m : Member) (offset : ℕ) (out after file rest : List ℕ)
    → All (λ f. fits f ≡ true) (local_fields m)
    → All (λ f. fits f ≡ true) (central_fields m offset)
    → drop offset file ≡ local_of m ++ (m.name ++ (m.body ++ (out ++ after)))
    → read_member (central_of m offset ++ (m.name ++ rest)) file ≡ some m
read_member-first m offset out after file rest local_ok central_ok at =
    let (signature, method, crc, size, raw, names, place) =
      read-central_of m offset (m.name ++ rest) central_ok in
    let (local_signature, local_names) =
      read-local_of m (m.name ++ (m.body ++ (out ++ after))) local_ok in
    let (local_length, central_length) = header-lengths m offset in
    read_member-at m _ file rest offset signature method crc size raw names place
      (drop_header 46 (central_of m offset) (m.name ++ rest) central_length)
      (rw at (
        read_body-at _ m.name m.body (out ++ after) local_signature local_names
          (drop_header 30 (local_of m) _ local_length)))

-- Behind the member that was written first.
drop-first :
    (m : Member) (offset : ℕ) (file more : List ℕ)
    → drop offset file ≡ local_of m ++ (m.name ++ (m.body ++ more))
    → drop (offset + (30 + length m.name + length m.body)) file ≡ more
drop-first m offset file more at =
    rw
      (
        drop-drop offset (30 + length m.name + length m.body) file,
        at,
        drop-drop (30 + length m.name) (length m.body) (local_of m ++ (m.name ++ (m.body ++ more))),
        drop-drop 30 (length m.name) (local_of m ++ (m.name ++ (m.body ++ more))),
        drop_header 30 (local_of m) (m.name ++ (m.body ++ more)) (header-lengths m offset).0,
        drop-append m.name (m.body ++ more),
        drop-append m.body more,
      )
      refl

drop-record :
    (m : Member) (offset : ℕ) (rest : List ℕ)
    → All (λ f. fits f ≡ true) (central_fields m offset)
    → let dir = central_of m offset ++ (m.name ++ rest) in drop (46 + read_u16 28 dir) dir ≡ rest
drop-record m offset rest ok =
    rw
      (
        (read-central_of m offset (m.name ++ rest) ok).5,
        drop-drop 46 (length m.name) (central_of m offset ++ (m.name ++ rest)),
        drop_header 46 (central_of m offset) (m.name ++ rest) (header-lengths m offset).1,
        drop-append m.name rest,
      )
      refl

nothing_written :
    (offset : ℕ) (w : Written)
    → write_members offset [] ≡ some w
    → record { out = []; central = []; offset = offset } ≡ w
unfolding write_members
nothing_written offset w h = some_inj h

out-length :
    (m : Member) (offset : ℕ) (out : List ℕ)
    → length (local_of m ++ (m.name ++ (m.body ++ out)))
      ≡ 30 + length m.name + length m.body + length out
out-length m offset out = omega (
  arith,
  length-append (local_of m) (m.name ++ (m.body ++ out)),
  length-append m.name (m.body ++ out),
  length-append m.body out,
  (header-lengths m offset).0,
)

-- The loop writes what the reader finds, wherever its bytes are in the file.
read_members-write_members :
    (ms : List Member) (offset : ℕ) (file after behind : List ℕ) (w : Written)
    → write_members offset ms ≡ some w
    → drop offset file ≡ w.out ++ after
    → (read_members (length ms) (concat_buffers w.central ++ behind) file ≡ some ms)
      × (length w.central ≡ length ms)
      × (w.offset ≡ offset + length w.out)
unfolding read_members
read_members-write_members [] offset file after behind w h at =
    let e = sym (nothing_written offset w h) in
    (
      refl,
      ap (λ w. length w.central) e,
      omega (arith, ap (λ w. w.offset) e, ap (λ w. length w.out) e),
    )
read_members-write_members (m ∷ ms) offset file after behind w h at =
    let s = write_members_inv m ms offset w h in
    let w' = s.rest in
    let rest = concat_buffers w'.central ++ behind in
    let here = at ∙ ap (λ w. w.out ++ after) s.whole ∙ local_behind m w'.out after in
    let dir =
      ap (λ w. concat_buffers w.central ++ behind) s.whole
      ∙ central_behind m offset w'.central behind in
    let (members, count, ends) =
      read_members-write_members ms _ file after behind w' s.wrote
        (drop-first m offset file (w'.out ++ after) here) in
    (
      rw
          (
            dir,
            read_member-first m offset w'.out after file rest s.local_fit s.central_fit here,
            drop-record m offset rest s.central_fit,
            members,
          )
          refl,
      ap (λ w. length w.central) s.whole ∙ ap suc count,
      omega (
        arith,
        ap (λ w. w.offset) s.whole,
        ap (λ w. length w.out) s.whole,
        ends,
        out-length m offset w'.out,
      ),
    )

read_zip-at :
    (out dir e : List ℕ) (n : ℕ) (ms : List Member)
    → length e ≡ 22
    → read_u32 0 e ≡ 0x06054b50
    → read_u16 10 e ≡ n
    → read_u32 16 e ≡ length out
    → read_members n (dir ++ e) (out ++ (dir ++ e)) ≡ some ms
    → read_zip (out ++ (dir ++ e)) ≡ some ms
unfolding read_zip
read_zip-at out dir e n ms long signature count place members =
    let file = out ++ (dir ++ e) in
    let front : length file - 22 ≡ length (out ++ dir) =
      omega
        (arith, length-append out (dir ++ e), length-append dir e, length-append out dir, long) in
    let at_end : drop (length file - 22) file ≡ e =
      rw (front, ← append_assoc out dir e) (drop-append (out ++ dir) e) in
    rw (at_end, signature, count, place, drop-append out (dir ++ e)) members

pub read_zip-members :
    (ms : List Member) (w : Written) (bytes : List ℕ) (r : Result)
    → write_members 0 ms ≡ some w
    → finish_archive w ≡ some (bytes, r)
    → (read_zip bytes ≡ some ms) × (r.bytes ≡ length bytes) × (r.entries ≡ length ms)
read_zip-members ms w bytes r h k =
    let dir = concat_buffers w.central in
    let (e, he, pair) =
      >>=_inv (put_fields (end_fields (length w.central) (length dir) w.offset) (alloc 22)) _ k in
    let (ee, ok) = end_written (length w.central) (length dir) w.offset e he in
    let both = some_inj pair in
    let (signature, count, place) = read-end_of (length w.central) (length dir) w.offset ok in
    let (members, counted, ends) =
      read_members-write_members ms 0 (w.out ++ (dir ++ e)) (dir ++ e) e w h refl in
    let long : length e ≡ 22 =
      ap (λ b. length b) ee ∙ length-end_of (length w.central) (length dir) w.offset in
    let start : w.offset ≡ length w.out = omega (arith, ends) in
    let read : read_zip (w.out ++ (dir ++ e)) ≡ some ms =
      read_zip-at w.out dir e (length ms) ms long (ap (read_u32 0) ee ∙ signature)
        (ap (read_u16 10) ee ∙ count ∙ counted) (ap (read_u32 16) ee ∙ place ∙ start) members in
    (
      ap (λ p. read_zip p.0) (sym both) ∙ read,
      omega (
        arith,
        ap (λ p. p.1.bytes) both,
        ap (λ p. length p.0) both,
        ends,
        length-append w.out (dir ++ e),
        length-append dir e,
      ),
      ap (λ p. p.1.entries) (sym both) ∙ counted,
    )
