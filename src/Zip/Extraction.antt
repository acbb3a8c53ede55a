-- ===== src/Zip/Extraction.antt =====
-- scripts/lib/zip.mjs: the files that are packed are the files that are unpacked.
use browsception.Zip.{
  Tools, member_of, write_zip, insert_entry, sort_entries, Result, Member, write_members,
  finish_archive, Written, concat_buffers, put_fields, end_fields, alloc, ZipEntry,
}
use browsception.Prelude.{
  List, ℕ, length, map, ◌≡◌, some, ◌∷◌, suc, ap, arith, Bool-cases, ◌∙◌, [], leb, >>=_inv, refl,
  inl, inr, ltb, ◌<◌, true, ◌*◌, ◌+◌, some_inj, Text,
}
use browsception.Zip.Reader.{unpacked, read_zip}
use browsception.Zip.RoundTrip.{read_zip-members}
use browsception.Zip.Fields.{end_written, length-end_of}
use browsception.Zip.Order.{IsSorted, named, sort_entries-IsSorted, named-sort_entries}

unpacked-member_of :
    (t : Tools) (inflate : List ℕ → List ℕ)
    → ((raw : List ℕ) → inflate (t.deflate raw) ≡ raw)
    → (e : ZipEntry) → unpacked inflate (member_of t e) ≡ (t.utf8 e.name, t.read_file e.source)
unfolding member_of
unpacked-member_of t inflate inverse e =
    let raw = t.read_file e.source in
    elim (Bool-cases (leb (length raw) (length (t.deflate raw)))) [
      | inl store ↦ rw store refl
      | inr deflated ↦ rw deflated (ap (λ b. (t.utf8 e.name, b)) (inverse raw))
    ]

unpacked-members :
    (t : Tools) (inflate : List ℕ → List ℕ)
    → ((raw : List ℕ) → inflate (t.deflate raw) ≡ raw)
    → (es : List ZipEntry)
    → map (unpacked inflate) (map (member_of t) es)
      ≡ map (λ e. (t.utf8 e.name, t.read_file e.source)) es
unpacked-members t inflate inverse [] = refl
unpacked-members t inflate inverse (e ∷ es) =
    rw (unpacked-member_of t inflate inverse e, unpacked-members t inflate inverse es) refl

ltb-< : (a b : ℕ) → ltb a b ≡ true → a < b
ltb-< a b h = ground arith

length-map {ℓ κ} :
    {A : Type ℓ} {B : Type κ} (f : A → B) (xs : List A) → length (map f xs) ≡ length xs
length-map f [] = refl
length-map f (x ∷ xs) = ap suc (length-map f xs)

length-insert_entry :
    (e : ZipEntry) (es : List ZipEntry) → length (insert_entry e es) ≡ suc (length es)
unfolding insert_entry
length-insert_entry e [] = refl
length-insert_entry e (x ∷ es) = ground (arith, length-insert_entry e es)

length-sort_entries : (es : List ZipEntry) → length (sort_entries es) ≡ length es
unfolding sort_entries
length-sort_entries [] = refl
length-sort_entries (e ∷ es) =
    length-insert_entry e (sort_entries es) ∙ ap suc (length-sort_entries es)

-- Every archive that `writeZip` finishes is read back, by a reader that starts at its end, as the
-- entries in some order, each with the bytes of its source, where inflating undoes deflating. In
-- that order the name of each entry is at most that of the next, by code units, and the entries of
-- any one name are exactly those that were given, in the order in which they were given. The byte
-- and entry counts returned are those of the archive.
pub read_zip-write_zip :
    (t : Tools) (inflate : List ℕ → List ℕ) (entries : List ZipEntry) (bytes : List ℕ) (r : Result)
    → ((raw : List ℕ) → inflate (t.deflate raw) ≡ raw)
    → write_zip t entries ≡ some (bytes, r)
    → ((ms : List Member) × (ordered : List ZipEntry) × (read_zip bytes ≡ some ms)
        × (map (unpacked inflate) ms ≡ map (λ e. (t.utf8 e.name, t.read_file e.source)) ordered)
        × IsSorted ordered
        × ((n : Text) → named n ordered ≡ named n entries))
      × (r.bytes ≡ length bytes)
      × (r.entries ≡ length entries)
unfolding write_zip
read_zip-write_zip t inflate entries bytes r inverse h =
    let ordered = sort_entries entries in
    let ms = map (member_of t) ordered in
    let (w, wrote, finished) = >>=_inv (write_members 0 ms) finish_archive h in
    let (members, long, count) = read_zip-members ms w bytes r wrote finished in
    (
      (
        ms,
        ordered,
        members,
        unpacked-members t inflate inverse ordered,
        sort_entries-IsSorted entries,
        λ n. named-sort_entries n entries,
      ),
      long,
      count ∙ length-map (member_of t) ordered ∙ length-sort_entries entries,
    )

finish_archive-bounds :
    (w : Written) (bytes : List ℕ) (r : Result)
    → finish_archive w ≡ some (bytes, r)
    → (r.entries < 65536) × (r.bytes < 2 * 4294967296 + 22)
finish_archive-bounds w bytes r h =
    let dir = concat_buffers w.central in
    let (e, he, pair) =
      >>=_inv (put_fields (end_fields (length w.central) (length dir) w.offset) (alloc 22)) _ h in
    let (ee, ok) = end_written (length w.central) (length dir) w.offset e he in
    let long : length e ≡ 22 =
      ap (λ b. length b) ee ∙ length-end_of (length w.central) (length dir) w.offset in
    let returned = some_inj pair in
    let count : length w.central < 65536 = ltb-< (length w.central) 65536 ok.1.1.0 in
    let size : length dir < 4294967296 = ltb-< (length dir) 4294967296 ok.1.1.1.0 in
    let place : w.offset < 4294967296 = ltb-< w.offset 4294967296 ok.1.1.1.1.0 in
    (
      omega (arith, ap (λ p. p.1.entries) returned, count),
      omega (arith, ap (λ p. p.1.bytes) returned, size, place, long),
    )

-- An archive that is finished has fewer than 65536 entries, and its length is below twice 4 GB and
-- the 22 bytes of the record at its end.
pub write_zip-bounds :
    (t : Tools) (entries : List ZipEntry) (bytes : List ℕ) (r : Result)
    → write_zip t entries ≡ some (bytes, r)
    → (r.entries < 65536) × (r.bytes < 2 * 4294967296 + 22)
unfolding write_zip
write_zip-bounds t entries bytes r h =
    let (w, wrote, finished) =
      >>=_inv (write_members 0 (map (member_of t) (sort_entries entries))) finish_archive h in
    finish_archive-bounds w bytes r finished
