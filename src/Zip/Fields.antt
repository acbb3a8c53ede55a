-- ===== src/Zip/Fields.antt =====
-- scripts/lib/zip.mjs: the headers that are written, byte by byte, and numbers read back from them.
use browsception.Zip.{
  put_fields, Member, overwrite, local_fields, little_endian, Field, end_fields, central_fields,
  fits, alloc,
}
use browsception.Prelude.{
  List, ℕ, length, drop, suc, All, ltb, ◌∷◌, ◌≡◌, some, ◌+◌, refl, [], true, sym, ◌%◌, ◌++◌, ◌*◌,
  some_inj, ◌/◌, zero, arith, Bool-cases, inl, inr, none,
}

unfoldable pub written : List Field → List ℕ → List ℕ
written [] buf = buf
written (f ∷ fs) buf = written fs (overwrite f.offset (little_endian f.width f.value) buf)

none_not_some {ℓ} : {A : Type ℓ} {a : A} → none ≡ some a → ⊥
none_not_some h = cc

-- A header that is written has all its numbers in range.
pub put_fields_inv :
    (fs : List Field) (buf out : List ℕ)
    → put_fields fs buf ≡ some out
    → (out ≡ written fs buf) × All (λ f. fits f ≡ true) fs
unfolding put_fields written
put_fields_inv [] buf out h = (sym (some_inj h), tt)
put_fields_inv (f ∷ fs) buf out h = elim (Bool-cases (fits f)) [
  | inl ok ↦ let (e, rest) = put_fields_inv fs _ out (rw ok at h) in (e, (ok, rest))
  | inr bad ↦ absurd (none_not_some (rw bad at h))
]

-- `buf.readUInt16LE(offset)` and `readUInt32LE`; there is 0 behind the end.
unfoldable pub read_le : ℕ → List ℕ → ℕ
read_le zero xs = 0
read_le (suc w) [] = 0
read_le (suc w) (x ∷ xs) = x + 256 * read_le w xs

unfoldable pub read_u16 : ℕ → List ℕ → ℕ
read_u16 at xs = read_le 2 (drop at xs)

unfoldable pub read_u32 : ℕ → List ℕ → ℕ
read_u32 at xs = read_le 4 (drop at xs)

unfoldable pub local_of : Member → List ℕ
local_of m = written (local_fields m) (alloc 30)

unfoldable pub central_of : Member → ℕ → List ℕ
central_of m offset = written (central_fields m offset) (alloc 46)

unfoldable pub end_of : ℕ → ℕ → ℕ → List ℕ
end_of count size offset = written (end_fields count size offset) (alloc 22)

headers : Unit {0}
unfolding read_u16 read_u32 local_of central_of end_of written overwrite little_endian alloc read_le
headers = tt

pub header-lengths :
    (m : Member) (offset : ℕ) → (length (local_of m) ≡ 30) × (length (central_of m offset) ≡ 46)
unfolding headers
header-lengths m offset = (refl, refl)

pub length-end_of : (count size offset : ℕ) → length (end_of count size offset) ≡ 22
unfolding headers
length-end_of count size offset = refl

bytes2 : (v : ℕ) → ltb v 65536 ≡ true → v % 256 + 256 * (v / 256 % 256 + 256 * 0) ≡ v
bytes2 v h = ground arith

bytes4 :
    (v : ℕ)
    → ltb v 4294967296 ≡ true
    → v % 256
        + 256
          * (v / 256 % 256
              + 256 * (v / 256 / 256 % 256 + 256 * (v / 256 / 256 / 256 % 256 + 256 * 0)))
      ≡ v
bytes4 v h = ground arith

-- What a reader finds in a local header.
pub read-local_of :
    (m : Member) (rest : List ℕ)
    → All (λ f. fits f ≡ true) (local_fields m)
    → (read_u32 0 (local_of m ++ rest) ≡ 0x04034b50)
      × (read_u16 26 (local_of m ++ rest) ≡ length m.name)
unfolding headers
read-local_of m rest ok = (refl, bytes2 (length m.name) ok.1.1.1.1.1.1.1.1.1.0)

pub read-central_of :
    (m : Member) (offset : ℕ) (rest : List ℕ)
    → All (λ f. fits f ≡ true) (central_fields m offset)
    → let dir = central_of m offset ++ rest in
      (read_u32 0 dir ≡ 0x02014b50)
      × (read_u16 10 dir ≡ m.method)
      × (read_u32 16 dir ≡ m.crc)
      × (read_u32 20 dir ≡ length m.body)
      × (read_u32 24 dir ≡ m.raw_length)
      × (read_u16 28 dir ≡ length m.name)
      × (read_u32 42 dir ≡ offset)
unfolding headers
read-central_of m offset rest ok = (
  refl,
  bytes2 m.method ok.1.1.1.1.0,
  bytes4 m.crc ok.1.1.1.1.1.1.1.0,
  bytes4 (length m.body) ok.1.1.1.1.1.1.1.1.0,
  bytes4 m.raw_length ok.1.1.1.1.1.1.1.1.1.0,
  bytes2 (length m.name) ok.1.1.1.1.1.1.1.1.1.1.0,
  bytes4 offset ok.1.1.1.1.1.1.1.1.1.1.1.1.0,
)

pub read-end_of :
    (count size offset : ℕ)
    → All (λ f. fits f ≡ true) (end_fields count size offset)
    → (read_u32 0 (end_of count size offset) ≡ 0x06054b50)
      × (read_u16 10 (end_of count size offset) ≡ count)
      × (read_u32 16 (end_of count size offset) ≡ offset)
unfolding headers
read-end_of count size offset ok = (refl, bytes2 count ok.1.1.0, bytes4 offset ok.1.1.1.1.0)

-- The headers that the writer makes are these.
pub local_written :
    (m : Member) (l : List ℕ)
    → put_fields (local_fields m) (alloc 30) ≡ some l
    → (l ≡ local_of m) × All (λ f. fits f ≡ true) (local_fields m)
unfolding local_of
local_written m l h = put_fields_inv (local_fields m) (alloc 30) l h

pub central_written :
    (m : Member) (offset : ℕ) (c : List ℕ)
    → put_fields (central_fields m offset) (alloc 46) ≡ some c
    → (c ≡ central_of m offset) × All (λ f. fits f ≡ true) (central_fields m offset)
unfolding central_of
central_written m offset c h = put_fields_inv (central_fields m offset) (alloc 46) c h

pub end_written :
    (count size offset : ℕ) (e : List ℕ)
    → put_fields (end_fields count size offset) (alloc 22) ≡ some e
    → (e ≡ end_of count size offset) × All (λ f. fits f ≡ true) (end_fields count size offset)
unfolding end_of
end_written count size offset e h = put_fields_inv (end_fields count size offset) (alloc 22) e h
