-- ===== src/Zip/Tests.antt =====
-- Two files packed, and inputs that the theorems apply to.
use browsception.Zip.{
  Result, Tools, write_zip, Member, sort_entries, insert_entry, text_lt, write_members, member_of,
  put_fields, overwrite, alloc, little_endian, concat_buffers, ZipEntry,
}
use browsception.Prelude.{
  length, ◌<◌, List, Option, ◌≡◌, ℕ, ◌*◌, take, codes, [], ◌+◌, some, map, ◌∷◌, none, drop, refl,
  Text,
}
use browsception.Zip.Reader.{read_zip, unpacked, read_members, read_member, read_body}
use browsception.Zip.Extraction.{write_zip-bounds, read_zip-write_zip}
use browsception.Zip.Fields.{read_u16, read_u32, read_le}
use browsception.Zip.Order.{IsSorted, named}

zip : Unit {0}
unfolding write_zip sort_entries insert_entry text_lt write_members member_of put_fields overwrite
    alloc little_endian concat_buffers read_zip read_members read_member read_body read_u16 read_u32
    read_le
zip = tt

-- No compression: every body is stored.
abbrev tools : Tools
tools = record {
  read_file = λ source. source;
  utf8 = λ name. name;
  crc32 = λ raw. length raw;
  deflate = λ raw. raw;
}

abbrev files : List ZipEntry
files =
    record { name = codes "b"; source = codes "two" }
    ∷ record { name = codes "a"; source = codes "1" }
    ∷ []

abbrev bytes_of : Option (List ℕ × Result) → List ℕ
bytes_of none = []
bytes_of (some p) = p.0

abbrev result_of : Option (List ℕ × Result) → Result
result_of none = record { bytes = 0; entries = 0 }
result_of (some p) = p.1

abbrev packed : List ℕ
packed = bytes_of (write_zip tools files)

abbrev returned : Result
returned = result_of (write_zip tools files)

packs : write_zip tools files ≡ some (packed, returned)
unfolding zip
packs = refl

archive_tests :
    (length packed ≡ 182)
    × (take 4 packed ≡ b'P' ∷ b'K' ∷ 3 ∷ 4 ∷ [])
    × (drop 30 (take 32 packed) ≡ codes "a1")
    × (returned.entries ≡ 2)
unfolding zip
archive_tests = (refl, refl, refl, refl)

-- Two entries of one name keep their order, behind the one whose name is below theirs.
abbrev entry : Text → Text → ZipEntry
entry name source = record { name = name; source = source }

order_tests :
    sort_entries (
      entry (codes "b") (codes "1")
      ∷ entry (codes "b") (codes "2")
      ∷ entry (codes "a") (codes "3")
      ∷ [])
    ≡ entry (codes "a") (codes "3")
      ∷ entry (codes "b") (codes "1")
      ∷ entry (codes "b") (codes "2")
      ∷ []
unfolding zip
order_tests = refl

read_zip-write_zip_example :
    ((ms : List Member) × (ordered : List ZipEntry) × (read_zip packed ≡ some ms)
      × (map (unpacked (λ b. b)) ms
          ≡ map (λ e. (tools.utf8 e.name, tools.read_file e.source)) ordered)
      × IsSorted ordered
      × ((n : Text) → named n ordered ≡ named n files))
    × (returned.bytes ≡ length packed)
    × (returned.entries ≡ length files)
read_zip-write_zip_example =
    read_zip-write_zip tools (λ b. b) files packed returned (λ raw. refl) packs

write_zip-bounds_example : (returned.entries < 65536) × (returned.bytes < 2 * 4294967296 + 22)
write_zip-bounds_example = write_zip-bounds tools files packed returned packs
