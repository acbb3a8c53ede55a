-- ===== src/Zip.antt =====
-- scripts/lib/zip.mjs: the zip writer. A buffer is a list of bytes, and writing a number that does
-- not fit throws: the result is `none`. Parameters: reading a file, UTF-8, `crc32` and `deflateSync`.
pub mod Fields
pub mod Reader
pub mod Steps
pub mod RoundTrip
pub mod Order
pub mod Extraction
mod Tests
use browsception.Prelude.{
  ◌>>=◌, leb, Bool, Option, List, ℕ, Text, some, ◌∷◌, ◌*◌, false, length, [], ltb, ◌++◌, suc,
  if◌then◌else◌, ◌^◌, true, none, ◌||◌, ◌%◌, zero, ◌/◌, ◌==◌, ◌&&◌, ◌+◌, map,
}

pub record ZipEntry : Type 0 where
  pub name : Text
  pub source : Text

pub record Tools : Type 0 where
  pub read_file : Text → List ℕ
  pub utf8 : Text → List ℕ
  pub crc32 : List ℕ → ℕ
  pub deflate : List ℕ → List ℕ

-- `buf.writeUInt16LE(value, offset)` has two bytes, `writeUInt32LE` four.
pub record Field : Type 0 where
  pub offset : ℕ
  pub width : ℕ
  pub value : ℕ

abbrev pub u16 : ℕ → ℕ → Field
u16 value offset = record { offset = offset; width = 2; value = value }

abbrev pub u32 : ℕ → ℕ → Field
u32 value offset = record { offset = offset; width = 4; value = value }

-- `Buffer.alloc(n)`
unfoldable pub alloc : ℕ → List ℕ
alloc zero = []
alloc (suc n) = 0 ∷ alloc n

unfoldable pub little_endian : ℕ → ℕ → List ℕ
little_endian zero v = []
little_endian (suc w) v = v % 256 ∷ little_endian w (v / 256)

unfoldable pub overwrite : ℕ → List ℕ → List ℕ → List ℕ
overwrite at bs [] = []
overwrite zero [] (x ∷ buf) = x ∷ buf
overwrite zero (b ∷ bs) (x ∷ buf) = b ∷ overwrite zero bs buf
overwrite (suc at) bs (x ∷ buf) = x ∷ overwrite at bs buf

abbrev pub fits : Field → Bool
fits f = ltb f.value (256 ^ f.width)

unfoldable pub put_fields : List Field → List ℕ → Option (List ℕ)
put_fields [] buf = some buf
put_fields (f ∷ fs) buf =
    let rest = put_fields fs (overwrite f.offset (little_endian f.width f.value) buf) in
    if fits f then rest else none

abbrev pub dos_time : ℕ
dos_time = 0

abbrev pub dos_date : ℕ
dos_date = 0x0021

-- `1 << 11`
abbrev pub utf8_names : ℕ
utf8_names = 2048

-- `(0o100644 << 16) >>> 0`
abbrev pub unix_0644 : ℕ
unix_0644 = 33188 * 65536

-- What a member is written from: the name's bytes, the file, and the body with its method.
pub record Member : Type 0 where
  pub name : List ℕ
  pub method : ℕ
  pub crc : ℕ
  pub raw_length : ℕ
  pub body : List ℕ

unfoldable pub member_of : Tools → ZipEntry → Member
member_of t e =
    let raw = t.read_file e.source in
    let deflated = t.deflate raw in
    let store = leb (length raw) (length deflated) in
    record {
      name = t.utf8 e.name;
      method = if store then 0 else 8;
      crc = t.crc32 raw;
      raw_length = length raw;
      body = if store then raw else deflated;
    }

abbrev pub local_fields : Member → List Field
local_fields m =
    u32 0x04034b50 0
    ∷ u16 20 4
    ∷ u16 utf8_names 6
    ∷ u16 m.method 8
    ∷ u16 dos_time 10
    ∷ u16 dos_date 12
    ∷ u32 m.crc 14
    ∷ u32 (length m.body) 18
    ∷ u32 m.raw_length 22
    ∷ u16 (length m.name) 26
    ∷ []

abbrev pub central_fields : Member → ℕ → List Field
central_fields m offset =
    u32 0x02014b50 0
    ∷ u16 0x031e 4
    ∷ u16 20 6
    ∷ u16 utf8_names 8
    ∷ u16 m.method 10
    ∷ u16 dos_time 12
    ∷ u16 dos_date 14
    ∷ u32 m.crc 16
    ∷ u32 (length m.body) 20
    ∷ u32 m.raw_length 24
    ∷ u16 (length m.name) 28
    ∷ u32 unix_0644 38
    ∷ u32 offset 42
    ∷ []

abbrev pub end_fields : ℕ → ℕ → ℕ → List Field
end_fields count size offset =
    u32 0x06054b50 0 ∷ u16 count 8 ∷ u16 count 10 ∷ u32 size 12 ∷ u32 offset 16 ∷ []

-- The loop: the bytes written, the central records and the offset behind them.
pub record Written : Type 0 where
  pub out : List ℕ
  pub central : List (List ℕ)
  pub offset : ℕ

abbrev pub add_member : Member → List ℕ → List ℕ → Written → Written
add_member m local cd w = record {
  out = local ++ (m.name ++ (m.body ++ w.out));
  central = (cd ++ m.name) ∷ w.central;
  offset = w.offset;
}

unfoldable pub write_members : ℕ → List Member → Option Written
write_members offset [] = some (record { out = []; central = []; offset = offset })
write_members offset (m ∷ ms) = do
  local ← put_fields (local_fields m) (alloc 30)
  cd ← put_fields (central_fields m offset) (alloc 46)
  w ← write_members (offset + (length local + length m.name + length m.body)) ms
  some (add_member m local cd w)

-- `a.name < b.name`
unfoldable pub text_lt : Text → Text → Bool
text_lt s [] = false
text_lt [] (d ∷ t) = true
text_lt (c ∷ s) (d ∷ t) = ltb c d || c == d && text_lt s t

unfoldable pub insert_entry : ZipEntry → List ZipEntry → List ZipEntry
insert_entry e [] = e ∷ []
insert_entry e (x ∷ es) = if text_lt x.name e.name then x ∷ insert_entry e es else e ∷ x ∷ es

-- `[...entries].sort(…)`, which is stable: of equal names the earlier entry stays before the later.
unfoldable pub sort_entries : List ZipEntry → List ZipEntry
sort_entries [] = []
sort_entries (e ∷ es) = insert_entry e (sort_entries es)

unfoldable pub concat_buffers : List (List ℕ) → List ℕ
concat_buffers [] = []
concat_buffers (b ∷ bs) = b ++ concat_buffers bs

pub record Result : Type 0 where
  pub bytes : ℕ
  pub entries : ℕ

abbrev pub finish_archive : Written → Option (List ℕ × Result)
finish_archive w = do
  let dir = concat_buffers w.central
  eocd ← put_fields (end_fields (length w.central) (length dir) w.offset) (alloc 22)
  some (
    w.out ++ (dir ++ eocd),
    record { bytes = w.offset + length dir + length eocd; entries = length w.central },
  )

-- `writeZip`: the file's bytes and what it returns.
unfoldable pub write_zip : Tools → List ZipEntry → Option (List ℕ × Result)
write_zip t entries = do
  w ← write_members 0 (map (member_of t) (sort_entries entries))
  finish_archive w
