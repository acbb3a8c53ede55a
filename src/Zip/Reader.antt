-- ===== src/Zip/Reader.antt =====
-- An independent reader of zip files: it finds the directory from the record at the end, and each
-- member from its directory record.
use browsception.Prelude.{
  ◌>>=◌, List, ℕ, take, Option, if◌then◌else◌, drop, some, [], ◌==◌, length, ◌+◌, ◌-◌, suc, none,
  ◌∷◌, zero,
}
use browsception.Zip.{Member}
use browsception.Zip.Fields.{read_u32, read_u16}

abbrev pub slice : ℕ → ℕ → List ℕ → List ℕ
slice at n xs = take n (drop at xs)

-- The body behind a local header, whose signature is checked.
unfoldable pub read_body : ℕ → List ℕ → Option (List ℕ)
read_body size at_header =
    if read_u32 0 at_header == 0x04034b50
    then some (slice (30 + read_u16 26 at_header) size at_header)
    else none

unfoldable pub read_member : List ℕ → List ℕ → Option Member
read_member dir file = read_body (read_u32 20 dir) (drop (read_u32 42 dir) file) >>= λ body.
    if read_u32 0 dir == 0x02014b50
    then some (record {
      name = slice 46 (read_u16 28 dir) dir;
      method = read_u16 10 dir;
      crc = read_u32 16 dir;
      raw_length = read_u32 24 dir;
      body = body;
    })
    else none

unfoldable pub read_members : ℕ → List ℕ → List ℕ → Option (List Member)
read_members zero dir file = some []
read_members (suc n) dir file = do
  m ← read_member dir file
  ms ← read_members n (drop (46 + read_u16 28 dir) dir) file
  some (m ∷ ms)

unfoldable pub read_zip : List ℕ → Option (List Member)
read_zip file =
    let eocd = drop (length file - 22) file in
    if read_u32 0 eocd == 0x06054b50
    then read_members (read_u16 10 eocd) (drop (read_u32 16 eocd) file) file
    else none

-- The file of a member again: stored, or inflated.
abbrev pub unpacked : (List ℕ → List ℕ) → Member → List ℕ × List ℕ
unpacked inflate m = (m.name, if m.method == 0 then m.body else inflate m.body)
