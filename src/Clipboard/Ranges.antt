-- ===== src/Clipboard/Ranges.antt =====
-- src/ext/clipboard.mjs: the ranges of a packed paste, and its size.
use mathlib.Core.List.{Memᴰ}
use browsception.Clipboard.{
  PasteFile, chosen_files, payload, file_items, bytes_or_none, ◌∷◌, PasteItem, text_item, file_item,
  Transfer, text_items, pack_data_transfer, Packed, string_types, packed_files,
}
use browsception.Prelude.{
  List, All, ℕ, length, ◌<◌, ◌≤◌, ◌≡◌, Bool-cases, arith, ◌+◌, [], ltb, length-append, true, inl,
  inr, refl, some, ◌++◌, Text, Option-cases, take, drop, All-append, append_assoc, text_eq, ap,
  drop-append, ◌∙◌, take-append, sym, subst,
}
use browsception.Popup.Clicks.{has_entry}

-- A file's range in the payload holds the bytes of some file that was pasted.
abbrev pub IsSlice : List ℕ → List PasteFile → PasteItem → Type 0
IsSlice bytes files (text_item type text) = Unit
IsSlice bytes files (file_item type name off len) =
    (f : PasteFile) × Memᴰ f files
    × (f.content ≡ some (take len (drop off bytes)))
    × (off + len ≤ length bytes)

file_items-IsSlice :
    (files : List PasteFile) (before : List ℕ) (all : List PasteFile)
    → ((f : PasteFile) → Memᴰ f files → Memᴰ f all)
    → All (IsSlice (before ++ payload files) all) (file_items (length before) files)
unfolding file_items payload
file_items-IsSlice [] before all sub = tt
file_items-IsSlice (f ∷ files) before all sub = elim (Option-cases f.content) [
  | inl none' ↦ rw none' (file_items-IsSlice files before all (λ g m. sub g (Memᴰ.tail m)))
  | inr (p, some') ↦
      let rest = file_items-IsSlice files (before ++ p) all (λ g m. sub g (Memᴰ.tail m)) in
      let whole = append_assoc before p (payload files) in
      let slice =
        ap (λ b. take (length p) b) (drop-append before (p ++ payload files))
        ∙ take-append p (payload files) in
      let room : length before + length p ≤ length (before ++ (p ++ payload files)) =
        omega (arith, length-append before (p ++ payload files), length-append p (payload files)) in
      rw some' (
        (f, sub f (Memᴰ.head refl), some' ∙ ap some (sym slice), room),
        subst (λ n. All (IsSlice (before ++ (p ++ payload files)) all) (file_items n files))
            (length-append before p)
            (subst (λ b. All (IsSlice b all) (file_items (length (before ++ p)) files)) whole rest),
      )
]

total_size : List PasteFile → ℕ
total_size [] = 0
total_size (f ∷ files) = f.size + total_size files

-- The browser's promise: a file has no more bytes than its size says.
abbrev pub IsHonest : PasteFile → Type 0
IsHonest f = length (bytes_or_none f.content) ≤ f.size

length-payload :
    (files : List PasteFile) → All IsHonest files → length (payload files) ≤ total_size files
unfolding payload total_size
length-payload [] h = omega arith
length-payload (f ∷ files) h =
    omega (
      arith,
      length-append (bytes_or_none f.content) (payload files),
      h.0,
      length-payload files h.1,
    )

chosen_files-IsHonest :
    (max_bytes used : ℕ) (files : List PasteFile)
    → All IsHonest files
    → All IsHonest (chosen_files max_bytes used files)
unfolding chosen_files
chosen_files-IsHonest max_bytes used [] h = tt
chosen_files-IsHonest max_bytes used (f ∷ files) h =
    elim (Bool-cases (ltb max_bytes (used + f.size))) [
      | inl over ↦ rw over (chosen_files-IsHonest max_bytes used files h.1)
      | inr fits ↦ rw fits (h.0, chosen_files-IsHonest max_bytes (used + f.size) files h.1)
    ]

chosen_files-fit :
    (max_bytes used : ℕ) (files : List PasteFile)
    → used ≤ max_bytes
    → used + total_size (chosen_files max_bytes used files) ≤ max_bytes
unfolding chosen_files total_size
chosen_files-fit max_bytes used [] h = omega (arith, h)
chosen_files-fit max_bytes used (f ∷ files) h = elim (Bool-cases (ltb max_bytes (used + f.size))) [
  | inl over ↦ rw over (chosen_files-fit max_bytes used files h)
  | inr fits ↦
      let room : used + f.size ≤ max_bytes = ground (arith, fits) in
      rw fits (omega (arith, chosen_files-fit max_bytes (used + f.size) files room))
]

-- Beyond the limit only empty files can pass, and none does.
chosen_files-full :
    (max_bytes used : ℕ) (files : List PasteFile)
    → max_bytes < used
    → chosen_files max_bytes used files ≡ []
unfolding chosen_files
chosen_files-full max_bytes used [] h = refl
chosen_files-full max_bytes used (f ∷ files) h =
    let over : ltb max_bytes (used + f.size) ≡ true = ground (arith, h) in
    rw over (chosen_files-full max_bytes used files h)

mem-cons :
    (f g : PasteFile) (some_files files : List PasteFile)
    → (Memᴰ f some_files → Memᴰ f files)
    → Memᴰ f (g ∷ some_files)
    → Memᴰ f (g ∷ files)
mem-cons f g some_files files sub (Memᴰ.head e) = Memᴰ.head e
mem-cons f g some_files files sub (Memᴰ.tail n) = Memᴰ.tail (sub n)

mem-chosen_files :
    (max_bytes used : ℕ) (files : List PasteFile) {f : PasteFile}
    → Memᴰ f (chosen_files max_bytes used files)
    → Memᴰ f files
unfolding chosen_files
mem-chosen_files max_bytes used [] m = m
mem-chosen_files max_bytes used (g ∷ files) {f} m =
    elim (Bool-cases (ltb max_bytes (used + g.size))) [
      | inl over ↦ Memᴰ.tail (mem-chosen_files max_bytes used files (rw over at m))
      | inr fits ↦
          mem-cons f g (chosen_files max_bytes (used + g.size) files) files
            (mem-chosen_files max_bytes (used + g.size) files) (rw fits at m)
    ]

text_items-IsSlice :
    (dt : Transfer) (types : List Text) (bytes : List ℕ) (files : List PasteFile)
    → All (IsSlice bytes files) (text_items dt types).0
unfolding text_items
text_items-IsSlice dt [] bytes files = tt
text_items-IsSlice dt (type ∷ types) bytes files =
    let rest = text_items-IsSlice dt types bytes files in
    elim (Bool-cases (has_entry type dt.types)) [
      | inr absent ↦ rw absent rest
      | inl present ↦ elim (Bool-cases (text_eq (dt.get_data type) [])) [
        | inl empty ↦ rw (present, empty) rest
        | inr some' ↦ rw (present, some') (tt, rest)
      ]
    ]

abbrev pub IsPacked : Transfer → ℕ → Packed → Type 0
IsPacked dt max_bytes p =
    All (IsSlice (bytes_or_none p.bytes) dt.files) p.items
    × (length (bytes_or_none p.bytes) ≤ max_bytes)

packed_files-IsPacked :
    (dt : Transfer) (max_bytes used : ℕ) (items : List PasteItem) (files : List PasteFile)
    → ((bytes : List ℕ) → All (IsSlice bytes dt.files) items)
    → ((f : PasteFile) → Memᴰ f files → Memᴰ f dt.files)
    → length (payload files) ≤ max_bytes
    → IsPacked dt max_bytes (packed_files items files)
packed_files-IsPacked dt max_bytes used items [] texts sub room = (texts [], omega arith)
packed_files-IsPacked dt max_bytes used items (f ∷ files) texts sub room = (
  All-append (IsSlice (payload (f ∷ files)) dt.files) items (file_items 0 (f ∷ files))
      (texts (payload (f ∷ files))) (file_items-IsSlice (f ∷ files) [] dt.files sub),
  room,
)

payload-room :
    (max_bytes used : ℕ) (files : List PasteFile)
    → All IsHonest files
    → length (payload (chosen_files max_bytes used files)) ≤ max_bytes
payload-room max_bytes used files honest = elim (Bool-cases (ltb max_bytes used)) [
  | inl full ↦
      rw (chosen_files-full max_bytes used files (ground (arith, full)))
        (unfold payload in omega arith)
  | inr room ↦ omega (
    arith,
    chosen_files-fit max_bytes used files (ground (arith, room)),
    length-payload (chosen_files max_bytes used files)
        (chosen_files-IsHonest max_bytes used files honest),
  )
]

-- In a packed paste every file item's range lies inside the payload and holds exactly the bytes of
-- one of the pasted files, and the payload has at most `max_bytes`, if no file has more bytes than
-- its size says.
pub pack_data_transfer-IsPacked :
    (dt : Transfer) (max_bytes : ℕ)
    → All IsHonest dt.files
    → IsPacked dt max_bytes (pack_data_transfer dt max_bytes)
unfolding pack_data_transfer
pack_data_transfer-IsPacked dt max_bytes honest =
    let used = (text_items dt string_types).1 in
    packed_files-IsPacked dt max_bytes used (text_items dt string_types).0
      (chosen_files max_bytes used dt.files)
      (λ bytes. text_items-IsSlice dt string_types bytes dt.files)
      (λ f m. mem-chosen_files max_bytes used dt.files m)
      (payload-room max_bytes used dt.files honest)
