-- ===== src/Disk/Listing.antt =====
-- What the listing of a directory is once a file in it was written again, or a new one was made.
use memkvin_c.Base.{
  bytes_eq→≡, Bytes, ◌≡◌, ◌∙◌, refl, ap, sym, Bool, true, false, not, ◌&&◌, Bool-cases, inl, inr,
  List, [], ◌∷◌, ◌++◌, append_assoc, map, Option, none, some, none-ne, bytes_eq, b_slash, ==_refl,
  if◌then◌else◌,
}
use memkvin_c.Disk.{
  File, Disk, DirEntry, directory_entries, list_files, entry_of, put_file, find_file, strip_prefix,
  has_slash,
}
use memkvin_c.Setting.{ensure_ending_slash, ends_in_slash}
use mathlib.Core.List.{map-append}

-- An entry without the bytes of its file: the name, the path and whether it is a regular file.
abbrev pub shape : DirEntry → Bytes × Bytes × Bool
shape entry = (entry.name, entry.file.path, entry.file.regular)

shape-entry_of :
    (f : File) (content : Bytes) (o : Option Bytes)
    → map shape (entry_of (record f { content = content }) o) ≡ map shape (entry_of f o)
shape-entry_of f content none = refl
shape-entry_of f content (some name) = listed (not (has_slash name) && not (bytes_eq name []))
  where
    listed :
        (b : Bool)
        → map shape
            (if b then record { name = name; file = record f { content = content } } ∷ [] else [])
          ≡ map shape (if b then record { name = name; file = f } ∷ [] else [])
    listed true = refl
    listed false = refl

shape-append :
    (a b c d : List DirEntry)
    → map shape a ≡ map shape c
    → map shape b ≡ map shape d
    → map shape (a ++ b) ≡ map shape (c ++ d)
shape-append a b c d h k = simp (map-append, h, k)

list_files-put_file :
    (dir : Bytes) (fs : List File) (path content old : Bytes)
    → find_file fs path ≡ some old
    → map shape (list_files dir (put_file fs path content)) ≡ map shape (list_files dir fs)
unfolding list_files put_file find_file
list_files-put_file dir [] path content old h = absurd (none-ne h)
list_files-put_file dir (f ∷ fs) path content old h = elim (Bool-cases (bytes_eq f.path path)) [
  | inl same ↦ rw same (
      shape-append (entry_of (record f { content = content }) (strip_prefix dir f.path))
        (list_files dir fs) _ _ (shape-entry_of f content (strip_prefix dir f.path)) refl)
  | inr other ↦ rw other (
      shape-append (entry_of f (strip_prefix dir f.path)) _ _ _ refl
        (list_files-put_file dir fs path content old (rw other at h)))
]

-- A file that is there is written again.
pub directory_entries-put_file :
    (d : Disk) (dir path content old : Bytes)
    → find_file d.files path ≡ some old
    → map shape (directory_entries (record d { files = put_file d.files path content }) dir)
      ≡ map shape (directory_entries d dir)
unfolding directory_entries
directory_entries-put_file d dir path content old h =
    list_files-put_file (ensure_ending_slash dir) d.files path content old h

put_file-new :
    (fs : List File) (path content : Bytes)
    → find_file fs path ≡ none
    → put_file fs path content
      ≡ fs ++ record { path = path; content = content; regular = true } ∷ []
unfolding put_file find_file
put_file-new [] path content h = refl
put_file-new (f ∷ fs) path content h = elim (Bool-cases (bytes_eq f.path path)) [
  | inl same ↦ absurd (cc (rw same at h))
  | inr other ↦ rw other (ap (λ l. f ∷ l) (put_file-new fs path content (rw other at h)))
]

list_files-append :
    (dir : Bytes) (fs more : List File)
    → list_files dir (fs ++ more) ≡ list_files dir fs ++ list_files dir more
unfolding list_files
list_files-append dir [] more = refl
list_files-append dir (f ∷ fs) more = simp (list_files-append dir fs more, append_assoc)

strip_prefix-append : (dir name : Bytes) → strip_prefix dir (dir ++ name) ≡ some name
unfolding strip_prefix
strip_prefix-append [] name = refl
strip_prefix-append (x ∷ dir) name = rw (==_refl x) (strip_prefix-append dir name)

ends_in_slash-slash : (dir : Bytes) → ends_in_slash (dir ++ b_slash ∷ []) ≡ true
ends_in_slash-slash [] = refl
ends_in_slash-slash (x ∷ []) = refl
ends_in_slash-slash (x ∷ (y ∷ dir)) = ends_in_slash-slash (y ∷ dir)

ensure_ending_slash-slash :
    (dir : Bytes) → ensure_ending_slash (dir ++ b_slash ∷ []) ≡ dir ++ b_slash ∷ []
unfolding ensure_ending_slash
ensure_ending_slash-slash [] = refl
ensure_ending_slash-slash (x ∷ dir) = rw (ends_in_slash-slash (x ∷ dir)) refl

entry_of-named :
    (f : File) {name : Bytes}
    → has_slash name ≡ false
    → bytes_eq name [] ≡ false
    → entry_of f (some name) ≡ record { name = name; file = f } ∷ []
entry_of-named f plain some_name = rw (plain, some_name) refl

-- A file is made that was not there, in a directory whose path ends in a slash.
pub directory_entries-new :
    (d : Disk) (db dir name content : Bytes)
    → db ≡ dir ++ b_slash ∷ []
    → has_slash name ≡ false
    → bytes_eq name [] ≡ false
    → find_file d.files (db ++ name) ≡ none
    → map shape (directory_entries (record d { files = put_file d.files (db ++ name) content }) db)
      ≡ map shape (directory_entries d db) ++ (name, db ++ name, true) ∷ []
unfolding directory_entries list_files
directory_entries-new d db dir name content ending plain some_name missing =
    let file : File = record { path = db ++ name; content = content; regular = true } in
    let slash : ensure_ending_slash db ≡ db =
      ap ensure_ending_slash ending ∙ ensure_ending_slash-slash dir ∙ sym ending in
    ap (λ l. map shape (list_files (ensure_ending_slash db) l))
      (put_file-new d.files (db ++ name) content missing)
    ∙ ap (map shape) (list_files-append (ensure_ending_slash db) d.files (file ∷ []))
    ∙ map-append shape (list_files (ensure_ending_slash db) d.files)
        (list_files (ensure_ending_slash db) (file ∷ []))
    ∙ ap (λ t. map shape (list_files (ensure_ending_slash db) d.files) ++ map shape t)
        (ap (λ t. entry_of file (strip_prefix t file.path) ++ []) slash
          ∙ ap (λ o. entry_of file o ++ []) (strip_prefix-append db name)
          ∙ ap (λ l. l ++ []) (entry_of-named file plain some_name))

append_empty {ℓ} : {A : Type ℓ} (a b : List A) → a ++ b ≡ [] → (a ≡ []) × (b ≡ [])
append_empty [] b h = (refl, h)
append_empty (x ∷ a) b h = absurd (cc h)

list_files-empty :
    (dir name : Bytes) (fs : List File)
    → has_slash name ≡ false
    → bytes_eq name [] ≡ false
    → list_files dir fs ≡ []
    → find_file fs (dir ++ name) ≡ none
unfolding list_files find_file
list_files-empty dir name [] plain some_name h = refl
list_files-empty dir name (f ∷ fs) plain some_name h =
    let (none_here, rest) = append_empty (entry_of f (strip_prefix dir f.path)) _ h in
    elim (Bool-cases (bytes_eq f.path (dir ++ name))) [
      | inl same ↦
          let named : entry_of f (some name) ≡ [] =
            ap (entry_of f) (
              sym (
                ap (strip_prefix dir) (bytes_eq→≡ f.path (dir ++ name) same)
                ∙ strip_prefix-append dir name))
            ∙ none_here in
          absurd (cc (sym (entry_of-named f plain some_name) ∙ named))
      | inr other ↦ rw other (list_files-empty dir name fs plain some_name rest)
    ]

-- No file is at a path in a directory that lists none.
pub directory_entries-empty :
    (d : Disk) (db dir name : Bytes)
    → db ≡ dir ++ b_slash ∷ []
    → has_slash name ≡ false
    → bytes_eq name [] ≡ false
    → directory_entries d db ≡ []
    → find_file d.files (db ++ name) ≡ none
unfolding directory_entries
directory_entries-empty d db dir name ending plain some_name h =
    let slash : ensure_ending_slash db ≡ db =
      ap ensure_ending_slash ending ∙ ensure_ending_slash-slash dir ∙ sym ending in
    list_files-empty db name d.files plain some_name
      (ap (λ t. list_files t d.files) (sym slash) ∙ h)
