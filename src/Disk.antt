-- ===== src/Disk.antt =====
-- What the program uses of std::filesystem, of std::fstream's open and close, and of std::to_string
-- and std::stoul. A disk is a list of files by path, and says at which paths a file can be made.
pub mod Numbers
pub mod Laws
pub mod Names
pub mod Listing
use memkvin_c.Base.{
  Bytes, Bool, true, false, not, ◌&&◌, List, [], ◌∷◌, ◌++◌, Option, none, some, ℕ, length, bytes_eq,
  b_slash, ◌==◌, if◌then◌else◌,
}
use memkvin_c.Setting.{ensure_ending_slash}
use memkvin_c.Stream.{Stream}

pub record File : Type 0 where
  pub path : Bytes
  pub content : Bytes
  pub regular : Bool

pub record Disk : Type 0 where
  pub files : List File
  pub creatable : Bytes → Bool

unfoldable pub find_file : List File → Bytes → Option Bytes
find_file [] path = none
find_file (f ∷ fs) path = if bytes_eq f.path path then some f.content else find_file fs path

unfoldable pub put_file : List File → Bytes → Bytes → List File
put_file [] path content = record { path = path; content = content; regular = true } ∷ []
put_file (f ∷ fs) path content =
    if bytes_eq f.path path
    then record f { content = content } ∷ fs
    else f ∷ put_file fs path content

-- fs::exists
unfoldable pub exists : Disk → Bytes → Bool
exists d path = elim (find_file d.files path) [ none ↦ false | some _ ↦ true ]

-- The open modes that the program uses: in; in | app and in | out | app; in | out | trunc.
pub data OpenMode : Type 0 where
  input append truncate : OpenMode

-- A stream whose open failed.
abbrev pub closed : Bytes → Stream
closed path = record {
  path = path;
  content = [];
  pos = 0;
  is_open = false;
  append = false;
  eofbit = false;
  failbit = true;
  gcount = 0;
}

abbrev pub opened : Bytes → Bytes → Bool → Stream
opened path content app = record {
  path = path;
  content = content;
  pos = 0;
  is_open = true;
  append = app;
  eofbit = false;
  failbit = false;
  gcount = 0;
}

-- Makes or empties a file where that is possible.
unfoldable pub make_file : Disk → Bytes → Bool → Disk × Stream
make_file d path app =
    if d.creatable path
    then (record d { files = put_file d.files path [] }, opened path [] app)
    else (d, closed path)

-- std::fstream::open. `app` makes a file that is not there; `trunc` empties one that is.
unfoldable pub open_file : Disk → Bytes → OpenMode → Disk × Stream
open_file d path input = elim (find_file d.files path) [
  | none ↦ (d, closed path)
  | some content ↦ (d, opened path content false)
]
open_file d path append = elim (find_file d.files path) [
  | none ↦ make_file d path true
  | some content ↦ (d, opened path content true)
]
open_file d path truncate = make_file d path false

-- flush and close: the bytes of the stream are the bytes of its file.
unfoldable pub close_file : Disk → Stream → Disk
close_file d s = if s.is_open then record d { files = put_file d.files s.path s.content } else d

unfoldable pub strip_prefix : Bytes → Bytes → Option Bytes
strip_prefix [] s = some s
strip_prefix (x ∷ xs) [] = none
strip_prefix (x ∷ xs) (y ∷ s) = if x == y then strip_prefix xs s else none

unfoldable pub has_slash : Bytes → Bool
has_slash [] = false
has_slash (x ∷ xs) = if x == b_slash then true else has_slash xs

-- The last component of a path.
unfoldable pub filename : Bytes → Bytes
unfolding has_slash
filename [] = []
filename (x ∷ xs) = if has_slash (x ∷ xs) then filename xs else x ∷ xs

-- An entry of a directory: `entry.path().filename()`, `entry.path()` and `is_regular_file()`.
pub record DirEntry : Type 0 where
  pub name : Bytes
  pub file : File

abbrev entry_of : File → Option Bytes → List DirEntry
entry_of f none = []
entry_of f (some name) =
    if not (has_slash name) && not (bytes_eq name [])
    then record { name = name; file = f } ∷ []
    else []

list_files : Bytes → List File → List DirEntry
list_files dir [] = []
list_files dir (f ∷ fs) = entry_of f (strip_prefix dir f.path) ++ list_files dir fs

-- fs::directory_iterator(dir, ec): the files in that directory, none where it is not there.
unfoldable pub directory_entries : Disk → Bytes → List DirEntry
unfolding list_files
directory_entries d dir = list_files (ensure_ending_slash dir) d.files
