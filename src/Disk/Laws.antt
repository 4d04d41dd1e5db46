-- ===== src/Disk/Laws.antt =====
-- What is found on a disk after a file was put there, and the last component of a path.
use memkvin_c.Base.{
  Bytes, ◌≡◌, ◌∙◌, refl, true, false, List, [], ◌∷◌, none, some, bytes_eq, bytes_eq_iff,
  bytes_eq_refl, b_slash, ◌++◌, if◌then◌else◌, arith,
}
use memkvin_c.Stream.{Stream}
use memkvin_c.Disk.{
  File, Disk, append, truncate, opened, closed, find_file, put_file, make_file, open_file,
  close_file, has_slash, filename,
}

pub find_file-put_file :
    (files : List File) (path other content : Bytes)
    → find_file (put_file files path content) other
      ≡ (if bytes_eq path other then some content else find_file files other)
unfolding find_file put_file
find_file-put_file [] path other content = refl
find_file-put_file (f ∷ fs) path other content = ground (
  arith,
  find_file-put_file fs path other content,
  bytes_eq_iff f.path path,
  bytes_eq_iff f.path other,
  bytes_eq_iff path other,
)

-- A file that was flushed and closed, and is opened again, has the bytes of the stream.
pub open_file-close_file :
    (d : Disk) (s : Stream)
    → s.is_open ≡ true
    → open_file (close_file d s) s.path append
      ≡ (record d { files = put_file d.files s.path s.content }, opened s.path s.content true)
unfolding open_file close_file
open_file-close_file d s h = rw h (λ i. elim (found i) [
  | none ↦ make_file d1 s.path true
  | some content ↦ (d1, opened s.path content true)
])
  where
    d1 : Disk
    d1 = record d { files = put_file d.files s.path s.content }

    found : find_file (put_file d.files s.path s.content) s.path ≡ some s.content
    found = find_file-put_file d.files s.path s.path s.content ∙ rw (bytes_eq_refl s.path)

pub open_file-truncate :
    (d : Disk) (path : Bytes)
    → d.creatable path ≡ true
    → open_file d path truncate
      ≡ (record d { files = put_file d.files path [] }, opened path [] false)
unfolding open_file make_file
open_file-truncate d path h = rw h

pub close_file-closed : (d : Disk) (path : Bytes) → close_file d (closed path) ≡ d
unfolding close_file
close_file-closed d path = refl

-- The last component of a path behind a slash.
has_slash-slash : (dir name : Bytes) → has_slash (dir ++ b_slash ∷ name) ≡ true
unfolding has_slash
has_slash-slash [] name = refl
has_slash-slash (x ∷ dir) name = rw (has_slash-slash dir name) (ground arith)

filename_self : (name : Bytes) → has_slash name ≡ false → filename name ≡ name
unfolding filename
filename_self [] h = refl
filename_self (x ∷ name) h = rw h refl

pub filename-slash :
    (dir name : Bytes) → has_slash name ≡ false → filename (dir ++ b_slash ∷ name) ≡ name
unfolding filename
filename-slash [] name h = filename_self name h
filename-slash (x ∷ dir) name h = rw (has_slash-slash (x ∷ dir) name) (filename-slash dir name h)
