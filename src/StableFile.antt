-- ===== src/StableFile.antt =====
-- src/StableFile.cpp: a file that is only read. As in ActiveFile, `none` is a null handler, and the
-- use of one is a fault.
use memkvin_c.Base.{Bytes, Key, Value, Offset, not, ◌||◌, ℕ, Option, none, some, if◌then◌else◌}
use memkvin_c.Crc.{Crc32c}
use memkvin_c.Stream.{Stream, clear, seekg, read_value_from_file, good}
use memkvin_c.Record.{Found, read_all_record_from_file}
use memkvin_c.Disk.{Disk, input, exists, open_file, close_file}

-- class StableFile
pub record StableFile : Type 0 where
  pub file : Option Stream

-- StableFile::~StableFile
unfoldable pub destroy : StableFile → Disk → Disk
destroy f disk = elim f.file [ none ↦ disk | some s ↦ close_file disk s ]

-- StableFile::Restore over the state of the callback. The outer `none` is a scan without end.
unfoldable pub restore {ℓ} :
    {S : Type ℓ} → Crc32c → Disk → Bytes → (S → Found → S) → S → Option (S × Option Stream)
restore c disk filename callback st =
    let file = (open_file disk filename input).1 in
    if not (exists disk filename) || (not file.is_open || not (good file))
    then some (st, none)
    else elim (read_all_record_from_file c file callback st) [
      | none ↦ none
      | some (st', s) ↦ some (st', some s)
    ]

-- StableFile::Create
unfoldable pub create : Option Stream → StableFile
create file = record { file = file }

-- StableFile::Read: the flags of the scan that reached the end of the file are cleared first.
unfoldable pub read : StableFile → Key → Offset → ℕ → Option (Value × StableFile)
read f key offset size = elim f.file [
  | none ↦ none
  | some s ↦
      let (value, s') = read_value_from_file size (seekg offset (clear s)) in
      some (value, record { file = some s' })
]
