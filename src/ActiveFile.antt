-- ===== src/ActiveFile.antt =====
-- src/ActiveFile.cpp: the file that records are appended to. A `FileHandler` is a pointer, so it may
-- be null (`none`); where the code dereferences a null handler the model's result is `none`, a fault.
use memkvin_c.Base.{Bytes, Key, Value, Offset, Option, none, some, if◌then◌else◌}
use memkvin_c.Crc.{Crc32c}
use memkvin_c.Stream.{Stream}
use memkvin_c.Record.{Found, write_record, read_all_record_from_file}
use memkvin_c.Disk.{Disk, input, append, truncate, exists, open_file, close_file, closed}

-- class ActiveFile
pub record ActiveFile : Type 0 where
  pub file : Option Stream

-- ActiveFile::~ActiveFile
unfoldable pub destroy : ActiveFile → Disk → Disk
destroy f disk = elim f.file [ none ↦ disk | some s ↦ close_file disk s ]

-- A pointer to the stream if the open went well, null if not.
abbrev pub handler_of : Disk × Stream → Disk × Option Stream
handler_of (disk, s) = if s.is_open then (disk, some s) else (disk, none)

-- ActiveFile::Restore over the state of the callback. The outer `none` is a scan without end.
unfoldable pub restore {ℓ} :
    {S : Type ℓ} → Crc32c → Disk → Bytes → (S → Found → S) → S → Option (S × Disk × Option Stream)
restore c disk filename callback st =
    if exists disk filename
    then (let (disk1, read) = open_file disk filename input in
        if read.is_open
        then elim (read_all_record_from_file c read callback st) [
          | none ↦ none
          | some (st', done) ↦
              let (disk2, handler) = handler_of (open_file disk1 filename append) in
              some (st', disk2, handler)
        ]
        else some (st, disk1, none))
    else some (st, disk, none)

-- ActiveFile::Create of a handler, and of a path.
unfoldable pub create : Option Stream → ActiveFile
create file = record { file = file }

abbrev created : Disk × Option Stream → Disk × Option ActiveFile
created (disk, none) = (disk, none)
created (disk, some s) = (disk, some (create (some s)))

unfoldable pub create_path : Disk → Bytes → Disk × Option ActiveFile
unfolding create
create_path disk path = created (handler_of (open_file disk path truncate))

-- ActiveFile::Write
unfoldable pub write : Crc32c → ActiveFile → Key → Value → Option (ActiveFile × Offset)
write c f key value = elim f.file [
  | none ↦ none
  | some s ↦
      let (s', inf) = write_record c s key value in
      some (record { file = some s' }, inf.value_offset)
]

-- ActiveFile::Rotate: the old stream is flushed and closed; a stream that is not open takes its place.
unfoldable pub rotate : ActiveFile → Disk → Option (ActiveFile × Disk)
rotate f disk = elim f.file [
  | none ↦ none
  | some s ↦ some (record { file = some (closed s.path) }, close_file disk s)
]
