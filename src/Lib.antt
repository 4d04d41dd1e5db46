-- ===== src/Lib.antt =====
-- Bitcask: a log-structured key-value store in C++17. A database is a directory of log files, 0.db,
-- 1.db and so on. The file with the highest number is the active one, which records are appended
-- to; the others are stable, and only read. In memory an index (RecordMap) maps each key to a hint
-- (file, offset, size), and a cache (ActiveMap) holds the values that stand in the active file.
-- `Put` and `Delete` queue a write; a worker thread takes the queue and calls CommitWrite, which
-- appends the batch, rotates the active file when it has reached its size limit, and updates the
-- two maps; `Get` reads the cache or a stable file; the constructor rebuilds the index.
--
-- The files, and what they model (paths from the repository's root):
-- - Base: include/bitcask/Define.hpp. Keys and values are lists of bytes; an Offset is a number.
-- - Stream: src/File.cpp over std::fstream. A stream holds the bytes of its file, its position
--   and the flags eofbit and failbit, which reads, seeks and clear change as the C++ standard
--   says. A stream that was opened with std::ios::app writes at the end. Writes do not fail, and
--   the position behind a write is the place in the file where it ended. On a stream that was
--   opened with std::ios::app on a file that is not empty, this is so where the library writes
--   its buffer out before it tells the position; libstdc++ does not, and counts from 0 until its
--   first flush. What is proved of the offsets of records that are written to such a stream is
--   read with that in mind. The results on whole databases do not hang on it: the bytes of the
--   files are the same either way, the cache answers for the active file, and the condition
--   `rests` of Bitcask/Client, that no call behind the first reopening rotates the active file,
--   leaves out the Get that would use such an offset.
-- - Crc: src/CRC32.hpp; crc32c::Extend is a parameter with results below 2^32.
-- - Record: src/Record.cpp. `write_record`, `read_record` and `read_all_record_from_file`;
--   Header, RoundTrip, Write, Log, Recovery, Corrupt, Kept, Sound and Total hold the proofs. A
--   header is three little-endian uint32_t, as on the machines that the program is built for. The
--   scan's loop runs on fuel, one round for each header's length in the file and one more: each
--   record takes a header at least.
-- - HashMap: what the program uses of libcuckoo, a parameter. ActiveMap and RecordMap:
--   src/ActiveMap.cpp, src/RecordMap.cpp and src/Hint.hpp.
-- - Setting: src/Setting.cpp; the proof is in Setting/Slash. Disk: the operations of
--   std::filesystem, of opening and closing a std::fstream, and of std::to_string and std::stoul
--   that the program uses. A disk is a list of files; whether a file can be made is a function of
--   its path.
-- - ActiveFile and StableFile: src/ActiveFile.cpp and src/StableFile.cpp. The bytes of a stream
--   reach the disk when it is closed; no two streams are open on one file at a time.
-- - Bitcask/Engine: src/BitcaskImpl.cpp, `Put`, `Get`, `Delete` and `CommitWrite`, each as the
--   body that one thread runs, with the calls in the order of the source. `none` is the use of a
--   null pointer. A promise is a ticket number. Bitcask/Restore: the constructor; what std::stoul
--   throws is part of its result.
-- - Bitcask/View says when an engine stands for an abstract map (`Represents`): every hint points
--   to the bytes of the key's last value, those of the active file are cached, and the active
--   file is open at its end under its number. Reads, Stables, Batch, Publish, Placed, Commit,
--   Rotation, Rolled, Rollover, Bounds, Misplaced, Fresh, Numbers, Listed, Loaded, Scans,
--   LastFile, OneFile, Restart, Reopen, Ends, Foreign, Replay, Frame, Session, Single and Tickets
--   hold the proofs, with Disk/Names and Disk/Listing.
-- - Bitcask/Worker: the loop of CommitWorker and the destructor, as steps beside calls of Put and
--   Delete; a commit is one step. Bitcask/Turns is the same loop as a function, a turn of the
--   thread at a time. Bitcask/Api: src/Bitcask.cpp. A call that waits for its promise lets the
--   worker take at most five turns, and four are enough. Room, Serving, Served and Calls hold the
--   proofs; Serving has the interface `Keeping`, an invariant of the engine that each commit
--   keeps, which Served fills with a map in one file, Survives with the files on the disk, and
--   Idle with both for one write. Bitcask/Shutdown is the rest of the destructor: the files are
--   closed.
-- - Bitcask/Logs is the specification of the files: the list of writes that each of them is for,
--   and where CommitWrite puts a write; Fitting bounds their sizes. Bitcask/Durable says when the
--   files of a database hold these lists (`IsDurable`). Directory, Handles, Written, Placing and
--   Places follow them through CommitWrite, Closing and Restored through the destructor and the
--   constructor, and Survives through a call of Put beside the worker. They take the files to be
--   ten at most, since the constructor sorts their names as text, and each to be below 2^32
--   bytes, since an offset in a hint has 32 bits.
-- - Bitcask/Crash: the disk that a crash leaves while a database is open. The streams give their
--   bytes to the disk in order and the closed files are whole, so the active file has the first k
--   bytes of its stream, for some k. Cut says which records are whole within them.
-- - Bitcask/Client: a client that makes one call after the other, as a list of calls, and what a
--   map with a log would answer. Idle, Sound, Sees and Whole hold the proofs, and Prefixes and
--   Recovers those on a crash behind the calls.
-- - Bitcask/Race: the reads and writes of Get and of what CommitWrite does behind its loop, as
--   steps that interleave; each step is taken to be atomic. Alone, Between, Interleaved and
--   Linear hold the proofs.
-- - Logger: src/Logger.cpp and include/bitcask/Logger.hpp; Logger/Format is formatMsg, on fuel,
--   one round for each byte of the format and one more; Logger/Macros the functions for the
--   levels and the macros. The proofs are in Logger/Levels, Logger/Fill, Logger/Places and
--   Base/Bits.
-- - Examples: the results on small inputs.
--
-- Not modelled: a Get in the middle of an operation of the maps (std::map::insert and libcuckoo's),
-- src/utils/StringCast.hpp (a copy of another project's string conversions), the messages that the
-- program logs, the empty class Compact, the export macros.
mod Base
pub mod Crc
pub mod Stream
pub mod Record
pub mod HashMap
pub mod ActiveMap
pub mod RecordMap
pub mod Setting
pub mod Disk
pub mod ActiveFile
pub mod StableFile
pub mod Bitcask
pub mod Logger
mod Examples
