-- ===== src/Stream.antt =====
-- src/File.cpp over std::fstream. A `FileHandler` is a stream that is open on one file, together
-- with the bytes of that file; no path of the code has two open streams on one file, so the bytes
-- need not be shared. Writes are taken in full and in order: a full disk is not modelled, and no
-- operation that the code makes sets badbit on its own.
pub mod Laws
use memkvin_c.Base.{
  Bytes, Value, Offset, Bool, true, false, not, ◌&&◌, List, [], ◌++◌, ℕ, ◌+◌, ◌-◌, ◌^◌, length,
  take, drop, replicate, u32, ltb, if◌then◌else◌,
}

pub record Stream : Type 0 where
  pub path : Bytes
  pub content : Bytes
  pub pos : ℕ
  pub is_open : Bool
  pub append : Bool  -- std::ios::app
  pub eofbit : Bool
  pub failbit : Bool
  pub gcount : ℕ

-- std::ios::good
abbrev pub good : Stream → Bool
good s = not s.eofbit && not s.failbit

-- std::istream::read: what was read, and the stream behind it. A stream that is not good reads
-- nothing and gets failbit; a short read gets eofbit and failbit.
unfoldable pub read : ℕ → Stream → Bytes × Stream
read size s =
    let chunk = take size (drop s.pos s.content) in
    let got = length chunk in
    if good s
    then if ltb got size
      then (chunk, record s { pos = s.pos + got; eofbit = true; failbit = true; gcount = got })
      else (chunk, record s { pos = s.pos + got; gcount = got })
    else ([], record s { failbit = true; gcount = 0 })

-- seekg from the start of the file: eofbit is cleared first, and a failed stream does not move.
unfoldable pub seekg : Offset → Stream → Stream
seekg offset s =
    if s.failbit then record s { eofbit = false } else record s { eofbit = false; pos = offset }

-- std::ios::clear
unfoldable pub clear : Stream → Stream
clear s = record s { eofbit = false; failbit = false }

-- tellp, of a library that writes its buffer out first, and its conversion to `Offset`: the -1 of a failed stream is the largest uint32_t.
unfoldable pub tellp : Stream → Offset
tellp s = if s.failbit then 2 ^ 32 - 1 else u32 s.pos

-- The bytes of a file after `buf` was put at `pos`; a gap before it reads as zeros.
unfoldable pub put_at : Bytes → ℕ → Bytes → Bytes
put_at content pos buf =
    take pos content
    ++ (replicate (pos - length content) 0 ++ (buf ++ drop (pos + length buf) content))

-- std::ostream::write, the body of `WriteFile`: with std::ios::app every write goes to the end, and
-- leaves the position there. libstdc++ tells that place only behind a flush, where the stream was
-- opened with std::ios::app on a file that is not empty; on every other stream there is no difference.
unfoldable pub write_file : Bytes → Stream → Stream
unfolding put_at
write_file buf s =
    let at = (if s.append then length s.content else s.pos) in
    if good s
    then record s { content = put_at s.content at buf; pos = at + length buf }
    else record s { failbit = true }

-- `ReadFile(file, size)` and `ReadValueFromFile`: the text read, or "" where the read fails.
unfoldable pub read_value_from_file : ℕ → Stream → Value × Stream
unfolding read
read_value_from_file size s =
    let (buf, s') = read size s in if s'.failbit then ([], s') else (buf, s')

-- `ReadFile(file, offset, size)`
unfoldable pub read_file_at : Offset → ℕ → Stream → Value × Stream
unfolding read_value_from_file seekg
read_file_at offset size s = read_value_from_file size (seekg offset s)
