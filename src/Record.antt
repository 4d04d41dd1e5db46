-- ===== src/Record.antt =====
-- src/Record.cpp and Record.hpp: the record that a log file is made of,
-- | crc32 | keySize | valueSize | key | value |, its three header words as the host stores a struct of
-- three uint32_t (little-endian, 12 bytes, no padding).
pub mod Header
pub mod RoundTrip
pub mod Write
pub mod Log
pub mod Recovery
pub mod Corrupt
pub mod Kept
pub mod Sound
pub mod Total
use memkvin_c.Base.{
  Bytes, Key, Value, Offset, Bool, true, false, List, [], ◌∷◌, ◌++◌, Option, none, some, ℕ, zero,
  suc, ◌+◌, ◌*◌, ◌/◌, ◌%◌, ◌^◌, length, take, drop, u32, ◌==◌, if◌then◌else◌,
}
use memkvin_c.Crc.{Crc32c, crc32}
use memkvin_c.Stream.{Stream, read, seekg, tellp, write_file, read_file_at}

-- struct RecordInf
pub record RecordInf : Type 0 where
  pub size : ℕ
  pub key_offset : Offset
  pub value_offset : Offset

-- struct RecordHeader
pub record RecordHeader : Type 0 where
  pub crc : ℕ
  pub key_size : ℕ
  pub value_size : ℕ

-- sizeof(RecordHeader)
abbrev pub header_size : ℕ
header_size = 12

-- A uint32_t in memory.
abbrev pub le32 : ℕ → Bytes
le32 n = (n % 256) ∷ (n / 256 % 256) ∷ (n / 65536 % 256) ∷ (n / 16777216 % 256) ∷ []

abbrev pub of_le32 : Bytes → ℕ
of_le32 (a ∷ b ∷ c ∷ d ∷ []) = u32 (a + b * 256 + c * 65536 + d * 16777216)
of_le32 _ = 0

-- A `RecordHeader` as the bytes that are written, and read back.
abbrev pub header_bytes : RecordHeader → Bytes
header_bytes h = le32 h.crc ++ (le32 h.key_size ++ le32 h.value_size)

unfoldable pub header_of : Bytes → RecordHeader
header_of b = record {
  crc = of_le32 (take 4 b);
  key_size = of_le32 (take 4 (drop 4 b));
  value_size = of_le32 (take 4 (drop 8 b));
}

-- internal::getCRC32
unfoldable pub get_crc32 : Crc32c → ℕ → ℕ → Key → Value → ℕ
unfolding crc32
get_crc32 c key_size value_size key value =
    let crc1 = crc32 c 0 (le32 key_size) in
    let crc2 = crc32 c crc1 (le32 value_size) in let crc3 = crc32 c crc2 key in crc32 c crc3 value

-- internal::fillHeader: the header, and the size that it returns.
unfoldable pub fill_header : Crc32c → Key → Value → RecordHeader × ℕ
fill_header c key value =
    let key_size = u32 (length key) in
    let value_size = u32 (length value) in
    (
      record {
        crc = get_crc32 c key_size value_size key value;
        key_size = key_size;
        value_size = value_size;
      },
      header_size + key_size + value_size,
    )

unfoldable pub write_record : Crc32c → Stream → Key → Value → Stream × RecordInf
unfolding fill_header
write_record c file key value =
    let (header, size) = fill_header c key value in
    let file1 = write_file (header_bytes header) file in
    let key_offset = tellp file1 in
    let file2 = write_file key file1 in
    let value_offset = tellp file2 in
    let file3 = write_file value file2 in
    (file3, record { size = u32 size; key_offset = key_offset; value_offset = value_offset })

-- A record that was read: what a `RecordFoundCallback` is called with.
pub record Found : Type 0 where
  pub key : Key
  pub value : Value
  pub inf : RecordInf

-- The part of `ReadRecord` behind a header that was read.
unfoldable pub read_body : Crc32c → RecordHeader → Stream → Option Found × Stream
read_body c header file =
    let key_offset = tellp file in
    let (key, file1) = read_file_at key_offset header.key_size file in
    let value_offset = u32 (key_offset + header.key_size) in
    let (value, file2) = read_file_at value_offset header.value_size file1 in
    let inf : RecordInf = record {
      size = u32 (header_size + header.key_size + header.value_size);
      key_offset = key_offset;
      value_offset = value_offset;
    } in
    if header.crc == get_crc32 c header.key_size header.value_size key value
    then (some (record { key = key; value = value; inf = inf }), file2)
    else (none, file2)

-- ReadRecord; `none` is its `return false`, on a header that is cut short or on a wrong checksum.
unfoldable pub read_record : Crc32c → Stream → Option Found × Stream
read_record c file =
    let (bytes, file1) = read header_size file in
    if file1.failbit then (none, file1) else read_body c (header_of bytes) file1

-- The `while` loop of `ReadAllRecordFromFile` on fuel, over the state that the callback changes;
-- `none` means that the fuel ran out.
unfoldable pub read_loop {ℓ} :
    {S : Type ℓ} → Crc32c → (S → Found → S) → ℕ → Stream → S → Option (S × Stream)
read_loop c callback zero file s = none
read_loop c callback (suc fuel) file s =
    let (found, file1) = read_record c file in
    elim found [ none ↦ some (s, file1) | some r ↦ read_loop c callback fuel file1 (callback s r) ]

-- Enough rounds for a file: each record takes a header at least.
abbrev pub rounds : Stream → ℕ
rounds file = suc (length file.content / header_size)

unfoldable pub read_all_record_from_file {ℓ} :
    {S : Type ℓ} → Crc32c → Stream → (S → Found → S) → S → Option (S × Stream)
read_all_record_from_file c file callback s = read_loop c callback (rounds file) (seekg 0 file) s
