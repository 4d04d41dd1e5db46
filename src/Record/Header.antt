-- ===== src/Record/Header.antt =====
-- The header's bytes and sizes.
use memkvin_c.Base.{◌≡◌, refl, ℕ, ◌^◌, ◌<◌, length, arith, Key, Value}
use memkvin_c.Crc.{Crc32c}
use memkvin_c.Record.{RecordHeader, le32, of_le32, header_bytes, header_of, get_crc32}

pub of_le32-le32 : (n : ℕ) → n < 2 ^ 32 → of_le32 (le32 n) ≡ n
of_le32-le32 n h = omega arith

pub header_of-header_bytes :
    (h : RecordHeader)
    → h.crc < 2 ^ 32
    → h.key_size < 2 ^ 32
    → h.value_size < 2 ^ 32
    → header_of (header_bytes h) ≡ h
unfolding header_of
header_of-header_bytes h a b c = λ i. record {
  crc = of_le32-le32 h.crc a i;
  key_size = of_le32-le32 h.key_size b i;
  value_size = of_le32-le32 h.value_size c i;
}

pub length-header_bytes : (h : RecordHeader) → length (header_bytes h) ≡ 12
length-header_bytes h = refl

pub get_crc32_fits :
    (c : Crc32c) (k v : ℕ) (key : Key) (value : Value) → get_crc32 c k v key value < 2 ^ 32
unfolding get_crc32
get_crc32_fits c k v key value = c.extend_fits _ value
