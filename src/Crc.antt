-- ===== src/Crc.antt =====
-- src/CRC32.hpp. `crc32c::Extend` belongs to google/crc32c and is a parameter; the code relies on
-- its result being a uint32_t.
use memkvin_c.Base.{Bytes, ℕ, ◌^◌, ◌<◌}

pub record Crc32c : Type 0 where
  pub extend : ℕ → Bytes → ℕ
  pub extend_fits : (crc : ℕ) (bytes : Bytes) → extend crc bytes < 2 ^ 32

-- `crc32(crc, data, count)`, `crc32(crc, string)` and `crc32(crc, string_view)`
unfoldable pub crc32 : Crc32c → ℕ → Bytes → ℕ
crc32 c crc bytes = c.extend crc bytes
