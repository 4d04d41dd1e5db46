-- ===== src/Record/RoundTrip.antt =====
-- A record that is read where one was written.
use memkvin_c.Base.{
  Bytes, Key, Value, ◌≡◌, ◌∙◌, refl, ap, sym, false, ◌++◌, append_assoc, ℕ, ◌+◌, ◌<◌, ◌^◌, length,
  length-append, arith, u32, some, ==_refl,
}
use memkvin_c.Crc.{Crc32c}
use memkvin_c.Stream.{Stream}
use memkvin_c.Stream.Laws.{read_exact, read_file_at_exact, tellp-pos}
use memkvin_c.Record.{
  RecordInf, header_bytes, header_of, get_crc32, fill_header, read_body, read_record,
}
use memkvin_c.Record.Header.{header_of-header_bytes, get_crc32_fits}

module _ (c : Crc32c) where
  -- The bytes of a record.
  unfoldable pub encode : Key → Value → Bytes
  encode key value = header_bytes (fill_header c key value).0 ++ (key ++ value)

  -- What the offsets of a record that starts at `at` are.
  abbrev pub inf_at : ℕ → Key → Value → RecordInf
  inf_at at key value = record {
    size = 12 + length key + length value;
    key_offset = at + 12;
    value_offset = at + 12 + length key;
  }

  pub length-encode :
      (key : Key) (value : Value) → length (encode key value) ≡ 12 + length key + length value
  unfolding encode
  length-encode key value = omega (arith, length-append key value)

  pub header_of-fill_header :
      (key : Key) (value : Value)
      → header_of (header_bytes (fill_header c key value).0) ≡ (fill_header c key value).0
  unfolding fill_header
  header_of-fill_header key value =
      header_of-header_bytes (fill_header c key value).0 (get_crc32_fits c _ _ key value)
        (omega arith) (omega arith)

  -- The record that starts at `at` ends below 2^32.
  abbrev pub Fits : ℕ → Key → Value → Type 0
  Fits at key value = at + (12 + length key + length value) < 2 ^ 32

  pub read_body_exact :
      (s : Stream) (pre rest : Bytes) (key : Key) (value : Value)
      → s.content ≡ pre ++ (header_bytes (fill_header c key value).0 ++ (key ++ (value ++ rest)))
      → s.pos ≡ length pre + 12
      → s.failbit ≡ false
      → Fits (length pre) key value
      → read_body c (fill_header c key value).0 s ≡ (
        some (record { key = key; value = value; inf = inf_at (length pre) key value }),
        record s {
          pos = length pre + 12 + length key + length value;
          gcount = length value;
          eofbit = false;
        },
      )
  unfolding read_body fill_header
  read_body_exact s pre rest key value bytes at f fits =
      rw
        (
          tellp-pos s (length pre + 12) f at (omega arith),
          read_file_at_exact s (pre ++ hdr) key (value ++ rest) (length pre + 12) (u32 (length key))
              (bytes ∙ sym (append_assoc pre hdr _)) f (omega (arith, length-append pre hdr))
              (omega arith),
          read_file_at_exact s1 (pre ++ (hdr ++ key)) value rest
              (u32 (length pre + 12 + u32 (length key))) (u32 (length value))
              (bytes
                ∙ ap (λ t. pre ++ t) (sym (append_assoc hdr key _))
                ∙ sym (append_assoc pre (hdr ++ key) _))
              f (omega (arith, length-append pre (hdr ++ key), length-append hdr key))
              (omega arith),
          ==_refl (get_crc32 c (u32 (length key)) (u32 (length value)) key value),
        )
        (ground arith)
    where
      hdr : Bytes
      hdr = header_bytes (fill_header c key value).0

      s1 : Stream
      s1 = record s {
        pos = length pre + 12 + u32 (length key);
        gcount = u32 (length key);
        eofbit = false;
      }

  -- The stream behind a record that was read from `at`.
  abbrev pub after_record : Stream → ℕ → Key → Value → Stream
  after_record s at key value = record s {
    pos = at + (12 + length key + length value);
    gcount = length value;
    eofbit = false;
  }

  -- ReadRecord on a good stream that stands before a written record returns its key, value and
  -- offsets and stands behind it, if the record ends below 2^32.
  pub read_record_exact :
      (s : Stream) (pre rest : Bytes) (key : Key) (value : Value)
      → s.content ≡ pre ++ (encode key value ++ rest)
      → s.pos ≡ length pre
      → s.eofbit ≡ false
      → s.failbit ≡ false
      → Fits (length pre) key value
      → read_record c s ≡ (
        some (record { key = key; value = value; inf = inf_at (length pre) key value }),
        after_record s (length pre) key value,
      )
  unfolding read_record encode
  read_record_exact s pre rest key value bytes at e f fits =
      rw
        (
          read_exact s pre hdr (key ++ (value ++ rest)) split at e f,
          f,
          header_of-fill_header key value,
          read_body_exact (record s { pos = s.pos + 12; failbit = false; gcount = 12 }) pre rest key
              value split (omega arith) refl fits,
        )
        (ground arith)
    where
      hdr : Bytes
      hdr = header_bytes (fill_header c key value).0

      split : s.content ≡ pre ++ (hdr ++ (key ++ (value ++ rest)))
      split =
          bytes
          ∙ ap (λ t. pre ++ t)
              (append_assoc hdr (key ++ value) rest
                ∙ ap (λ t. hdr ++ t) (append_assoc key value rest))
