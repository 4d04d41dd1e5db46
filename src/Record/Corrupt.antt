-- ===== src/Record/Corrupt.antt =====
-- What a scan gives back of a log in which one record has the wrong checksum.
use mathlib.Core.List.{foldl}
use mathlib.Core.Option
use memkvin_c.Base.{
  Bytes, ◌≡◌, ◌≢◌, ◌∙◌, refl, ap, sym, ◌++◌, append_assoc, ◌+◌, ◌<◌, ◌^◌, length, length-append,
  arith, some, none, false,
}
use memkvin_c.Crc.{Crc32c}
use memkvin_c.Stream.{Stream, tellp}
use memkvin_c.Stream.Laws.{read_exact, read_file_at_exact, tellp-pos}
use memkvin_c.Record.{Found, RecordHeader, get_crc32, header_bytes, read_body, read_record}
use memkvin_c.Record.Header.{header_of-header_bytes}
use memkvin_c.Record.Log.{Log, StandsAt, encode_all, founds, read_all-log}
use memkvin_c.Record.Recovery.{body_refused, stops, scanned}

-- A header whose checksum is not that of the texts behind it, which have the sizes that it gives.
pub record IsCorrupt (c : Crc32c) (header : RecordHeader) (key value : Bytes) : Type 0 where
  pub crc_fits : header.crc < 2 ^ 32
  pub key_size : header.key_size ≡ length key
  pub value_size : header.value_size ≡ length value
  pub differs : header.crc ≢ get_crc32 c header.key_size header.value_size key value

module _ (c : Crc32c) (header : RecordHeader) (key value : Bytes)
    (bad : IsCorrupt c header key value) where
  corrupt_body :
      (s : Stream) (pre rest : Bytes)
      → StandsAt s pre (key ++ (value ++ rest))
      → length pre + (length key + length value) < 2 ^ 32
      → (read_body c header s).0 ≡ none
  corrupt_body s pre rest h fits =
      let at = tellp s in
      let e : at ≡ length pre = tellp-pos s (length pre) h.no_fail h.at (omega arith) in
      let k =
        read_file_at_exact s pre key (value ++ rest) at header.key_size h.bytes h.no_fail e
          bad.key_size in
      body_refused c header s key value
        (
          ap (λ r. r.0) k,
          rw k (
              ap (λ r. r.0)
                (read_file_at_exact _ (pre ++ key) value rest _ header.value_size
                  (h.bytes ∙ sym (append_assoc pre key (value ++ rest))) h.no_fail
                  (omega (arith, bad.key_size, length-append pre key)) bad.value_size)),
        )
        bad.differs

  corrupt_record :
      (s : Stream) (pre rest : Bytes)
      → StandsAt s pre (header_bytes header ++ (key ++ (value ++ rest)))
      → length pre + (12 + length key + length value) < 2 ^ 32
      → (read_record c s).0 ≡ none
  unfolding read_record
  corrupt_record s pre rest h fits =
      rw
        (
          read_exact s pre (header_bytes header) (key ++ (value ++ rest)) h.bytes h.at h.no_eof
              h.no_fail,
          h.no_fail,
          header_of-header_bytes header bad.crc_fits (omega (arith, bad.key_size))
              (omega (arith, bad.value_size)),
        )
        (corrupt_body _ (pre ++ header_bytes header) rest
          (record {
            bytes = h.bytes ∙ sym (append_assoc pre (header_bytes header) _);
            at = omega (arith, h.at, length-append pre (header_bytes header));
            no_eof = h.no_eof;
            no_fail = refl;
          })
          (omega (arith, length-append pre (header_bytes header))))

  -- A scan of a log behind which a record with a wrong checksum stands ends, and calls the
  -- callback with the records before it in order and with no other, whatever stands behind it, if
  -- that record ends below 2^32.
  pub corrupt_hides_rest {ℓ} :
      {S : Type ℓ} (callback : S → Found → S) (log : Log) (rest : Bytes) (s : Stream) (st : S)
      → s.content ≡ encode_all c log ++ (header_bytes header ++ (key ++ (value ++ rest)))
      → s.failbit ≡ false
      → length (encode_all c log) + (12 + length key + length value) < 2 ^ 32
      → scanned c callback s st ≡ some (foldl callback st (founds c 0 log))
  corrupt_hides_rest {S = S} callback log rest s st bytes f fits =
      let (s', h, (fuel, run)) = read_all-log c callback log s _ st bytes f (omega arith) in
      ap (Option.map (λ (r : S × Stream). r.0))
        (run ∙ stops c callback fuel s' _ (corrupt_record s' (encode_all c log) rest h fits))
