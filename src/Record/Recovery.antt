-- ===== src/Record/Recovery.antt =====
-- What a scan gives back of a log whose last write was cut short.
use mathlib.Core.List.{foldl}
use mathlib.Core.Option
use memkvin_c.Base.{
  Bytes, Key, Value, ◌≡◌, ◌≢◌, ◌∙◌, refl, ap, sym, false, [], ◌++◌, append_assoc, ℕ, suc, ◌+◌, ◌-◌,
  ◌<◌, ◌^◌, length, length-append, arith, Option, some, none, take, take-append_of_ge, length-take,
  ne→==, u32,
}
use native.Mathlib.Decide.{dec_lt}
use memkvin_c.Crc.{Crc32c}
use memkvin_c.Stream.{Stream, tellp, read_file_at}
use memkvin_c.Stream.Laws.{
  read_short, read_exact, read_file_at_short, read_file_at_failed, read_file_at_exact, tellp-pos,
}
use memkvin_c.Record.{
  Found, RecordHeader, get_crc32, fill_header, header_bytes, read_body, read_record, read_loop,
  read_all_record_from_file,
}
use memkvin_c.Record.RoundTrip.{encode, Fits, header_of-fill_header}
use memkvin_c.Record.Log.{Log, StandsAt, encode_all, founds, read_all-log}

-- What a checksum is for: the record whose value, or whose key and value, were not read has another
-- checksum than the one in its header.
pub record DetectsTorn (c : Crc32c) (key : Key) (value : Value) : Type 0 where
  pub no_body :
      key ≢ []
      → get_crc32 c (u32 (length key)) (u32 (length value)) key value
        ≢ get_crc32 c (u32 (length key)) (u32 (length value)) [] []
  pub no_value :
      value ≢ []
      → get_crc32 c (u32 (length key)) (u32 (length value)) key value
        ≢ get_crc32 c (u32 (length key)) (u32 (length value)) key []

module _ (c : Crc32c) where
  header_torn :
      (s : Stream) (pre tail : Bytes)
      → StandsAt s pre tail
      → length tail < 12
      → (read_record c s).0 ≡ none
  unfolding read_record
  header_torn s pre tail h short =
      rw (read_short s pre tail 12 h.bytes h.at short h.no_eof h.no_fail)

  -- A body whose texts have the wrong checksum is refused.
  pub body_refused :
      (header : RecordHeader) (s : Stream) (key : Key) (value : Value)
      → (let at = tellp s in
          let r = read_file_at at header.key_size s in
          (r.0 ≡ key)
          × ((read_file_at (u32 (at + header.key_size)) header.value_size r.1).0 ≡ value))
      → header.crc ≢ get_crc32 c header.key_size header.value_size key value
      → (read_body c header s).0 ≡ none
  unfolding read_body
  body_refused header s key value (k, v) ne =
      rw (k, v, ne→== header.crc (get_crc32 c header.key_size header.value_size key value) ne)

  -- The two ways in which a body is cut short: inside the key, and inside the value.
  key_torn :
      (s : Stream) (pre part : Bytes) (key : Key) (value : Value)
      → StandsAt s pre part
      → length pre + (length key + length value) < 2 ^ 32
      → length part < length key
      → DetectsTorn c key value
      → (read_body c (fill_header c key value).0 s).0 ≡ none
  unfolding fill_header
  key_torn s pre part key value h fits short d =
      let at = tellp s in
      let e : at ≡ length pre = tellp-pos s (length pre) h.no_fail h.at (omega arith) in
      let k =
        read_file_at_short s pre part at (u32 (length key)) h.bytes h.no_fail e (omega arith) in
      body_refused (fill_header c key value).0 s [] [] (k.0, (read_file_at_failed _ _ _ k.1).0)
        (d.no_body (λ nil. absurd (omega (arith, ap (λ t. length t) nil))))

  value_torn :
      (s : Stream) (pre part : Bytes) (key : Key) (value : Value)
      → StandsAt s pre (key ++ part)
      → length pre + (length key + length value) < 2 ^ 32
      → length part < length value
      → DetectsTorn c key value
      → (read_body c (fill_header c key value).0 s).0 ≡ none
  unfolding fill_header
  value_torn s pre part key value h fits short d =
      let at = tellp s in
      let e : at ≡ length pre = tellp-pos s (length pre) h.no_fail h.at (omega arith) in
      let k =
        read_file_at_exact s pre key part at (u32 (length key)) h.bytes h.no_fail e (omega arith) in
      body_refused (fill_header c key value).0 s key []
        (
          ap (λ r. r.0) k,
          rw k
              (read_file_at_short _ (pre ++ key) part _ (u32 (length value))
                (h.bytes ∙ sym (append_assoc pre key part)) h.no_fail
                (omega (arith, length-append pre key)) (omega arith)).0,
        )
        (d.no_value (λ nil. absurd (omega (arith, ap (λ t. length t) nil))))

  body_torn :
      (m : ℕ) (s : Stream) (pre : Bytes) (key : Key) (value : Value)
      → StandsAt s pre (take m (key ++ value))
      → length pre + (length key + length value) < 2 ^ 32
      → m < length key + length value
      → DetectsTorn c key value
      → (read_body c (fill_header c key value).0 s).0 ≡ none
  body_torn m s pre key value h fits short d = elim (dec_lt m (length key)) [
    | yes inside ↦
        key_torn s pre (take m (key ++ value)) key value h fits
          (omega (arith, length-take m (key ++ value))) d
    | no behind ↦
        value_torn s pre (take (m - length key) value) key value
          (rw (take-append_of_ge m key value (omega arith)) at h) fits
          (omega (arith, length-take (m - length key) value)) d
  ]

  -- A record that is cut short is not read.
  record_torn :
      (j : ℕ) (s : Stream) (pre : Bytes) (key : Key) (value : Value)
      → StandsAt s pre (take j (encode c key value))
      → Fits c (length pre) key value
      → j < length (encode c key value)
      → DetectsTorn c key value
      → (read_record c s).0 ≡ none
  unfolding read_record encode
  record_torn j s pre key value h fits short d = elim (dec_lt j 12) [
    | yes cut ↦ header_torn s pre _ h (omega (arith, length-take j (encode c key value)))
    | no whole ↦
        let part = take (j - 12) (key ++ value) in
        let bytes : s.content ≡ pre ++ (header_bytes (fill_header c key value).0 ++ part) =
          h.bytes
          ∙ ap (λ t. pre ++ t)
              (take-append_of_ge j (header_bytes (fill_header c key value).0) (key ++ value)
                (omega arith)) in
        rw
          (
            read_exact s pre (header_bytes (fill_header c key value).0) part bytes h.at h.no_eof
                h.no_fail,
            h.no_fail,
            header_of-fill_header c key value,
          )
          (body_torn (j - 12) _ (pre ++ header_bytes (fill_header c key value).0) key value
            (record {
              bytes =
                  bytes ∙ sym (append_assoc pre (header_bytes (fill_header c key value).0) part);
              at =
                  omega (arith, h.at, length-append pre (header_bytes (fill_header c key value).0));
              no_eof = h.no_eof;
              no_fail = refl;
            })
            (omega (arith, length-append pre (header_bytes (fill_header c key value).0)))
            (omega (arith, length-append key value)) d)
  ]

  module _ {ℓ} {S : Type ℓ} (callback : S → Found → S) where
    pub stops :
        (fuel : ℕ) (s : Stream) (st : S)
        → (read_record c s).0 ≡ none
        → read_loop c callback (suc fuel) s st ≡ some (st, (read_record c s).1)
    unfolding read_loop
    stops fuel s st e = λ i. elim (e i) [
      | none ↦ some (st, (read_record c s).1)
      | some r ↦ read_loop c callback fuel (read_record c s).1 (callback st r)
    ]

    -- The state that a scan leaves, whatever the stream.
    abbrev pub scanned : Stream → S → Option S
    scanned s st = Option.map (λ (r : S × Stream). r.0) (read_all_record_from_file c s callback st)

    -- A scan of a file that holds a log below 2^32 bytes, and behind it fewer bytes than a
    -- header, ends, and calls the callback with the records in order, each with its offsets.
    pub log_recovered :
        (log : Log) (s : Stream) (tail : Bytes) (st : S)
        → s.content ≡ encode_all c log ++ tail
        → s.failbit ≡ false
        → length (encode_all c log) < 2 ^ 32
        → length tail < 12
        → scanned s st ≡ some (foldl callback st (founds c 0 log))
    log_recovered log s tail st bytes f fits short =
        let (s', h, (fuel, run)) = read_all-log c callback log s tail st bytes f fits in
        ap (Option.map (λ (r : S × Stream). r.0))
          (run ∙ stops fuel s' _ (header_torn s' (encode_all c log) tail h short))

    -- A scan of a log behind which a record was cut short anywhere ends, and calls the callback
    -- with the records of the log in order and with none else, if the file with the whole record
    -- stays below 2^32 bytes and the checksum tells the record without its value, and without its
    -- body, from the whole one.
    pub torn_write_recovered :
        (log : Log) (key : Key) (value : Value) (j : ℕ) (s : Stream) (st : S)
        → s.content ≡ encode_all c log ++ take j (encode c key value)
        → s.failbit ≡ false
        → Fits c (length (encode_all c log)) key value
        → j < length (encode c key value)
        → DetectsTorn c key value
        → scanned s st ≡ some (foldl callback st (founds c 0 log))
    torn_write_recovered log key value j s st bytes f fits short d =
        let (s', h, (fuel, run)) = read_all-log c callback log s _ st bytes f (omega arith) in
        ap (Option.map (λ (r : S × Stream). r.0))
          (run ∙ stops fuel s' _ (record_torn j s' (encode_all c log) key value h fits short d))
