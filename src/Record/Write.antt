-- ===== src/Record/Write.antt =====
-- `WriteRecord` appends one record, and returns where its parts are.
use memkvin_c.Base.{
  Bytes, Key, Value, ◌≡◌, ◌∙◌, refl, ap, sym, false, ◌++◌, append_assoc, ◌<◌, ◌^◌, length,
  length-append, arith,
}
use memkvin_c.Crc.{Crc32c}
use memkvin_c.Stream.{Stream, tellp, write_file}
use memkvin_c.Stream.Laws.{tellp-pos, write_file_at_end, write_position}
use memkvin_c.Record.{header_bytes, fill_header, write_record}
use memkvin_c.Record.RoundTrip.{encode, inf_at, Fits}

-- A stream that appends: it is good, and its next write goes to the end of the file.
pub record IsAppending (s : Stream) : Type 0 where
  pub at_end : write_position s ≡ length s.content
  pub no_eof : s.eofbit ≡ false
  pub no_fail : s.failbit ≡ false

-- The stream behind `buf`, put at the end.
abbrev pub appended : Stream → Bytes → Stream
appended s buf = record s { content = s.content ++ buf; pos = length (s.content ++ buf) }

pub appended-IsAppending : {s : Stream} (buf : Bytes) → IsAppending s → IsAppending (appended s buf)
appended-IsAppending {s} buf h = record {
  at_end = ground arith;
  no_eof = h.no_eof;
  no_fail = h.no_fail;
}

write_file-IsAppending :
    {s : Stream} (buf : Bytes) → IsAppending s → write_file buf s ≡ appended s buf
write_file-IsAppending {s} buf h =
    write_file_at_end buf s h.at_end h.no_eof h.no_fail
    ∙ ap (λ p. record s { content = s.content ++ buf; pos = p }) (sym (length-append s.content buf))

tellp-appended :
    {s : Stream} (buf : Bytes)
    → IsAppending s
    → length (s.content ++ buf) < 2 ^ 32
    → tellp (appended s buf) ≡ length (s.content ++ buf)
tellp-appended {s} buf h fits = tellp-pos (appended s buf) _ h.no_fail refl fits

module _ (c : Crc32c) where
  -- WriteRecord on a good stream whose writes go to the end appends the bytes of one record and
  -- returns its size and offsets, if the record ends below 2^32.
  pub write_record_lem :
      (s : Stream) (key : Key) (value : Value)
      → IsAppending s
      → Fits c (length s.content) key value
      → write_record c s key value
        ≡ (appended s (encode c key value), inf_at c (length s.content) key value)
  unfolding write_record fill_header encode
  write_record_lem s key value h fits =
      rw
        (
          write_file-IsAppending hdr h,
          write_file-IsAppending {s = appended s hdr} key h1,
          write_file-IsAppending {s = appended (appended s hdr) key} value
              (appended-IsAppending key h1),
          tellp-appended hdr h (omega (arith, length-append s.content hdr)),
          tellp-appended {s = appended s hdr} key h1
              (omega (arith, length-append (s.content ++ hdr) key, length-append s.content hdr)),
          append_assoc (s.content ++ hdr) key value,
          append_assoc s.content hdr (key ++ value),
        )
        (ground (arith, length-append (s.content ++ hdr) key, length-append s.content hdr))
    where
      hdr : Bytes
      hdr = header_bytes (fill_header c key value).0

      h1 : IsAppending (appended s hdr)
      h1 = appended-IsAppending hdr h
