-- ===== src/Stream/Laws.antt =====
-- What reading and writing do on a good stream.
use memkvin_c.Base.{
  Bytes, ◌≡◌, refl, ap, true, false, [], ◌++◌, append-nil, ℕ, ◌+◌, ◌-◌, ◌<◌, ◌^◌, length, replicate,
  take-length_append, drop-length_append, take-all, drop-all, arith, le→ltb, lt→ltb, if◌then◌else◌,
}
use memkvin_c.Stream.{
  Stream, clear, read, seekg, tellp, put_at, write_file, read_value_from_file, read_file_at,
}

-- A text that stands at the position is read, and the position moves behind it.
pub read_exact :
    (s : Stream) (pre chunk rest : Bytes)
    → s.content ≡ pre ++ (chunk ++ rest)
    → s.pos ≡ length pre
    → s.eofbit ≡ false
    → s.failbit ≡ false
    → read (length chunk) s
      ≡ (chunk, record s { pos = s.pos + length chunk; gcount = length chunk })
unfolding read
read_exact s pre chunk rest c p e f = rw (
  e,
  f,
  p,
  c,
  drop-length_append pre (chunk ++ rest),
  take-length_append chunk rest,
  le→ltb (length chunk) (length chunk) (omega arith),
)

pub read_file_at_exact :
    (s : Stream) (pre chunk rest : Bytes) (at size : ℕ)
    → s.content ≡ pre ++ (chunk ++ rest)
    → s.failbit ≡ false
    → at ≡ length pre
    → size ≡ length chunk
    → read_file_at at size s ≡ (chunk, record s { pos = at + size; gcount = size; eofbit = false })
unfolding read_file_at
read_file_at_exact s pre chunk rest at size c f e z = rw (
  f,
  c,
  e,
  z,
  drop-length_append pre (chunk ++ rest),
  take-length_append chunk rest,
  le→ltb (length chunk) (length chunk) (omega arith),
)

pub tellp-pos : (s : Stream) (at : ℕ) → s.failbit ≡ false → s.pos ≡ at → at < 2 ^ 32 → tellp s ≡ at
unfolding tellp
tellp-pos s at f p h = rw (f, p) (omega arith)

-- A read past the end of the file fails.
pub read_short :
    (s : Stream) (pre tail : Bytes) (size : ℕ)
    → s.content ≡ pre ++ tail
    → s.pos ≡ length pre
    → length tail < size
    → s.eofbit ≡ false
    → s.failbit ≡ false
    → read size s ≡ (
      tail,
      record s { pos = s.pos + length tail; eofbit = true; failbit = true; gcount = length tail },
    )
unfolding read
read_short s pre tail size c p l e f = rw (
  e,
  f,
  p,
  c,
  drop-length_append pre tail,
  take-all size tail (omega arith),
  lt→ltb (length tail) size l,
)

pub read_file_at_short :
    (s : Stream) (pre tail : Bytes) (at size : ℕ)
    → s.content ≡ pre ++ tail
    → s.failbit ≡ false
    → at ≡ length pre
    → length tail < size
    → ((read_file_at at size s).0 ≡ []) × ((read_file_at at size s).1.failbit ≡ true)
unfolding read_file_at
read_file_at_short s pre tail at size c f e l =
    rw
      (
        f,
        c,
        e,
        drop-length_append pre tail,
        take-all size tail (omega arith),
        lt→ltb (length tail) size l,
      )
      (refl, refl)

pub read_file_at_failed :
    (s : Stream) (at size : ℕ)
    → s.failbit ≡ true
    → ((read_file_at at size s).0 ≡ []) × ((read_file_at at size s).1.failbit ≡ true)
unfolding read_file_at
read_file_at_failed s at size f = ground arith

-- At the end of the file, and on a stream that appends, writing appends.
pub put_at-length : (content buf : Bytes) → put_at content (length content) buf ≡ content ++ buf
unfolding put_at
put_at-length content buf = rw (
  take-all (length content) content (omega arith),
  drop-all (length content + length buf) content (omega arith),
  append-nil buf,
  gap (length content - length content) (omega arith),
)
  where
    gap : (n : ℕ) → n ≡ 0 → replicate {A = ℕ} n 0 ≡ []
    gap n e = ap (λ k. replicate {A = ℕ} k 0) e

-- Where the next write goes.
abbrev pub write_position : Stream → ℕ
write_position s = if s.append then length s.content else s.pos

pub write_file_at_end :
    (buf : Bytes) (s : Stream)
    → write_position s ≡ length s.content
    → s.eofbit ≡ false
    → s.failbit ≡ false
    → write_file buf s
      ≡ record s { content = s.content ++ buf; pos = length s.content + length buf }
unfolding write_file
write_file_at_end buf s p e f = rw (p, e, f, put_at-length s.content buf)

-- The body of `StableFile::Read`, whatever the flags that the stream had.
pub read_stable_exact :
    (s : Stream) (pre chunk rest : Bytes) (at size : ℕ)
    → s.content ≡ pre ++ (chunk ++ rest)
    → at ≡ length pre
    → size ≡ length chunk
    → read_value_from_file size (seekg at (clear s))
      ≡ (chunk, record s { pos = at + size; gcount = size; eofbit = false; failbit = false })
unfolding clear
read_stable_exact s pre chunk rest at size c e z =
    unfold read_file_at in
    read_file_at_exact (record s { eofbit = false; failbit = false }) pre chunk rest at size c refl
      e z
