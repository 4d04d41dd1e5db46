-- ===== src/Bitcask/Batch.antt =====
-- The loop of CommitWrite on writes that leave the active file below its size limit.
use memkvin_c.Base.{
  Key, Value, ◌≡◌, ◌∙◌, refl, ap, sym, List, [], ◌∷◌, ◌++◌, append_assoc, append-nil, Option, none,
  some, ℕ, suc, ◌+◌, ◌<◌, ◌^◌, u32, length, length-append, lt→ltb, arith, map,
}
use memkvin_c.Crc.{Crc32c}
use memkvin_c.HashMap.{HashMap}
use memkvin_c.RecordMap.{Hint}
use memkvin_c.Setting.{get_max_file_size}
use memkvin_c.Stream.{Stream}
use memkvin_c.Record.RoundTrip.{encode, Fits, length-encode}
use memkvin_c.Record.Write.{IsAppending, appended, appended-IsAppending, write_record_lem}
use memkvin_c.Record.Log.{Log, encode_all, length-encode_all-cons}
use memkvin_c.ActiveFile
use memkvin_c.ActiveFile.{ActiveFile}
use memkvin_c.Bitcask.Engine.{Engine, Write, Loop, active_fd, written, commit_one, commit_loop}

-- The records that writes append.
abbrev pub log_of : List Write → Log
log_of = map (λ (w : Write). (w.key, w.value))

-- The hint of a write whose record starts at `at`.
abbrev pub hint_at : ℕ → ℕ → Write → Hint
hint_at fd at w = record { fd = fd; offset = at + 12 + length w.key; size = u32 (length w.value) }

abbrev pub record_size : Write → ℕ
record_size w = 12 + length w.key + length w.value

abbrev pub hints_at : ℕ → ℕ → List Write → List Hint
hints_at fd at [] = []
hints_at fd at (w ∷ ws) = hint_at fd at w ∷ hints_at fd (at + record_size w) ws

-- No write puts its value at or past the size limit.
abbrev pub StaysBelow : ℕ → ℕ → List Write → Type 0
StaysBelow limit at [] = Unit
StaysBelow limit at (w ∷ ws) =
    (at + 12 + length w.key < limit) × StaysBelow limit (at + record_size w) ws

abbrev pub active_of : Stream → Option ActiveFile
active_of s = some (record { file = some s })

module _ (c : Crc32c) where
  pub write_lem :
      (s : Stream) (key : Key) (value : Value)
      → IsAppending s
      → Fits c (length s.content) key value
      → ActiveFile.write c (record { file = some s }) key value
        ≡ some (
          record { file = some (appended s (encode c key value)) },
          length s.content + 12 + length key,
        )
  unfolding ActiveFile.write
  write_lem s key value h fits = rw (write_record_lem c s key value h fits)

  module _ {hash : HashMap} (e : Engine hash) where
    -- The loop behind a write that was appended and did not rotate.
    abbrev pub kept : Loop → Stream → Write → Loop
    kept l s w = record l {
      active = active_of (appended s (encode c w.key w.value));
      records = l.records ++ hint_at (active_fd e.stable_files) (length s.content) w ∷ [];
      idx = suc l.idx;
    }

    pub commit_one-written :
        (l : Loop) (s : Stream) (w : Write)
        → l.active ≡ active_of s
        → IsAppending s
        → Fits c (length s.content) w.key w.value
        → commit_one c e l w
          ≡ written e l w (
            record { file = some (appended s (encode c w.key w.value)) },
            length s.content + 12 + length w.key,
          )
    unfolding commit_one
    commit_one-written l s w a h fits =
        (λ i. elim (a i) [
          | none ↦ none
          | some file ↦ elim (ActiveFile.write c file w.key w.value) [
            | none ↦ none
            | some r ↦ written e l w r
          ]
        ])
        ∙ λ i. elim (write_lem s w.key w.value h fits i) [ none ↦ none | some r ↦ written e l w r ]

    pub commit_one-kept :
        (l : Loop) (s : Stream) (w : Write)
        → l.active ≡ active_of s
        → IsAppending s
        → Fits c (length s.content) w.key w.value
        → length s.content + 12 + length w.key < get_max_file_size e.setting
        → commit_one c e l w ≡ some (kept l s w)
    unfolding written
    commit_one-kept l s w a h fits below =
        commit_one-written l s w a h fits
        ∙ rw (lt→ltb (length s.content + 12 + length w.key) (get_max_file_size e.setting) below)

    -- The stream and the loop behind writes that stay below the limit.
    unfoldable pub stream_after : Stream → List Write → Stream
    stream_after s [] = s
    stream_after s (w ∷ ws) = stream_after (appended s (encode c w.key w.value)) ws

    unfoldable pub all_kept : Loop → Stream → List Write → Loop
    all_kept l s [] = l
    all_kept l s (w ∷ ws) = all_kept (kept l s w) (appended s (encode c w.key w.value)) ws

    pub commit_loop-cons :
        (l l' : Loop) (w : Write) (ws : List Write)
        → commit_one c e l w ≡ some l'
        → commit_loop c e l (w ∷ ws) ≡ commit_loop c e l' ws
    unfolding commit_loop
    commit_loop-cons l l' w ws h = λ i. elim (h i) [ none ↦ none | some l' ↦ commit_loop c e l' ws ]

    length-next :
        (s : Stream) (w : Write)
        → length (s.content ++ encode c w.key w.value) ≡ length s.content + record_size w
    length-next s w =
        omega
          (arith, length-append s.content (encode c w.key w.value), length-encode c w.key w.value)

    pub stream_after-content :
        (s : Stream) (ws : List Write)
        → (stream_after s ws).content ≡ s.content ++ encode_all c (log_of ws)
    unfolding stream_after encode_all
    stream_after-content s [] = sym (append-nil s.content)
    stream_after-content s (w ∷ ws) =
        stream_after-content (appended s (encode c w.key w.value)) ws
        ∙ append_assoc s.content (encode c w.key w.value) (encode_all c (log_of ws))

    pub stream_after-path : (s : Stream) (ws : List Write) → (stream_after s ws).path ≡ s.path
    unfolding stream_after
    stream_after-path s [] = refl
    stream_after-path s (w ∷ ws) = stream_after-path (appended s (encode c w.key w.value)) ws

    pub stream_after-is_open :
        (s : Stream) (ws : List Write) → (stream_after s ws).is_open ≡ s.is_open
    unfolding stream_after
    stream_after-is_open s [] = refl
    stream_after-is_open s (w ∷ ws) = stream_after-is_open (appended s (encode c w.key w.value)) ws

    pub stream_after-IsAppending :
        (s : Stream) (ws : List Write) → IsAppending s → IsAppending (stream_after s ws)
    unfolding stream_after
    stream_after-IsAppending s [] h = h
    stream_after-IsAppending s (w ∷ ws) h =
        stream_after-IsAppending (appended s (encode c w.key w.value)) ws (appended-IsAppending _ h)

    pub all_kept-active :
        (l : Loop) (s : Stream) (ws : List Write)
        → l.active ≡ active_of s
        → (all_kept l s ws).active ≡ active_of (stream_after s ws)
    unfolding all_kept stream_after
    all_kept-active l s [] h = h
    all_kept-active l s (w ∷ ws) h = all_kept-active (kept l s w) _ ws refl

    pub all_kept-records :
        (l : Loop) (s : Stream) (ws : List Write)
        → (all_kept l s ws).records
          ≡ l.records ++ hints_at (active_fd e.stable_files) (length s.content) ws
    unfolding all_kept
    all_kept-records l s [] = sym (append-nil l.records)
    all_kept-records l s (w ∷ ws) =
        all_kept-records (kept l s w) (appended s (encode c w.key w.value)) ws
        ∙ append_assoc l.records _ _
        ∙ ap
            (λ n.
              l.records
              ++ hint_at (active_fd e.stable_files) (length s.content) w
                ∷ hints_at (active_fd e.stable_files) n ws)
            (length-next s w)

    -- What writes that stay below the limit leave alone, and how many rounds there were.
    pub all_kept-rest :
        (l : Loop) (s : Stream) (ws : List Write)
        → ((all_kept l s ws).disk ≡ l.disk)
          × ((all_kept l s ws).new_stable ≡ l.new_stable)
          × ((all_kept l s ws).last_active_write ≡ l.last_active_write)
          × ((all_kept l s ws).idx ≡ l.idx + length ws)
    unfolding all_kept
    all_kept-rest l s [] = (refl, refl, refl, omega arith)
    all_kept-rest l s (w ∷ ws) =
        let (d, n, last, idx) =
          all_kept-rest (kept l s w) (appended s (encode c w.key w.value)) ws in
        (d, n, last, omega arith)

    -- The loop on writes that stay below the limit, whatever follows.
    pub commit_loop-kept :
        (ws more : List Write) (l : Loop) (s : Stream)
        → l.active ≡ active_of s
        → IsAppending s
        → length s.content + length (encode_all c (log_of ws)) < 2 ^ 32
        → StaysBelow (get_max_file_size e.setting) (length s.content) ws
        → commit_loop c e l (ws ++ more) ≡ commit_loop c e (all_kept l s ws) more
    unfolding all_kept
    commit_loop-kept [] more l s a h fits below = refl
    commit_loop-kept (w ∷ ws) more l s a h fits (below, rest) =
        let size = length-encode_all-cons c w.key w.value (log_of ws) in
        commit_loop-cons l (kept l s w) w (ws ++ more)
          (commit_one-kept l s w a h (omega arith) below)
        ∙ commit_loop-kept ws more (kept l s w) (appended s (encode c w.key w.value)) refl
            (appended-IsAppending _ h) (omega (arith, length-next s w)) (rw (length-next s w) rest)
