-- ===== src/Bitcask/Logs.antt =====
-- What the files of a database are for: one list of writes each, from 0.db to the active one, and where
-- CommitWrite puts a write.
use memkvin_c.Base.{
  true, false, ◌≡◌, ◌∙◌, refl, ap, ap₂, Bool-cases, inl, inr, List, [], ◌∷◌, ◌++◌, ℕ, zero, suc,
  ◌+◌, ◌<◌, length, ltb, ◌==◌, ==_refl, ne→==, if◌then◌else◌, arith,
}
use memkvin_c.Crc.{Crc32c}
use memkvin_c.Record.Log.{encode_all, length-encode_all-cons}
use memkvin_c.Bitcask.Engine.{Write}
use memkvin_c.Bitcask.View.{View, apply_writes, apply_writes-append, empty_view}
use memkvin_c.Bitcask.Batch.{log_of, record_size}

-- The number of the active file, and the writes of each file.
pub record Logs : Type 0 where
  pub last : ℕ
  pub writes : ℕ → List Write

-- The map of the writes of the first n files, file after file.
abbrev pub apply_files : (ℕ → List Write) → ℕ → View
apply_files writes zero = empty_view
apply_files writes (suc n) = apply_writes (apply_files writes n) (writes n)

-- The map of all writes.
abbrev pub view_of : Logs → View
view_of logs = apply_files logs.writes (suc logs.last)

abbrev pub log_size : List Write → ℕ
log_size [] = 0
log_size (w ∷ ws) = record_size w + log_size ws

abbrev pub set_log : (ℕ → List Write) → ℕ → List Write → ℕ → List Write
set_log writes i ws j = if i == j then ws else writes j

-- The write is the last of the active file.
abbrev pub appended_to : Logs → Write → ℕ → List Write
appended_to logs w = set_log logs.writes logs.last (logs.writes logs.last ++ w ∷ [])

-- A write goes to the active file; where its value starts at the size limit or past it, the file
-- is closed behind it and the next one is empty.
unfoldable pub add_write : ℕ → Logs → Write → Logs
add_write limit logs w =
    if ltb (log_size (logs.writes logs.last) + 12 + length w.key) limit
    then record { last = logs.last; writes = appended_to logs w }
    else record { last = suc logs.last; writes = set_log (appended_to logs w) (suc logs.last) [] }

unfoldable pub add_writes : ℕ → Logs → List Write → Logs
add_writes limit logs [] = logs
add_writes limit logs (w ∷ ws) = add_writes limit (add_write limit logs w) ws

pub length-encode_all :
    (c : Crc32c) (ws : List Write) → length (encode_all c (log_of ws)) ≡ log_size ws
unfolding encode_all
length-encode_all c [] = refl
length-encode_all c (w ∷ ws) =
    omega (arith, length-encode_all-cons c w.key w.value (log_of ws), length-encode_all c ws)

pub log_size-append : (ws more : List Write) → log_size (ws ++ more) ≡ log_size ws + log_size more
log_size-append [] more = omega arith
log_size-append (w ∷ ws) more = omega (arith, log_size-append ws more)

pub set_log_self : (writes : ℕ → List Write) (i : ℕ) (ws : List Write) → set_log writes i ws i ≡ ws
set_log_self writes i ws = rw (==_refl i) refl

pub set_log_other :
    (writes : ℕ → List Write) (i j : ℕ) (ws : List Write)
    → ¬ (i ≡ j)
    → set_log writes i ws j ≡ writes j
set_log_other writes i j ws h = rw (ne→== i j h) refl

-- Files that hold the same stand for the same map.
pub apply_files_congr :
    (f g : ℕ → List Write) (n : ℕ)
    → ((i : ℕ) → i < n → f i ≡ g i)
    → apply_files f n ≡ apply_files g n
apply_files_congr f g zero h = refl
apply_files_congr f g (suc n) h =
    ap₂ apply_writes (apply_files_congr f g n (λ i l. h i (omega arith))) (h n (omega arith))

module _ (logs : Logs) (w : Write) where
  apply_files-appended :
      apply_files (appended_to logs w) (suc logs.last) ≡ apply_writes (view_of logs) (w ∷ [])
  apply_files-appended =
      ap₂ apply_writes
        (apply_files_congr (appended_to logs w) logs.writes logs.last
          (λ i l. set_log_other logs.writes logs.last i _ (λ e. absurd (omega arith))))
        (set_log_self logs.writes logs.last _)
      ∙ apply_writes-append (logs.writes logs.last) (w ∷ []) (apply_files logs.writes logs.last)

  -- Where the value starts.
  abbrev pub value_at : ℕ
  value_at = log_size (logs.writes logs.last) + 12 + length w.key

  pub add_write-below :
      (limit : ℕ)
      → ltb value_at limit ≡ true
      → add_write limit logs w ≡ record { last = logs.last; writes = appended_to logs w }
  unfolding add_write
  add_write-below limit h = rw h refl

  pub add_write-past :
      (limit : ℕ)
      → ltb value_at limit ≡ false
      → add_write limit logs w
        ≡ record { last = suc logs.last; writes = set_log (appended_to logs w) (suc logs.last) [] }
  unfolding add_write
  add_write-past limit h = rw h refl

  -- Wherever the write goes, it is the last one.
  view_of-add_write :
      (limit : ℕ) → view_of (add_write limit logs w) ≡ apply_writes (view_of logs) (w ∷ [])
  view_of-add_write limit = elim (Bool-cases (ltb value_at limit)) [
    | inl below ↦ ap view_of (add_write-below limit below) ∙ apply_files-appended
    | inr past ↦
        ap view_of (add_write-past limit past)
        ∙ ap₂ apply_writes
            (apply_files_congr _ (appended_to logs w) (suc logs.last) (λ i l.
              set_log_other (appended_to logs w) (suc logs.last) i [] (λ e. absurd (omega arith))))
            (set_log_self (appended_to logs w) (suc logs.last) [])
        ∙ apply_files-appended
  ]

pub view_of-add_writes :
    (limit : ℕ) (ws : List Write) (logs : Logs)
    → view_of (add_writes limit logs ws) ≡ apply_writes (view_of logs) ws
unfolding add_writes
view_of-add_writes limit [] logs = refl
view_of-add_writes limit (w ∷ ws) logs =
    view_of-add_writes limit ws (add_write limit logs w)
    ∙ ap (λ m. apply_writes m ws) (view_of-add_write logs w limit)

pub add_writes-append :
    (limit : ℕ) (ws more : List Write) (logs : Logs)
    → add_writes limit logs (ws ++ more) ≡ add_writes limit (add_writes limit logs ws) more
unfolding add_writes
add_writes-append limit [] more logs = refl
add_writes-append limit (w ∷ ws) more logs =
    add_writes-append limit ws more (add_write limit logs w)
