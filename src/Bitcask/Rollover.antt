-- ===== src/Bitcask/Rollover.antt =====
-- CommitWrite of a batch whose last write brings the active file to its size limit.
use memkvin_c.Base.{
  ◌≡◌, ◌∙◌, subst, refl, ap, ap₂, sym, true, false, List, [], ◌∷◌, ◌++◌, append-nil, some, ℕ, suc,
  ◌+◌, ◌≤◌, ◌<◌, ◌^◌, length, length-append, map, arith, u32, le→ltb,
}
use memkvin_c.Crc.{Crc32c}
use memkvin_c.HashMap.{HashMap}
use memkvin_c.RecordMap.{Hint}
use memkvin_c.Setting.{get_max_file_size, get_db_path}
use memkvin_c.Stream.{Stream}
use memkvin_c.Record.RoundTrip.{encode, length-encode}
use memkvin_c.Record.Log.{encode_all}
use memkvin_c.Disk.{Disk, opened}
use memkvin_c.Bitcask.Engine.{
  Engine, Write, Loop, active_fd, start_loop, commit_one, commit_loop, commit_end, commit_write,
  insert_all, written, publish, rotate, db_file,
}
use memkvin_c.Bitcask.View.{View, apply_writes, Represents}
use memkvin_c.Bitcask.Reads.{active_fd-length}
use memkvin_c.Bitcask.Batch.{
  log_of, hints_at, StaysBelow, active_of, stream_after, all_kept, all_kept-active,
  all_kept-records, all_kept-rest, stream_after-content, stream_after-path, stream_after-is_open,
  stream_after-IsAppending, commit_loop-kept, commit_one-written, commit_loop-cons,
}
use memkvin_c.Bitcask.Publish.{publish-Represents, publish-stable_files, AllPlaced}
use memkvin_c.Bitcask.Placed.{AllIn, hints_at-AllIn, AllPlaced-stable}
use memkvin_c.Bitcask.Commit.{commit_write-loop, commit_loop-nil}
use memkvin_c.Bitcask.Rotation.{rotated, rotate_lem, next_path}
use memkvin_c.Bitcask.Rolled.{
  rolled, length-rolled, find-rolled_self, rolled-IsStored, rolled-Shows,
}

module _ (c : Crc32c) {hash : HashMap} (e : Engine hash) where
  all_kept-append :
      (ws more : List Write) (l : Loop) (s : Stream)
      → all_kept c e l s (ws ++ more)
        ≡ all_kept c e (all_kept c e l s ws) (stream_after c e s ws) more
  unfolding all_kept stream_after
  all_kept-append [] more l s = refl
  all_kept-append (w ∷ ws) more l s = all_kept-append ws more _ _

  stream_after-append :
      (ws more : List Write) (s : Stream)
      → stream_after c e s (ws ++ more) ≡ stream_after c e (stream_after c e s ws) more
  unfolding stream_after
  stream_after-append [] more s = refl
  stream_after-append (w ∷ ws) more s = stream_after-append ws more _

  written-rotate :
      (l : Loop) (s s' : Stream) (w : Write) (offset : ℕ)
      → get_max_file_size e.setting ≤ offset
      → written e l w (record { file = some s' }, offset)
        ≡ rotate e
            (record l {
              active = active_of s';
              records =
                  l.records
                  ++ record {
                    fd = active_fd e.stable_files;
                    offset = offset;
                    size = u32 (length w.value);
                  }
                    ∷ [];
              idx = suc l.idx;
            })
            (record { file = some s' })
  unfolding written
  written-rotate l s s' w offset h = rw (le→ltb offset (get_max_file_size e.setting) h)

  commit_end-rotated :
      (l : Loop) (s : Stream) (ws : List Write) (hints : List Hint) (last : ℕ)
      → l.idx ≡ last
      → l.records ≡ hints
      → u32 (active_fd e.stable_files) ≡ active_fd e.stable_files
      → commit_end e (rotated e l s) ws ≡ publish (rolled e l s) last 0 ws hints
  unfolding commit_end insert_all
  commit_end-rotated l s ws hints last i r fd = rw (i, r, fd)

  module _ {m : View} (ws : List Write) (w : Write) (rep : Represents e m)
      (fits : length rep.active.content + length (encode_all c (log_of (ws ++ w ∷ []))) < 2 ^ 32)
      (below : StaysBelow (get_max_file_size e.setting) (length rep.active.content) ws)
      (reached : get_max_file_size e.setting
        ≤ length rep.active.content + length (encode_all c (log_of ws)) + 12 + length w.key)
      (few : length e.stable_files + 1 < 2 ^ 32)
      (made : e.disk.creatable (next_path e) ≡ true) where
    abbrev pub batch : List Write
    batch = ws ++ w ∷ []

    abbrev s : Stream
    s = rep.active

    -- The stream before and behind the last write, and the loop there.
    abbrev s1 : Stream
    s1 = stream_after c e s ws

    abbrev pub s' : Stream
    s' = stream_after c e s batch

    abbrev l1 : Loop
    l1 = all_kept c e (start_loop e) s ws

    abbrev pub l' : Loop
    l' = all_kept c e (start_loop e) s batch

    abbrev fd : ℕ
    fd = active_fd e.stable_files

    abbrev pub hints : List Hint
    hints = hints_at fd (length s.content) batch

    pub content : s'.content ≡ s.content ++ encode_all c (log_of batch)
    content = stream_after-content c e s batch

    bound : length s'.content < 2 ^ 32
    bound = omega (
      arith,
      ap (λ t. length t) content,
      length-append rep.active.content (encode_all c (log_of batch)),
    )

    last_length : length s'.content ≡ length s1.content + (12 + length w.key + length w.value)
    unfolding stream_after
    last_length =
        ap (λ (t : Stream). length t.content) (stream_after-append ws (w ∷ []) s)
        ∙ length-append s1.content (encode c w.key w.value)
        ∙ ap (λ n. length s1.content + n) (length-encode c w.key w.value)

    rotates : rotate e l' (record { file = some s' }) ≡ some (rotated e l' s')
    rotates =
        let (d, n, last, idx) = all_kept-rest c e (start_loop e) s batch in
        rotate_lem e l' s' n (stream_after-is_open c e s batch ∙ rep.stored.is_open)
          (stream_after-path c e s batch
            ∙ rep.stored.path
            ∙ ap (db_file (get_db_path e.setting)) (sym (active_fd-length rep.stored)))
          (ap (λ (t : Disk). t.creatable (next_path e)) d ∙ made)

    size_of_start : length s.content + length (encode_all c (log_of ws)) ≡ length s1.content
    size_of_start = omega (
      arith,
      ap (λ t. length t) (stream_after-content c e s ws),
      length-append s.content (encode_all c (log_of ws)),
    )

    -- The batch before its last write fits.
    pub start_fits : length s.content + length (encode_all c (log_of ws)) < 2 ^ 32
    start_fits = omega (arith, size_of_start, bound, last_length)

    pub last_round : commit_one c e l1 w ≡ some (rotated e l' s')
    unfolding all_kept stream_after
    last_round =
        commit_one-written c e l1 s1 w (all_kept-active c e (start_loop e) s ws rep.stored.file)
          (stream_after-IsAppending c e s ws rep.stored.appending)
          (omega (arith, bound, last_length))
        ∙ written-rotate l1 s1 _ w _ (omega (arith, size_of_start, reached))
        ∙ ap₂ (λ (l : Loop) (t : Stream). rotate e l (record { file = some t }))
            (sym (all_kept-append ws (w ∷ []) (start_loop e) s))
            (sym (stream_after-append ws (w ∷ []) s))
        ∙ rotates

    looped : commit_loop c e (start_loop e) batch ≡ some (rotated e l' s')
    looped =
        commit_loop-kept c e ws (w ∷ []) (start_loop e) s rep.stored.file rep.stored.appending
          start_fits below
        ∙ commit_loop-cons c e l1 (rotated e l' s') w [] last_round
        ∙ commit_loop-nil c e (rotated e l' s')

    pub rounds : l'.idx ≡ length batch
    rounds = omega (arith, (all_kept-rest c e (start_loop e) s batch).3)

    pub records : l'.records ≡ hints
    records = all_kept-records c e (start_loop e) s batch

    placed : AllPlaced (rolled e l' s') (opened (next_path e) [] false) (length batch) 0 batch hints
    placed =
        AllPlaced-stable (rolled e l' s') (opened (next_path e) [] false)
          (opened s'.path s'.content true) fd batch (length s.content) (length batch) 0
          (find-rolled_self e rep.stored l' s' _ content few) (omega arith)
          (subst (λ t. AllIn t batch hints)
            (sym (content ∙ ap (λ t. s.content ++ t) (sym (append-nil _))))
            (hints_at-AllIn c fd batch s.content [] (length s.content) refl fits))

    -- CommitWrite of a batch whose last write, and no other, reaches the size limit rotates the
    -- active file without a fault: the engine then stands for the map with the writes applied in
    -- order, has one more stable file, and exactly the promises of the batch are set, if the next
    -- file can be made and sizes and counts stay below 2^32.
    pub commit_write_rotates :
        (e' : Engine hash) × (commit_write c e batch ≡ some e')
        × Represents e' (apply_writes m batch)
        × (e'.resolved ≡ e.resolved ++ map (λ (v : Write). v.promise) batch)
        × (length e'.stable_files ≡ suc (length e.stable_files))
    commit_write_rotates =
        let (r, res) =
          publish-Represents batch (rolled e l' s') (opened (next_path e) [] false) m (length batch)
            0 hints (rolled-IsStored e rep.stored l' s' _ content few)
            (λ k. rolled-Shows e rep.stored l' s' _ content few _ k _ _ (rep.shows k)) placed in
        (
          _,
          commit_write-loop c e batch (rotated e l' s') looped
              ∙ ap some (
                  commit_end-rotated l' s' batch hints (length batch) rounds records (omega arith)),
          r,
          res,
          ap (λ t. length t) (publish-stable_files batch (rolled e l' s') (length batch) 0 hints)
              ∙ length-rolled e rep.stored l' s' _ content few,
        )
