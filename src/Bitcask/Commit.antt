-- ===== src/Bitcask/Commit.antt =====
-- CommitWrite of a batch that leaves the active file below its size limit.
use memkvin_c.Base.{
  Bytes, Key, Value, ◌≡◌, inl, inr, ◌∙◌, subst, refl, ap, sym, List, [], ◌∷◌, ◌++◌, ℕ, suc,
  append-nil, Option, none, some, ◌+◌, ◌<◌, ◌^◌, length, map, if◌then◌else◌,
}
use memkvin_c.Crc.{Crc32c}
use memkvin_c.HashMap.{HashMap}
use memkvin_c.ActiveMap
use memkvin_c.ActiveFile.{ActiveFile}
use memkvin_c.RecordMap.{Hint}
use memkvin_c.Setting.{get_max_file_size}
use memkvin_c.Stream.{Stream}
use memkvin_c.Record.Log.{encode_all}
use memkvin_c.Bitcask.Engine.{
  Engine, Write, Loop, active_fd, start_loop, commit_loop, commit_end, commit_write, insert_all,
  publish, publish_one, is_empty,
}
use memkvin_c.Bitcask.View.{View, apply_writes, InFile, Shows, IsStored, Represents}
use memkvin_c.Bitcask.Batch.{
  log_of, hints_at, StaysBelow, active_of, stream_after, all_kept, all_kept-active,
  all_kept-records, all_kept-rest, stream_after-content, stream_after-path, stream_after-is_open,
  stream_after-IsAppending, commit_loop-kept,
}
use memkvin_c.Bitcask.Publish.{publish-Represents, AllPlaced}
use memkvin_c.Bitcask.Placed.{InFile-append, AllIn, hints_at-AllIn, AllPlaced-active}

bytes_of : Option ActiveFile → Bytes
bytes_of none = []
bytes_of (some f) = elim f.file [ none ↦ [] | some s ↦ s.content ]

pub publish-frame :
    {hash : HashMap} (ws : List Write) (x : Engine hash) (last i : ℕ) (hints : List Hint)
    → ((publish x last i ws hints).active_file ≡ x.active_file)
      × ((publish x last i ws hints).running ≡ x.running)
      × ((publish x last i ws hints).setting ≡ x.setting)
      × ((publish x last i ws hints).disk ≡ x.disk)
      × ((publish x last i ws hints).stable_files ≡ x.stable_files)
      × ((publish x last i ws hints).writes ≡ x.writes)
      × ((publish x last i ws hints).next_promise ≡ x.next_promise)
unfolding publish publish_one
publish-frame [] x last i hints = (refl, refl, refl, refl, refl, refl, refl)
publish-frame (w ∷ ws) x last i [] = (refl, refl, refl, refl, refl, refl, refl)
publish-frame (w ∷ ws) x last i (hint ∷ hints) = publish-frame ws _ last (suc i) hints

module _ (c : Crc32c) {hash : HashMap} (e : Engine hash) where
  pub commit_write-loop :
      (ws : List Write) (l : Loop)
      → commit_loop c e (start_loop e) ws ≡ some l
      → commit_write c e ws ≡ some (commit_end e l ws)
  unfolding commit_write
  commit_write-loop ws l h = λ i. elim (h i) [ none ↦ none | some l ↦ some (commit_end e l ws) ]

  pub commit_loop-nil : (l : Loop) → commit_loop c e l [] ≡ some l
  unfolding commit_loop
  commit_loop-nil l = refl

  -- The engine whose active file was written to.
  abbrev grown : Stream → Engine hash
  grown s = record e { active_file = active_of s }

  grown-Shows :
      (s s' : Stream) (more : Bytes)
      → s'.content ≡ s.content ++ more
      → (k : Key) (o : Option Hint) (x : Option Value) → Shows e s k o x
      → Shows (grown s') s' k o x
  grown-Shows s s' more p k none x h = h
  grown-Shows s s' more p k (some hint) x (v, q, inl a) = (
    v,
    q,
    inl (record {
      fd = a.fd;
      cached = a.cached;
      in_file = subst (λ t. InFile t hint v) (sym p) (InFile-append more a.in_file);
    }),
  )
  grown-Shows s s' more p k (some hint) x (v, q, inr st) =
      (v, q, inr (record { stream = st.stream; found = st.found; in_file = st.in_file }))

  grown-IsStored :
      (s : Stream) (ws : List Write)
      → IsStored e s
      → IsStored (grown (stream_after c e s ws)) (stream_after c e s ws)
  grown-IsStored s ws h = record {
    file = refl;
    appending = stream_after-IsAppending c e s ws h.appending;
    is_open = stream_after-is_open c e s ws ∙ h.is_open;
    path = stream_after-path c e s ws ∙ h.path;
    few = h.few;
    fresh = h.fresh;
  }

  -- What CommitWrite does behind a loop that rotated nothing.
  commit_end-kept :
      (l : Loop) (s : Stream) (ws : List Write) (hints : List Hint)
      → l.disk ≡ e.disk
      → l.active ≡ active_of s
      → l.new_stable ≡ []
      → l.last_active_write ≡ 0
      → l.records ≡ hints
      → commit_end e l ws ≡ publish (grown s) 0 0 ws hints
  unfolding commit_end insert_all
  commit_end-kept l s ws hints d a n last r = λ i.
      publish
        (record e {
          disk = d i;
          active_file = a i;
          stable_files = insert_all e.stable_files (n i);
          active_map = if is_empty (n i) then e.active_map else ActiveMap.clear e.active_map;
        })
        (last i) 0 ws (r i)

  -- A batch whose writes stay below the size limit, and the engine behind its commit.
  module _ {m : View} (ws : List Write) (rep : Represents e m) where
    abbrev s : Stream
    s = rep.active

    abbrev s' : Stream
    s' = stream_after c e s ws

    abbrev pub kept_loop : Loop
    kept_loop = all_kept c e (start_loop e) s ws

    abbrev hints : List Hint
    hints = hints_at (active_fd e.stable_files) (length s.content) ws

    unfoldable pub committed : Engine hash
    committed = publish (grown s') 0 0 ws hints

    pub committed-frame :
        (committed.active_file ≡ active_of s')
        × (committed.running ≡ e.running)
        × (committed.setting ≡ e.setting)
        × (committed.disk ≡ e.disk)
        × (committed.stable_files ≡ e.stable_files)
        × (committed.writes ≡ e.writes)
        × (committed.next_promise ≡ e.next_promise)
    unfolding committed
    committed-frame = publish-frame ws (grown s') 0 0 hints

    pub committed-content :
        (rep' : Represents committed (apply_writes m ws))
        → rep'.active.content ≡ rep.active.content ++ encode_all c (log_of ws)
    unfolding bytes_of
    committed-content rep' =
        ap bytes_of (sym rep'.stored.file ∙ committed-frame.0) ∙ stream_after-content c e s ws

    module _ (fits : length rep.active.content + length (encode_all c (log_of ws)) < 2 ^ 32)
        (below : StaysBelow (get_max_file_size e.setting) (length rep.active.content) ws) where
      content : s'.content ≡ s.content ++ encode_all c (log_of ws)
      content = stream_after-content c e s ws

      pub commit_loop-kept_loop : commit_loop c e (start_loop e) ws ≡ some kept_loop
      commit_loop-kept_loop =
          ap (commit_loop c e (start_loop e)) (sym (append-nil ws))
          ∙ commit_loop-kept c e ws [] (start_loop e) s rep.stored.file rep.stored.appending fits
              below
          ∙ commit_loop-nil kept_loop

      pub rest :
          (kept_loop.disk ≡ e.disk)
          × (kept_loop.new_stable ≡ [])
          × (kept_loop.last_active_write ≡ 0)
          × (kept_loop.idx ≡ 0 + length ws)
      rest = all_kept-rest c e (start_loop e) s ws

      active : kept_loop.active ≡ active_of s'
      active = all_kept-active c e (start_loop e) s ws rep.stored.file

      pub records : kept_loop.records ≡ hints
      records = all_kept-records c e (start_loop e) s ws

      placed : AllPlaced (grown s') s' 0 0 ws hints
      placed = AllPlaced-active (grown s') s' ws (length s.content) 0 (
          subst (λ t. AllIn t ws hints)
            (sym (content ∙ ap (λ t. s.content ++ t) (sym (append-nil _))))
            (hints_at-AllIn c (active_fd e.stable_files) ws s.content [] (length s.content) refl
              fits))

      pub commit_write-committed : commit_write c e ws ≡ some committed
      unfolding committed
      commit_write-committed =
          commit_write-loop ws kept_loop commit_loop-kept_loop
          ∙ ap some (commit_end-kept kept_loop s' ws hints rest.0 active rest.1 rest.2 records)

      pub committed-Represents :
          Represents committed (apply_writes m ws)
          × (committed.resolved ≡ e.resolved ++ map (λ (w : Write). w.promise) ws)
      unfolding committed
      committed-Represents =
          publish-Represents ws (grown s') s' m 0 0 hints (grown-IsStored s ws rep.stored)
            (λ k. grown-Shows s s' (encode_all c (log_of ws)) content k _ _ (rep.shows k)) placed

  -- CommitWrite of a batch that stays below the size limit does not fault, leaves an engine that
  -- stands for the map with the writes applied in order, and sets exactly the promises of the
  -- batch, for an engine that stands for a map, if the active file stays below 2^32 bytes.
  pub commit_write_represents :
      {m : View} (ws : List Write) (rep : Represents e m)
      → length rep.active.content + length (encode_all c (log_of ws)) < 2 ^ 32
      → StaysBelow (get_max_file_size e.setting) (length rep.active.content) ws
      → (e' : Engine hash) × (commit_write c e ws ≡ some e')
        × Represents e' (apply_writes m ws)
        × (e'.resolved ≡ e.resolved ++ map (λ (w : Write). w.promise) ws)
  commit_write_represents ws rep fits below =
      let (rep', res) = committed-Represents ws rep fits below in
      (committed ws rep, commit_write-committed ws rep fits below, rep', res)
