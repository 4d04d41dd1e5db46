-- ===== src/Bitcask/Session.antt =====
-- What a caller of Put or Delete sees once the worker has committed the queue.
use memkvin_c.Base.{
  Key, Value, ◌≡◌, ◌∙◌, refl, ap, subst, sym, List, [], ◌∷◌, ◌++◌, Option, none, some, suc, ◌+◌,
  ◌<◌, ◌^◌, length, bytes_eq, bytes_eq_refl, tombstone,
}
use memkvin_c.Crc.{Crc32c}
use memkvin_c.HashMap.{HashMap}
use memkvin_c.RecordMap
use memkvin_c.RecordMap.{Hint}
use memkvin_c.Setting.{get_max_file_size}
use memkvin_c.Record.Log.{encode_all}
use memkvin_c.Bitcask.Engine.{
  Engine, Write, put, delete, delete_hint, get, visible, visible?, commit_write,
}
use memkvin_c.Bitcask.View.{View, update, apply_writes, apply_writes-append, Represents}
use memkvin_c.Bitcask.Reads.{get_represents}
use memkvin_c.Bitcask.Batch.{log_of, StaysBelow}
use memkvin_c.Bitcask.Frame.{reframe}
use memkvin_c.Bitcask.Commit.{commit_write_represents}

update-same : (m : View) (k : Key) (v : Value) → update m k v k ≡ some v
update-same m k v = rw (bytes_eq_refl k) refl

module _ (c : Crc32c) {hash : HashMap} {e : Engine hash} {m : View} (rep : Represents e m) where
  -- The engine and the batch behind a swap of the queue.
  abbrev taken : Engine hash → Engine hash
  taken e = record e { writes = [] }

  -- What a Get returns of the key of the last write of a batch.
  committed :
      (x : Engine hash) (rep' : Represents x m) (ws : List Write) (w : Write)
      → length rep'.active.content + length (encode_all c (log_of (ws ++ w ∷ []))) < 2 ^ 32
      → StaysBelow (get_max_file_size x.setting) (length rep'.active.content) (ws ++ w ∷ [])
      → (e' : Engine hash) × (commit_write c x (ws ++ w ∷ []) ≡ some e')
        × (e'' : Engine hash) × (get e' w.key ≡ some (visible w.value, e''))
  committed x rep' ws w fits below =
      let (e', p, rep1, _) = commit_write_represents c x (ws ++ w ∷ []) rep' fits below in
      let (e'', q, _) = get_represents rep1 w.key in
      (
        e',
        p,
        e'',
        q
            ∙ ap (λ (o : Option Value). some (visible? o, e''))
                (ap (λ (f : View). f w.key) (apply_writes-append ws (w ∷ []) m)
                  ∙ update-same (apply_writes m ws) w.key w.value),
      )

  -- A Put whose queue is swapped and committed without a rotation: a Get of the key then returns
  -- the value, or none where the value is the tombstone, if the active file stays below 2^32
  -- bytes.
  pub put_then_get :
      (key : Key) (value : Value)
      → length rep.active.content + length (encode_all c (log_of (put e key value).0.writes))
        < 2 ^ 32
      → StaysBelow
          (get_max_file_size e.setting)
          (length rep.active.content)
          (put e key value).0.writes
      → (e' : Engine hash) × (commit_write c (taken (put e key value).0) (put e key value).0.writes
          ≡ some e')
        × (e'' : Engine hash) × (get e' key ≡ some (visible value, e''))
  unfolding put reframe
  put_then_get key value fits below =
      committed (taken (put e key value).0) (reframe e [] (suc e.next_promise) e.resolved rep)
        e.writes (record { key = key; value = value; promise = e.next_promise }) fits below

  -- The engine behind a Delete that queued its write.
  abbrev deleted : Key → Engine hash
  deleted key = record e {
    writes = e.writes ++ record { key = key; value = tombstone; promise = e.next_promise } ∷ [];
    next_promise = suc e.next_promise;
  }

  abbrev Gone : Key → Engine hash → Type 0
  Gone key x =
      length rep.active.content + length (encode_all c (log_of x.writes)) < 2 ^ 32
      → StaysBelow (get_max_file_size e.setting) (length rep.active.content) x.writes
      → (e' : Engine hash) × (commit_write c (taken x) x.writes ≡ some e')
        × (e'' : Engine hash) × (get e' key ≡ some (none, e''))

  deleted-Gone : (key : Key) → Gone key (deleted key)
  unfolding reframe bytes_eq
  deleted-Gone key fits below =
      committed (taken (deleted key)) (reframe e [] (suc e.next_promise) e.resolved rep) e.writes
        (record { key = key; value = tombstone; promise = e.next_promise }) fits below

  -- A Delete of a key that is in the index, whose queue is swapped and committed without a
  -- rotation: a Get of the key then returns none, if the active file stays below 2^32 bytes.
  pub delete_then_get :
      (key : Key) (hint : Hint)
      → RecordMap.get e.record_map key ≡ some hint
      → length rep.active.content + length (encode_all c (log_of (delete e key).0.writes)) < 2 ^ 32
      → StaysBelow (get_max_file_size e.setting) (length rep.active.content) (delete e key).0.writes
      → (e' : Engine hash) × (commit_write c (taken (delete e key).0) (delete e key).0.writes
          ≡ some e')
        × (e'' : Engine hash) × (get e' key ≡ some (none, e''))
  unfolding delete
  delete_then_get key hint h fits below =
      subst (Gone key) (ap (λ o. (delete_hint e key o).0) (sym h)) (deleted-Gone key) fits below
