-- ===== src/Bitcask/Misplaced.antt =====
-- CommitWrite of a batch that is rotated before its last write: the hint of the last write still names
-- the file that was active when the batch began.
use memkvin_c.Base.{◌≡◌, true, false, List, [], ◌∷◌, ◌++◌, ◌+◌, ◌≤◌, ◌<◌, ◌^◌, length, leb}
use memkvin_c.Crc.{Crc32c}
use memkvin_c.HashMap.{HashMap}
use memkvin_c.RecordMap
use memkvin_c.RecordMap.{Hint}
use memkvin_c.Setting.{get_max_file_size}
use memkvin_c.Stream.{Stream}
use memkvin_c.Record.Log.{encode_all}
use memkvin_c.Disk.{opened}
use memkvin_c.Bitcask.Engine.{Engine, Write, Loop, active_fd, publish, publish_one}
use memkvin_c.Bitcask.View.{View, Represents}
use memkvin_c.Bitcask.Batch.{log_of, hint_at, hints_at, StaysBelow, kept}
use memkvin_c.Bitcask.Rotation.{rotated, next_path}
use memkvin_c.Bitcask.Rolled.{rolled}
use memkvin_c.Bitcask.Rollover

module _ (c : Crc32c) {hash : HashMap} (e : Engine hash) {m : View} (ws : List Write) (w : Write)
    (rep : Represents e m)
    (fits : length rep.active.content + length (encode_all c (log_of (ws ++ w ∷ []))) < 2 ^ 32)
    (below : StaysBelow (get_max_file_size e.setting) (length rep.active.content) ws)
    (reached : get_max_file_size e.setting
      ≤ length rep.active.content + length (encode_all c (log_of ws)) + 12 + length w.key)
    (few : length e.stable_files + 1 < 2 ^ 32) (made : e.disk.creatable (next_path e) ≡ true) where
  abbrev s' : Stream
  s' = Rollover.s' c e ws w rep fits below reached few made

  abbrev l' : Loop
  l' = Rollover.l' c e ws w rep fits below reached few made

  abbrev next : Stream
  next = opened (next_path e) [] false

  module _ (last : Write) (small : 12 + length last.key < get_max_file_size e.setting)
      (last_fits : 12 + length last.key + length last.value < 2 ^ 32) where
    abbrev batch : List Write
    batch = ws ++ w ∷ last ∷ []

    abbrev after : Loop
    after = kept c e (rotated e l' s') next last

    hints : List Hint
    hints = hints_at (active_fd e.stable_files) (length rep.active.content) (ws ++ w ∷ [])

    hint : Hint
    hint = hint_at (active_fd e.stable_files) 0 last

    -- The engine behind the loop, and behind all rounds of the last loop but one.
    ended : Engine hash
    ended = record (rolled e l' s') { active_file = after.active }

    published : Engine hash
    published = publish ended l'.idx 0 (ws ++ w ∷ []) hints

    final : Engine hash
    final = publish_one published (leb l'.idx (0 + length (ws ++ w ∷ []))) last hint

    content : s'.content ≡ rep.active.content ++ encode_all c (log_of (ws ++ w ∷ []))
    content = Rollover.content c e ws w rep fits below reached few made
