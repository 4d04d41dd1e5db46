-- ===== src/Examples/Engines.antt =====
-- Engines.
use memkvin_c.Base.{◌≡◌, refl, [], ◌∷◌, ◌++◌, some, suc, codes, map, length, bytes_eq, arith}
use memkvin_c.Record.RoundTrip.{encode}
use memkvin_c.Record.Log.{encode_all}
use memkvin_c.Setting.{get_max_file_size}
use memkvin_c.Disk.{directory_entries, find_file, exists}
use memkvin_c.Bitcask.Engine.{Engine, Write, commit_write, get, visible?}
use memkvin_c.Bitcask.View.{Represents, apply_writes, empty_view}
use memkvin_c.Bitcask.Reads.{get_represents}
use memkvin_c.Bitcask.Commit.{commit_write_represents}
use memkvin_c.Bitcask.Rollover.{commit_write_rotates}
use memkvin_c.Bitcask.Restore.{done, make}
use memkvin_c.Bitcask.Fresh.{fresh, fresh-Represents, make-Represents}
use memkvin_c.Examples.Params.{rolling_crc, function_map, small_files, empty_disk}

-- The engine on an empty disk.
abbrev start : Engine function_map
start = fresh function_map small_files empty_disk

abbrev start-Represents : Represents start empty_view
start-Represents = fresh-Represents function_map small_files empty_disk

abbrev short : Write
short = record { key = codes "a"; value = codes "1"; promise = 0 }

-- The key and the header of this one reach the limit of 40 bytes.
abbrev long : Write
long = record { key = codes "a key that is as long as a file"; value = codes "2"; promise = 1 }

empty_disk_makes :
    (e : Engine function_map) × (make rolling_crc small_files empty_disk ≡ done e)
    × Represents e empty_view
unfolding directory_entries exists find_file
empty_disk_makes = make-Represents rolling_crc function_map small_files empty_disk refl refl refl

commit_write_represents_example :
    (e' : Engine function_map) × (commit_write rolling_crc start (short ∷ []) ≡ some e')
    × Represents e' (apply_writes empty_view (short ∷ []))
    × (e'.resolved ≡ start.resolved ++ map (λ (w : Write). w.promise) (short ∷ []))
unfolding fresh-Represents encode_all encode get_max_file_size
commit_write_represents_example =
    commit_write_represents rolling_crc start (short ∷ []) start-Represents (omega arith)
      (omega arith)

commit_write_rotates_example :
    (e' : Engine function_map) × (commit_write rolling_crc start (short ∷ long ∷ []) ≡ some e')
    × Represents e' (apply_writes empty_view (short ∷ long ∷ []))
    × (e'.resolved ≡ start.resolved ++ map (λ (w : Write). w.promise) (short ∷ long ∷ []))
    × (length e'.stable_files ≡ suc (length start.stable_files))
unfolding fresh-Represents encode_all encode get_max_file_size
commit_write_rotates_example =
    commit_write_rotates rolling_crc start (short ∷ []) long start-Represents (omega arith)
      (omega arith) (omega arith) (omega arith) refl

-- An engine with a value in its active file.
one_write :
    (e' : Engine function_map) × (commit_write rolling_crc start (short ∷ []) ≡ some e')
    × Represents e' (apply_writes empty_view (short ∷ []))
    × (e'.resolved ≡ start.resolved ++ map (λ (w : Write). w.promise) (short ∷ []))
unfolding fresh-Represents encode_all encode get_max_file_size
one_write =
    commit_write_represents rolling_crc start (short ∷ []) start-Represents (omega arith)
      (omega arith)

get_represents_example :
    (e' : Engine function_map) × (get one_write.0 (codes "a")
      ≡ some (visible? (some (codes "1")), e'))
    × Represents e' (apply_writes empty_view (short ∷ []))
unfolding bytes_eq
get_represents_example = get_represents one_write.2 (codes "a")

abbrev extra : Write
extra = record { key = codes "b"; value = codes "2"; promise = 2 }
