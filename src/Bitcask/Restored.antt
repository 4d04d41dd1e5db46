-- ===== src/Bitcask/Restored.antt =====
-- The loop of RestoreStableMap over the files 0.db to n.db, in order.
use memkvin_c.Stream.{Stream}
use mathlib.Core.List.{foldl}
use memkvin_c.Base.{
  Bytes, ◌≡◌, ◌∙◌, subst, refl, ap, sym, true, List, [], ◌∷◌, ◌++◌, some, ℕ, zero, suc, ◌≤◌, ◌<◌,
  ◌^◌, length, map, u32, arith,
}
use memkvin_c.Crc.{Crc32c}
use memkvin_c.HashMap.{HashMap}
use memkvin_c.RecordMap
use memkvin_c.RecordMap.{RecordMap, Hint}
use memkvin_c.Record.Log.{encode_all, founds}
use memkvin_c.Disk.{Disk, DirEntry, File, find_file}
use memkvin_c.Disk.Names.{stoul-file_name}
use memkvin_c.Bitcask.Engine.{StableFiles, Write, set_stable}
use memkvin_c.Bitcask.View.{View, apply_writes}
use memkvin_c.Bitcask.Batch.{log_of}
use memkvin_c.Bitcask.Numbers.{upto}
use memkvin_c.Bitcask.Logs.{apply_files}
use memkvin_c.Bitcask.Listed.{entry}
use memkvin_c.Bitcask.Loaded.{IsLoaded, IsLoaded-none, IsLoaded-next}
use memkvin_c.Record.Kept.{file_of}
use memkvin_c.Bitcask.Handles.{HoldsFrom, HoldsFrom-append, IsHandle, set_stable-last}
use memkvin_c.Bitcask.Replay.{Stored, entry-replayed, restore_entries-cons}
use memkvin_c.Bitcask.Restore.{found_stable, restore_entries}

pub u32-digit : (k : ℕ) → k < 10 → u32 k ≡ k
u32-digit k h = omega arith

map_snoc {ℓ ℓ'} :
    {A : Type ℓ} {B : Type ℓ'} (f : A → B) (l : List A) (a : A) (more : List B)
    → map f (l ++ a ∷ []) ++ more ≡ map f l ++ f a ∷ more
map_snoc f [] a more = refl
map_snoc f (b ∷ l) a more = ap (λ t. f b ∷ t) (map_snoc f l a more)

module _ (c : Crc32c) (disk : Disk) (files : ℕ → File) (writes : ℕ → List Write) where
  -- The file i.db holds the records of its writes.
  abbrev pub HoldsLog : ℕ → Type 0
  HoldsLog i =
      (find_file disk.files (files i).path ≡ some (encode_all c (log_of (writes i))))
      × (length (encode_all c (log_of (writes i))) < 2 ^ 32)

  module _ (regular : (i : ℕ) → (files i).regular ≡ true) where
    abbrev stored : (i : ℕ) → i < 10 → HoldsLog i → Stored c disk
    stored i small (bytes, fits) = record {
      entry = entry files regular i;
      fd = i;
      log = log_of (writes i);
      name = stoul-file_name i small;
      bytes = bytes;
      fits = fits;
    }

    module _ (hash : HashMap) where
      -- The loop over the first k files.
      abbrev paths : ℕ → Bytes
      paths i = (files i).path

      unfoldable pub Restores : ℕ → List DirEntry → Type 0
      Restores k more =
          (records : RecordMap hash) × (stables : StableFiles) × (restore_entries c disk
              (map (entry files regular) (upto k) ++ more) (RecordMap.empty, [])
            ≡ restore_entries c disk more (records, stables))
          × IsLoaded c k records stables (apply_files writes k)
          × HoldsFrom c paths writes 0 stables

      -- The handle that a scan leaves.
      scanned-IsHandle :
          (k : ℕ) (s : Stream)
          → file_of s ≡ ((files k).path, encode_all c (log_of (writes k)))
          → IsHandle c paths k (writes k) (record { file = some s })
      scanned-IsHandle k s same = record {
        stream = s;
        file = refl;
        path = ap (λ t. t.0) same;
        content = ap (λ t. t.1) same;
      }

      restore_next :
          (k : ℕ) (more : List DirEntry) (records : RecordMap hash) (stables : StableFiles)
          (m : View)
          → k < 10
          → HoldsLog k
          → IsLoaded c k records stables m
          → HoldsFrom c paths writes 0 stables
          → (records' : RecordMap hash) × (stables' : StableFiles) × (restore_entries c disk
                (entry files regular k ∷ more)
                (records, stables)
              ≡ restore_entries c disk more (records', stables'))
            × IsLoaded c (suc k) records' stables' (apply_writes m (writes k))
            × HoldsFrom c paths writes 0 stables'
      restore_next k more records stables m small holds loaded handles =
          let f = stored k small holds in
          let (s, same, p) = entry-replayed c disk f records stables in
          (
            foldl (found_stable c (u32 k)) records (founds c 0 f.log),
            set_stable stables (u32 k) (record { file = some s }),
            restore_entries-cons c disk f.entry more k (records, stables) _ f.name p,
            subst
                (λ fd.
                  IsLoaded c (suc k) (foldl (found_stable c fd) records (founds c 0 f.log))
                    (set_stable stables fd (record { file = some s })) (apply_writes m (writes k)))
                (sym (u32-digit k small))
                (IsLoaded-next c k records stables m (writes k) s loaded (ap (λ t. t.1) same)
                  holds.1),
            subst (HoldsFrom c paths writes 0)
                (sym (
                  ap (λ fd. set_stable stables fd (record { file = some s })) (u32-digit k small)
                  ∙ set_stable-last c paths writes stables 0 k _ handles
                      (omega (arith, loaded.count))))
                (HoldsFrom-append c paths writes stables ((k, record { file = some s }) ∷ []) 0 k
                  (omega (arith, loaded.count)) handles (refl, scanned-IsHandle k s same, tt)),
          )

      pub restore_first :
          (k : ℕ) (more : List DirEntry) → k ≤ 10 → ((i : ℕ) → i < k → HoldsLog i) → Restores k more
      unfolding Restores
      restore_first zero more small holds = (RecordMap.empty, [], refl, IsLoaded-none c, tt)
      restore_first (suc k) more small holds =
          let (records, stables, p, loaded, handles) =
            restore_first k (entry files regular k ∷ more) (omega arith)
              (λ i h. holds i (omega arith)) in
          let (records', stables', q, loaded', handles') =
            restore_next k more records stables (apply_files writes k) (omega arith)
              (holds k (omega arith)) loaded handles in
          (
            records',
            stables',
            ap (λ l. restore_entries c disk l (RecordMap.empty, []))
                  (map_snoc (entry files regular) (upto k) k more)
                ∙ p
                ∙ q,
            loaded',
            handles',
          )
