-- ===== src/Bitcask/Loaded.antt =====
-- The index and the stable files behind the scans of the first n files of a directory: what they
-- show, and how one more scan changes it.
use mathlib.Core.List.{foldl}
use memkvin_c.Base.{
  none-ne, ==→≡, Key, Value, ◌≡◌, ◌∙◌, subst, refl, ap, sym, inl, inr, Bool-cases, List, [], ◌∷◌,
  append-nil, Option, none, some, ℕ, suc, ◌+◌, ◌≤◌, ◌<◌, ◌^◌, length, bytes_eq, ◌==◌, ==_refl,
  ne→==, if◌then◌else◌, arith,
}
use memkvin_c.Crc.{Crc32c}
use memkvin_c.HashMap.{HashMap}
use memkvin_c.RecordMap
use memkvin_c.RecordMap.{RecordMap, Hint}
use memkvin_c.Stream.{Stream}
use memkvin_c.Record.Log.{encode_all, founds}
use memkvin_c.StableFile.{StableFile}
use memkvin_c.Bitcask.Engine.{StableFiles, Write, find_stable, set_stable}
use memkvin_c.Bitcask.View.{View, InFile, update, apply_writes, empty_view}
use memkvin_c.Bitcask.Batch.{log_of, hint_at, hints_at, record_size}
use memkvin_c.Bitcask.Placed.{AllIn, hints_at-AllIn}
use memkvin_c.Bitcask.Stables.{find_stable-set_stable, length-set_stable_new}
use memkvin_c.Bitcask.Restore.{found_stable}

-- The value is in one of the stable files, where its hint says.
pub record IsKept (files : StableFiles) (hint : Hint) (v : Value) : Type 0 where
  pub stream : Stream
  pub found : find_stable files hint.fd ≡ some (record { file = some stream })
  pub in_file : InFile stream.content hint v

abbrev pub Shown : StableFiles → Option Hint → Option Value → Type 0
Shown files none o = o ≡ none
Shown files (some hint) o = (v : Value) × (o ≡ some v) × IsKept files hint v

Shown-set_stable :
    (files : StableFiles) (fd : ℕ) (f : StableFile) (found : Option Hint) (o : Option Value)
    → find_stable files fd ≡ none
    → Shown files found o
    → Shown (set_stable files fd f) found o
Shown-set_stable files fd f none o new h = h
Shown-set_stable files fd f (some hint) o new (v, e, kept) = (
  v,
  e,
  record {
    stream = kept.stream;
    found = find_stable-set_stable files fd hint.fd f ∙ other kept.found;
    in_file = kept.in_file;
  },
)
  where
    other :
        {g : StableFile}
        → find_stable files hint.fd ≡ some g
        → (if fd == hint.fd then some f else find_stable files hint.fd) ≡ some g
    other k = elim (Bool-cases (fd == hint.fd)) [
      | inl same ↦ absurd (none-ne (sym new ∙ ap (find_stable files) (==→≡ fd hint.fd same) ∙ k))
      | inr e ↦ rw e k
    ]

module _ (c : Crc32c) {hash : HashMap} where
  -- One file is scanned that is among the stable files.
  Shown-scan :
      (files : StableFiles) (fd : ℕ) (stable : Stream) (ws : List Write) (at : ℕ)
      (records : RecordMap hash) (m : View)
      → find_stable files fd ≡ some (record { file = some stable })
      → AllIn stable.content ws (hints_at fd at ws)
      → ((k : Key) → Shown files (RecordMap.get records k) (m k))
      → (k : Key)
      → Shown files
          (RecordMap.get (foldl (found_stable c fd) records (founds c at (log_of ws))) k)
          (apply_writes m ws k)
  unfolding founds found_stable
  Shown-scan files fd stable [] at records m found h shown k = shown k
  Shown-scan files fd stable (w ∷ ws) at records m found (p, h) shown k =
      Shown-scan files fd stable ws (at + record_size w) _ (update m w.key w.value) found h
        (λ j. rw (RecordMap.get-put records w.key j (hint_at fd at w)) (put j)) k
    where
      put :
          (j : Key)
          → Shown files
              (if bytes_eq w.key j then some (hint_at fd at w) else RecordMap.get records j)
              (update m w.key w.value j)
      put j = elim (Bool-cases (bytes_eq w.key j)) [
        | inl e ↦ rw e (w.value, refl, record { stream = stable; found = found; in_file = p })
        | inr e ↦ rw e (shown j)
      ]

  -- The first n files are loaded, and stand for the map `m`.
  pub record IsLoaded (n : ℕ) (records : RecordMap hash) (files : StableFiles) (m : View)
      : Type 0 where
    pub count : length files ≡ n
    pub fresh : (fd : ℕ) → n ≤ fd → find_stable files fd ≡ none
    pub shown : (k : Key) → Shown files (RecordMap.get records k) (m k)

  pub IsLoaded-none : IsLoaded 0 RecordMap.empty [] empty_view
  unfolding find_stable
  IsLoaded-none = record {
    count = refl;
    fresh = λ fd h. refl;
    shown = λ k. rw (RecordMap.get-empty hash k) refl;
  }

  pub IsLoaded-next :
      (n : ℕ) (records : RecordMap hash) (files : StableFiles) (m : View) (ws : List Write)
      (s : Stream)
      → IsLoaded n records files m
      → s.content ≡ encode_all c (log_of ws)
      → length (encode_all c (log_of ws)) < 2 ^ 32
      → IsLoaded
          (suc n)
          (foldl (found_stable c n) records (founds c 0 (log_of ws)))
          (set_stable files n (record { file = some s }))
          (apply_writes m ws)
  IsLoaded-next n records files m ws s h bytes fits = record {
    count = length-set_stable_new files n _ (h.fresh n (omega arith)) ∙ ap suc h.count;
    fresh = λ fd more.
        find_stable-set_stable files n fd _
        ∙ rw (ne→== n fd (λ e. absurd (omega arith))) (h.fresh fd (omega arith));
    shown =
        Shown-scan _ n s ws 0 records m (find_stable-set_stable files n n _ ∙ rw (==_refl n) refl)
          (subst (λ t. AllIn t ws (hints_at n 0 ws)) (append-nil _ ∙ sym bytes)
            (hints_at-AllIn c n ws [] [] 0 refl (omega arith)))
          (λ k.
            Shown-set_stable files n _ (RecordMap.get records k) (m k) (h.fresh n (omega arith))
              (h.shown k));
  }
