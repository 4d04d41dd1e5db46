-- ===== src/Bitcask/Foreign.antt =====
-- Files in the directory of a database whose names are no numbers: what the constructor does with them.
use memkvin_c.Base.{
  Bytes, ◌≡◌, ◌∙◌, refl, subst, ap, sym, Bool, true, false, not, ◌&&◌, ◌||◌, Bool-cases, inl, inr,
  List, [], ◌∷◌, Option, none, some, ℕ, ◌<◌, ◌^◌, length, bytes_eq,
}
use memkvin_c.Crc.{Crc32c}
use memkvin_c.HashMap.{HashMap}
use memkvin_c.RecordMap
use memkvin_c.RecordMap.{RecordMap}
use memkvin_c.ActiveMap
use memkvin_c.Setting.{Setting, get_db_path}
use memkvin_c.Disk.{Disk, DirEntry, directory_entries, filename, find_file}
use memkvin_c.Disk.Numbers.{Stoul, number, invalid_argument, out_of_range, stoul}
use memkvin_c.Bitcask.Engine.{StableFiles}
use memkvin_c.Bitcask.Ends.{restore_entry_ends, restore_active_map_ends}
use memkvin_c.Bitcask.Restore.{
  Outcome, done, throws, diverges, bytes_lt, insert_entry, sort_entries, stable_entries,
  restore_entry, restore_entries, restore_stable_map, get_active_path_in_dir, started, start, make,
}

-- std::stoul throws.
abbrev pub no_number : Stoul → Bool
no_number (number _) = false
no_number invalid_argument = true
no_number out_of_range = true

unfoldable pub any_foreign : List DirEntry → Bool
any_foreign [] = false
any_foreign (entry ∷ entries) = no_number (stoul entry.name) || any_foreign entries

-- A regular file other than the active one has a name that is no number.
unfoldable pub has_foreign : Bytes → List DirEntry → Bool
has_foreign active_name [] = false
has_foreign active_name (entry ∷ entries) =
    (not (not entry.file.regular || bytes_eq entry.name active_name)
      && no_number (stoul entry.name))
    || has_foreign active_name entries

or_swap : (a b d : Bool) → a || (b || d) ≡ b || (a || d)
or_swap true true d = refl
or_swap true false d = refl
or_swap false true d = refl
or_swap false false d = refl

any_foreign-insert :
    (a : DirEntry) (l : List DirEntry)
    → any_foreign (insert_entry a l) ≡ no_number (stoul a.name) || any_foreign l
unfolding any_foreign insert_entry
any_foreign-insert a [] = refl
any_foreign-insert a (b ∷ l) = elim (Bool-cases (bytes_lt b.name a.name)) [
  | inl e ↦ rw e (
      ap (λ t. no_number (stoul b.name) || t) (any_foreign-insert a l)
      ∙ or_swap (no_number (stoul b.name)) (no_number (stoul a.name)) (any_foreign l))
  | inr e ↦ rw e refl
]

any_foreign-sort : (l : List DirEntry) → any_foreign (sort_entries l) ≡ any_foreign l
unfolding any_foreign sort_entries
any_foreign-sort [] = refl
any_foreign-sort (a ∷ l) =
    any_foreign-insert a (sort_entries l)
    ∙ ap (λ t. no_number (stoul a.name) || t) (any_foreign-sort l)

any_foreign-stable :
    (name : Bytes) (l : List DirEntry) → any_foreign (stable_entries name l) ≡ has_foreign name l
unfolding any_foreign has_foreign stable_entries
any_foreign-stable name [] = refl
any_foreign-stable name (a ∷ l) = elim (Bool-cases (not a.file.regular || bytes_eq a.name name)) [
  | inl e ↦ rw e (any_foreign-stable name l)
  | inr e ↦ rw e (ap (λ t. no_number (stoul a.name) || t) (any_foreign-stable name l))
]

-- A result where the test is false, an exception where it is true, and no loop without end.
abbrev pub Tells {ℓ} : {A : Type ℓ} → Outcome A → Bool → Type 0
Tells (done _) b = b ≡ false
Tells (throws _) b = b ≡ true
Tells diverges b = ⊥

-- One round, whatever std::stoul gives.
abbrev round : {S : Type 0} → (ℕ → Option S) → (S → Outcome S) → Stoul → Outcome S
round scan next (number n) = elim (scan n) [ none ↦ diverges | some state ↦ next state ]
round scan next invalid_argument = throws invalid_argument
round scan next out_of_range = throws out_of_range

scanned-Tells :
    {S : Type 0} (next : S → Outcome S) (rest : Bool) (q : Option S) (s : S)
    → q ≡ some s
    → ((s : S) → Tells (next s) rest)
    → Tells (elim q as (λ _. Outcome S) [ none ↦ diverges | some state ↦ next state ]) rest
scanned-Tells next rest none s e h = absurd (cc e)
scanned-Tells next rest (some s') s e h = h s'

round-Tells :
    {S : Type 0} (scan : ℕ → Option S) (next : S → Outcome S) (rest : Bool) (o : Stoul)
    → ((n : ℕ) → (s : S) × (scan n ≡ some s))
    → ((s : S) → Tells (next s) rest)
    → Tells (round scan next o) (no_number o || rest)
round-Tells scan next rest (number n) ends h =
    let (s, e) = ends n in scanned-Tells next rest (scan n) s e h
round-Tells scan next rest invalid_argument ends h = refl
round-Tells scan next rest out_of_range ends h = refl

module _ (c : Crc32c) (hash : HashMap) (disk : Disk)
    (sizes : (path content : Bytes)
      → find_file disk.files path ≡ some content
      → length content < 2 ^ 32) where
  abbrev State : Type 0
  State = RecordMap hash × StableFiles

  restore_entries-round :
      (a : DirEntry) (l : List DirEntry) (state : State)
      → restore_entries c disk (a ∷ l) state
        ≡ round (λ n. restore_entry c disk a n state) (restore_entries c disk l) (stoul a.name)
  unfolding restore_entries
  restore_entries-round a l state = same (stoul a.name)
    where
      same :
          (o : Stoul)
          → elim o as (λ _. Outcome State) [
            | number n ↦ elim (restore_entry c disk a n state) [
              | none ↦ diverges
              | some state' ↦ restore_entries c disk l state'
            ]
            | other ↦ throws other
          ]
            ≡ round (λ n. restore_entry c disk a n state) (restore_entries c disk l) o
      same (number n) = refl
      same invalid_argument = refl
      same out_of_range = refl

  restore_entries-Tells :
      (l : List DirEntry) (state : State) → Tells (restore_entries c disk l state) (any_foreign l)
  unfolding any_foreign restore_entries
  restore_entries-Tells [] state = refl
  restore_entries-Tells (a ∷ l) state =
      subst (λ o. Tells o (any_foreign (a ∷ l))) (sym (restore_entries-round a l state))
        (round-Tells _ _ (any_foreign l) (stoul a.name)
          (restore_entry_ends c hash disk sizes a state) (restore_entries-Tells l))

  module _ (setting : Setting ℕ) where
    start-Tells : (o : Outcome State) (b : Bool) → Tells o b → Tells (start c setting disk o) b
    unfolding start started
    start-Tells (done (records, files)) b h =
        let (r, p) =
          restore_active_map_ends c hash disk sizes (get_db_path setting)
            (record { records = records; active = ActiveMap.empty }) in
        subst (λ o. Tells (started c setting files o) b) (sym p) h
    start-Tells (throws x) b h = h
    start-Tells diverges b h = h

    abbrev name : Bytes
    name = filename (get_active_path_in_dir disk (get_db_path setting))

    abbrev listed : List DirEntry
    listed = directory_entries disk (get_db_path setting)

    -- Where every file on the disk is below 2^32 bytes, whatever its bytes are, the constructor
    -- ends: with an exception of std::stoul where the directory has a regular file, other than
    -- the active one, whose name is no number, and with an engine where it has none.
    pub make-Tells : Tells (make c {hash = hash} setting disk) (has_foreign name listed)
    unfolding make restore_stable_map
    make-Tells =
        subst (Tells (make c {hash = hash} setting disk))
          (any_foreign-sort (stable_entries name listed) ∙ any_foreign-stable name listed)
          (start-Tells _ _ (
            restore_entries-Tells (sort_entries (stable_entries name listed))
              (RecordMap.empty, [])))
