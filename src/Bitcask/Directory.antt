-- ===== src/Bitcask/Directory.antt =====
-- A directory that holds the files 0.db to n.db, for an n below ten, whatever their bytes.
use mathlib.Core.List.{
  Perm, Mem, Nodup, Nodup-cons, Nodup-nil, mem-cons_self, mem-cons_of_mem, perm_append_singleton,
}
use mathlib.Core.List.Perm
use memkvin_c.Base.{
  Bytes, ◌≡◌, ◌∙◌, refl, ap, ap₂, sym, Bool, true, Bool-cases, inl, inr, List, [], ◌∷◌, ◌++◌, map,
  none, some, ℕ, zero, suc, ◌≤◌, ◌<◌, ◌==◌, ==→≡, ==_refl, ne→==, bytes_eq, bytes_eq-prefix,
  b_slash, if◌then◌else◌, arith,
}
use memkvin_c.Disk.{Disk, File, DirEntry, directory_entries, find_file, put_file}
use memkvin_c.Disk.Laws.{find_file-put_file}
use memkvin_c.Disk.Names.{file_name, bytes_eq-file_name, has_slash-file_name, file_name-digit}
use memkvin_c.Disk.Listing.{shape, directory_entries-put_file, directory_entries-new}
use memkvin_c.Bitcask.Engine.{db_file}
use memkvin_c.Bitcask.Numbers.{countdown, mem-countdown}
use memkvin_c.Bitcask.Listed.{entry}

pub bytes_eq-db_file :
    (db : Bytes) (i j : ℕ) → i < 10 → j < 10 → bytes_eq (db_file db i) (db_file db j) ≡ (i == j)
bytes_eq-db_file db i j hi hj =
    bytes_eq-prefix db (file_name i) (file_name j) ∙ bytes_eq-file_name i j hi hj

abbrev shape_at : Bytes → ℕ → Bytes × Bytes × Bool
shape_at db i = (file_name i, db_file db i, true)

-- The directory holds 0.db to n.db in some order, and no other file, and the path of no later one
-- is taken.
pub record IsListed (db : Bytes) (disk : Disk) (n : ℕ) : Type 0 where
  pub numbers : List ℕ
  pub order : Perm numbers (countdown (suc n))
  pub listed : map shape (directory_entries disk db) ≡ map (shape_at db) numbers
  pub free : (i : ℕ) → n < i → i < 10 → find_file disk.files (db_file db i) ≡ none

module _ (db : Bytes) (disk : Disk) (n : ℕ) (h : IsListed db disk n) where
  abbrev put_at : ℕ → Bytes → Disk
  put_at i content = record disk { files = put_file disk.files (db_file db i) content }

  pub find_file-db_file :
      (i j : ℕ) (content : Bytes)
      → i < 10
      → j < 10
      → find_file (put_at i content).files (db_file db j)
        ≡ (if i == j then some content else find_file disk.files (db_file db j))
  find_file-db_file i j content hi hj =
      find_file-put_file disk.files (db_file db i) (db_file db j) content
      ∙ ap (λ b. if b then some content else find_file disk.files (db_file db j))
          (bytes_eq-db_file db i j hi hj)

  -- A file that is there is written.
  pub put_at-IsListed :
      (i : ℕ) (content old : Bytes)
      → n < 10
      → i ≤ n
      → find_file disk.files (db_file db i) ≡ some old
      → IsListed db (put_at i content) n
  put_at-IsListed i content old small le there = record {
    numbers = h.numbers;
    order = h.order;
    listed = directory_entries-put_file disk db (db_file db i) content old there ∙ h.listed;
    free = λ j more few.
        find_file-db_file i j content (omega arith) few
        ∙ rw (ne→== i j (λ e. absurd (omega arith))) (h.free j more few);
  }

  -- The next file is made.
  pub put_next-IsListed :
      (dir content : Bytes)
      → db ≡ dir ++ b_slash ∷ []
      → suc n < 10
      → IsListed db (put_at (suc n) content) (suc n)
  unfolding bytes_eq
  put_next-IsListed dir content ending small = record {
    numbers = h.numbers ++ suc n ∷ [];
    order = Perm.trans (perm_append_singleton (suc n) h.numbers) (Perm.cons (suc n) h.order);
    listed =
        directory_entries-new disk db dir (file_name (suc n)) content ending
          (has_slash-file_name (suc n) small)
          (ap (λ t. bytes_eq t []) (file_name-digit (suc n) small))
          (h.free (suc n) (omega arith) small)
        ∙ ap (λ t. t ++ shape_at db (suc n) ∷ []) h.listed
        ∙ sym (map_snoc (shape_at db) h.numbers (suc n));
    free = λ j more few.
        find_file-db_file (suc n) j content small few
        ∙ rw (ne→== (suc n) j (λ e. absurd (omega arith))) (h.free j (omega arith) few);
  }
    where
      map_snoc :
          (f : ℕ → Bytes × Bytes × Bool) (l : List ℕ) (a : ℕ)
          → map f (l ++ a ∷ []) ≡ map f l ++ f a ∷ []
      map_snoc f [] a = refl
      map_snoc f (b ∷ l) a = ap (λ t. f b ∷ t) (map_snoc f l a)

countdown-Nodup : (n : ℕ) → Nodup (countdown n)
countdown-Nodup zero = Nodup-nil
countdown-Nodup (suc n) =
    Nodup-cons.1 ((λ m. absurd (omega (arith, mem-countdown n n m))), countdown-Nodup n)

-- The files by their numbers, from a listing that names each once.
module _ (db : Bytes) where
  pub record ByNumber (l : List DirEntry) (ns : List ℕ) : Type 0 where
    pub files : ℕ → File
    pub regular : (i : ℕ) → (files i).regular ≡ true
    pub path : (i : ℕ) → (files i).path ≡ db_file db i
    pub listed : l ≡ map (entry files regular) ns

  Named : (ℕ → File) → ℕ → DirEntry
  Named files i = record { name = file_name i; file = files i }

  with_file : (ℕ → File) → ℕ → File → ℕ → File
  with_file files n f i = if n == i then f else files i

  map-with_file :
      (files : ℕ → File) (n : ℕ) (f : File) (ns : List ℕ)
      → ¬ Mem n ns
      → map (Named files) ns ≡ map (Named (with_file files n f)) ns
  unfolding Named with_file
  map-with_file files n f [] h = refl
  map-with_file files n f (i ∷ ns) h =
      ap₂ (λ a l. a ∷ l)
        (ap (λ t. record { name = file_name i; file = t })
          (sym (rw (ne→== n i (λ e. h (rw e mem-cons_self))) refl)))
        (map-with_file files n f ns (λ m. h (mem-cons_of_mem i m)))

  with_file-ByNumber :
      (a : DirEntry) (n : ℕ) (l : List DirEntry) (ns : List ℕ)
      → ¬ Mem n ns
      → shape a ≡ shape_at db n
      → ByNumber l ns
      → ByNumber (a ∷ l) (n ∷ ns)
  unfolding Named with_file
  with_file-ByNumber a n l ns new h rest = record {
    files = with_file rest.files n a.file;
    regular = λ i. elim (Bool-cases (n == i)) [
      | inl e ↦ rw e (ap (λ t. t.2) h)
      | inr e ↦ rw e (rest.regular i)
    ];
    path = λ i. elim (Bool-cases (n == i)) [
      | inl e ↦ rw e (ap (λ t. t.1) h ∙ ap (db_file db) (==→≡ n i e))
      | inr e ↦ rw e (rest.path i)
    ];
    listed =
        ap₂ (λ b t. b ∷ t)
          (ap₂ (λ t f. record { name = t; file = f }) (ap (λ t. t.0) h) (sym (rw (==_refl n) refl)))
          (rest.listed ∙ map-with_file rest.files n a.file ns new);
  }

  by_number :
      (l : List DirEntry) (ns : List ℕ)
      → Nodup ns
      → map shape l ≡ map (shape_at db) ns
      → ByNumber l ns
  by_number [] [] distinct h = record {
    files = λ i. record { path = db_file db i; content = []; regular = true };
    regular = λ i. refl;
    path = λ i. refl;
    listed = refl;
  }
  by_number [] (n ∷ ns) distinct h = absurd (cc h)
  by_number (a ∷ l) [] distinct h = absurd (cc h)
  by_number (a ∷ l) (n ∷ ns) distinct h =
      let (new, distinct') = Nodup-cons.0 distinct in
      with_file-ByNumber a n l ns new (cc h) (by_number l ns distinct' (cc h))

  pub IsListed-ByNumber :
      (disk : Disk) (n : ℕ) (h : IsListed db disk n)
      → ByNumber (directory_entries disk db) h.numbers
  IsListed-ByNumber disk n h =
      by_number (directory_entries disk db) h.numbers
        (Perm.nodup (Perm.symm h.order) (countdown-Nodup (suc n))) h.listed
