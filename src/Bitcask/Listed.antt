-- ===== src/Bitcask/Listed.antt =====
-- What the constructor makes of the list of the directory's files, in whatever order it comes, where the
-- files are 0.db to n.db for an n below ten.
use mathlib.Core.List.{foldr, Perm}
use memkvin_c.Base.{
  ◌≡◌, ◌∙◌, refl, ap, ap₂, Bool-cases, inl, inr, true, List, [], ◌∷◌, map, ℕ, suc, ◌<◌, ◌==◌, ltb,
  arith,
}
use memkvin_c.Disk.{DirEntry, File}
use memkvin_c.Disk.Names.{file_name, file_name-digit, stoul-file_name, bytes_eq-file_name}
use memkvin_c.Bitcask.Numbers.{
  countdown, upto, larger, insert_number, insert_stable_number, count_number, AllBelow,
  AllBelow-sorted, AllBelow-perm, foldr-larger, foldr-count_number, foldr-insert_number,
}
use memkvin_c.Bitcask.Restore.{
  max_fd, larger_fd, count_stable, stable_entries, sort_entries, insert_entry, bytes_lt,
}

bytes_lt-file_name : (i j : ℕ) → i < 10 → j < 10 → bytes_lt (file_name i) (file_name j) ≡ ltb i j
unfolding bytes_lt
bytes_lt-file_name i j hi hj =
    ap₂ bytes_lt (file_name-digit i hi) (file_name-digit j hj) ∙ ground arith

larger_fd-digit : (i m : ℕ) → i < 10 → larger_fd i m ≡ larger i m
larger_fd-digit i m h = ground arith

larger_assoc : (a i m : ℕ) → larger a (larger i m) ≡ larger (larger i a) m
larger_assoc a i m = ground arith

module _ (files : ℕ → File) (regular : (i : ℕ) → (files i).regular ≡ true) where
  abbrev pub entry : ℕ → DirEntry
  entry i = record { name = file_name i; file = files i }

  max_fd-listed :
      (ns : List ℕ) (m : ℕ)
      → m < 10
      → AllBelow 10 ns
      → max_fd m (map entry ns) ≡ larger (foldr larger 0 ns) m
  unfolding max_fd
  max_fd-listed [] m hm h = ground arith
  max_fd-listed (i ∷ ns) m hm (h, hs) =
      rw (regular i, stoul-file_name i h)
        (ap (λ k. max_fd k (map entry ns)) (larger_fd-digit i m h)
          ∙ max_fd-listed ns (larger i m) (ground arith) hs
          ∙ larger_assoc (foldr larger 0 ns) i m)

  count_stable-listed :
      (n : ℕ) (ns : List ℕ)
      → n < 10
      → AllBelow 10 ns
      → count_stable (file_name n) (map entry ns) ≡ foldr (count_number n) 0 ns
  unfolding count_stable
  count_stable-listed n [] hn h = refl
  count_stable-listed n (i ∷ ns) hn (h, hs) = elim (Bool-cases (i == n)) [
    | inl e ↦ rw (regular i, bytes_eq-file_name i n h hn, e) (count_stable-listed n ns hn hs)
    | inr e ↦
        rw (regular i, bytes_eq-file_name i n h hn, e, stoul-file_name i h)
          (ap suc (count_stable-listed n ns hn hs))
  ]

  insert_entry-listed :
      (a : ℕ) (l : List ℕ)
      → a < 10
      → AllBelow 10 l
      → insert_entry (entry a) (map entry l) ≡ map entry (insert_number a l)
  unfolding insert_entry
  insert_entry-listed a [] h hl = refl
  insert_entry-listed a (b ∷ l) h (hb, hl) = elim (Bool-cases (ltb b a)) [
    | inl e ↦
        rw (bytes_lt-file_name b a hb h, e) (ap (λ t. entry b ∷ t) (insert_entry-listed a l h hl))
    | inr e ↦ rw (bytes_lt-file_name b a hb h, e) refl
  ]

  sort_entries-listed :
      (n : ℕ) (ns : List ℕ)
      → n < 10
      → AllBelow 10 ns
      → sort_entries (stable_entries (file_name n) (map entry ns))
        ≡ map entry (foldr (insert_stable_number n) [] ns)
  unfolding sort_entries stable_entries
  sort_entries-listed n [] hn h = refl
  sort_entries-listed n (i ∷ ns) hn (h, hs) = elim (Bool-cases (i == n)) [
    | inl e ↦ rw (regular i, bytes_eq-file_name i n h hn, e) (sort_entries-listed n ns hn hs)
    | inr e ↦
        simp (regular i, bytes_eq-file_name i n h hn, e)
          (ap (insert_entry (entry i)) (sort_entries-listed n ns hn hs)
            ∙ insert_entry-listed i _ h (AllBelow-sorted 10 n ns hs))
  ]

  -- The directory that holds 0.db to n.db, listed in any order.
  module _ (n : ℕ) (small : n < 10) {ns : List ℕ} (p : Perm ns (countdown (suc n))) where
    below : AllBelow 10 ns
    below = AllBelow-perm 10 n ns small p

    pub max_fd-all : max_fd 0 (map entry ns) ≡ n
    max_fd-all =
        max_fd-listed ns 0 (omega arith) below
        ∙ ap (λ k. larger k 0) (foldr-larger n p)
        ∙ larger_zero n
      where
        larger_zero : (k : ℕ) → larger k 0 ≡ k
        larger_zero k = ground arith

    pub count_stable-all : count_stable (file_name n) (map entry ns) ≡ n
    count_stable-all = count_stable-listed n ns small below ∙ foldr-count_number n p

    pub sort_entries-all :
        sort_entries (stable_entries (file_name n) (map entry ns)) ≡ map entry (upto n)
    sort_entries-all =
        sort_entries-listed n ns small below ∙ ap (map entry) (foldr-insert_number n p)
