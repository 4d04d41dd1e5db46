-- ===== src/Bitcask/Numbers.antt =====
-- Folds over the numbers from 0 to n that do not depend on their order.
use mathlib.Core.Logic.Or
use native.Mathlib.Bridge.{le_prop}
use mathlib.Core.List.{foldr, Perm, Mem, mem-cons, not-mem-nil, mem-cons_self, mem-cons_of_mem}
use mathlib.Core.List
use mathlib.Core.List.Perm
use native.Mathlib.Nat.{ℕ_set}
use memkvin_c.Base.{
  ◌≡◌, ◌∙◌, refl, ap, Bool-cases, inl, inr, List, [], ◌∷◌, ◌++◌, ℕ, zero, suc, ◌<◌, ◌≤◌, ◌==◌, ltb,
  lt→ltb, ne→==, ==_refl, if◌then◌else◌, arith,
}

abbrev pub countdown : ℕ → List ℕ
countdown zero = []
countdown (suc n) = n ∷ countdown n

abbrev pub upto : ℕ → List ℕ
upto zero = []
upto (suc n) = upto n ++ n ∷ []

abbrev pub larger : ℕ → ℕ → ℕ
larger i m = if ltb m i then i else m

abbrev pub insert_number : ℕ → List ℕ → List ℕ
insert_number a [] = a ∷ []
insert_number a (b ∷ l) = if ltb b a then b ∷ insert_number a l else a ∷ (b ∷ l)

-- A number that is the active one is passed over.
abbrev pub insert_stable_number : ℕ → ℕ → List ℕ → List ℕ
insert_stable_number n i l = if i == n then l else insert_number i l

abbrev pub count_number : ℕ → ℕ → ℕ → ℕ
count_number n i k = if i == n then k else suc k

pub larger_comm : (a b m : ℕ) → larger a (larger b m) ≡ larger b (larger a m)
larger_comm a b m = ground arith

pub count_comm :
    (n a b k : ℕ) → count_number n a (count_number n b k) ≡ count_number n b (count_number n a k)
count_comm n a b k = ground arith

insert_comm :
    (a b : ℕ) (l : List ℕ)
    → insert_number a (insert_number b l) ≡ insert_number b (insert_number a l)
insert_comm a b [] = ground arith
insert_comm a b (c ∷ l) = ground (arith, insert_comm a b l)

pub insert_stable_comm :
    (n a b : ℕ) (l : List ℕ)
    → insert_stable_number n a (insert_stable_number n b l)
      ≡ insert_stable_number n b (insert_stable_number n a l)
insert_stable_comm n a b l = ground (arith, insert_comm a b l)

-- All numbers of a list are below a bound.
abbrev pub AllBelow : ℕ → List ℕ → Type 0
AllBelow k [] = Unit
AllBelow k (i ∷ l) = (i < k) × AllBelow k l

AllBelow-insert : (k a : ℕ) (l : List ℕ) → a < k → AllBelow k l → AllBelow k (insert_number a l)
AllBelow-insert k a [] h hl = (h, tt)
AllBelow-insert k a (b ∷ l) h (hb, hl) = elim (Bool-cases (ltb b a)) [
  | inl e ↦ rw e (hb, AllBelow-insert k a l h hl)
  | inr e ↦ rw e (h, (hb, hl))
]

pub AllBelow-sorted :
    (k n : ℕ) (ns : List ℕ) → AllBelow k ns → AllBelow k (foldr (insert_stable_number n) [] ns)
AllBelow-sorted k n [] h = tt
AllBelow-sorted k n (i ∷ ns) (h, hs) = elim (Bool-cases (i == n)) [
  | inl e ↦ rw e (AllBelow-sorted k n ns hs)
  | inr e ↦ rw e (AllBelow-insert k i _ h (AllBelow-sorted k n ns hs))
]

foldr-larger_bounded : (k : ℕ) → foldr larger 0 (countdown k) ≤ k
foldr-larger_bounded zero = omega arith
foldr-larger_bounded (suc k) = ground (arith, foldr-larger_bounded k)

foldr_count : (n k : ℕ) → k ≤ n → foldr (count_number n) 0 (countdown k) ≡ k
foldr_count n zero h = refl
foldr_count n (suc k) h =
    rw (ne→== k n (λ e. absurd (omega arith))) (ap suc (foldr_count n k (omega arith)))

AllBelow-weaken : (k m : ℕ) (l : List ℕ) → k ≤ m → AllBelow k l → AllBelow m l
AllBelow-weaken k m [] h hl = tt
AllBelow-weaken k m (a ∷ l) h (ha, hl) = (omega arith, AllBelow-weaken k m l h hl)

AllBelow-append : (k : ℕ) (l r : List ℕ) → AllBelow k l → AllBelow k r → AllBelow k (l ++ r)
AllBelow-append k [] r hl hr = hr
AllBelow-append k (a ∷ l) r (ha, hl) hr = (ha, AllBelow-append k l r hl hr)

AllBelow-upto : (k : ℕ) → AllBelow k (upto k)
AllBelow-upto zero = tt
AllBelow-upto (suc k) =
    AllBelow-append (suc k) (upto k) (k ∷ [])
      (AllBelow-weaken k (suc k) (upto k) (omega arith) (AllBelow-upto k)) (omega arith, tt)

insert_last : (k : ℕ) (l : List ℕ) → AllBelow k l → insert_number k l ≡ l ++ k ∷ []
insert_last k [] h = refl
insert_last k (a ∷ l) (ha, hl) = rw (lt→ltb a k ha) (ap (λ t. a ∷ t) (insert_last k l hl))

foldr_insert : (n k : ℕ) → k ≤ n → foldr (insert_stable_number n) [] (countdown k) ≡ upto k
foldr_insert n zero h = refl
foldr_insert n (suc k) h = rw (ne→== k n (λ e. absurd (omega arith))) (
    ap (insert_number k) (foldr_insert n k (omega arith))
    ∙ insert_last k (upto k) (AllBelow-upto k))

pub mem-countdown : (i k : ℕ) → Mem i (countdown k) → i < k
mem-countdown i zero m = absurd (not-mem-nil m)
mem-countdown i (suc k) m =
    Or.elim le_prop (mem-cons.0 m) (λ e. omega arith) (λ m'. omega (arith, mem-countdown i k m'))

AllBelow-of_mem : (k : ℕ) (ns : List ℕ) → ((i : ℕ) → Mem i ns → i < k) → AllBelow k ns
AllBelow-of_mem k [] h = tt
AllBelow-of_mem k (i ∷ ns) h =
    (h i mem-cons_self, AllBelow-of_mem k ns (λ j m. h j (mem-cons_of_mem i m)))

pub AllBelow-perm : (k n : ℕ) (ns : List ℕ) → n < k → Perm ns (countdown (suc n)) → AllBelow k ns
AllBelow-perm k n ns h p =
    AllBelow-of_mem k ns (λ i m. omega (arith, mem-countdown i (suc n) ((Perm.mem_iff p).0 m)))

-- Any order of the numbers from 0 to n gives the same.
module _ (n : ℕ) {ns : List ℕ} (p : Perm ns (countdown (suc n))) where
  pub foldr-larger : foldr larger 0 ns ≡ n
  foldr-larger =
      Perm.foldr-eq ℕ_set larger larger_comm p 0
      ∙ last (foldr larger 0 (countdown n)) (foldr-larger_bounded n)
    where
      last : (m : ℕ) → m ≤ n → larger n m ≡ n
      last m h = ground arith

  pub foldr-count_number : foldr (count_number n) 0 ns ≡ n
  foldr-count_number =
      Perm.foldr-eq ℕ_set (count_number n) (count_comm n) p 0
      ∙ rw (==_refl n) (foldr_count n n (omega arith))

  pub foldr-insert_number : foldr (insert_stable_number n) [] ns ≡ upto n
  foldr-insert_number =
      Perm.foldr-eq (List.is_set ℕ_set) (insert_stable_number n) (insert_stable_comm n) p []
      ∙ rw (==_refl n) (foldr_insert n n (omega arith))
