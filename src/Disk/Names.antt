-- ===== src/Disk/Names.antt =====
-- The names of the first ten files: one digit and `.db`.
use memkvin_c.Base.{
  Bytes, ◌≡◌, ◌∙◌, refl, ap₂, false, ◌∷◌, ◌++◌, ℕ, zero, suc, ◌+◌, ◌<◌, ◌==◌, codes, bytes_eq,
  arith,
}
use memkvin_c.Disk.{has_slash}
use memkvin_c.Disk.Numbers.{to_string, stoul, number}

abbrev pub file_name : ℕ → Bytes
file_name i = to_string i ++ codes ".db"

-- A statement on the numbers below ten, one by one.
pub below_ten {ℓ} :
    (P : ℕ → Type ℓ)
    → P 0
    → P 1
    → P 2
    → P 3
    → P 4
    → P 5
    → P 6
    → P 7
    → P 8
    → P 9
    → (i : ℕ) → i < 10
    → P i
below_ten P p0 p1 p2 p3 p4 p5 p6 p7 p8 p9 zero h = p0
below_ten P p0 p1 p2 p3 p4 p5 p6 p7 p8 p9 (suc zero) h = p1
below_ten P p0 p1 p2 p3 p4 p5 p6 p7 p8 p9 (suc (suc zero)) h = p2
below_ten P p0 p1 p2 p3 p4 p5 p6 p7 p8 p9 (suc (suc (suc zero))) h = p3
below_ten P p0 p1 p2 p3 p4 p5 p6 p7 p8 p9 (suc (suc (suc (suc zero)))) h = p4
below_ten P p0 p1 p2 p3 p4 p5 p6 p7 p8 p9 (suc (suc (suc (suc (suc i))))) h =
    elim i as (λ k. suc (suc (suc (suc (suc k)))) < 10 → P (suc (suc (suc (suc (suc k)))))) [
      | zero ↦ λ _. p5
      | suc zero ↦ λ _. p6
      | suc (suc zero) ↦ λ _. p7
      | suc (suc (suc zero)) ↦ λ _. p8
      | suc (suc (suc (suc zero))) ↦ λ _. p9
      | suc (suc (suc (suc (suc k)))) ↦ λ big. absurd (omega arith)
    ]
      h

pub file_name-digit : (i : ℕ) → i < 10 → file_name i ≡ (48 + i) ∷ codes ".db"
unfolding to_string
file_name-digit =
    below_ten (λ i. file_name i ≡ (48 + i) ∷ codes ".db") refl refl refl refl refl refl refl refl
      refl refl

pub stoul-file_name : (i : ℕ) → i < 10 → stoul (file_name i) ≡ number i
unfolding stoul to_string
stoul-file_name =
    below_ten (λ i. stoul (file_name i) ≡ number i) refl refl refl refl refl refl refl refl refl
      refl

pub has_slash-file_name : (i : ℕ) → i < 10 → has_slash (file_name i) ≡ false
unfolding has_slash to_string
has_slash-file_name =
    below_ten (λ i. has_slash (file_name i) ≡ false) refl refl refl refl refl refl refl refl refl
      refl

pub bytes_eq-file_name :
    (i j : ℕ) → i < 10 → j < 10 → bytes_eq (file_name i) (file_name j) ≡ (i == j)
unfolding bytes_eq
bytes_eq-file_name i j hi hj =
    ap₂ bytes_eq (file_name-digit i hi) (file_name-digit j hj) ∙ ground arith
