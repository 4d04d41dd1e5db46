-- ===== src/Setting/Slash.antt =====
-- src/Setting.cpp: the path that SetDbPath leaves.
use memkvin_c.Base.{
  Bytes, ◌≡◌, ◌∙◌, sym, false, ℕ, ◌⊎◌, inl, inr, ap, refl, true, Bool-cases, ==_iff, [], ◌∷◌, ◌++◌,
  b_slash,
}
use memkvin_c.Setting.{Setting, ends_in_slash, ensure_ending_slash, get_db_path, set_db_path}

directory :
    (path : Bytes) → ends_in_slash path ≡ true → (dir : Bytes) × (path ≡ dir ++ b_slash ∷ [])
directory [] h = absurd (cc h)
directory (x ∷ []) h = ([], ap (λ t. t ∷ []) ((==_iff x b_slash).0 h))
directory (x ∷ (y ∷ path)) h = let (dir, p) = directory (y ∷ path) h in (x ∷ dir, ap (λ t. x ∷ t) p)

ends_in_slash-append : (dir : Bytes) → ends_in_slash (dir ++ b_slash ∷ []) ≡ true
ends_in_slash-append [] = refl
ends_in_slash-append (x ∷ []) = refl
ends_in_slash-append (x ∷ (y ∷ dir)) = ends_in_slash-append (y ∷ dir)

-- The path is empty, or its last byte is a slash.
abbrev pub IsDirectory : Bytes → Type 0
IsDirectory path = (path ≡ []) ⊎ ((dir : Bytes) × (path ≡ dir ++ b_slash ∷ []))

not-IsDirectory :
    (x : ℕ) (path : Bytes) → ends_in_slash (x ∷ path) ≡ false → ¬ IsDirectory (x ∷ path)
not-IsDirectory x path lacks (inl e) = cc e
not-IsDirectory x path lacks (inr (dir, e)) =
    cc (sym lacks ∙ (ap ends_in_slash e ∙ ends_in_slash-append dir))

-- SetDbPath leaves a path as it is where it is empty or its last byte is a slash, and puts a
-- slash behind it where it is neither.
pub set_db_path_lem :
    {Percentage : Type 0} (s : Setting Percentage) (path : Bytes)
    → (IsDirectory path × (get_db_path (set_db_path s path) ≡ path))
      ⊎ ((¬ IsDirectory path) × (get_db_path (set_db_path s path) ≡ path ++ b_slash ∷ []))
unfolding get_db_path set_db_path ensure_ending_slash
set_db_path_lem s [] = inl (inl refl, refl)
set_db_path_lem s (x ∷ path) = elim (Bool-cases (ends_in_slash (x ∷ path))) [
  | inl slash ↦ inl (inr (directory (x ∷ path) slash), rw slash refl)
  | inr lacks ↦ inr (not-IsDirectory x path lacks, rw lacks refl)
]
