-- ===== src/Bitcask/Handles.antt =====
-- The map of stable files of a database: its numbers in order, each with the bytes of its file.
use memkvin_c.Base.{
  ◌==◌, Bytes, ◌≡◌, ◌∙◌, none-ne, some_inj, Bool-cases, inl, inr, sym, refl, ap, subst, List, [],
  ◌∷◌, ◌++◌, append_assoc, append-nil, some, ℕ, suc, ◌+◌, ◌≤◌, ◌<◌, length, length-append, ne→==,
  arith,
}
use memkvin_c.Crc.{Crc32c}
use memkvin_c.Stream.{Stream}
use memkvin_c.Record.Kept.{file_of}
use memkvin_c.Record.Log.{encode_all}
use memkvin_c.StableFile.{StableFile}
use memkvin_c.Bitcask.Engine.{
  StableFiles, Write, find_stable, set_stable, insert_stable, insert_all,
}
use memkvin_c.Bitcask.Batch.{log_of}

module _ (c : Crc32c) (paths : ℕ → Bytes) where
  -- The handle of a stable file has its path and the records of its writes.
  pub record IsHandle (i : ℕ) (ws : List Write) (f : StableFile) : Type 0 where
    pub stream : Stream
    pub file : f.file ≡ some stream
    pub path : stream.path ≡ paths i
    pub content : stream.content ≡ encode_all c (log_of ws)

  -- The numbers go up by one from `a`.
  abbrev pub HoldsFrom : (ℕ → List Write) → ℕ → StableFiles → Type 0
  HoldsFrom writes a [] = Unit
  HoldsFrom writes a ((i, f) ∷ files) =
      (i ≡ a) × IsHandle i (writes a) f × HoldsFrom writes (suc a) files

  module _ (writes : ℕ → List Write) where
    pub HoldsFrom-append :
        (files more : StableFiles) (a b : ℕ)
        → a + length files ≡ b
        → HoldsFrom writes a files
        → HoldsFrom writes b more
        → HoldsFrom writes a (files ++ more)
    HoldsFrom-append [] more a b e h k =
        let same : b ≡ a = omega arith in subst (λ n. HoldsFrom writes n more) same k
    HoldsFrom-append ((i, f) ∷ files) more a b e (n, p, h) k =
        (n, p, HoldsFrom-append files more (suc a) b (omega arith) h k)

    pub HoldsFrom-congr :
        (other : ℕ → List Write) (b : ℕ) (files : StableFiles) (a : ℕ)
        → ((i : ℕ) → i < b → writes i ≡ other i)
        → a + length files ≤ b
        → HoldsFrom writes a files
        → HoldsFrom other a files
    HoldsFrom-congr other b [] a same le h = tt
    HoldsFrom-congr other b ((i, f) ∷ files) a same le (n, p, h) = (
      n,
      subst (λ ws. IsHandle i ws f) (same a (omega arith)) p,
      HoldsFrom-congr other b files (suc a) same (omega arith) h,
    )

    -- An entry with a higher number goes to the end.
    pub set_stable-last :
        (files : StableFiles) (a fd : ℕ) (f : StableFile)
        → HoldsFrom writes a files
        → a + length files ≤ fd
        → set_stable files fd f ≡ files ++ (fd, f) ∷ []
    unfolding set_stable
    set_stable-last [] a fd f h le = refl
    set_stable-last ((i, g) ∷ files) a fd f (n, p, h) le =
        rw (ne→== i fd (λ e. absurd (omega arith)))
          (ap (λ t. (i, g) ∷ t) (set_stable-last files (suc a) fd f h (omega arith)))

    insert_stable-last :
        (files : StableFiles) (a fd : ℕ) (f : StableFile)
        → HoldsFrom writes a files
        → a + length files ≤ fd
        → insert_stable files fd f ≡ files ++ (fd, f) ∷ []
    unfolding insert_stable
    insert_stable-last [] a fd f h le = refl
    insert_stable-last ((i, g) ∷ files) a fd f (n, p, h) le =
        rw (ne→== i fd (λ e. absurd (omega arith)))
          (ap (λ t. (i, g) ∷ t) (insert_stable-last files (suc a) fd f h (omega arith)))

    pub insert_all-last :
        (more files : StableFiles) (a b : ℕ)
        → a + length files ≡ b
        → HoldsFrom writes a files
        → HoldsFrom writes b more
        → insert_all files more ≡ files ++ more
    unfolding insert_all
    insert_all-last [] files a b e h k = sym (append-nil files)
    insert_all-last ((i, f) ∷ more) files a b e h (n, p, k) =
        ap (λ l. insert_all l more) (insert_stable-last files a i f h (omega arith))
        ∙ insert_all-last more (files ++ (i, f) ∷ []) a (suc b)
            (omega (arith, length-append files ((i, f) ∷ [])))
            (HoldsFrom-append files ((i, f) ∷ []) a b e h (n, p, tt)) k
        ∙ append_assoc files ((i, f) ∷ []) more

    -- A stream of a file that moved is as good.
    pub moved-HoldsFrom :
        (files : StableFiles) (a fd : ℕ) (s s' : Stream)
        → find_stable files fd ≡ some (record { file = some s })
        → file_of s' ≡ file_of s
        → HoldsFrom writes a files
        → HoldsFrom writes a (set_stable files fd (record { file = some s' }))
    unfolding find_stable set_stable
    moved-HoldsFrom [] a fd s s' found same h = absurd (none-ne found)
    moved-HoldsFrom ((i, f) ∷ files) a fd s s' found same (n, p, h) = elim (Bool-cases (i == fd)) [
      | inl e ↦ rw e (n, moved (rw e at found), h)
      | inr e ↦ rw e (n, p, moved-HoldsFrom files (suc a) fd s s' (rw e at found) same h)
    ]
      where
        moved :
            some f ≡ some (record { file = some s })
            → IsHandle i (writes a) (record { file = some s' })
        moved q =
            let same_stream : p.stream ≡ s =
              some_inj (sym p.file ∙ ap (λ t. t.file) (some_inj q)) in
            record {
              stream = s';
              file = refl;
              path = ap (λ t. t.0) same ∙ ap (λ t. t.path) (sym same_stream) ∙ p.path;
              content = ap (λ t. t.1) same ∙ ap (λ t. t.content) (sym same_stream) ∙ p.content;
            }

-- The paths are what they are at.
pub HoldsFrom-paths :
    (c : Crc32c) (p q : ℕ → Bytes) (writes : ℕ → List Write) (files : StableFiles) (a : ℕ)
    → ((i : ℕ) → p i ≡ q i)
    → HoldsFrom c p writes a files
    → HoldsFrom c q writes a files
HoldsFrom-paths c p q writes [] a same h = tt
HoldsFrom-paths c p q writes ((i, f) ∷ files) a same (n, k, h) = (
  n,
  record { stream = k.stream; file = k.file; path = k.path ∙ same i; content = k.content },
  HoldsFrom-paths c p q writes files (suc a) same h,
)
