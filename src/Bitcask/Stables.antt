-- ===== src/Bitcask/Stables.antt =====
-- The map of stable files: what is found after an entry was set or inserted.
use memkvin_c.Base.{◌≡◌, refl, [], ◌∷◌, none, some, ℕ, suc, length, ◌==◌, if◌then◌else◌, arith}
use memkvin_c.StableFile.{StableFile}
use memkvin_c.Bitcask.Engine.{StableFiles, find_stable, set_stable, insert_stable}

pub find_stable-set_stable :
    (files : StableFiles) (fd j : ℕ) (f : StableFile)
    → find_stable (set_stable files fd f) j ≡ (if fd == j then some f else find_stable files j)
unfolding find_stable set_stable
find_stable-set_stable [] fd j f = refl
find_stable-set_stable ((i, g) ∷ files) fd j f = ground (arith, find_stable-set_stable files fd j f)

pub length-set_stable :
    (files : StableFiles) (fd : ℕ) (g f : StableFile)
    → find_stable files fd ≡ some g
    → length (set_stable files fd f) ≡ length files
unfolding find_stable set_stable
length-set_stable [] fd g' f h = cc
length-set_stable ((i, g) ∷ files) fd g' f h = ground (arith, length-set_stable files fd g' f)

pub find_stable-insert_stable :
    (files : StableFiles) (fd j : ℕ) (f : StableFile)
    → find_stable files fd ≡ none
    → find_stable (insert_stable files fd f) j ≡ (if fd == j then some f else find_stable files j)
unfolding find_stable insert_stable
find_stable-insert_stable [] fd j f h = refl
find_stable-insert_stable ((i, g) ∷ files) fd j f h =
    ground (arith, find_stable-insert_stable files fd j f)

pub length-insert_stable :
    (files : StableFiles) (fd : ℕ) (f : StableFile)
    → find_stable files fd ≡ none
    → length (insert_stable files fd f) ≡ suc (length files)
unfolding find_stable insert_stable
length-insert_stable [] fd f h = refl
length-insert_stable ((i, g) ∷ files) fd f h = ground (arith, length-insert_stable files fd f)

pub length-set_stable_new :
    (files : StableFiles) (fd : ℕ) (f : StableFile)
    → find_stable files fd ≡ none
    → length (set_stable files fd f) ≡ suc (length files)
unfolding find_stable set_stable
length-set_stable_new [] fd f h = refl
length-set_stable_new ((i, g) ∷ files) fd f h = ground (arith, length-set_stable_new files fd f)
