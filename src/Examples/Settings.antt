-- ===== src/Examples/Settings.antt =====
-- Paths of a database.
use memkvin_c.Base.{◌≡◌, ◌⊎◌, ◌∷◌, [], ◌++◌, b_slash, codes}
use memkvin_c.Setting.{get_db_path, set_db_path}
use memkvin_c.Setting.Slash.{IsDirectory, set_db_path_lem}
use memkvin_c.Examples.Params.{small_files}

set_db_path_lem_example :
    (IsDirectory (codes "tmp/")
      × (get_db_path (set_db_path small_files (codes "tmp/")) ≡ codes "tmp/"))
    ⊎ ((¬ IsDirectory (codes "tmp/"))
        × (get_db_path (set_db_path small_files (codes "tmp/")) ≡ codes "tmp/" ++ b_slash ∷ []))
set_db_path_lem_example = set_db_path_lem small_files (codes "tmp/")
