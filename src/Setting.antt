-- ===== src/Setting.antt =====
-- src/Setting.cpp and include/bitcask/Setting.hpp. The compaction percentage is a double that the
-- program only stores: its type is a parameter.
pub mod Slash
use memkvin_c.Base.{Bytes, ℕ, [], ◌∷◌, ◌++◌, Bool, false, ◌==◌, if◌then◌else◌, b_slash}

-- Setting
pub record Setting (Percentage : Type 0) : Type 0 where
  pub db_path : Bytes
  pub max_file_size : ℕ
  pub dead_key_compaction_percentage : Percentage
  pub dead_key_compaction_size : ℕ

-- path.back() == '/'
abbrev pub ends_in_slash : Bytes → Bool
ends_in_slash [] = false
ends_in_slash (x ∷ []) = x == b_slash
ends_in_slash (x ∷ (y ∷ xs)) = ends_in_slash (y ∷ xs)

-- Internal::ensureEndingSlash
unfoldable pub ensure_ending_slash : Bytes → Bytes
ensure_ending_slash [] = []
ensure_ending_slash (x ∷ xs) = if ends_in_slash (x ∷ xs) then x ∷ xs else (x ∷ xs) ++ b_slash ∷ []

module _ {Percentage : Type 0} where
  -- Setting::Setting
  unfoldable pub make : Bytes → ℕ → Percentage → ℕ → Setting Percentage
  make db_path max_file_size percentage size = record {
    db_path = db_path;
    max_file_size = max_file_size;
    dead_key_compaction_percentage = percentage;
    dead_key_compaction_size = size;
  }

  -- GetDbPath
  unfoldable pub get_db_path : Setting Percentage → Bytes
  get_db_path s = s.db_path

  -- GetMaxFileSize
  unfoldable pub get_max_file_size : Setting Percentage → ℕ
  get_max_file_size s = s.max_file_size

  -- GetDeadKeyCompactionPercentage
  unfoldable pub get_dead_key_compaction_percentage : Setting Percentage → Percentage
  get_dead_key_compaction_percentage s = s.dead_key_compaction_percentage

  -- GetDeadKeyCompactionSize
  unfoldable pub get_dead_key_compaction_size : Setting Percentage → ℕ
  get_dead_key_compaction_size s = s.dead_key_compaction_size

  -- SetDbPath
  unfoldable pub set_db_path : Setting Percentage → Bytes → Setting Percentage
  set_db_path s path = record s { db_path = ensure_ending_slash path }

  -- SetMaxFileSize
  unfoldable pub set_max_file_size : Setting Percentage → ℕ → Setting Percentage
  set_max_file_size s size = record s { max_file_size = size }

  -- SetDeadKeyCompactionPercentage
  unfoldable pub set_dead_key_compaction_percentage :
      Setting Percentage → Percentage → Setting Percentage
  set_dead_key_compaction_percentage s p = record s { dead_key_compaction_percentage = p }

  -- SetDeadKeyCompactionSize
  unfoldable pub set_dead_key_compaction_size : Setting Percentage → ℕ → Setting Percentage
  set_dead_key_compaction_size s size = record s { dead_key_compaction_size = size }
