-- ===== src/Examples/Loggers.antt =====
-- The logger's levels and texts.
use memkvin_c.Base.{◌≡◌, refl, false, [], ◌∷◌, ◌++◌, some, ℕ, ◌≤◌, codes, arith}
use memkvin_c.Logger.{
  Statics, allowed, enable, disable, stop_logging, level_info, level_warn, level_from_info,
  level_from_debug, log_impl,
}
use memkvin_c.Logger.Format.{format_msg}
use memkvin_c.Logger.Fill.{fill, format_msg-fill}
use memkvin_c.Logger.Macros.{info, warn, default_min, logger, logger_write}
use memkvin_c.Logger.Places.{braces, logger_write_placeless, stop_logging_silences}
use memkvin_c.Logger.Levels.{enable_grants_nothing, disable_lem}

abbrev all_levels : Statics ℕ
all_levels = record { out = 1; err = 2; allowed_levels = level_from_info }

-- A logger that was stopped stays silent.
enable_grants_nothing_example :
    allowed (enable (stop_logging all_levels) level_warn) level_warn ≡ false
unfolding allowed stop_logging
enable_grants_nothing_example =
    enable_grants_nothing (stop_logging all_levels) level_warn level_warn stopped
  where
    stopped : allowed (stop_logging all_levels) level_warn ≡ false
    stopped = refl

disable_lem_example :
    (allowed (disable all_levels level_warn) level_warn ≡ false)
    × (allowed (disable all_levels level_warn) level_info ≡ allowed all_levels level_info)
disable_lem_example = disable_lem all_levels level_warn level_info (omega arith) (omega arith) refl

format_msg-fill_example :
    format_msg (codes "INFO" ∷ (codes "{} of {}{}" ∷ (codes "{}" ∷ (codes "b" ∷ []))))
    ≡ some (codes "INFO" ++ codes "{} of b{}")
unfolding fill
format_msg-fill_example =
    format_msg-fill (codes "INFO") (codes "{} of {}{}") (codes "{}" ∷ (codes "b" ∷ []))

abbrev debugging : Statics ℕ
debugging = record { out = 1; err = 2; allowed_levels = level_from_debug }

-- Debug messages are let through, and yet the place of the call is not written.
logger_write_placeless_example :
    logger_write debugging info
      (codes "/src/ActiveFile.cpp")
      47
      (codes "restored: {}" ∷ (codes "0.db" ∷ []))
    ≡ some ((1, codes "INFO    :    " ++ codes "restored: 0.db") ∷ [])
unfolding allowed log_impl fill braces
logger_write_placeless_example =
    logger_write_placeless debugging info (codes "/src/ActiveFile.cpp") 47 (codes "restored: {}")
      (codes "0.db" ∷ []) one_brace
  where
    one_brace : braces (codes "restored: {}") ≤ 1
    one_brace = omega arith

stop_logging_silences_example :
    logger (stop_logging debugging) default_min warn (codes "Record.cpp") 62 (codes "lost" ∷ [])
    ≡ some []
stop_logging_silences_example =
    stop_logging_silences debugging default_min warn (codes "Record.cpp") 62 (codes "lost" ∷ [])
