-- ===== src/Logger.antt =====
-- src/Logger.cpp and include/bitcask/Logger.hpp: the levels that are let through, and where a message goes.
pub mod Format
pub mod Levels
pub mod Fill
pub mod Macros
pub mod Places
use Prim.Native.Nat.{bit_and, bit_or}
use memkvin_c.Base.{Bytes, Bool, true, false, not, Option, none, some, ℕ, ◌-◌, ◌==◌, if◌then◌else◌}

-- LogLevel and LogLevels: uint8_t
abbrev pub Level : Type 0
Level = ℕ

abbrev pub level_silence : Level
level_silence = 0

abbrev pub level_info : Level
level_info = 1

abbrev pub level_warn : Level
level_warn = 2

abbrev pub level_error : Level
level_error = 4

abbrev pub level_fatal : Level
level_fatal = 8

abbrev pub level_debug : Level
level_debug = 16

abbrev pub level_verbose : Level
level_verbose = 32

abbrev pub level_from_error : Level
level_from_error = bit_or level_error level_fatal

abbrev pub level_from_warn : Level
level_from_warn = bit_or level_warn level_from_error

abbrev pub level_from_info : Level
level_from_info = bit_or level_info level_from_warn

abbrev pub level_from_debug : Level
level_from_debug = bit_or level_debug level_from_info

-- struct Statics, over the type of the functions that take a message.
pub record Statics (Sink : Type 0) : Type 0 where
  pub out : Sink
  pub err : Sink
  pub allowed_levels : Level

-- What the statics start as, where `silent` is the function that does nothing.
abbrev pub default_statics : {Sink : Type 0} → Sink → Statics Sink
default_statics silent = record { out = silent; err = silent; allowed_levels = level_silence }

module _ {Sink : Type 0} where
  -- changeLogLevels
  unfoldable pub change_log_levels : Statics Sink → Level → Statics Sink
  change_log_levels s levels = record s { allowed_levels = levels }

  abbrev set_out : Statics Sink → Option Sink → Statics Sink
  set_out s none = s
  set_out s (some f) = record s { out = f }

  -- `statics().out` is never empty: it starts as a function, and is only set to one that is there.
  abbrev set_err : Statics Sink → Option Sink → Statics Sink
  set_err s none = record s { err = s.out }
  set_err s (some f) = record s { err = f }

  -- init; `none` is an empty std::function
  unfoldable pub init : Statics Sink → Level → Option Sink → Option Sink → Statics Sink
  unfolding change_log_levels
  init s levels out err = change_log_levels (set_err (set_out s out) err) levels

  -- stopLogging
  unfoldable pub stop_logging : Statics Sink → Statics Sink
  stop_logging s = record s { allowed_levels = level_silence }

  -- allowed
  unfoldable pub allowed : Statics Sink → Level → Bool
  allowed s level = not (bit_and s.allowed_levels level == 0)

  -- enable
  unfoldable pub enable : Statics Sink → Level → Statics Sink
  enable s level = record s { allowed_levels = bit_and s.allowed_levels level }

  -- disable; `~level` of a uint8_t, cut to eight bits by the assignment
  unfoldable pub disable : Statics Sink → Level → Statics Sink
  disable s level = record s { allowed_levels = bit_and s.allowed_levels (255 - level) }

  -- logImpl: where the message goes
  unfoldable pub log_impl : Statics Sink → Level → Sink
  log_impl s level =
      if level == level_info
      then s.out
      else if level == level_debug
      then s.out
      else if level == level_verbose
      then s.out
      else s.err
