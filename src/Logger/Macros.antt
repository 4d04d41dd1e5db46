-- ===== src/Logger/Macros.antt =====
-- include/bitcask/Logger.hpp: `log`, the functions for each level and the macros that the program
-- logs with. The result is what the output functions are called with; `none` means that the fuel
-- of `format_msg` ran out. The arguments are the texts that `to_string` made of them.
use memkvin_c.Base.{
  Bytes, Bool, List, [], ◌∷◌, ◌++◌, Option, none, some, ℕ, codes, leb, if◌then◌else◌,
}
use memkvin_c.Disk.Numbers
use memkvin_c.Logger.{
  Statics, Level, allowed, log_impl, level_info, level_warn, level_error, level_fatal, level_debug,
  level_verbose,
}
use memkvin_c.Logger.Format.{format_msg, past_last_slash}

-- to_string, over what the stream makes of an argument; `none` is an exception.
abbrev pub to_string {ℓ} : {A : Type ℓ} → (A → Option Bytes) → A → Bytes
to_string print arg = elim (print arg) [ none ↦ codes "{}" | some text ↦ text ]

-- to_string of a std::wstring, over string_cast.
abbrev pub to_string_wide {ℓ} : {W : Type ℓ} → (W → Bytes) → W → Bytes
to_string_wide string_cast arg = string_cast arg

-- The six functions that log, and the macros' first argument.
pub data Kind : Type 0 where
  debug : Kind
  info : Kind
  warn : Kind
  error : Kind
  fatal : Kind
  verbose : Kind

abbrev pub level_of : Kind → Level
level_of debug = level_debug
level_of info = level_info
level_of warn = level_warn
level_of error = level_error
level_of fatal = level_fatal
level_of verbose = level_verbose

abbrev pub prefix_of : Kind → Bytes
prefix_of debug = codes "DEBUG   :    "
prefix_of info = codes "INFO    :    "
prefix_of warn = codes "WARN    :    "
prefix_of error = codes "ERROR   :    "
prefix_of fatal = codes "FATAL   :    "
prefix_of verbose = codes "VERBOSE :    "

-- BITCASK_LOG_LEVEL_DEBUG and so on: the numbers of the levels at build time.
abbrev pub build_level : Kind → ℕ
build_level debug = 1
build_level info = 2
build_level warn = 4
build_level error = 8
build_level fatal = 16
build_level verbose = 32

-- BITCASK_MIN_ALLOWED_LOG_LEVEL where it is not given
abbrev pub default_min : ℕ
default_min = build_level info

-- What the macros put behind their arguments.
abbrev pub place : Bytes → ℕ → List Bytes
place file line =
    codes "  --> [[ "
    ∷ (past_last_slash file ∷ (codes ":" ∷ (Numbers.to_string line ∷ (codes " ]]" ∷ []))))

module _ {Sink : Type 0} (s : Statics Sink) where
  abbrev pub Emitted : Type 0
  Emitted = Option (List (Sink × Bytes))

  -- log
  unfoldable pub log : Level → List Bytes → Emitted
  unfolding allowed log_impl
  log level msg =
      if allowed s level
      then elim (format_msg msg) [ none ↦ none | some text ↦ some ((log_impl s level, text) ∷ []) ]
      else some []

  -- debug, info, warn, error, fatal and verbose
  unfoldable pub log_as : Kind → List Bytes → Emitted
  unfolding log
  log_as kind msg = log (level_of kind) (prefix_of kind ∷ msg)

  -- debugAllowed, infoAllowed, warnAllowed, errorAllowed, fatalAllowed and verboseAllowed
  abbrev pub allowed_as : Kind → Bool
  allowed_as kind = allowed s (level_of kind)

  -- BITCASK_LOGGER_DEBUG
  unfoldable pub logger_debug : Bytes → ℕ → List Bytes → Emitted
  unfolding log_as
  logger_debug file line msg =
      if allowed_as debug then log_as debug (msg ++ place file line) else some []

  -- BITCASK_LOGGER_WRITE
  unfoldable pub logger_write : Kind → Bytes → ℕ → List Bytes → Emitted
  unfolding log_as
  logger_write kind file line msg =
      if allowed_as kind
      then (if allowed_as debug then log_as kind (msg ++ place file line) else log_as kind msg)
      else some []

  -- BITCASK_LOGGER_INFO, _WARN, _ERROR, _FATAL and _VERBOSE, under a level of the build.
  unfoldable pub logger : ℕ → Kind → Bytes → ℕ → List Bytes → Emitted
  unfolding logger_write logger_debug
  logger min debug file line msg = logger_debug file line msg
  logger min kind file line msg =
      if leb min (build_level kind) then logger_write kind file line msg else some []
