-- ===== src/Logging.antt =====
-- src/logging.rs: the level that is set, and the lines that it lets through.
use svlopp.Prelude.{ℕ, ltb, if◌then◌else◌, Option, none, some, ◌++◌, Text, codes}
use svlopp.Service.Display.{decimal}
use svlopp.Utils.{Timespec, timestamp}
use svlopp.Cli.{LogLevel, error, warn, info, debug}

-- `level as u8`
abbrev level_number : LogLevel → ℕ
level_number error = 1
level_number warn = 2
level_number info = 3
level_number debug = 4

-- `LOG_LEVEL` before the level is set.
abbrev initial_log_level : ℕ
initial_log_level = level_number info

abbrev set_log_level : LogLevel → ℕ
set_log_level level = level_number level

-- `{:?}` of a level.
abbrev level_text : LogLevel → Text
level_text error = codes "Error"
level_text warn = codes "Warn"
level_text info = codes "Info"
level_text debug = codes "Debug"

-- The line on stderr, if there is one, for the value of `LOG_LEVEL` and the clock at the call.
abbrev log_inner : ℕ → Timespec → LogLevel → Text → Option Text
log_inner log_level now level msg =
    let (secs, nsecs) = timestamp now in
    if ltb log_level (level_number level)
    then none
    else some (
        codes "["
        ++ decimal secs
        ++ codes "."
        ++ decimal nsecs
        ++ codes "]["
        ++ level_text level
        ++ codes "] "
        ++ msg
        ++ codes "\n")
