-- ===== src/Logger.antt =====
-- src/logger.cpp and inc/logger.hpp: the log on stderr. The time of a line, as `put_time` writes it, is
-- an argument. One lock is held over a whole line, so that the lines of several threads are the calls
-- in some order.
pub mod Shown
use mathlib.Core.List.{flatten}
use cdr_processor.Base.{
  ℕ, ltb, ◌==◌, ◌||◌, Bool, List, [], ◌∷◌, ◌++◌, Bytes, codes, text_eq, if◌then◌else◌,
}

pub data LogLevel : Type 0 where
  debug info warning error none : LogLevel

-- The order of the enum.
abbrev pub severity : LogLevel → ℕ
severity LogLevel.debug = 0
severity LogLevel.info = 1
severity LogLevel.warning = 2
severity LogLevel.error = 3
severity LogLevel.none = 4

-- `levelName`
abbrev pub level_name : LogLevel → Bytes
level_name LogLevel.debug = codes "DEBUG"
level_name LogLevel.info = codes "INFO"
level_name LogLevel.warning = codes "WARN"
level_name LogLevel.error = codes "ERROR"
level_name LogLevel.none = []

-- An escape sequence of the terminal.
abbrev pub escape : Bytes → Bytes
escape s = 27 ∷ codes "[" ++ s

-- `levelColor`
abbrev pub level_color : LogLevel → Bytes
level_color LogLevel.debug = escape (codes "90m")
level_color LogLevel.info = escape (codes "32m")
level_color LogLevel.warning = escape (codes "33m")
level_color LogLevel.error = escape (codes "31m")
level_color LogLevel.none = []

-- `Logger::levelFromName`
unfoldable pub level_from_name : Bytes → LogLevel
level_from_name name =
    if text_eq name (codes "debug")
    then LogLevel.debug
    else if text_eq name (codes "info")
    then LogLevel.info
    else if text_eq name (codes "warn")
    then LogLevel.warning
    else if text_eq name (codes "error")
    then LogLevel.error
    else if text_eq name (codes "none")
    then LogLevel.none
    else LogLevel.info

-- `m_level`, and what stands on stderr.
pub record Logger : Type 0 where
  pub level : LogLevel
  pub err : Bytes

-- The pieces of a line, up to its end.
abbrev pub pieces : Bytes → LogLevel → Bytes → Bytes → List Bytes
pieces now level component message =
    escape (codes "90m")
    ∷ now
    ∷ escape (codes "0m ")
    ∷ level_color level
    ∷ codes "["
    ∷ level_name level
    ∷ codes "]"
    ∷ escape (codes "0m ")
    ∷ codes "["
    ∷ component
    ∷ codes "] -> "
    ∷ message
    ∷ []

unfoldable pub line_text : Bytes → LogLevel → Bytes → Bytes → Bytes
unfolding flatten
line_text now level component message = flatten (pieces now level component message)

-- Whether `log` drops a line.
abbrev pub is_dropped : LogLevel → LogLevel → Bool
is_dropped active level = (severity level == 4) || ltb (severity level) (severity active)

-- `Logger::log`
unfoldable pub log : Bytes → LogLevel → Bytes → Bytes → Logger → Logger
unfolding line_text
log now level component message logger =
    if is_dropped logger.level level
    then logger
    else record logger { err = logger.err ++ (line_text now level component message ++ 10 ∷ []) }

-- `Logger::setLevel`
abbrev pub set_level : LogLevel → Logger → Logger
set_level level logger = record logger { level = level }

-- `logInfo`, `logWarn`, `logError` and `logDebug`
abbrev pub log_info : Bytes → Bytes → Bytes → Logger → Logger
log_info now component message = log now LogLevel.info component message

abbrev pub log_warn : Bytes → Bytes → Bytes → Logger → Logger
log_warn now component message = log now LogLevel.warning component message

abbrev pub log_error : Bytes → Bytes → Bytes → Logger → Logger
log_error now component message = log now LogLevel.error component message

abbrev pub log_debug : Bytes → Bytes → Bytes → Logger → Logger
log_debug now component message = log now LogLevel.debug component message

-- One call of the logger.
pub data LogCall : Type 0 where
  set : LogLevel → LogCall
  say : Bytes → LogLevel → Bytes → Bytes → LogCall

-- The calls of all threads, in the order of the lock.
unfoldable pub run_calls : List LogCall → Logger → Logger
unfolding log
run_calls [] logger = logger
run_calls (set level ∷ calls) logger = run_calls calls (set_level level logger)
run_calls (say now level component message ∷ calls) logger =
    run_calls calls (log now level component message logger)
