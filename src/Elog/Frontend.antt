-- ===== src/Elog/Frontend.antt =====
-- elog/logger.h and logger.cpp on one thread: the logging statements, and the start and the end of
-- asynchronous logging.
pub mod Phases
pub mod Statements
pub mod Records
pub mod Racing
mod Examples
use koro.Prelude.{
  ℕ, Bool, true, false, not, Option, none, some, List, [], ◌∷◌, ◌++◌, if◌then◌else◌, leb, is_empty,
  ◌>>=◌,
}
use koro.Elog.Context.{Text, Context, get_short_name, describe}
use koro.Elog.Formatting.{bytes, Tm, decimal, to_formatted_string}

pub data LogLevel : Type 0 where
  trace debug info warn error fatal off : LogLevel

unfoldable pub level_number : LogLevel → ℕ
level_number trace = 0
level_number debug = 1
level_number info = 2
level_number warn = 3
level_number error = 4
level_number fatal = 5
level_number off = 6

unfoldable pub log_level_to_string : LogLevel → Text
log_level_to_string trace = bytes "TRACE"
log_level_to_string debug = bytes "DEBUG"
log_level_to_string info = bytes "INFO"
log_level_to_string warn = bytes "WARN"
log_level_to_string error = bytes "ERROR"
log_level_to_string fatal = bytes "FATAL"
log_level_to_string off = bytes "UNKNOWN"

-- The escape character.
abbrev escape : ℕ
escape = 27

unfoldable pub log_level_to_color : LogLevel → Text
log_level_to_color trace = escape ∷ bytes "[90m"
log_level_to_color debug = escape ∷ bytes "[36m"
log_level_to_color info = escape ∷ bytes "[32m"
log_level_to_color warn = escape ∷ bytes "[33m"
log_level_to_color error = escape ∷ bytes "[31m"
log_level_to_color fatal = escape ∷ bytes "[35m"
log_level_to_color off = escape ∷ bytes "[0m"

-- Where a statement stands, and the time at which its stream is destroyed.
pub record Place : Type 0 where
  pub file : Text
  pub func : Text
  pub line : ℕ
  pub now : ℕ

-- `alive` says whether `async_logging_` points to something, and `pushed` is what `pushMessage` was given;
-- `init_flag` and `shutdown_flag` are the two once flags, `str` and `ctx` belong to the thread, and `out`
-- is what was printed.
pub record Front : Type 0 where
  pub alive : Bool
  pub async_enabled : Bool
  pub init_flag : Bool
  pub shutdown_flag : Bool
  pub pushed : List Context
  pub str : Text
  pub ctx : Context
  pub out : List Text

unfoldable pub init_async_logging : Front → Front
init_async_logging f =
    if f.async_enabled
    then f
    else if f.init_flag
    then f
    else record f { alive = true; async_enabled = true; init_flag = true }

unfoldable pub shutdown_async_logging : Front → Front
shutdown_async_logging f =
    if not f.async_enabled
    then f
    else if f.shutdown_flag
    then f
    else record f { alive = false; async_enabled = false; shutdown_flag = true }

-- `none` is the use of a null pointer, also below.
unfoldable pub append_async_log : LogLevel → Text → Place → Front → Option Front
append_async_log level message p f =
    let ctx = describe f.ctx p.now (level_number level) message p.file p.func p.line in
    if not f.async_enabled
    then some f
    else if f.alive
    then some (record f { ctx = ctx; pushed = f.pushed ++ ctx ∷ [] })
    else none

-- The line that goes to the console.
unfoldable pub console_line : (ℕ → Tm) → ℕ → LogLevel → Text → Place → Text
console_line localtime_r tid level message p =
    log_level_to_color level
    ++ (to_formatted_string localtime_r true true p.now
        ++ (b'[' ∷ decimal tid
            ++ (b']' ∷ log_level_to_string level
                ++ (b' ' ∷ get_short_name p.file
                    ++ (b':' ∷ decimal p.line
                        ++ (b' ' ∷ p.func
                            ++ (bytes "()-> "
                                ++ (message ++ (escape ∷ bytes "[0m" ++ b'\n' ∷ [])))))))))

-- `operator<<`, with the value as it is printed.
unfoldable pub put : Text → Front → Front
put val f = record f { str = f.str ++ val }

-- `~LogStream()` up to the last line.
unfoldable pub emit : (ℕ → Tm) → LogLevel → Place → Front → Option Front
emit localtime_r level p f =
    if is_empty f.str
    then some f
    else if f.async_enabled
    then append_async_log level f.str p f
    else some (record f { out = f.out ++ console_line localtime_r f.ctx.tid level f.str p ∷ [] })

unfoldable pub finish : (ℕ → Tm) → LogLevel → Place → Front → Option Front
finish localtime_r level p f = emit localtime_r level p f >>= λ g. some (record g { str = [] })

-- What a program does with the logger, one thing behind the other. A statement prints its values, which are
-- texts here, so that no statement begins while another computes a value; `least` of `use_logger` is
-- `GLOBAL_MIN_LEVEL`, below which `SelectedLogStream` is the class that ignores everything.
pub data Use : Type 0 where
  init : Use
  shutdown : Use
  log : LogLevel → Place → List Text → Use

unfoldable pub put_all : List Text → Front → Front
put_all [] f = f
put_all (val ∷ vals) f = put_all vals (put val f)

unfoldable pub use_logger : (ℕ → Tm) → LogLevel → Use → Front → Option Front
use_logger localtime_r least init f = some (init_async_logging f)
use_logger localtime_r least shutdown f = some (shutdown_async_logging f)
use_logger localtime_r least (log level p vals) f =
    if leb (level_number least) (level_number level)
    then finish localtime_r level p (put_all vals f)
    else some f

unfoldable pub use_all : (ℕ → Tm) → LogLevel → List Use → Front → Option Front
use_all localtime_r least [] f = some f
use_all localtime_r least (u ∷ us) f =
    use_logger localtime_r least u f >>= λ g. use_all localtime_r least us g

-- A thread at the start of the program.
unfoldable pub new_front : Context → Front
new_front ctx = record {
  alive = false;
  async_enabled = false;
  init_flag = false;
  shutdown_flag = false;
  pushed = [];
  str = [];
  ctx = ctx;
  out = [];
}
