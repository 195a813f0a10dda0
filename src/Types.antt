-- ===== src/Types.antt =====
-- include/fastqueue/types.h and src/utils/errors.c: status codes, priorities and log levels.
use Prim.Native.String.{String}
use fast_queue.Prelude.{ℕ, Bool, true, false, Option}

-- `fq_status_t`
pub data Status : Type 0 where
  ok err_nomem err_inval err_busy err_timeout err_canceled : Status
  err_overflow err_closed err_internal err_nosupport : Status

-- The enum's values are 0 and negative: this is the absolute value of each.
unfoldable pub status_code : Status → ℕ
status_code Status.ok = 0
status_code Status.err_nomem = 1
status_code Status.err_inval = 2
status_code Status.err_busy = 3
status_code Status.err_timeout = 4
status_code Status.err_canceled = 5
status_code Status.err_overflow = 6
status_code Status.err_closed = 7
status_code Status.err_internal = 8
status_code Status.err_nosupport = 9

-- `fq_status_string`; its default case is for integers that are no status.
unfoldable pub status_string : Status → String
status_string Status.ok = "success"
status_string Status.err_nomem = "out of memory"
status_string Status.err_inval = "invalid argument"
status_string Status.err_busy = "resource busy"
status_string Status.err_timeout = "timed out"
status_string Status.err_canceled = "canceled"
status_string Status.err_overflow = "queue full"
status_string Status.err_closed = "system shut down"
status_string Status.err_internal = "internal error"
status_string Status.err_nosupport = "not supported"

-- `fq_status_ok`; also the tests `st == FQ_OK` of the callers
abbrev pub status_ok : Status → Bool
status_ok Status.ok = true
status_ok Status.err_nomem = false
status_ok Status.err_inval = false
status_ok Status.err_busy = false
status_ok Status.err_timeout = false
status_ok Status.err_canceled = false
status_ok Status.err_overflow = false
status_ok Status.err_closed = false
status_ok Status.err_internal = false
status_ok Status.err_nosupport = false

-- `fq_priority_t`
pub data Priority : Type 0 where
  low normal high urgent : Priority

abbrev pub priority_level : Priority → ℕ
priority_level Priority.low = 0
priority_level Priority.normal = 1
priority_level Priority.high = 2
priority_level Priority.urgent = 3

-- `fq_log_level_t`, by the constants of config.h
pub data LogLevel : Type 0 where
  log_none log_error log_warn log_info log_debug : LogLevel

abbrev pub log_level_value : LogLevel → ℕ
log_level_value LogLevel.log_none = 0
log_level_value LogLevel.log_error = 1
log_level_value LogLevel.log_warn = 2
log_level_value LogLevel.log_info = 3
log_level_value LogLevel.log_debug = 4

-- A pointer; `none` is NULL.
abbrev pub Ptr : Type 0
Ptr = Option ℕ
