-- ===== src/Model/LogBuffer.antt =====
-- include/monitostr/model/log_buffer.hpp. A call that locks the mutex is one step; the wall clock
-- (NowString) is the argument `now` of the calls that write.
pub mod Laws
use monitostr.Prelude.{Option, none, some, ℕ, List, [], ◌++◌, ◌∷◌, Text, codes}
use monitostr.Model.Window.{push_window}

pub data LogLevel : Type 0 where
  info warn error : LogLevel

unfoldable pub level_text : LogLevel → Text
level_text info = codes "INFO"
level_text warn = codes "WARN"
level_text error = codes "ERROR"

pub record LogEntry : Type 0 where
  pub timestamp : Text
  pub level : LogLevel
  pub message : Text

pub record LogBuffer : Type 0 where
  pub max_entries : ℕ
  pub entries : List LogEntry

abbrev pub default_max_entries : ℕ
default_max_entries = 400

unfoldable pub new : ℕ → LogBuffer
new max_entries = record { max_entries = max_entries; entries = [] }

unfoldable pub push : Text → LogLevel → Text → LogBuffer → LogBuffer
push now level message b = record b {
  entries =
      push_window b.max_entries (record { timestamp = now; level = level; message = message })
        b.entries;
}

unfoldable pub clear : LogBuffer → LogBuffer
clear b = record b { entries = [] }

unfoldable pub snapshot : LogBuffer → List LogEntry
snapshot b = b.entries

-- `if (log_buffer) log_buffer->Push(level, message);`
unfoldable pub note : Text → LogLevel → Text → Option LogBuffer → Option LogBuffer
note now level message none = none
note now level message (some b) = some (push now level message b)
