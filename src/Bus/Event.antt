-- ===== src/Bus/Event.antt =====
-- internal/bus/event.go. A time is a number of nanoseconds, 0 for Go's zero time; `body` is the raw
-- JSON of the `Data` field, `none` for nil.
use aicrme.Prelude.{ℕ, String, Option, none}

pub data Kind : Type 0 where
  phase log component cluster decision error recovered : Kind

-- `unset` is the empty string, which `Publish` replaces.
pub data Level : Type 0 where
  unset info warn err : Level

pub record Event : Type 0 where
  pub id : ℕ
  pub run_id : String
  pub at : ℕ
  pub kind : Kind
  pub phase : String
  pub level : Level
  pub component : String
  pub message : String
  pub body : Option String

-- What `make([]Event, n)` holds before the first write; its kind is never read.
abbrev pub zero_event : Event
zero_event = record {
  id = 0;
  run_id = "";
  at = 0;
  kind = log;
  phase = "";
  level = unset;
  component = "";
  message = "";
  body = none;
}
