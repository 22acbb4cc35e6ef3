-- ===== src/Execution/Io.antt =====
-- `IOStatus`, `IOResult` and the reading of a driver's value, of
-- src/embodirun/devices/execution/io.py.
use embodi_run.Base.{Bool, true, false, Option, none, some, String}

pub data IoStatus : Type 0 where
  completed cancelled expired failed rejected unknown : IoStatus

-- The names of the transactions: "execute", "read", "stop", "close".
pub data Operation : Type 0 where
  execute read stop close : Operation

abbrev pub is_stop : Operation → Bool
is_stop stop = true
is_stop _ = false

abbrev pub is_read : Operation → Bool
is_read read = true
is_read _ = false

-- A driver's return value, as far as the code reads it: `None`, a `bool`, a mapping with its
-- "stop_confirmed" entry if that is a `bool`, or anything else.
pub data DriverValue : Type 0 where
  nothing : DriverValue
  boolean : Bool → DriverValue
  mapping : Option Bool → DriverValue
  opaque : DriverValue

-- `_stop_confirmation`
unfoldable pub stop_confirmation : DriverValue → Option Bool
stop_confirmation (boolean b) = some b
stop_confirmation (mapping confirmed) = confirmed
stop_confirmation nothing = none
stop_confirmation opaque = none

-- `requested` and `elapsed_s`, which are only reported, are left out; `feedback` repeats
-- `driver_value`. An exception is its text.
pub record IoResult : Type 0 where
  pub operation : Operation
  pub status : IoStatus
  pub driver_returned : Bool
  pub driver_value : DriverValue
  pub stop_confirmed : Option Bool
  pub error : Option String
  pub quarantined : Bool

-- `_immediate`
abbrev pub immediate : Operation → IoStatus → Bool → IoResult
immediate op st q = record {
  operation = op;
  status = st;
  driver_returned = false;
  driver_value = nothing;
  stop_confirmed = none;
  error = none;
  quarantined = q;
}

abbrev pub is_true : Option Bool → Bool
is_true (some true) = true
is_true (some false) = false
is_true none = false

-- The property `stop_unconfirmed`.
unfoldable pub stop_unconfirmed : IoResult → Bool
stop_unconfirmed r = elim (is_stop r.operation) [
  | true ↦ elim (is_true r.stop_confirmed) [ true ↦ false | false ↦ true ]
  | false ↦ false
]
