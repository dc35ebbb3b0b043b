-- ===== src/Processes/Entry.antt =====
-- The objects of processes.py: what psutil tells of a process, and the entry that clients see.
use ttop_desk.Prelude.{Bool, true, false, Option, none, some, Text, ℤ}
use ttop_desk.Python.Exceptions.{
  Exception, attribute_error, type_error, value_error, os_error, no_such_process, access_denied,
  zombie_process, psutil_error, protocol_error, Result,
}
use ttop_desk.Python.Runtime.{Float, Value, none_value}

-- `process.info`, where a missing attribute and a missing key are `none`.
pub record Info (F : Type 0) : Type 0 where
  pub pid : Option (Value F)
  pub name : Option (Value F)
  pub username : Option (Value F)
  pub create_time : Option (Value F)

-- A process as psutil hands it out. Each call may raise.
pub record Process (F : Type 0) : Type 0 where
  pub info : Info F
  -- `process.pid`
  pub pid : Result (Value F)
  -- `process.memory_info().rss`
  pub rss : Result (Value F)
  -- `process.cpu_times()`, and then `.user` and `.system`
  pub cpu_times : Result (Result (Value F) × Result (Value F))

-- `psutil.process_iter(...)`: it ends, or raises.
pub data Processes (F : Type 0) : Type 0 where
  stop : Processes F
  fail : Exception → Processes F
  next : Process F → Processes F → Processes F

-- The public dict of a process; the absent keys are `none`.
pub record Entry (F : Type 0) : Type 0 where
  pub pid : ℤ
  pub name : Option Text
  pub username : Option Text
  pub memory_bytes : Option ℤ
  pub cpu_percent : Option F

pub record CpuSample (F : Type 0) : Type 0 where
  pub create_time : F
  pub sampled_at : Float F
  pub cpu_time : Float F

-- `except (AttributeError, TypeError, ValueError)`
abbrev pub is_bad_attribute : Exception → Bool
is_bad_attribute attribute_error = true
is_bad_attribute type_error = true
is_bad_attribute value_error = true
is_bad_attribute (protocol_error _) = true
is_bad_attribute _ = false

-- `except (TypeError, ValueError)`
abbrev pub is_bad_number : Exception → Bool
is_bad_number type_error = true
is_bad_number value_error = true
is_bad_number (protocol_error _) = true
is_bad_number _ = false

-- `except (psutil.Error, AttributeError, OSError)`
abbrev pub is_unavailable : Exception → Bool
is_unavailable no_such_process = true
is_unavailable access_denied = true
is_unavailable zombie_process = true
is_unavailable psutil_error = true
is_unavailable attribute_error = true
is_unavailable os_error = true
is_unavailable _ = false

-- `except (NoSuchProcess, AccessDenied, ZombieProcess)`
abbrev pub is_vanished : Exception → Bool
is_vanished no_such_process = true
is_vanished access_denied = true
is_vanished zombie_process = true
is_vanished _ = false

-- `d.get(key)`
abbrev pub or_none : {F : Type 0} → Option (Value F) → Value F
or_none none = none_value
or_none (some v) = v
