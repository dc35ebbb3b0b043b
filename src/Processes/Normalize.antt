-- ===== src/Processes/Normalize.antt =====
-- `_finite_nonnegative` and `normalize_process`.
pub mod Laws
use ttop_desk.Prelude.{
  ℕ, ◌≡◌, Bool, true, false, not, ◌&&◌, ◌||◌, Option, none, some, List, [], ◌∷◌, Text, ℤ, pos,
  leb_ℤ, leb, length, if◌then◌else◌, has_char,
}
use ttop_desk.Python.Exceptions.{Exception, Result, ok, err, ◌>>=◌, caught}
use ttop_desk.Python.Runtime.{
  Float, nan, infinite, finite, Runtime, Value, none_value, float_value, str_value, to_float,
  to_int, lt_finite, zero_float,
}
use ttop_desk.Python.Strings.{strip, is_empty, replace_char, basename}
use ttop_desk.Processes.Entry.{
  Process, Entry, is_bad_attribute, is_bad_number, is_unavailable, or_none,
}

module _ {F : Type 0} ⦃n : Runtime F⦄ where
  -- `math.isfinite(number)` and not `number < 0`
  unfoldable pub keep_finite_nonnegative : Option (Float F) → Option F
  keep_finite_nonnegative (some (finite a)) = if lt_finite a zero_float then none else some a
  keep_finite_nonnegative _ = none

  unfoldable pub finite_nonnegative : Value F → Result (Option F)
  finite_nonnegative value = do
    number ← caught is_bad_number (to_float value)
    ok (keep_finite_nonnegative number)

  -- `int(info.get("pid", process.pid))`, where the default is evaluated first
  unfoldable pub process_pid : Process F → Result ℤ
  process_pid process = do
    default ← process.pid
    to_int (elim process.info.pid [ none ↦ default | some v ↦ v ])

  -- a string that is not blank, has no NUL and at most 256 characters, without surrounding space
  unfoldable pub clean_text : Value F → Option Text
  clean_text (str_value s) =
      if not (is_empty (strip s)) && not (has_char 0 (strip s)) && leb (length (strip s)) 256
      then some (strip s)
      else none
  clean_text _ = none

  -- a path is cut to its last part, also where it is written with backslashes
  unfoldable pub public_name : Value F → Option Text
  public_name value = elim (clean_text value) [
    | none ↦ none
    | some name ↦ some (basename (replace_char 92 47 name))
  ]

  -- the `try` around `process.memory_info()`, with its `int(rss)`
  unfoldable pub memory_bytes_of : Process F → Result (Option ℤ)
  memory_bytes_of process = do
    rss ← caught is_unavailable (process.rss >>= finite_nonnegative)
    ok (elim rss [ none ↦ none | some o ↦ elim o [ none ↦ none | some a ↦ some (n.trunc a) ] ])

  -- a CPU percentage that was not computed is None
  abbrev pub optional_float : Option (Float F) → Value F
  optional_float none = none_value
  optional_float (some x) = float_value x

  unfoldable pub entry_of : Process F → Option (Float F) → ℤ → Result (Entry F)
  entry_of process cpu_percent pid = do
    memory ← memory_bytes_of process
    normalized_cpu ← finite_nonnegative (optional_float cpu_percent)
    ok (record {
      pid = pid;
      name = public_name (or_none process.info.name);
      username = clean_text (or_none process.info.username);
      memory_bytes = memory;
      cpu_percent = normalized_cpu;
    })

  -- `none` is the None that is returned for a process without a usable pid
  unfoldable pub entry_for : Process F → Option (Float F) → Option ℤ → Result (Option (Entry F))
  entry_for process cpu_percent none = ok none
  entry_for process cpu_percent (some pid) =
      if leb_ℤ pid (pos 0)
      then ok none
      else do entry ← entry_of process cpu_percent pid; ok (some entry)

  unfoldable pub normalize_process : Process F → Option (Float F) → Result (Option (Entry F))
  normalize_process process cpu_percent = do
    pid ← caught is_bad_attribute (process_pid process)
    entry_for process cpu_percent pid
