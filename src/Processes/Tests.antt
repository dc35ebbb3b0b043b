-- ===== src/Processes/Tests.antt =====
-- The theorems on processes at concrete processes.
use mathlib.Core.List.{Perm, Permᴰ}
use ttop_desk.Prelude.{
  ℕ, ◌≤◌, ◌≡◌, ◌≢◌, refl, Option, none, some, List, [], ◌∷◌, Text, text, ℤ, pos, negsuc, All, arith,
}
use ttop_desk.Python.Exceptions.{Exception, Result, ok, err, access_denied, os_error}
use ttop_desk.Python.Runtime.{Float, finite, Value, none_value, int_value, float_value, str_value}
use ttop_desk.Python.Runtime.Integers.{integers}
use ttop_desk.Python.Sort.{IsSorted}
use ttop_desk.Processes.Entry.{Process, stop, fail, next, Entry}
use ttop_desk.Processes.Normalize.{
  process_pid, finite_nonnegative, optional_float, normalize_process,
}
use ttop_desk.Processes.Normalize.Laws.{IsNormal, normalize_process-IsNormal}
use ttop_desk.Processes.Order.{sort_process_entries}
use ttop_desk.Processes.Order.Laws.{
  entry_lt, sort_process_entries_sorts, sort_process_entries_deterministic,
}
use ttop_desk.Processes.Sampler.{ProcessSampler, process_sampler, scan, snapshot}
use ttop_desk.Processes.Sampler.Results.{IsSnapshot, snapshot_result, snapshot_failure}

abbrev pub editor : Process ℤ
editor = record {
  info = record {
    pid = some (int_value (pos 7));
    name = some (str_value (text " C:\\bin\\edit "));
    username = some (str_value (text "ana"));
    create_time = some (int_value (pos 50));
  };
  pid = ok (int_value (pos 7));
  rss = ok (int_value (pos 4096));
  cpu_times = ok (ok (int_value (pos 6)), ok (int_value (pos 4)));
}

-- Nothing but its pid can be read.
abbrev pub hidden : Process ℤ
hidden = record {
  info = record { pid = none; name = some none_value; username = none; create_time = none };
  pid = ok (int_value (pos 9));
  rss = err access_denied;
  cpu_times = err access_denied;
}

abbrev pub editor_entry : Entry ℤ
editor_entry = record {
  pid = pos 7;
  name = some (text "edit");
  username = some (text "ana");
  memory_bytes = some (pos 4096);
  cpu_percent = some (pos 200);
}

abbrev pub hidden_entry : Entry ℤ
hidden_entry = record {
  pid = pos 9;
  name = none;
  username = none;
  memory_bytes = none;
  cpu_percent = none;
}

-- The editor used 8 seconds of CPU time in 4 seconds.
abbrev pub sampler : ProcessSampler ℤ
sampler = record {
  limit = 3;
  previous =
      (
        pos 7,
        record { create_time = pos 50; sampled_at = finite (pos 100); cpu_time = finite (pos 2) },
      )
      ∷ [];
}

abbrev pub sampler_after : ProcessSampler ℤ
sampler_after = record {
  limit = 3;
  previous =
      (
        pos 7,
        record { create_time = pos 50; sampled_at = finite (pos 104); cpu_time = finite (pos 10) },
      )
      ∷ [];
}

editor_normalized : normalize_process editor (some (finite (pos 200))) ≡ ok (some editor_entry)
unfolding normalize_process ttop_desk.Python.Exceptions.caught process_pid
    ttop_desk.Python.Runtime.to_int ttop_desk.Processes.Normalize.entry_for
    ttop_desk.Processes.Normalize.entry_of ttop_desk.Processes.Normalize.memory_bytes_of
    finite_nonnegative ttop_desk.Python.Runtime.to_float ttop_desk.Processes.Normalize.public_name
    ttop_desk.Processes.Normalize.clean_text ttop_desk.Processes.Normalize.keep_finite_nonnegative
    ttop_desk.Python.Strings.strip ttop_desk.Prelude.has_char ttop_desk.Python.Strings.basename
    ttop_desk.Python.Strings.replace_char
editor_normalized = refl

sampled :
    snapshot sampler (finite (pos 104)) (next hidden (next editor stop)) (some (text "cpu"))
    ≡ (ok (editor_entry ∷ hidden_entry ∷ []), sampler_after)
unfolding ttop_desk.Prelude.has_char ttop_desk.Processes.Sampler.snapshot
    ttop_desk.Processes.Sampler.conclude ttop_desk.Processes.Sampler.scan
    ttop_desk.Processes.Sampler.visit_process ttop_desk.Processes.Sampler.visit_known
    ttop_desk.Processes.Sampler.visit ttop_desk.Python.Exceptions.caught
    ttop_desk.Processes.Normalize.process_pid ttop_desk.Python.Runtime.to_int
    ttop_desk.Processes.Sampler.creation_time ttop_desk.Processes.Normalize.finite_nonnegative
    ttop_desk.Python.Runtime.to_float ttop_desk.Processes.Normalize.keep_finite_nonnegative
    ttop_desk.Processes.Sampler.process_cpu_time ttop_desk.Processes.Sampler.read_times
    ttop_desk.Processes.Sampler.sample_of ttop_desk.Processes.Sampler.cpu_percent_since
    ttop_desk.Processes.Sampler.percent_between ttop_desk.Processes.Sampler.is_progress
    ttop_desk.Python.Dict.lookup ttop_desk.Python.Dict.insert
    ttop_desk.Processes.Normalize.normalize_process ttop_desk.Processes.Normalize.entry_for
    ttop_desk.Processes.Normalize.entry_of ttop_desk.Processes.Normalize.memory_bytes_of
    ttop_desk.Processes.Normalize.clean_text ttop_desk.Processes.Normalize.public_name
    ttop_desk.Python.Strings.strip ttop_desk.Python.Strings.replace_char
    ttop_desk.Python.Strings.basename ttop_desk.Processes.Order.sort_process_entries
    ttop_desk.Processes.Order.keyed ttop_desk.Processes.Order.metric_value
    ttop_desk.Python.Exceptions.map_result ttop_desk.Python.Sort.sorted ttop_desk.Prelude.text_eq
    ttop_desk.Processes.Order.default_sort ttop_desk.Processes.Order.default_key
    ttop_desk.Python.Sort.tuple_order ttop_desk.Python.Runtime.lt_float
    ttop_desk.Python.Runtime.le_float ttop_desk.Prelude.◌+ℤ◌ ttop_desk.Prelude.◌-ℤ◌
    ttop_desk.Prelude.◌*ℤ◌ ttop_desk.Prelude.text_lt
sampled = refl

interrupted :
    snapshot sampler (finite (pos 104)) (next editor (fail os_error)) none ≡ (err os_error, sampler)
unfolding ttop_desk.Prelude.has_char ttop_desk.Processes.Sampler.snapshot
    ttop_desk.Processes.Sampler.conclude ttop_desk.Processes.Sampler.scan
    ttop_desk.Processes.Sampler.visit_process ttop_desk.Processes.Sampler.visit_known
    ttop_desk.Processes.Sampler.visit ttop_desk.Python.Exceptions.caught
    ttop_desk.Processes.Normalize.process_pid ttop_desk.Python.Runtime.to_int
    ttop_desk.Processes.Sampler.creation_time ttop_desk.Processes.Normalize.finite_nonnegative
    ttop_desk.Python.Runtime.to_float ttop_desk.Processes.Normalize.keep_finite_nonnegative
    ttop_desk.Processes.Sampler.process_cpu_time ttop_desk.Processes.Sampler.read_times
    ttop_desk.Processes.Sampler.sample_of ttop_desk.Processes.Sampler.cpu_percent_since
    ttop_desk.Processes.Sampler.percent_between ttop_desk.Processes.Sampler.is_progress
    ttop_desk.Python.Dict.lookup ttop_desk.Python.Dict.insert
    ttop_desk.Processes.Normalize.normalize_process ttop_desk.Processes.Normalize.entry_for
    ttop_desk.Processes.Normalize.entry_of ttop_desk.Processes.Normalize.memory_bytes_of
    ttop_desk.Processes.Normalize.clean_text ttop_desk.Processes.Normalize.public_name
    ttop_desk.Python.Strings.strip ttop_desk.Python.Strings.replace_char
    ttop_desk.Python.Strings.basename ttop_desk.Processes.Order.sort_process_entries
    ttop_desk.Processes.Order.keyed ttop_desk.Processes.Order.metric_value
    ttop_desk.Python.Exceptions.map_result ttop_desk.Python.Sort.sorted ttop_desk.Prelude.text_eq
    ttop_desk.Processes.Order.default_sort ttop_desk.Processes.Order.default_key
    ttop_desk.Python.Sort.tuple_order ttop_desk.Python.Runtime.lt_float
    ttop_desk.Python.Runtime.le_float ttop_desk.Prelude.◌+ℤ◌ ttop_desk.Prelude.◌-ℤ◌
    ttop_desk.Prelude.◌*ℤ◌ ttop_desk.Prelude.text_lt
interrupted = refl

normalize_process-IsNormal_example :
    IsNormal editor_entry
    × (process_pid editor ≡ ok (pos 7))
    × (finite_nonnegative (optional_float {F = ℤ} (some (finite (pos 200)))) ≡ ok (some (pos 200)))
normalize_process-IsNormal_example =
    normalize_process-IsNormal editor (some (finite (pos 200))) editor_entry editor_normalized

sort_process_entries_sorts_example :
    (out : List (Entry ℤ)) × (sort_process_entries
        (hidden_entry ∷ editor_entry ∷ [])
        (text "memory")
      ≡ ok out)
    × Perm out (hidden_entry ∷ editor_entry ∷ [])
    × IsSorted (entry_lt (text "memory")) out
sort_process_entries_sorts_example =
    sort_process_entries_sorts (hidden_entry ∷ editor_entry ∷ []) (text "memory")
      (tt, ((λ e. cc), tt))

sort_process_entries_deterministic_example :
    sort_process_entries (hidden_entry ∷ editor_entry ∷ []) (text "cpu")
    ≡ sort_process_entries (editor_entry ∷ hidden_entry ∷ []) (text "cpu")
sort_process_entries_deterministic_example =
    sort_process_entries_deterministic (hidden_entry ∷ editor_entry ∷ [])
      (editor_entry ∷ hidden_entry ∷ []) (text "cpu") (Permᴰ.swap refl refl) (tt, ((λ e. cc), tt))
      (((λ e. cc), tt), (tt, tt))

snapshot_result_example :
    IsSnapshot sampler
      (finite (pos 104))
      (next hidden (next editor stop))
      (some (text "cpu"))
      (editor_entry ∷ hidden_entry ∷ [])
      sampler_after
snapshot_result_example =
    snapshot_result sampler (finite (pos 104)) (next hidden (next editor stop)) (some (text "cpu"))
      (editor_entry ∷ hidden_entry ∷ []) sampler_after sampled

snapshot_failure_example :
    (scan sampler.previous (finite (pos 104)) 0 (next editor (fail os_error)) [] [] ≡ err os_error)
    × (sampler ≡ sampler)
snapshot_failure_example =
    snapshot_failure sampler (finite (pos 104)) (next editor (fail os_error)) none os_error sampler
      interrupted
