-- ===== src/Metrics/Tests.antt =====
-- The theorems on the collector, at a sampler with two processes.
use ttop_desk.Prelude.{ℕ, ◌≡◌, refl, some, none, List, [], ◌∷◌, Text, text, ℤ, pos, take, arith}
use ttop_desk.Python.Exceptions.{ok}
use ttop_desk.Python.Runtime.{finite}
use ttop_desk.Python.Runtime.Integers.{integers}
use ttop_desk.Python.Sort.{sorted}
use ttop_desk.Protocol.{handle_request, encode_response}
use ttop_desk.Protocol.Framing.{IsOneLine}
use ttop_desk.Processes.Entry.{stop, next, Entry}
use ttop_desk.Processes.Order.Laws.{entry_lt}
use ttop_desk.Processes.Sampler.{Samples, scan}
use ttop_desk.Processes.Tests.{editor, hidden, editor_entry, hidden_entry, sampler, sampler_after}
use ttop_desk.Gpu.Tests.{ready}
use ttop_desk.Metrics.{MetricsCollector, Readings, snapshot, processes, gpu, processes_dict}
use ttop_desk.Metrics.Laws.{processes_lists_first}
use ttop_desk.Metrics.Encodes.{replies_encode}

abbrev pub two_readings : Readings ℤ
two_readings = record {
  sampled_at = finite (pos 104);
  processes = next hidden (next editor stop);
  timestamp = finite (pos 1700);
}

abbrev pub collector : MetricsCollector ℤ ℕ
collector = record { process_sampler = sampler; gpu_provider = ready; library_state = 0 }

abbrev two_scanned : Samples ℤ × List (Entry ℤ)
two_scanned = (sampler_after.previous, hidden_entry ∷ editor_entry ∷ [])

scanned_both :
    scan sampler.previous (finite (pos 104)) 0 (next hidden (next editor stop)) [] []
    ≡ ok two_scanned
unfolding ttop_desk.Prelude.has_char ttop_desk.Processes.Sampler.scan
    ttop_desk.Processes.Sampler.visit_process ttop_desk.Processes.Sampler.visit_known
    ttop_desk.Processes.Sampler.visit ttop_desk.Python.Exceptions.caught
    ttop_desk.Processes.Normalize.process_pid ttop_desk.Python.Runtime.to_int
    ttop_desk.Processes.Sampler.creation_time ttop_desk.Processes.Normalize.finite_nonnegative
    ttop_desk.Python.Runtime.to_float ttop_desk.Processes.Normalize.keep_finite_nonnegative
    ttop_desk.Processes.Sampler.process_cpu_time ttop_desk.Processes.Sampler.read_times
    ttop_desk.Processes.Sampler.sample_of ttop_desk.Processes.Sampler.cpu_percent_since
    ttop_desk.Processes.Sampler.percent_between ttop_desk.Processes.Sampler.is_progress
    ttop_desk.Python.Dict.lookup ttop_desk.Python.Dict.insert
    ttop_desk.Processes.Normalize.normalize_process ttop_desk.Processes.Normalize.entry_for
    ttop_desk.Processes.Normalize.entry_of ttop_desk.Processes.Normalize.memory_bytes_of
    ttop_desk.Processes.Normalize.clean_text ttop_desk.Processes.Normalize.public_name
    ttop_desk.Python.Strings.strip ttop_desk.Python.Strings.replace_char
    ttop_desk.Python.Strings.basename ttop_desk.Python.Runtime.lt_float
    ttop_desk.Python.Runtime.le_float ttop_desk.Prelude.◌+ℤ◌ ttop_desk.Prelude.◌-ℤ◌
    ttop_desk.Prelude.◌*ℤ◌
scanned_both = refl

processes_lists_first_example : processes two_readings (text "cpu") (pos 1) collector ≡ (
  ok (
      processes_dict two_readings
        (text "cpu")
        (pos 1)
        (take 1 (sorted (entry_lt (text "cpu")) (hidden_entry ∷ editor_entry ∷ [])))),
  record collector { process_sampler = sampler_after },
)
processes_lists_first_example =
    processes_lists_first two_readings collector (text "cpu") 1 two_scanned scanned_both
      (omega arith)

replies_encode_example : IsOneLine (
    encode_response
      (handle_request
        (text "{\"command\":\"gpu\"}")
        (snapshot two_readings)
        (some (processes two_readings))
        (some (gpu two_readings))
        collector).0)
replies_encode_example =
    replies_encode two_readings (pos 1700) refl (text "{\"command\":\"gpu\"}") collector
