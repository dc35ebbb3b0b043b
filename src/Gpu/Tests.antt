-- ===== src/Gpu/Tests.antt =====
-- The theorems on GPU values and on the NVIDIA provider, at a small library.
use ttop_desk.Prelude.{
  ℕ, suc, ◌+◌, ◌^◌, ◌≤◌, ◌≡◌, refl, ◌⊎◌, true, false, Option, none, some, List, [], ◌∷◌, Text, text,
  ℤ, pos, negsuc,
}
use ttop_desk.Python.Exceptions.{ok, err, other_error}
use ttop_desk.Python.Runtime.{Float, nan, finite, Runtime, int_value}
use ttop_desk.Python.Runtime.Integers.{integers}
use ttop_desk.Gpu.Base.{MemoryValues, clamp, memory_values}
use ttop_desk.Gpu.Base.Laws.{IsMemoryValues, memory_values_bounded}
use ttop_desk.Gpu.Nvidia.{
  Call, Nvml, NvidiaNvmlProvider, NvmlUtilization, NvmlMemory, GpuEntry, snapshot, shutdown, closed,
}
use ttop_desk.Gpu.Nvidia.Devices.{IsDevices}
use ttop_desk.Gpu.Nvidia.Laws.{nvidia_snapshot_returns}
use ttop_desk.Gpu.Nvidia.Init.{nvidia_nvml_provider}
use ttop_desk.Gpu.Nvidia.Sessions.{Operation, ask, shut, opened, Refines, provider-Refines}
use ttop_desk.Gpu.Nvidia.Lifecycle.{IsReady, IsFailed, nvidia_nvml_provider_outcome}

-- A library that counts the calls of its shutdown; it has two devices, the first without a handle.
abbrev count_shutdown : Call ℕ Unit
count_shutdown w = (err other_error, suc w)

abbrev two_devices : Call ℕ ℕ
two_devices w = (ok (pos 0, 2), w)

abbrev second_only : ℕ → Call ℕ ℕ
second_only index w = (ok (pos 0, index), w)

abbrev pub small_library : Nvml ℕ
small_library = record {
  init_v2 = none;
  init = some (λ w. (ok (pos 0, tt), w));
  shutdown = some count_shutdown;
  device_get_count_v2 = some two_devices;
  device_get_count = none;
  device_get_handle_by_index_v2 = some second_only;
  device_get_handle_by_index = none;
  device_get_name = some (λ handle size w. (ok (pos 0, text " RTX \0x"), w));
  device_get_utilization_rates =
      some (λ handle w. (ok (pos 0, record { gpu = 101; memory = 0 }), w));
  device_get_memory_info =
      some (λ handle w. (ok (pos 0, record { total = 8; free = 6; used = 2 }), w));
  device_get_temperature = some (λ handle sensor w. (err other_error, w));
}

abbrev pub ready : NvidiaNvmlProvider ℕ
ready = record {
  available = true;
  failure_reason = [];
  library = some small_library;
  initialized = true;
  shutdown_function = some count_shutdown;
  count_function = some two_devices;
  handle_function = some second_only;
  name_function = small_library.device_get_name;
  utilization_function = small_library.device_get_utilization_rates;
  memory_function = small_library.device_get_memory_info;
  temperature_function = small_library.device_get_temperature;
}

abbrev quarter : MemoryValues ℤ
quarter = record {
  memory_used_bytes = pos 2;
  memory_total_bytes = pos 8;
  memory_percent = finite (pos 25);
}

a_quarter : memory_values {F = ℤ} (int_value (pos 2)) (int_value (pos 8)) ≡ ok (some quarter)
unfolding memory_values ttop_desk.Gpu.Base.finite_number ttop_desk.Python.Runtime.to_float
    ttop_desk.Gpu.Base.memory_between ttop_desk.Gpu.Base.memory_of ttop_desk.Gpu.Base.float_of clamp
    ttop_desk.Python.Runtime.lt_float ttop_desk.Prelude.◌*ℤ◌
a_quarter = refl

pub constructed : (nvidia_nvml_provider (ok small_library) 0).0 ≡ ok ready
unfolding nvidia_nvml_provider ttop_desk.Gpu.Nvidia.Init.start
    ttop_desk.Gpu.Nvidia.Init.bind_required ttop_desk.Gpu.Nvidia.Init.bind
    ttop_desk.Gpu.Nvidia.Init.bind_shutdown ttop_desk.Gpu.Nvidia.Init.bind_count
    ttop_desk.Gpu.Nvidia.Init.bind_handle ttop_desk.Gpu.Nvidia.Init.initialize_result
    ttop_desk.Gpu.Nvidia.Init.bind_optional ttop_desk.Gpu.Nvidia.Init.optional_bind
constructed = refl

second_device : snapshot {F = ℤ} ready 0 ≡ (
  ok (
      record {
        index = 1;
        name = text "RTX";
        utilization_percent = none;
        memory = some quarter;
        temperature_celsius = none;
      }
      ∷ []),
  0,
)
unfolding ttop_desk.Gpu.Nvidia.snapshot ttop_desk.Gpu.Nvidia.devices_from
    ttop_desk.Gpu.Nvidia.device_handle ttop_desk.Gpu.Nvidia.device_count
    ttop_desk.Gpu.Nvidia.device_entry ttop_desk.Gpu.Nvidia.device_name
    ttop_desk.Gpu.Nvidia.utilization ttop_desk.Gpu.Nvidia.memory ttop_desk.Gpu.Nvidia.temperature
    ttop_desk.Gpu.Nvidia.c_string ttop_desk.Python.Strings.decode_utf8_replace
    ttop_desk.Python.Strings.strip ttop_desk.Gpu.Base.percentage
    ttop_desk.Gpu.Base.temperature_celsius ttop_desk.Gpu.Base.finite_number
    ttop_desk.Python.Runtime.to_float ttop_desk.Gpu.Base.memory_values
    ttop_desk.Gpu.Base.memory_between ttop_desk.Gpu.Base.memory_of ttop_desk.Gpu.Base.float_of
    ttop_desk.Gpu.Base.clamp ttop_desk.Python.Runtime.lt_float ttop_desk.Prelude.◌*ℤ◌
second_device = refl

pub ready-IsReady : IsReady ready
ready-IsReady =
    (refl, refl, refl, ((count_shutdown, refl), (two_devices, refl), (second_only, refl)))

memory_values_bounded_example : IsMemoryValues {F = ℤ} quarter
memory_values_bounded_example =
    memory_values_bounded (int_value (pos 2)) (int_value (pos 8)) quarter a_quarter

nvidia_snapshot_returns_example :
    (es : List (GpuEntry ℤ)) × ((snapshot {F = ℤ} ready 0).0 ≡ ok es)
    × IsDevices {F = ℤ} 0 (2 ^ 32) es
nvidia_snapshot_returns_example = nvidia_snapshot_returns ℤ ready 0

nvidia_nvml_provider_outcome_example : IsReady ready ⊎ IsFailed ready
nvidia_nvml_provider_outcome_example =
    nvidia_nvml_provider_outcome (ok small_library) 0 ready constructed

-- Asked, shut down, and asked again.
abbrev three_operations : List Operation
three_operations = ask ∷ shut ∷ ask ∷ []

provider-Refines_example :
    Refines ℤ ℕ (snapshot ready) (λ v. (count_shutdown v).1) three_operations ready opened 0
provider-Refines_example = provider-Refines ℤ ℕ ready count_shutdown three_operations 0 refl refl
