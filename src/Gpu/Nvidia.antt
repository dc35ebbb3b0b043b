-- ===== src/Gpu/Nvidia.antt =====
-- backend/ttop_backend/gpu/nvidia.py: the provider over NVIDIA's library, which acts on a state `W`.
pub mod Init
pub mod Devices
pub mod Laws
pub mod Lifecycle
pub mod Sessions
use ttop_desk.Prelude.{
  ℕ, suc, zero, ◌%◌, ◌^◌, Bool, true, false, not, ◌&&◌, ◌||◌, Option, none, some, List, [], ◌∷◌,
  ◌==◌, Text, text, ℤ, pos, eqb_ℤ, take, if◌then◌else◌,
}
use ttop_desk.Python.Exceptions.{Exception, Result, ok, err, attribute_error, os_error, ◌>>=◌}
use ttop_desk.Python.Actions.{and_then}
use ttop_desk.Python.Runtime.{Runtime, int_value}
use ttop_desk.Python.Strings.{decode_utf8_replace, strip, is_empty}
use ttop_desk.Gpu.Base.{MemoryValues, percentage, temperature_celsius, memory_values}

abbrev pub nvml_success : ℤ
nvml_success = pos 0

abbrev pub nvml_temperature_gpu : ℕ
nvml_temperature_gpu = 0

abbrev pub nvml_device_name_buffer_size : ℕ
nvml_device_name_buffer_size = 96

-- What a `c_uint` and a `c_ulonglong` hold.
abbrev pub c_uint : ℕ → ℕ
c_uint v = v % 2 ^ 32

abbrev pub c_ulonglong : ℕ → ℕ
c_ulonglong v = v % 2 ^ 64

-- A call of the library: its return code and what it writes, or what it raises.
abbrev pub Call : Type 0 → Type 0 → Type 0
Call W A = W → Result (ℤ × A) × W

-- `NvmlUtilization` and `NvmlMemory`, before the fields cut what is written
pub record NvmlUtilization : Type 0 where
  pub gpu : ℕ
  pub memory : ℕ

pub record NvmlMemory : Type 0 where
  pub total : ℕ
  pub free : ℕ
  pub used : ℕ

-- The library's symbols; one that it does not have is `none`. A handle is a pointer, where 0 is null.
pub record Nvml (W : Type 0) : Type 0 where
  pub init_v2 : Option (Call W Unit)
  pub init : Option (Call W Unit)
  pub shutdown : Option (Call W Unit)
  pub device_get_count_v2 : Option (Call W ℕ)
  pub device_get_count : Option (Call W ℕ)
  pub device_get_handle_by_index_v2 : Option (ℕ → Call W ℕ)
  pub device_get_handle_by_index : Option (ℕ → Call W ℕ)
  -- the handle, and the size of the buffer
  pub device_get_name : Option (ℕ → ℕ → Call W (List ℕ))
  pub device_get_utilization_rates : Option (ℕ → Call W NvmlUtilization)
  pub device_get_memory_info : Option (ℕ → Call W NvmlMemory)
  -- the handle, and the sensor
  pub device_get_temperature : Option (ℕ → ℕ → Call W ℕ)

pub record NvidiaNvmlProvider (W : Type 0) : Type 0 where
  pub available : Bool
  pub failure_reason : Text
  pub library : Option (Nvml W)
  pub initialized : Bool
  pub shutdown_function : Option (Call W Unit)
  pub count_function : Option (Call W ℕ)
  pub handle_function : Option (ℕ → Call W ℕ)
  pub name_function : Option (ℕ → ℕ → Call W (List ℕ))
  pub utilization_function : Option (ℕ → Call W NvmlUtilization)
  pub memory_function : Option (ℕ → Call W NvmlMemory)
  pub temperature_function : Option (ℕ → ℕ → Call W ℕ)

-- The dict of a device; the absent keys are `none`.
pub record GpuEntry (F : Type 0) : Type 0 where
  pub index : ℕ
  pub name : Text
  pub utilization_percent : Option F
  pub memory : Option (MemoryValues F)
  pub temperature_celsius : Option F

-- `buffer.value`: the bytes before the first NUL
unfoldable pub c_string : List ℕ → List ℕ
c_string [] = []
c_string (b ∷ bs) = if b == 0 then [] else b ∷ c_string bs

-- `name or "NVIDIA GPU"`
abbrev pub or_default : Text → Text
or_default [] = text "NVIDIA GPU"
or_default (c ∷ cs) = c ∷ cs

-- What a call leaves to its caller: nothing where it raises or does not return NVML_SUCCESS.
abbrev pub answered : {A W : Type 0} → Result (ℤ × A) × W → Option A × W
answered (err e, w) = (none, w)
answered (ok (result, a), w) = (if eqb_ℤ result nvml_success then some a else none, w)

-- The same for a function that may not be bound.
abbrev pub called : {A W : Type 0} → Option (Call W A) → W → Option A × W
called none w = (none, w)
called (some f) w = answered (f w)

abbrev pub applied : {A B : Type 0} → A → Option (A → B) → Option B
applied a none = none
applied a (some f) = some (f a)

module _ {W : Type 0} where
  unfoldable pub device_count : NvidiaNvmlProvider W → W → Option ℕ × W
  device_count p w =
      if not p.initialized
      then (none, w)
      else let (count, w') = called p.count_function w in
        (elim count [ none ↦ none | some v ↦ some (c_uint v) ], w')

  -- a null handle is no handle
  unfoldable pub device_handle : NvidiaNvmlProvider W → ℕ → W → Option ℕ × W
  device_handle p index w =
      let (handle, w') = called (applied (c_uint index) p.handle_function) w in
      (elim handle [ none ↦ none | some h ↦ if h == 0 then none else some h ], w')

  unfoldable pub device_name : NvidiaNvmlProvider W → ℕ → W → Text × W
  device_name p handle w =
      let (buffer, w') =
        called (applied nvml_device_name_buffer_size (applied handle p.name_function)) w in
      (
        elim buffer [
          | none ↦ text "NVIDIA GPU"
          | some bytes ↦
              or_default
                (strip (decode_utf8_replace (c_string (take nvml_device_name_buffer_size bytes))))
        ],
        w',
      )

module _ {F W : Type 0} ⦃n : Runtime F⦄ where
  unfoldable pub utilization : NvidiaNvmlProvider W → ℕ → W → Result (Option F) × W
  utilization p handle w =
      let (values, w') = called (applied handle p.utilization_function) w in
      (elim values [ none ↦ ok none | some v ↦ percentage (int_value (pos (c_uint v.gpu))) ], w')

  unfoldable pub memory : NvidiaNvmlProvider W → ℕ → W → Result (Option (MemoryValues F)) × W
  memory p handle w =
      let (values, w') = called (applied handle p.memory_function) w in
      (
        elim values [
          | none ↦ ok none
          | some v ↦
              memory_values (int_value (pos (c_ulonglong v.used)))
                (int_value (pos (c_ulonglong v.total)))
        ],
        w',
      )

  unfoldable pub temperature : NvidiaNvmlProvider W → ℕ → W → Result (Option F) × W
  temperature p handle w =
      let (value, w') =
        called (applied nvml_temperature_gpu (applied handle p.temperature_function)) w in
      (
        elim value [ none ↦ ok none | some v ↦ temperature_celsius (int_value (pos (c_uint v))) ],
        w',
      )

  -- the dict of one device, its queries in order
  unfoldable pub device_entry : NvidiaNvmlProvider W → ℕ → ℕ → W → Result (GpuEntry F) × W
  device_entry p index handle w =
      let (name, w1) = device_name p handle w in
      and_then (utilization p handle w1) λ u w2. and_then (memory p handle w2) λ m w3.
        and_then (temperature p handle w3) λ t w4. (
          ok (record {
            index = index;
            name = name;
            utilization_percent = u;
            memory = m;
            temperature_celsius = t;
          }),
          w4,
        )

  -- `for index in range(count)`, with `left` rounds to go; a device without a handle is passed over
  unfoldable pub devices_from : NvidiaNvmlProvider W → ℕ → ℕ → W → Result (List (GpuEntry F)) × W
  devices_from p index zero w = (ok [], w)
  devices_from p index (suc left) w =
      let (handle, w1) = device_handle p index w in
      elim handle [
        | none ↦ devices_from p (suc index) left w1
        | some h ↦ and_then (device_entry p index h w1) λ entry w2.
            and_then (devices_from p (suc index) left w2) λ rest w3. (ok (entry ∷ rest), w3)
      ]

  unfoldable pub snapshot : NvidiaNvmlProvider W → W → Result (List (GpuEntry F)) × W
  snapshot p w =
      let (count, w') = device_count p w in
      elim count [ none ↦ (ok [], w') | some total ↦ devices_from p 0 total w' ]

module _ {W : Type 0} where
  abbrev pub closed : NvidiaNvmlProvider W → NvidiaNvmlProvider W
  closed p = record p { initialized = false; available = false }

  -- `shutdown`: whatever the library does, it is called once
  unfoldable pub shutdown : NvidiaNvmlProvider W → W → NvidiaNvmlProvider W × W
  shutdown p w =
      if not p.initialized
      then (p, w)
      else elim p.shutdown_function [ none ↦ (p, w) | some f ↦ (closed p, (f w).1) ]
