-- ===== src/Gpu/Nvidia/Init.antt =====
-- `NvidiaNvmlProvider.__init__`: the library is loaded, its symbols are bound, and it is initialised.
use ttop_desk.Prelude.{
  true, false, Option, none, some, List, [], ◌∷◌, text, ℤ, eqb_ℤ, if◌then◌else◌,
}
use ttop_desk.Python.Exceptions.{Result, ok, err, attribute_error, os_error}
use ttop_desk.Gpu.Nvidia.{Call, Nvml, NvidiaNvmlProvider, nvml_success}

-- `_bind`: the first of the names that the library has
unfoldable pub bind : {L A : Type 0} → Option L → List (L → Option A) → Result A
bind none names = err attribute_error
bind (some library) [] = err attribute_error
bind (some library) (name ∷ names) = elim (name library) [
  | none ↦ bind (some library) names
  | some function ↦ ok function
]

-- `_optional_bind`
unfoldable pub optional_bind : {L A : Type 0} → Option L → List (L → Option A) → Option A
optional_bind library names = elim (bind library names) [
  | ok function ↦ some function
  | err attribute_error ↦ none
  | err _ ↦ none
]

module _ {W : Type 0} where
  abbrev pub empty_provider : NvidiaNvmlProvider W
  empty_provider = record {
    available = false;
    failure_reason = text "library_unavailable";
    library = none;
    initialized = false;
    shutdown_function = none;
    count_function = none;
    handle_function = none;
    name_function = none;
    utilization_function = none;
    memory_function = none;
    temperature_function = none;
  }

  -- the required symbols, in order; what is bound before one is missing stays bound
  unfoldable pub bind_handle :
      NvidiaNvmlProvider W → Call W Unit → Option (Call W Unit) × NvidiaNvmlProvider W
  bind_handle p initialize =
      elim (bind p.library
        ((λ l. l.device_get_handle_by_index_v2) ∷ (λ l. l.device_get_handle_by_index) ∷ [])) [
          | err e ↦ (none, p)
          | ok function ↦ (some initialize, record p { handle_function = some function })
        ]

  unfoldable pub bind_count :
      NvidiaNvmlProvider W → Call W Unit → Option (Call W Unit) × NvidiaNvmlProvider W
  bind_count p initialize =
      elim (bind p.library ((λ l. l.device_get_count_v2) ∷ (λ l. l.device_get_count) ∷ [])) [
        | err e ↦ (none, p)
        | ok function ↦ bind_handle (record p { count_function = some function }) initialize
      ]

  unfoldable pub bind_shutdown :
      NvidiaNvmlProvider W → Call W Unit → Option (Call W Unit) × NvidiaNvmlProvider W
  bind_shutdown p initialize = elim (bind p.library ((λ l. l.shutdown) ∷ [])) [
    | err e ↦ (none, p)
    | ok function ↦ bind_count (record p { shutdown_function = some function }) initialize
  ]

  -- `nvmlInit`, or `none` where a required symbol is missing
  unfoldable pub bind_required : NvidiaNvmlProvider W → Option (Call W Unit) × NvidiaNvmlProvider W
  bind_required p = elim (bind p.library ((λ l. l.init_v2) ∷ (λ l. l.init) ∷ [])) [
    | err e ↦ (none, p)
    | ok initialize ↦ bind_shutdown p initialize
  ]

  unfoldable pub bind_optional : NvidiaNvmlProvider W → NvidiaNvmlProvider W
  bind_optional p = record p {
    name_function = optional_bind p.library ((λ l. l.device_get_name) ∷ []);
    utilization_function = optional_bind p.library ((λ l. l.device_get_utilization_rates) ∷ []);
    memory_function = optional_bind p.library ((λ l. l.device_get_memory_info) ∷ []);
    temperature_function = optional_bind p.library ((λ l. l.device_get_temperature) ∷ []);
  }

  unfoldable pub initialize_result :
      NvidiaNvmlProvider W → Result {0} (ℤ × Unit {0}) × W → NvidiaNvmlProvider W × W
  initialize_result p (err e, w) = (record p { failure_reason = text "initialization_failed" }, w)
  initialize_result p (ok (result, _), w) =
      if eqb_ℤ result nvml_success
      then (record p { initialized = true; available = true; failure_reason = [] }, w)
      else (record p { failure_reason = text "initialization_failed" }, w)

  unfoldable pub start : Option (Call W Unit) × NvidiaNvmlProvider W → W → NvidiaNvmlProvider W × W
  start (none, p) w = (record p { failure_reason = text "required_symbol_unavailable" }, w)
  start (some initialize, p) w = initialize_result (bind_optional p) (initialize w)

  -- `__init__`, given what `library_loader` returned or raised
  unfoldable pub nvidia_nvml_provider : Result (Nvml W) → W → Result (NvidiaNvmlProvider W) × W
  nvidia_nvml_provider (err os_error) w = (ok empty_provider, w)
  nvidia_nvml_provider (err attribute_error) w = (ok empty_provider, w)
  nvidia_nvml_provider (err e) w = (err e, w)
  nvidia_nvml_provider (ok library) w =
      let (p, w') = start (bind_required (record empty_provider { library = some library })) w in
      (ok p, w')
