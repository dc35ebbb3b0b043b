-- ===== src/Metrics.antt =====
-- backend/ttop_backend/metrics.py: the replies that are made of the process sampler and the GPU provider.
pub mod Laws
pub mod Replies
pub mod Encodes
pub mod Tests
use ttop_desk.Prelude.{
  ℕ, ◌+◌, ◌-◌, suc, Option, none, some, List, [], ◌∷◌, ◌++◌, map, Text, text, ℤ, pos, negsuc, take,
  length,
}
use ttop_desk.Python.Exceptions.{Result, ok, err, ◌>>=◌}
use ttop_desk.Python.Runtime.{Float, finite, Runtime}
use ttop_desk.Json.{Json, null, int, float, str, arr, obj, to_fields, to_items}
use ttop_desk.Protocol.{JsonDict, Factory, protocol_version}
use ttop_desk.Processes.Entry.{Processes, Entry}
use ttop_desk.Processes.Order.{sort_process_entries}
use ttop_desk.Processes.Sampler.{ProcessSampler}
use ttop_desk.Processes.Sampler.{snapshot as process_snapshot}
use ttop_desk.Gpu.Base.{MemoryValues}
use ttop_desk.Gpu.Nvidia.{NvidiaNvmlProvider, GpuEntry, shutdown}
use ttop_desk.Gpu.Nvidia.{snapshot as gpu_snapshot}

-- A key that is set only where there is a value.
abbrev pub optional : {F A : Type 0} → Text → (A → Json F) → Option A → JsonDict F
optional key f none = []
optional key f (some a) = (key, f a) ∷ []

module _ {F : Type 0} where
  -- the dict that `normalize_process` builds
  unfoldable pub entry_dict : Entry F → JsonDict F
  entry_dict e =
      (text "pid", int e.pid)
      ∷ (optional (text "name") str e.name
          ++ (optional (text "username") str e.username
              ++ (optional (text "memoryBytes") int e.memory_bytes
                  ++ optional (text "cpuPercent") (λ a. float (finite a)) e.cpu_percent)))

  -- the dict that `memory_values` returns
  unfoldable pub memory_dict : Option (MemoryValues F) → JsonDict F
  memory_dict none = []
  memory_dict (some m) =
      (text "memoryUsedBytes", int m.memory_used_bytes)
      ∷ (text "memoryTotalBytes", int m.memory_total_bytes)
      ∷ (text "memoryPercent", float m.memory_percent)
      ∷ []

  -- the dict of a device in `NvidiaNvmlProvider.snapshot`
  unfoldable pub gpu_dict : GpuEntry F → JsonDict F
  gpu_dict e =
      (text "index", int (pos e.index))
      ∷ (text "name", str e.name)
      ∷ (optional (text "utilizationPercent") (λ a. float (finite a)) e.utilization_percent
          ++ (memory_dict e.memory
              ++ optional (text "temperatureCelsius") (λ a. float (finite a))
                  e.temperature_celsius))

  abbrev pub dicts : {A : Type 0} → (A → JsonDict F) → List A → Json F
  dicts f xs = arr (to_items (map (λ x. obj (to_fields (f x))) xs))

-- `xs[:limit]`
unfoldable pub slice : {A : Type 0} → ℤ → List A → List A
slice (pos k) xs = take k xs
slice (negsuc k) xs = take (length xs - suc k) xs

-- What the surroundings give one request: `time.monotonic()`, `process_iter(...)` and `time.time()`.
pub record Readings (F : Type 0) : Type 0 where
  pub sampled_at : Float F
  pub processes : Processes F
  pub timestamp : Float F

-- `MetricsCollector`, with the state of the NVIDIA library
pub record MetricsCollector (F W : Type 0) : Type 0 where
  pub process_sampler : ProcessSampler F
  pub gpu_provider : NvidiaNvmlProvider W
  pub library_state : W

module _ {F : Type 0} where
  -- `except Exception: entries = []`
  abbrev pub or_no_devices : Result (List (GpuEntry F)) → List (GpuEntry F)
  or_no_devices (ok entries) = entries
  or_no_devices (err _) = []

module _ {F : Type 0} (r : Readings F) where
  abbrev pub processes_dict : Text → ℤ → List (Entry F) → JsonDict F
  processes_dict sort_by limit entries =
      (text "status", str (text "ok"))
      ∷ (text "version", int protocol_version)
      ∷ (text "timestamp", float r.timestamp)
      ∷ (text "sort", str sort_by)
      ∷ (text "limit", int limit)
      ∷ (text "processes", dicts entry_dict entries)
      ∷ []

  -- what `processes` makes of the sampled entries
  unfoldable pub processes_reply : ⦃n : Runtime F⦄ → Text → ℤ → List (Entry F) → Result (JsonDict F)
  processes_reply sort_by limit sampled_entries = do
    entries ← sort_process_entries sampled_entries sort_by
    ok (processes_dict sort_by limit (slice limit entries))

module _ {F W : Type 0} ⦃n : Runtime F⦄ (r : Readings F) where
  unfoldable pub snapshot : Factory (MetricsCollector F W) F
  snapshot c =
      let (sampled, sampler) = process_snapshot c.process_sampler r.sampled_at r.processes none in
      (
        sampled >>= λ entries. ok (
            (text "version", int protocol_version)
            ∷ (text "timestamp", float r.timestamp)
            ∷ (text "processes", dicts entry_dict entries)
            ∷ (text "gpu", null)
            ∷ []),
        record c { process_sampler = sampler },
      )

  unfoldable pub processes : Text → ℤ → Factory (MetricsCollector F W) F
  processes sort_by limit c =
      let (sampled, sampler) =
        process_snapshot c.process_sampler r.sampled_at r.processes (some sort_by) in
      (sampled >>= processes_reply r sort_by limit, record c { process_sampler = sampler })

  unfoldable pub gpu : Factory (MetricsCollector F W) F
  gpu c =
      let (entries, w) = gpu_snapshot c.gpu_provider c.library_state in
      (
        ok (
            (text "status", str (text "ok"))
            ∷ (text "version", int protocol_version)
            ∷ (text "timestamp", float r.timestamp)
            ∷ (text "gpus", dicts gpu_dict (or_no_devices entries))
            ∷ []),
        record c { library_state = w },
      )

module _ {F W : Type 0} where
  unfoldable pub close : MetricsCollector F W → MetricsCollector F W
  close c =
      let (provider, w) = shutdown c.gpu_provider c.library_state in
      record c { gpu_provider = provider; library_state = w }
