-- ===== src/Server/Lifetime.antt =====
-- backend/ttop_backend/main.py: the server from its construction to the exit status of `main`.
pub mod Laws
use ttop_desk.Prelude.{ℕ, Bool, true, false, not, Option, none, some, List, ℤ, pos}
use ttop_desk.Python.Exceptions.{Exception, runtime_error, Result, ok, err, raise_if, ◌>>=◌, ◌>>◌}
use ttop_desk.Python.Runtime.{Runtime}
use ttop_desk.Gpu.Nvidia.{Nvml, NvidiaNvmlProvider}
use ttop_desk.Gpu.Nvidia.Init.{nvidia_nvml_provider}
use ttop_desk.Processes.Sampler.{process_sampler}
use ttop_desk.Metrics.{MetricsCollector}
use ttop_desk.Server.{SocketFile, Probe, remove_stale_socket, Turn, serve_loop, stop_serving}

-- `prepare_socket_parent`, over what `mkdir` raises and whether the parent is then a directory
unfoldable pub prepare_socket_parent : Result (Unit {0}) → Bool → Result (Unit {0})
prepare_socket_parent made is_directory = do made; raise_if (not is_directory) runtime_error

-- What the start of `serve_forever` meets, in the order of its calls.
pub record Startup : Type 0 where
  -- `parent.mkdir(...)` and `parent.is_dir()`
  pub made : Result (Unit {0})
  pub is_directory : Bool
  -- what stands at the path, and the connection to it
  pub file : SocketFile
  pub probe : Probe
  -- `socket.socket(...)`
  pub created : Result (Unit {0})
  -- `bind`, `os.chmod`, and `listen` with `settimeout`
  pub bound : Result (Unit {0})
  pub permitted : Result (Unit {0})
  pub listening : Result (Unit {0})

-- The start within the `try`.
unfoldable pub start_listening : Startup → Result (Unit {0})
start_listening s = do s.bound; s.permitted; s.listening

-- `socket.socket(...)` after `remove_stale_socket`
unfoldable pub create_socket :
    Result (Unit {0}) → Result (Unit {0}) × SocketFile → Result (Unit {0}) × SocketFile
create_socket created (err e, file) = (err e, file)
create_socket created (ok _, file) = (created, file)

-- The start before the `try`, with what is then at the path.
unfoldable pub claim_path : ℤ → Startup → Result (Unit {0}) × SocketFile
claim_path uid s = elim (prepare_socket_parent s.made s.is_directory) [
  | err e ↦ (err e, s.file)
  | ok _ ↦ create_socket s.created (remove_stale_socket uid s.probe s.file)
]

-- `create_gpu_provider` and `MetricsCollector()`, as `BackendServer.__init__` calls them: 512 is
-- DEFAULT_PROCESS_LIMIT
unfoldable pub create_gpu_provider :
    {W : Type 0} → Result (Nvml W) → W → Result (NvidiaNvmlProvider W) × W
create_gpu_provider = nvidia_nvml_provider

unfoldable pub backend_server :
    (F : Type 0) {W : Type 0} → Result (Nvml W) → W → Result (MetricsCollector F W)
backend_server F loaded w =
    let (created, w') = create_gpu_provider loaded w in
    created >>= λ provider. ok (record {
      process_sampler = process_sampler (pos 512);
      gpu_provider = provider;
      library_state = w';
    })

-- What a run of the server leaves: how `serve_forever` ends, or `none` while it runs; what is at
-- the path; and the collector.
pub record Served (F W : Type 0) : Type 0 where
  pub outcome : Option (Result (Unit {0}))
  pub file : SocketFile
  pub collector : MetricsCollector F W

-- The exit status of `main`: only a RuntimeError is caught.
unfoldable pub exit_status : Result (Unit {0}) → Result ℕ
exit_status (ok _) = ok 0
exit_status (err runtime_error) = ok 1
exit_status (err e) = err e

module _ {F W : Type 0} ⦃n : Runtime F⦄ where
  -- `finally`, once the `try` has ended in this way; `file` is then at the path
  unfoldable pub finally_stop :
      ℤ → SocketFile → Option (Result (Unit {0})) → MetricsCollector F W → Served F W
  finally_stop uid file none c = record { outcome = none; file = file; collector = c }
  finally_stop uid file (some r) c =
      let (left, closed) = stop_serving uid file c in
      record { outcome = some r; file = left; collector = closed }

  -- The `try`: nothing is served unless the socket listens. `file` is at the path at its end.
  unfoldable pub serve_bound :
      ℤ → Result (Unit {0}) → SocketFile → List (Turn F) → MetricsCollector F W → Served F W
  serve_bound uid (err e) file turns c = finally_stop uid file (some (err e)) c
  serve_bound uid (ok _) file turns c =
      let (outcome, c') = serve_loop uid turns c in finally_stop uid file outcome c'

  -- What follows the start before the `try`.
  unfoldable pub serve_claimed :
      ℤ
      → Startup
      → SocketFile
      → List (Turn F)
      → MetricsCollector F W
      → Result (Unit {0}) × SocketFile
      → Served F W
  serve_claimed uid s file turns c (err e, left) = record {
    outcome = some (err e);
    file = left;
    collector = c;
  }
  serve_claimed uid s file turns c (ok _, left) = serve_bound uid (start_listening s) file turns c

  unfoldable pub serve_forever :
      ℤ → Startup → SocketFile → List (Turn F) → MetricsCollector F W → Served F W
  serve_forever uid s file turns c = serve_claimed uid s file turns c (claim_path uid s)

-- The exit status of an end, if there is one.
unfoldable pub status_of : Option (Result (Unit {0})) → Option (Result ℕ)
status_of none = none
status_of (some r) = some (exit_status r)

-- `main` with its server, or with the exception of its construction
unfoldable pub main :
    {F W : Type 0} ⦃n : Runtime F⦄
    → ℤ
    → Result (MetricsCollector F W)
    → Startup
    → SocketFile
    → List (Turn F)
    → Option (Result ℕ)
main uid (err e) s file turns = some (err e)
main uid (ok c) s file turns = status_of (serve_forever uid s file turns c).outcome
