-- ===== src/Server/Tests.antt =====
-- The theorems on the server, at concrete clients and paths.
use ttop_desk.Prelude.{
  ℕ, ◌≤◌, ◌≡◌, ◌≢◌, refl, ◌⊎◌, inl, true, false, some, List, [], ◌∷◌, ◌++◌, text, ℤ, pos, length,
  Lacks, arith,
}
use ttop_desk.Python.Exceptions.{Exception, Result, ok, err, os_error, runtime_error}
use ttop_desk.Python.Runtime.Integers.{integers}
use ttop_desk.Metrics.Tests.{two_readings, collector}
use ttop_desk.Server.{
  Incoming, timed_out, chunk, before_newline, read_request, read_from, absent, present, connected,
  refused, remove_stale_socket, stop_serving, Connection, send, serve_client, nobody, broken,
  client, Turn, serve_loop,
}
use ttop_desk.Server.Reading.{stream, read_request_line, read_request_bounded}
use ttop_desk.Server.Paths.{IsStale, IsGone, remove_stale_socket_outcome}
use ttop_desk.Gpu.Tests.{ready, small_library, ready-IsReady}
use ttop_desk.Processes.Sampler.{process_sampler}
use ttop_desk.Metrics.{MetricsCollector}
use ttop_desk.Server.Lifetime.{
  Startup, backend_server, claim_path, start_listening, serve_forever, main,
}
use ttop_desk.Server.Lifetime.Laws.{IsReleased, serve_forever_releases, main_stops, main_refuses}
use ttop_desk.Server.Clients.{IsOrdinary, IsQuiet, serve_loop_survives}

-- A request in two pieces, with something behind it.
abbrev two_pieces : Incoming
two_pieces = chunk (text "{\"com") (chunk (text "mand\":\"ping\"}\nmore") timed_out)

one_line : before_newline (stream two_pieces) ≡ some (text "{\"command\":\"ping\"}")
unfolding before_newline stream
one_line = refl

cut_off : read_request (chunk (text "ab") timed_out) ≡ ok (text "ab")
unfolding read_request read_from before_newline
cut_off = refl

abbrev gone : List ℕ → Result {0} (Unit {0})
gone line = err os_error

abbrev visitor : Connection ℤ
visitor = record {
  peer_uid = some (ok (pos 1000));
  incoming = two_pieces;
  sendall = gone;
  readings = two_readings;
}

gone_raises : (line : List ℕ) (e : Exception) → gone line ≡ err e → e ≡ os_error
gone_raises line e h = ground arith

peer_returns : (e : Exception) → ◌≡◌ {A = Result ℤ} (ok (pos 1000)) (err e) → e ≡ os_error
peer_returns e h = cc

pieces_read :
    (e : Exception) (request : List ℕ) → read_from request two_pieces ≡ err e → e ≡ os_error
unfolding read_from
pieces_read e request h = ground arith

visitor-IsOrdinary : IsOrdinary visitor
visitor-IsOrdinary = record {
  time = pos 1700;
  time_known = refl;
  peer_raises = peer_returns;
  recv_raises = pieces_read;
  sendall_raises = gone_raises;
}

abbrev turns : List (Turn ℤ)
turns =
    record { stopped = false; accepted = client visitor }
    ∷ record { stopped = false; accepted = nobody }
    ∷ record { stopped = false; accepted = broken os_error true }
    ∷ []

read_request_line_example : read_request two_pieces ≡ ok (text "{\"command\":\"ping\"}")
read_request_line_example =
    read_request_line two_pieces (text "{\"command\":\"ping\"}") one_line (omega arith)

read_request_bounded_example : (length (text "ab") ≤ 4097) × Lacks 10 (text "ab")
read_request_bounded_example =
    read_request_bounded (chunk (text "ab") timed_out) (text "ab") (omega arith, tt) cut_off

remove_stale_socket_outcome_example :
    (((present true (pos 5) ≡ absent) ⊎ IsStale (pos 5) (refused (some 2)) (present true (pos 5)))
      × (remove_stale_socket (pos 5) (refused (some 2)) (present true (pos 5)) ≡ (ok tt, absent)))
    ⊎ (IsGone (pos 5) (refused (some 2)) (present true (pos 5))
        × (remove_stale_socket (pos 5) (refused (some 2)) (present true (pos 5))
            ≡ (err os_error, absent)))
    ⊎ ((present true (pos 5) ≢ absent)
        × (¬ IsStale (pos 5) (refused (some 2)) (present true (pos 5)))
        × (¬ IsGone (pos 5) (refused (some 2)) (present true (pos 5)))
        × (remove_stale_socket (pos 5) (refused (some 2)) (present true (pos 5))
            ≡ (err runtime_error, present true (pos 5))))
remove_stale_socket_outcome_example =
    remove_stale_socket_outcome (pos 5) (refused (some 2)) (present true (pos 5))

serve_loop_survives_example : IsQuiet (serve_loop (pos 1000) turns collector).0
serve_loop_survives_example =
    serve_loop_survives (pos 1000) turns collector (visitor-IsOrdinary, (tt, ((refl, refl), tt)))

-- A dead socket is at the path, and everything succeeds.
abbrev startup : Startup
startup = record {
  made = ok tt;
  is_directory = true;
  file = present true (pos 1000);
  probe = refused (some 111);
  created = ok tt;
  bound = ok tt;
  permitted = ok tt;
  listening = ok tt;
}

abbrev first_collector : MetricsCollector ℤ ℕ
first_collector = record {
  process_sampler = process_sampler (pos 512);
  gpu_provider = ready;
  library_state = 0;
}

server_built : backend_server ℤ (ok small_library) 0 ≡ ok first_collector
unfolding backend_server ttop_desk.Server.Lifetime.create_gpu_provider
    ttop_desk.Gpu.Nvidia.Init.nvidia_nvml_provider ttop_desk.Gpu.Nvidia.Init.start
    ttop_desk.Gpu.Nvidia.Init.bind_required ttop_desk.Gpu.Nvidia.Init.bind
    ttop_desk.Gpu.Nvidia.Init.bind_shutdown ttop_desk.Gpu.Nvidia.Init.bind_count
    ttop_desk.Gpu.Nvidia.Init.bind_handle ttop_desk.Gpu.Nvidia.Init.initialize_result
    ttop_desk.Gpu.Nvidia.Init.bind_optional ttop_desk.Gpu.Nvidia.Init.optional_bind
server_built = refl

path_claimed : (claim_path (pos 1000) startup).0 ≡ ok tt
unfolding claim_path ttop_desk.Server.Lifetime.prepare_socket_parent
    ttop_desk.Server.Lifetime.create_socket remove_stale_socket ttop_desk.Server.unlink
path_claimed = refl

socket_listens : start_listening startup ≡ ok tt
unfolding start_listening
socket_listens = refl

abbrev stop_turn : Turn ℤ
stop_turn = record { stopped = true; accepted = nobody }

main_stops_example :
    (main
        (pos 1000)
        (backend_server ℤ (ok small_library) 0)
        startup
        (present true (pos 1000))
        (turns ++ stop_turn ∷ turns)
      ≡ some (ok 0))
    × IsReleased (pos 1000) (present true (pos 1000)) (
        serve_forever
          (pos 1000)
          startup
          (present true (pos 1000))
          (turns ++ stop_turn ∷ turns)
          first_collector)
main_stops_example =
    main_stops (pos 1000) (ok small_library) 0 startup (present true (pos 1000)) turns stop_turn
      turns first_collector server_built path_claimed socket_listens
      (visitor-IsOrdinary, (tt, ((refl, refl), tt))) refl

-- The socket cannot be bound.
abbrev startup_unbound : Startup
startup_unbound = record startup { bound = err os_error }

unbound_claimed : (claim_path (pos 1000) startup_unbound).0 ≡ ok tt
unfolding claim_path ttop_desk.Server.Lifetime.prepare_socket_parent
    ttop_desk.Server.Lifetime.create_socket remove_stale_socket ttop_desk.Server.unlink
unbound_claimed = refl

unbound_raises :
    (serve_forever (pos 1000) startup_unbound absent turns collector).outcome ≡ some (err os_error)
unfolding serve_forever ttop_desk.Server.Lifetime.serve_claimed claim_path
    ttop_desk.Server.Lifetime.prepare_socket_parent ttop_desk.Server.Lifetime.create_socket
    remove_stale_socket ttop_desk.Server.Lifetime.serve_bound start_listening
    ttop_desk.Server.Lifetime.finally_stop ttop_desk.Server.unlink
unbound_raises = refl

serve_forever_releases_example :
    IsReleased (pos 1000) absent (serve_forever (pos 1000) startup_unbound absent turns collector)
serve_forever_releases_example =
    serve_forever_releases (pos 1000) startup_unbound absent turns collector (err os_error)
      (inl ready-IsReady) unbound_claimed unbound_raises

-- Another server is at the path.
abbrev startup_taken : Startup
startup_taken = record startup { probe = connected }

main_refuses_example :
    (main (pos 1000) (ok collector) startup_taken absent turns ≡ some (ok 1))
    × ((serve_forever (pos 1000) startup_taken absent turns collector).file
        ≡ present true (pos 1000))
    × ((serve_forever (pos 1000) startup_taken absent turns collector).collector ≡ collector)
main_refuses_example =
    main_refuses (pos 1000) startup_taken absent turns collector refl refl (λ e. cc) (λ e. cc)
      (λ e. cc)
