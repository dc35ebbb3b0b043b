-- ===== src/Server.antt =====
-- backend/ttop_backend/main.py: the socket's path, a client's connection, and the server's loop.
pub mod Reading
pub mod Locations
pub mod Paths
pub mod Clients
pub mod Ending
pub mod Lifetime
mod Tests
use ttop_desk.Prelude.{
  ℕ, ◌≡◌, Bool, true, false, not, ◌&&◌, ◌||◌, Option, none, some, List, [], ◌∷◌, ◌++◌, ◌==◌, Text,
  text, ℤ, eqb_ℤ, length, leb, if◌then◌else◌,
}
use ttop_desk.Python.Exceptions.{
  Exception, Result, ok, err, os_error, runtime_error, ◌>>=◌, raise_if, ◌>>◌,
}
use ttop_desk.Python.Runtime.{Runtime}
use ttop_desk.Protocol.{
  JsonDict, error_response, encode_response, handle_request, max_request_bytes,
}
use ttop_desk.Metrics.{MetricsCollector, Readings, snapshot, processes, gpu, close}

-- What the calls of `connection.recv` give, one after the other: bytes, where none means that the
-- peer has closed; a timeout; or another exception.
pub data Incoming : Type 0 where
  timed_out : Incoming
  failed : Exception → Incoming
  chunk : List ℕ → Incoming → Incoming

-- `request[:request.find(b"\n")]`, or `none` where there is no newline
unfoldable pub before_newline : List ℕ → Option (List ℕ)
before_newline [] = none
before_newline (b ∷ bs) =
    let rest = before_newline bs in
    if b == 10 then some [] else elim rest [ none ↦ none | some line ↦ some (b ∷ line) ]

-- `_read_request` with the bytes so far
unfoldable pub read_from : List ℕ → Incoming → Result (List ℕ)
read_from request timed_out = ok request
read_from request (failed e) = if leb (length request) max_request_bytes then err e else ok request
read_from request (chunk [] later) = ok request
read_from request (chunk (b ∷ bs) later) =
    let rest = read_from (request ++ b ∷ bs) later in
    if not (leb (length request) max_request_bytes)
    then ok request
    else elim (before_newline (request ++ b ∷ bs)) [ none ↦ rest | some line ↦ ok line ]

unfoldable pub read_request : Incoming → Result (List ℕ)
read_request = read_from []

-- What stands at the path of the socket: `lstat` finds nothing, or a mode and an owner.
pub data SocketFile : Type 0 where
  absent : SocketFile
  present : Bool → ℤ → SocketFile

-- `probe.connect(...)`: it succeeds, or raises an OSError with an errno or without
pub data Probe : Type 0 where
  connected : Probe
  refused : Option ℕ → Probe

abbrev pub econnrefused : ℕ
econnrefused = 111

abbrev pub enoent : ℕ
enoent = 2

-- `error.errno not in {errno.ECONNREFUSED, errno.ENOENT}`, and the `else` of the `try`
abbrev pub is_uncertain : Probe → Bool
is_uncertain connected = true
is_uncertain (refused none) = true
is_uncertain (refused (some errno)) = not (errno == econnrefused || errno == enoent)

-- Nothing is at the path that `connect` has not found.
abbrev pub has_vanished : Probe → Bool
has_vanished (refused (some errno)) = errno == enoent
has_vanished _ = false

-- `path.unlink()`; a FileNotFoundError is an OSError
unfoldable pub unlink : SocketFile → Result (Unit {0}) × SocketFile
unlink absent = (err os_error, absent)
unlink (present is_socket owner) = (ok tt, absent)

unfoldable pub remove_stale_socket : ℤ → Probe → SocketFile → Result (Unit {0}) × SocketFile
remove_stale_socket uid probe absent = (ok tt, absent)
remove_stale_socket uid probe (present is_socket owner) =
    if not is_socket
    then (err runtime_error, present is_socket owner)
    else if not (eqb_ℤ owner uid)
    then (err runtime_error, present is_socket owner)
    else if is_uncertain probe
    then (err runtime_error, present is_socket owner)
    else unlink (if has_vanished probe then absent else present is_socket owner)

unfoldable pub remove_owned_socket : ℤ → SocketFile → SocketFile
remove_owned_socket uid absent = absent
remove_owned_socket uid (present is_socket owner) =
    if is_socket && eqb_ℤ owner uid then absent else present is_socket owner

-- A client: the uid of its `SO_PEERCRED`, where the platform has it, and what it sends; and what
-- `sendall` does with a reply.
pub record Connection (F : Type 0) : Type 0 where
  pub peer_uid : Option (Result ℤ)
  pub incoming : Incoming
  pub sendall : List ℕ → Result (Unit {0})
  pub readings : Readings F

module _ {F : Type 0} where
  unfoldable pub peer_is_current_user : ℤ → Connection F → Result Bool
  peer_is_current_user uid connection = elim connection.peer_uid [
    | none ↦ ok true
    | some peer ↦ peer >>= λ owner. ok (eqb_ℤ owner uid)
  ]

module _ {F : Type 0} ⦃n : Runtime F⦄ where
  -- `connection.sendall(encode_response(...))`: what was handed to the socket
  unfoldable pub send : Connection F → JsonDict F → Result (List ℕ)
  send connection response = do
    line ← encode_response response
    _ ← connection.sendall line
    ok line

module _ {F W : Type 0} ⦃n : Runtime F⦄ where
  -- the reply's dict, once the request is read
  unfoldable pub answer :
      Connection F → List ℕ → MetricsCollector F W → JsonDict F × MetricsCollector F W
  answer connection request =
      handle_request request (snapshot connection.readings) (some (processes connection.readings))
        (some (gpu connection.readings))

  -- the end of `_serve_client`, after the request is read
  unfoldable pub serve_request :
      Connection F → Result (List ℕ) → MetricsCollector F W → Result (List ℕ) × MetricsCollector F W
  serve_request connection (err e) c = (err e, c)
  serve_request connection (ok request) c =
      let (response, c') = answer connection request c in (send connection response, c')

  -- the rest of `_serve_client`, after the peer is known
  unfoldable pub serve_peer :
      Connection F → Result Bool → MetricsCollector F W → Result (List ℕ) × MetricsCollector F W
  serve_peer connection (err e) c = (err e, c)
  serve_peer connection (ok false) c =
      (send connection (error_response (text "permission_denied")), c)
  serve_peer connection (ok true) c = serve_request connection (read_request connection.incoming) c

  -- `_serve_client`, less its logging; the value is what was sent
  unfoldable pub serve_client :
      ℤ → Connection F → MetricsCollector F W → Result (List ℕ) × MetricsCollector F W
  serve_client uid connection = serve_peer connection (peer_is_current_user uid connection)

-- What `accept` does in one turn of the loop. After an OSError the stop event is read once more.
pub data Accepted (F : Type 0) : Type 0 where
  nobody : Accepted F
  broken : Exception → Bool → Accepted F
  client : Connection F → Accepted F

-- A turn of the loop: the stop event as it is at the top, and `accept`.
pub record Turn (F : Type 0) : Type 0 where
  pub stopped : Bool
  pub accepted : Accepted F

abbrev pub is_os_error : Exception → Bool
is_os_error os_error = true
is_os_error _ = false

-- `except (BrokenPipeError, ConnectionError, TimeoutError, OSError)`: the exception that goes on
abbrev pub escaping : {A : Type 0} → Result A → Option Exception
escaping (ok _) = none
escaping (err e) = if is_os_error e then none else some e

module _ {F W : Type 0} ⦃n : Runtime F⦄ where
  -- one turn of the `while` loop; `continue_with` is the rest of the loop
  abbrev pub serve_turn :
      ℤ
      → Bool
      → Accepted F
      → (MetricsCollector F W → Option (Result (Unit {0})) × MetricsCollector F W)
      → MetricsCollector F W
      → Option (Result (Unit {0})) × MetricsCollector F W
  serve_turn uid true accepted continue_with c = (some (ok tt), c)
  serve_turn uid false nobody continue_with c = continue_with c
  serve_turn uid false (broken e stopped) continue_with c =
      (some (if is_os_error e && stopped then ok tt else err e), c)
  serve_turn uid false (client connection) continue_with c =
      let (sent, c') = serve_client uid connection c in
      elim (escaping sent) [ none ↦ continue_with c' | some e ↦ (some (err e), c') ]

  -- the `while` loop over the turns of one run: how it ends, or `none` while it runs
  unfoldable pub serve_loop :
      ℤ → List (Turn F) → MetricsCollector F W → Option (Result (Unit {0})) × MetricsCollector F W
  serve_loop uid [] c = (none, c)
  serve_loop uid (turn ∷ turns) c =
      serve_turn uid turn.stopped turn.accepted (serve_loop uid turns) c

  -- the `finally` of `serve_forever`, over what then stands at the path
  unfoldable pub stop_serving :
      ℤ → SocketFile → MetricsCollector F W → SocketFile × MetricsCollector F W
  stop_serving uid file c = (remove_owned_socket uid file, close c)
