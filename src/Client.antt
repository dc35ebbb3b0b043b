-- ===== src/Client.antt =====
-- scripts/backend-client.py: one request to the server, its response within a bound, and what `main`
-- prints.
pub mod Delivery
pub mod Encode
pub mod Requests
pub mod Responses
pub mod Session
mod Tests
use ttop_desk.Prelude.{
  ℕ, suc, Text, text, ℤ, Bool, true, false, not, Option, none, some, List, [], ◌∷◌, ◌++◌, length,
  leb, ltb, if◌then◌else◌,
}
use ttop_desk.Python.Exceptions.{
  Exception, Result, ok, err, os_error, runtime_error, value_error, ◌>>=◌, raise_if, ◌>>◌,
}
use ttop_desk.Python.Runtime.{Runtime}
use ttop_desk.Python.Strings.{decode_utf8}
use ttop_desk.Json.{Json, null, bool, int, float, str, arr, obj, to_dict, to_fields}
use ttop_desk.Client.Encode.{compact, indented}
use ttop_desk.Json.Decode.{loads}
use ttop_desk.Protocol.{JsonDict}
use ttop_desk.Server.{Incoming, timed_out, failed, chunk, before_newline}

abbrev pub max_response_bytes : ℕ
max_response_bytes = 4194304

-- the `while` loop with the bytes so far; here a timeout is raised
unfoldable pub receive : List ℕ → Incoming → Result (List ℕ)
receive response timed_out =
    if leb (length response) max_response_bytes then err os_error else ok response
receive response (failed e) =
    if leb (length response) max_response_bytes then err e else ok response
receive response (chunk [] later) = ok response
receive response (chunk (b ∷ bs) later) =
    let rest = receive (response ++ b ∷ bs) later in
    if not (leb (length response) max_response_bytes)
    then ok response
    else elim (before_newline (response ++ b ∷ bs)) [ none ↦ rest | some line ↦ ok line ]

-- `response.decode("utf-8")`; a UnicodeDecodeError is a ValueError
abbrev pub or_value_error : {A : Type 0} → Option A → Result A
or_value_error none = err value_error
or_value_error (some a) = ok a

module _ {F : Type 0} where
  unfoldable pub as_dict : Json F → Result (JsonDict F)
  as_dict (obj fields) = ok (to_dict fields)
  as_dict _ = err runtime_error

module _ {F : Type 0} ⦃n : Runtime F⦄ where
  -- what follows the connection
  unfoldable pub decode_response : List ℕ → Result (JsonDict F)
  decode_response response = do
    raise_if (ltb max_response_bytes (length response)) runtime_error
    decoded ← or_value_error (decode_utf8 response)
    value ← loads decoded
    as_dict value

  -- `request_payload`, given what `connect` and `sendall` do and what the server sends
  unfoldable pub request_payload :
      JsonDict F → Result (Unit {0}) → (List ℕ → Result (Unit {0})) → Incoming → Result (JsonDict F)
  request_payload payload_value connect sendall incoming = do
    _ ← connect
    _ ← sendall (compact (obj (to_fields payload_value)) ++ 10 ∷ [])
    response ← receive [] incoming
    decode_response response

  unfoldable pub request :
      Text → Result (Unit {0}) → (List ℕ → Result (Unit {0})) → Incoming → Result (JsonDict F)
  request command = request_payload ((text "command", str command) ∷ [])

-- The mode of `main`: the four branches on its arguments.
pub data Mode : Type 0 where
  ping_only gpu_only ping_and_snapshot : Mode
  list_processes : ℤ → Mode

-- `--ping-only`, `--processes` and `--gpu`
unfoldable pub mode_of : Bool → Option ℤ → Bool → Mode
mode_of true processes gpu = ping_only
mode_of false (some limit) gpu = list_processes limit
mode_of false none true = gpu_only
mode_of false none false = ping_and_snapshot

module _ {F : Type 0} where
  -- `requests` of `main`: labels and payloads
  unfoldable pub requests : Mode → Text → List (Text × JsonDict F)
  requests ping_only sort = (text "ping", (text "command", str (text "ping")) ∷ []) ∷ []
  requests (list_processes limit) sort =
      (
        text "processes",
        (text "command", str (text "processes"))
            ∷ (text "sort", str sort)
            ∷ (text "limit", int limit)
            ∷ [],
      )
      ∷ []
  requests gpu_only sort = (text "gpu", (text "command", str (text "gpu")) ∷ []) ∷ []
  requests ping_and_snapshot sort =
      (text "ping", (text "command", str (text "ping")) ∷ [])
      ∷ (text "snapshot", (text "command", str (text "snapshot")) ∷ [])
      ∷ []

-- What one connection to the socket does: `connect`, `sendall`, and the calls of `recv`.
pub record Peer : Type 0 where
  pub connect : Result (Unit {0})
  pub sendall : List ℕ → Result (Unit {0})
  pub incoming : Incoming

-- What `main` has printed, and its exit status or the exception that ends it.
pub record Output : Type 0 where
  pub printed : Text
  pub result : Result ℕ

-- `print(f"{label}:")`
unfoldable pub label_line : Text → Text
label_line label = label ++ text ":\n"

module _ {F : Type 0} ⦃n : Runtime F⦄ where
  -- `print(json.dumps(response, indent=2, sort_keys=True))`
  unfoldable pub response_lines : JsonDict F → Text
  response_lines response = indented 0 (obj (to_fields response)) ++ text "\n"

  unfoldable pub ask : JsonDict F → Peer → Result (JsonDict F)
  ask payload peer = request_payload payload peer.connect peer.sendall peer.incoming

  -- The loop of `main`; `peers i` is the connection of its i-th turn.
  unfoldable pub ask_all : List (Text × JsonDict F) → ℕ → (ℕ → Peer) → Output
  ask_all [] i peers = record { printed = []; result = ok 0 }
  ask_all ((label, payload) ∷ later) i peers =
      let rest = ask_all later (suc i) peers in
      elim (ask payload (peers i)) [
        | err e ↦ record { printed = label_line label; result = err e }
        | ok response ↦ record {
          printed = label_line label ++ response_lines response ++ rest.printed;
          result = rest.result;
        }
      ]

module _ (F : Type 0) ⦃n : Runtime F⦄ where
  unfoldable pub main : Bool → Option ℤ → Bool → Text → (ℕ → Peer) → Output
  main ping processes gpu sort peers =
      ask_all {F = F} (requests (mode_of ping processes gpu) sort) 0 peers
