-- ===== src/Protocol.antt =====
-- backend/ttop_backend/protocol.py: the versioned newline-delimited JSON protocol.
pub mod Objects
pub mod Parsing
pub mod Rejections
pub mod Dispatch
pub mod Framing
mod Tests
use ttop_desk.Prelude.{
  ℕ, Bool, true, false, not, ◌&&◌, ◌||◌, Option, none, some, List, [], ◌∷◌, ◌++◌, Text, text,
  text_eq, member_text, ltb, if◌then◌else◌, length, ℤ, pos, ltb_ℤ,
}
use ttop_desk.Python.Exceptions.{
  Exception, protocol_error, value_error, Result, ok, err, ◌>>=◌, raise_if, ◌>>◌,
}
use ttop_desk.Python.Runtime.{Runtime}
use ttop_desk.Python.Strings.{decode_utf8, strip, is_empty}
use ttop_desk.Python.Dict.{text_key, lookup, insert}
use ttop_desk.Json.{Json, null, bool, int, float, str, arr, obj, to_dict, to_fields}
use ttop_desk.Json.Encode.{dumps}
use ttop_desk.Json.Decode.{loads}

abbrev pub protocol_version : ℤ
protocol_version = pos 1

abbrev pub max_request_bytes : ℕ
max_request_bytes = 4096

abbrev pub supported_commands : List Text
supported_commands = text "ping" ∷ text "snapshot" ∷ text "processes" ∷ text "gpu" ∷ []

-- The commands that take no parameter.
abbrev pub plain_commands : List Text
plain_commands = text "ping" ∷ text "snapshot" ∷ text "gpu" ∷ []

abbrev pub process_sort_values : List Text
process_sort_values = text "cpu" ∷ text "memory" ∷ []

abbrev pub default_process_sort : Text
default_process_sort = text "cpu"

abbrev pub default_process_limit : ℤ
default_process_limit = pos 5

abbrev pub min_process_limit : ℤ
min_process_limit = pos 1

abbrev pub max_process_limit : ℤ
max_process_limit = pos 20

pub record Request : Type 0 where
  pub command : Text
  pub sort : Text
  pub limit : ℤ

-- A dict of the sources whose keys are texts.
abbrev pub JsonDict : Type 0 → Type 0
JsonDict F = List (Text × Json F)

module _ {F : Type 0} where
  unfoldable pub error_response : Text → JsonDict F
  error_response code =
      (text "status", str (text "error"))
      ∷ (text "version", int protocol_version)
      ∷ (text "error", str code)
      ∷ []

  -- `set(request).issubset(names)`
  unfoldable pub keys_within : JsonDict F → List Text → Bool
  keys_within [] names = true
  keys_within ((k, _) ∷ d) names = member_text k names && keys_within d names

  -- `name in request`
  unfoldable pub has_key : Text → JsonDict F → Bool
  has_key name [] = false
  has_key name ((k, _) ∷ d) = text_eq k name || has_key name d

  -- `request.get("command")`, which must be a string
  unfoldable pub command_of : Option (Json F) → Result Text
  command_of (some (str c)) = ok c
  command_of _ = err (protocol_error (text "invalid_request"))

  unfoldable pub sort_of : Option (Json F) → Result Text
  sort_of none = ok default_process_sort
  sort_of (some (str s)) =
      if member_text s process_sort_values then ok s else err (protocol_error (text "invalid_sort"))
  sort_of (some _) = err (protocol_error (text "invalid_sort"))

  -- a bool is an int to Python, and is refused
  unfoldable pub limit_of : Option (Json F) → Result ℤ
  limit_of none = ok default_process_limit
  limit_of (some (int z)) =
      if ltb_ℤ z min_process_limit || ltb_ℤ max_process_limit z
      then err (protocol_error (text "invalid_limit"))
      else ok z
  limit_of (some _) = err (protocol_error (text "invalid_limit"))

  -- the two tails of `parse_request`, after the command is known
  unfoldable pub plain_request : Text → JsonDict F → Result Request
  plain_request command request = do
    raise_if (not (keys_within request (text "command" ∷ []) && has_key (text "command") request))
        (protocol_error (text "invalid_request"))
    ok (record { command = command; sort = default_process_sort; limit = default_process_limit })

  unfoldable pub processes_request : Text → JsonDict F → Result Request
  processes_request command request = do
    raise_if (not (keys_within request (text "command" ∷ text "sort" ∷ text "limit" ∷ [])))
        (protocol_error (text "invalid_request"))
    sort_value ← sort_of (lookup (text "sort") request)
    limit ← limit_of (lookup (text "limit") request)
    ok (record { command = command; sort = sort_value; limit = limit })

  -- the object's part of `parse_request`
  unfoldable pub parse_object : JsonDict F → Result Request
  parse_object request = do
    command ← command_of (lookup (text "command") request)
    raise_if (not (member_text command supported_commands))
        (protocol_error (text "unsupported_command"))
    if member_text command plain_commands
        then plain_request command request
        else processes_request command request

  unfoldable pub parse_value : Json F → Result Request
  parse_value (obj fields) = parse_object (to_dict fields)
  parse_value _ = err (protocol_error (text "invalid_request"))

  -- `except json.JSONDecodeError`; a RecursionError goes on. The ValueError of an integer with more
  -- than 4300 digits is no JSONDecodeError, but no request of at most 4096 bytes has one.
  unfoldable pub or_malformed : Result (Json F) → Result (Json F)
  or_malformed (err value_error) = err (protocol_error (text "malformed_json"))
  or_malformed r = r

abbrev pub or_invalid_encoding : Option Text → Result Text
or_invalid_encoding none = err (protocol_error (text "invalid_encoding"))
or_invalid_encoding (some t) = ok t

-- The caller's sampler: it acts on a state, and returns a dict or raises.
abbrev pub Factory : Type 0 → Type 0 → Type 0
Factory S F = S → Result (JsonDict F) × S

module _ {F S : Type 0} where
  -- `response = dict(factory()); response["version"] = PROTOCOL_VERSION`
  unfoldable pub with_version : Result (JsonDict F) × S → Result (JsonDict F) × S
  with_version (ok d, s) = (ok (insert (text "version") (int protocol_version) d), s)
  with_version (err e, s) = (err e, s)

  -- `if processes_factory is None: ...`, and the same for the GPU
  unfoldable pub serve_processes : Option (Text → ℤ → Factory S F) → Request → Factory S F
  serve_processes none request s = (ok (error_response (text "unsupported_command")), s)
  serve_processes (some factory) request s = with_version (factory request.sort request.limit s)

  unfoldable pub serve_gpu : Option (Factory S F) → Factory S F
  serve_gpu none s = (ok (error_response (text "unsupported_command")), s)
  serve_gpu (some factory) s = with_version (factory s)

  unfoldable pub dispatch :
      Factory S F → Option (Text → ℤ → Factory S F) → Option (Factory S F) → Request → Factory S F
  dispatch snapshot_factory processes_factory gpu_factory request s =
      if text_eq request.command (text "ping")
      then (ok ((text "status", str (text "ok")) ∷ (text "version", int protocol_version) ∷ []), s)
      else if text_eq request.command (text "snapshot")
      then with_version (snapshot_factory s)
      else if text_eq request.command (text "processes")
      then serve_processes processes_factory request s
      else if text_eq request.command (text "gpu")
      then serve_gpu gpu_factory s
      else (ok (error_response (text "unsupported_command")), s)

  -- the handlers of `handle_request`
  unfoldable pub recover : Result (JsonDict F) × S → JsonDict F × S
  recover (ok d, s) = (d, s)
  recover (err (protocol_error code), s) = (error_response code, s)
  recover (err _, s) = (error_response (text "internal_error"), s)

  -- the body of the `try`, given the outcome of `parse_request`
  unfoldable pub respond :
      Factory S F
      → Option (Text → ℤ → Factory S F)
      → Option (Factory S F)
      → Result Request
      → S
      → JsonDict F × S
  respond snapshot_factory processes_factory gpu_factory (err e) s = recover (err e, s)
  respond snapshot_factory processes_factory gpu_factory (ok request) s =
      recover (dispatch snapshot_factory processes_factory gpu_factory request s)

module _ (F : Type 0) ⦃n : Runtime F⦄ where
  unfoldable pub parse_request : List ℕ → Result Request
  parse_request raw_request = do
    raise_if (ltb max_request_bytes (length raw_request))
        (protocol_error (text "request_too_large"))
    decoded ← or_invalid_encoding (decode_utf8 raw_request)
    raise_if (is_empty (strip decoded)) (protocol_error (text "empty_request"))
    request ← or_malformed {F = F} (loads (strip decoded))
    parse_value request

module _ {F : Type 0} ⦃n : Runtime F⦄ where
  unfoldable pub encode_response : JsonDict F → Result (List ℕ)
  encode_response response = do body ← dumps (obj (to_fields response)); ok (body ++ 10 ∷ [])

module _ {F S : Type 0} ⦃n : Runtime F⦄ where
  unfoldable pub handle_request :
      List ℕ
      → Factory S F
      → Option (Text → ℤ → Factory S F)
      → Option (Factory S F)
      → S
      → JsonDict F × S
  handle_request raw_request snapshot_factory processes_factory gpu_factory =
      respond snapshot_factory processes_factory gpu_factory (parse_request F raw_request)
