-- ===== src/Protocol/Tests.antt =====
-- Runs of the protocol, and the theorems at concrete requests.
use ttop_desk.Prelude.{
  suc, true, ◌≢◌, text_eq, member_text, ℤ, ℕ, ◌≡◌, ◌↔◌, refl, text, Text, pos, List, [], ◌∷◌, ◌++◌,
  some, none, Option,
}
use ttop_desk.Python.Exceptions.{ok, err, os_error, protocol_error}
use ttop_desk.Python.Dict.{text_key, lookup}
use ttop_desk.Json.{int, str, obj, to_fields}
use ttop_desk.Json.Encode.Success.{all_finite}
use ttop_desk.Protocol.{
  protocol_version, Request, parse_request, encode_response, error_response, handle_request,
  JsonDict, Factory,
}
use ttop_desk.Python.Runtime.Integers.{integers}
use ttop_desk.Protocol.Parsing.{request_error_codes, Accepted, IsRequestError, parse_request_iff}
use ttop_desk.Protocol.Rejections.{parse_request_errors}
use ttop_desk.Protocol.Dispatch.{sampler_for, handle_request_rejected, handle_request_masks}

abbrev ping_line : List ℕ
ping_line = text "{\"command\": \"ping\"}"

abbrev ping : Request
ping = record { command = text "ping"; sort = text "cpu"; limit = pos 5 }

ping_parsed : parse_request ℤ ping_line ≡ ok ping
unfolding parse_request ttop_desk.Python.Strings.decode_utf8 ttop_desk.Python.Strings.strip
    ttop_desk.Protocol.or_malformed ttop_desk.Json.Decode.loads ttop_desk.Protocol.parse_value
    ttop_desk.Protocol.parse_object ttop_desk.Protocol.command_of ttop_desk.Python.Dict.lookup
    ttop_desk.Json.to_dict ttop_desk.Prelude.member_text ttop_desk.Protocol.plain_request
    ttop_desk.Protocol.keys_within ttop_desk.Protocol.has_key
ping_parsed = refl

listing_parsed :
    parse_request ℤ (text " {\"limit\":7,\"command\":\"processes\",\"sort\":\"mem\\u006fry\"}\r")
    ≡ ok (record { command = text "processes"; sort = text "memory"; limit = pos 7 })
unfolding parse_request ttop_desk.Python.Strings.decode_utf8 ttop_desk.Python.Strings.strip
    ttop_desk.Protocol.or_malformed ttop_desk.Json.Decode.loads ttop_desk.Protocol.parse_value
    ttop_desk.Protocol.parse_object ttop_desk.Protocol.command_of ttop_desk.Python.Dict.lookup
    ttop_desk.Json.to_dict ttop_desk.Prelude.member_text ttop_desk.Protocol.processes_request
    ttop_desk.Protocol.keys_within ttop_desk.Protocol.sort_of ttop_desk.Protocol.limit_of
listing_parsed = refl

limit_refused :
    parse_request ℤ (text "{\"command\":\"processes\",\"limit\":21}")
    ≡ err (protocol_error (text "invalid_limit"))
unfolding parse_request ttop_desk.Python.Strings.decode_utf8 ttop_desk.Python.Strings.strip
    ttop_desk.Protocol.or_malformed ttop_desk.Json.Decode.loads ttop_desk.Protocol.parse_value
    ttop_desk.Protocol.parse_object ttop_desk.Protocol.command_of ttop_desk.Python.Dict.lookup
    ttop_desk.Json.to_dict ttop_desk.Prelude.member_text ttop_desk.Protocol.processes_request
    ttop_desk.Protocol.keys_within ttop_desk.Protocol.sort_of ttop_desk.Protocol.limit_of
limit_refused = refl

reply_line :
    encode_response (error_response {F = ℤ} (text "x\ny"))
    ≡ ok (text "{\"status\":\"error\",\"version\":1,\"error\":\"x\\ny\"}\n")
unfolding encode_response error_response ttop_desk.Json.Encode.dumps ttop_desk.Json.to_fields
reply_line = refl

-- Samplers that count their calls; one of them fails.
abbrev counting : Factory ℕ ℤ
counting s = (ok ((text "status", str (text "ok")) ∷ []), suc s)

abbrev failing : Factory ℕ ℤ
failing s = (err os_error, suc s)

abbrev snapshot_line : List ℕ
snapshot_line = text "{\"command\":\"snapshot\"}"

abbrev snapshot_request : Request
snapshot_request = record { command = text "snapshot"; sort = text "cpu"; limit = pos 5 }

snapshot_parsed : parse_request ℤ snapshot_line ≡ ok snapshot_request
unfolding parse_request ttop_desk.Python.Strings.decode_utf8 ttop_desk.Python.Strings.strip
    ttop_desk.Protocol.or_malformed ttop_desk.Json.Decode.loads ttop_desk.Protocol.parse_value
    ttop_desk.Protocol.parse_object ttop_desk.Protocol.command_of lookup ttop_desk.Json.to_dict
    member_text ttop_desk.Protocol.plain_request ttop_desk.Protocol.keys_within
    ttop_desk.Protocol.has_key
snapshot_parsed = refl

failing_chosen : sampler_for failing none (some counting) snapshot_request ≡ some failing
unfolding text_eq
failing_chosen = refl

nothing_sent : parse_request ℤ (text " \n") ≡ err (protocol_error (text "empty_request"))
unfolding parse_request ttop_desk.Python.Strings.decode_utf8 ttop_desk.Python.Strings.strip
nothing_sent = refl

error_finite : all_finite (obj (to_fields (error_response {F = ℤ} (text "a\"b")))) ≡ true
unfolding all_finite error_response to_fields
error_finite = refl

not_coded : (c : Text) → os_error ≢ protocol_error c
not_coded c = λ e. cc

parse_request_iff_example : (parse_request ℤ ping_line ≡ ok ping) ↔ Accepted ℤ ping_line ping
parse_request_iff_example = parse_request_iff ping_line ping

parse_request_errors_example : IsRequestError (protocol_error (text "invalid_limit"))
parse_request_errors_example =
    parse_request_errors ℤ (text "{\"command\":\"processes\",\"limit\":21}")
      (protocol_error (text "invalid_limit")) limit_refused

handle_request_rejected_example :
    (c : Text) × (handle_request (text " \n") counting none (some counting) 4
      ≡ (error_response c, 4))
    × (member_text c (text "internal_error" ∷ request_error_codes) ≡ true)
handle_request_rejected_example =
    handle_request_rejected counting none (some counting) (text " \n") 4
      (protocol_error (text "empty_request")) nothing_sent

handle_request_masks_example :
    handle_request snapshot_line failing none (some counting) 3
    ≡ (error_response (text "internal_error"), 4)
handle_request_masks_example =
    handle_request_masks failing none (some counting) snapshot_line snapshot_request failing 3 4
      os_error snapshot_parsed failing_chosen refl not_coded
