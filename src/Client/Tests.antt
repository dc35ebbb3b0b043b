-- ===== src/Client/Tests.antt =====
-- The theorems on the client, at concrete requests and responses.
use mathlib.Core.Path.{subst}
use ttop_desk.Prelude.{
  ◌≡◌, ◌⊎◌, none, false, ◌↔◌, refl, text_eq, ap, sym, ◌++◌, some, true, List, [], ◌∷◌, text, ℕ, ℤ,
  pos, All, arith, member_text,
}
use ttop_desk.Python.Exceptions.{Result, ok}
use ttop_desk.Python.Runtime.Integers.{integers}
use ttop_desk.Json.{str, int, obj, to_fields}
use ttop_desk.Client.Encode.{compact}
use ttop_desk.Json.Encode.{dumps}
use ttop_desk.Protocol.{JsonDict, process_sort_values, encode_response}
use ttop_desk.Server.{Incoming, timed_out, chunk, before_newline}
use ttop_desk.Server.Reading.{stream}
use ttop_desk.Metrics.Tests.{two_readings, collector}
use ttop_desk.Server.{Connection, serve_client, answer}
use ttop_desk.Json.Decode.Readable.{IsReadable}
use ttop_desk.Client.Delivery.{request_payload-encoded, request_payload-serve_client}
use ttop_desk.Client.Session.{IsComplete, IsBroken, main_outcome}
use ttop_desk.Client.{Peer, main, ping_only, list_processes, requests, request_payload}
use ttop_desk.Client.Requests.{IsTaken, requests-IsTaken}
use ttop_desk.Client.Responses.{IsResponse, request_payload_iff}

abbrev ping_payload : JsonDict ℤ
ping_payload = (text "command", str (text "ping")) ∷ []

abbrev pong_payload : JsonDict ℤ
pong_payload = (text "status", str (text "ok")) ∷ []

abbrev delivered : List ℕ → Result (Unit {0})
delivered line = ok tt

abbrev two_parts : Incoming
two_parts = chunk (text "{\"status\":") (chunk (text "\"ok\"}\n") timed_out)

ping_encoded : compact (obj (to_fields ping_payload)) ≡ text "{\"command\":\"ping\"}"
unfolding compact to_fields ttop_desk.Json.Encode.quote
ping_encoded = refl

pong_arrives : before_newline (stream two_parts) ≡ some (text "{\"status\":\"ok\"}")
unfolding before_newline stream
pong_arrives = refl

memory_known : member_text (text "memory") process_sort_values ≡ true
unfolding member_text
memory_known = refl

request_payload_iff_example :
    (request_payload ping_payload (ok tt) delivered two_parts ≡ ok pong_payload)
    ↔ IsResponse (text "{\"status\":\"ok\"}") pong_payload
request_payload_iff_example =
    request_payload_iff ping_payload delivered two_parts (text "{\"status\":\"ok\"}") pong_payload
      refl pong_arrives (omega arith)

requests-IsTaken_example : All (IsTaken ℤ) (requests (list_processes (pos 20)) (text "memory"))
requests-IsTaken_example =
    requests-IsTaken ℤ (list_processes (pos 20)) (text "memory") (omega arith, omega arith)
      memory_known

abbrev answering : ℕ → Peer
answering _ = record { connect = ok tt; sendall = delivered; incoming = two_parts }

-- What the client prints for a ping.
pong_printed :
    main ℤ true none false (text "cpu") answering
    ≡ record { printed = text "ping:\n{\n  \"status\": \"ok\"\n}\n"; result = ok 0 }
unfolding main ttop_desk.Client.ask_all requests ttop_desk.Client.mode_of ttop_desk.Client.ask
    request_payload ttop_desk.Client.receive before_newline ttop_desk.Client.decode_response
    ttop_desk.Python.Strings.decode_utf8 ttop_desk.Json.Decode.loads ttop_desk.Client.as_dict
    ttop_desk.Client.label_line ttop_desk.Client.response_lines ttop_desk.Client.Encode.indented
    ttop_desk.Client.Encode.bracketed ttop_desk.Python.Sort.sorted to_fields compact
    ttop_desk.Client.Encode.float_text ttop_desk.Client.Encode.line_start
    ttop_desk.Json.Encode.quote ttop_desk.Json.Lexer.lex ttop_desk.Json.to_dict
    ttop_desk.Prelude.text_eq ttop_desk.Prelude.text_lt ttop_desk.Python.Dict.insert
pong_printed = refl

main_outcome_example :
    IsComplete {F = ℤ} answering
      (requests ping_only (text "cpu"))
      0
      (main ℤ true none false (text "cpu") answering)
    ⊎ IsBroken {F = ℤ} answering
        (requests ping_only (text "cpu"))
        0
        (main ℤ true none false (text "cpu") answering)
unfolding ttop_desk.Client.mode_of
main_outcome_example = main_outcome answering true none false (text "cpu")

-- The server's end of a ping.
abbrev pinging : Connection ℤ
pinging = record {
  peer_uid = some (ok (pos 1000));
  incoming = chunk (text "{\"command\":") (chunk (text "\"ping\"}\n") timed_out);
  sendall = delivered;
  readings = two_readings;
}

abbrev pong_sent : List ℕ
pong_sent = text "{\"status\":\"ok\",\"version\":1}\n"

abbrev pong : JsonDict ℤ
pong = (text "status", str (text "ok")) ∷ (text "version", int (pos 1)) ∷ []

abbrev pong_arriving : Incoming
pong_arriving = chunk (text "{\"status\":\"ok") (chunk (text "\",\"version\":1}\n") timed_out)

answered : serve_client (pos 1000) pinging collector ≡ (ok pong_sent, collector)
unfolding serve_client ttop_desk.Server.peer_is_current_user ttop_desk.Server.serve_peer
    ttop_desk.Server.serve_request ttop_desk.Server.send answer ttop_desk.Server.read_request
    ttop_desk.Server.read_from before_newline ttop_desk.Protocol.handle_request
    ttop_desk.Protocol.parse_request ttop_desk.Protocol.encode_response dumps
    ttop_desk.Python.Strings.decode_utf8 ttop_desk.Python.Strings.strip
    ttop_desk.Protocol.or_malformed ttop_desk.Json.Decode.loads ttop_desk.Protocol.parse_value
    ttop_desk.Protocol.parse_object ttop_desk.Protocol.command_of ttop_desk.Python.Dict.lookup
    ttop_desk.Json.to_dict ttop_desk.Prelude.member_text ttop_desk.Protocol.plain_request
    ttop_desk.Protocol.keys_within ttop_desk.Protocol.has_key ttop_desk.Protocol.respond
    ttop_desk.Protocol.recover ttop_desk.Protocol.dispatch to_fields
answered = refl

ping_dumped : dumps (obj (to_fields ping_payload)) ≡ ok (text "{\"command\":\"ping\"}")
unfolding dumps to_fields
ping_dumped = refl

pong_encoded : encode_response pong ≡ ok pong_sent
unfolding encode_response dumps to_fields
pong_encoded = refl

pong_dict-IsReadable : IsReadable 0 (obj (to_fields pong))
unfolding IsReadable to_fields ttop_desk.Json.Decode.Readable.AreNew text_eq
    ttop_desk.Json.Decode.set_field ttop_desk.Json.Encode.int_text ttop_desk.Json.Decode.digit_count
pong_dict-IsReadable = ground arith

pong_answered : (answer pinging (text "{\"command\":\"ping\"}") collector).0 ≡ pong
unfolding serve_client ttop_desk.Server.peer_is_current_user ttop_desk.Server.serve_peer
    ttop_desk.Server.serve_request ttop_desk.Server.send answer ttop_desk.Server.read_request
    ttop_desk.Server.read_from before_newline ttop_desk.Protocol.handle_request
    ttop_desk.Protocol.parse_request ttop_desk.Protocol.encode_response dumps
    ttop_desk.Python.Strings.decode_utf8 ttop_desk.Python.Strings.strip
    ttop_desk.Protocol.or_malformed ttop_desk.Json.Decode.loads ttop_desk.Protocol.parse_value
    ttop_desk.Protocol.parse_object ttop_desk.Protocol.command_of ttop_desk.Python.Dict.lookup
    ttop_desk.Json.to_dict ttop_desk.Prelude.member_text ttop_desk.Protocol.plain_request
    ttop_desk.Protocol.keys_within ttop_desk.Protocol.has_key ttop_desk.Protocol.respond
    ttop_desk.Protocol.recover ttop_desk.Protocol.dispatch to_fields
pong_answered = refl

pong_answer-IsReadable :
    IsReadable 0 (obj (to_fields (answer pinging (text "{\"command\":\"ping\"}") collector).0))
pong_answer-IsReadable =
    subst (λ d. IsReadable 0 (obj (to_fields d))) (sym pong_answered) pong_dict-IsReadable

request_payload-encoded_example :
    request_payload ping_payload (ok tt) delivered pong_arriving ≡ ok pong
unfolding stream
request_payload-encoded_example =
    request_payload-encoded pong pong_sent ping_payload delivered pong_arriving []
      pong_dict-IsReadable pong_encoded (omega arith) refl refl

request_arrives :
    stream pinging.incoming ≡ (compact (obj (to_fields ping_payload)) ++ 10 ∷ []) ++ []
unfolding stream
request_arrives = ap (λ t. (t ++ 10 ∷ []) ++ []) (sym ping_encoded)

request_payload-serve_client_example :
    (request_payload ping_payload (ok tt) delivered pong_arriving
      ≡ ok (answer pinging (text "{\"command\":\"ping\"}") collector).0)
    × (collector ≡ (answer pinging (text "{\"command\":\"ping\"}") collector).1)
request_payload-serve_client_example =
    request_payload-serve_client (pos 1000) pinging collector collector ping_payload
      (text "{\"command\":\"ping\"}") pong_sent [] delivered pong_arriving refl ping_dumped
      (omega arith) request_arrives answered pong_answer-IsReadable (omega arith) refl
      (unfold stream in refl)
