-- ===== src/Client/Delivery.antt =====
-- What the server encodes is what `request_payload` of the client returns.
use mathlib.Core.List.{append-nil}
use mathlib.Core.Path.{subst}
use ttop_desk.Prelude.{
  ℕ, ◌≤◌, ◌≡◌, refl, ap, sym, ◌∙◌, true, ℤ, eqb_ℤ, eqb_ℤ_iff, some, List, [], ◌∷◌, ◌++◌, Text,
  length, arith, length-append,
}
use ttop_desk.Python.Exceptions.{Result, ok, >>=-eq-ok, ok-injective}
use ttop_desk.Python.Runtime.{Runtime, IsPrintable}
use ttop_desk.Python.Strings.Ascii.{decode_utf8-IsPrintable}
use ttop_desk.Json.{obj, to_fields, to_dict}
use ttop_desk.Json.Encode.{dumps}
use ttop_desk.Json.Encode.Printable.{Prints, dumps-Prints}
use ttop_desk.Json.Decode.Readable.{IsReadable}
use ttop_desk.Json.Decode.Roundtrip.{loads-dumps}
use ttop_desk.Protocol.{JsonDict, encode_response}
use ttop_desk.Metrics.{MetricsCollector}
use ttop_desk.Protocol.{max_request_bytes}
use ttop_desk.Server.{
  Incoming, before_newline, Connection, peer_is_current_user, send, answer, serve_request,
  serve_peer, serve_client, read_request,
}
use ttop_desk.Server.Reading.{stream, read_request_line, before_newline-append}
use ttop_desk.Client.{max_response_bytes, request_payload}
use ttop_desk.Client.Encode.{compact, compact-dumps}
use ttop_desk.Client.Responses.{IsResponse, request_payload_iff}

before_newline-printable :
    (body : Text) → IsPrintable body → before_newline (body ++ 10 ∷ []) ≡ some body
unfolding before_newline
before_newline-printable [] h = refl
before_newline-printable (c ∷ body) (h, hs) =
    let rest = before_newline-printable body hs in ground arith

module _ {F : Type 0} ⦃n : Runtime F⦄ where
  to_dict-to_fields : (d : JsonDict F) → to_dict (to_fields d) ≡ d
  unfolding to_dict to_fields
  to_dict-to_fields [] = refl
  to_dict-to_fields ((k, v) ∷ d) = ap (λ e. (k, v) ∷ e) (to_dict-to_fields d)

  line-IsResponse :
      (response : JsonDict F) (body : Text)
      → IsReadable 0 (obj (to_fields response))
      → dumps (obj (to_fields response)) ≡ ok body
      → IsResponse body response
  line-IsResponse response body r e = record {
    decoded = body;
    fields = to_fields response;
    is_utf8 =
        decode_utf8-IsPrintable body (subst Prints e (dumps-Prints (obj (to_fields response))));
    is_object = loads-dumps (obj (to_fields response)) body r e;
    is_dict = to_dict-to_fields response;
  }

  -- A readable response that the server encodes in at most 4 MiB is what `request_payload`
  -- returns, whatever it has sent, in whatever chunks the bytes arrive and whatever follows them.
  -- Readable: its texts have no surrogates, its integers have at most 4300 digits, its doubles are
  -- read back from their `repr`, no object repeats a key, and the nesting is within the recursion
  -- limit.
  pub request_payload-encoded :
      (response : JsonDict F) (bytes : List ℕ) (payload : JsonDict F)
      (sendall : List ℕ → Result (Unit {0})) (incoming : Incoming) (later : List ℕ)
      → IsReadable 0 (obj (to_fields response))
      → encode_response response ≡ ok bytes
      → length bytes ≤ max_response_bytes
      → sendall (compact (obj (to_fields payload)) ++ 10 ∷ []) ≡ ok tt
      → stream incoming ≡ bytes ++ later
      → request_payload payload (ok tt) sendall incoming ≡ ok response
  unfolding encode_response
  request_payload-encoded response bytes payload sendall incoming later r e few sent arrived =
      let (body, p, same) = >>=-eq-ok (dumps (obj (to_fields response))) _ e in
      let print = subst Prints p (dumps-Prints (obj (to_fields response))) in
      let line : before_newline (stream incoming) ≡ some body =
        ap before_newline (arrived ∙ ap (λ b. b ++ later) (sym (ok-injective same)))
        ∙ before_newline-append (body ++ 10 ∷ []) later body
            (before_newline-printable body print) in
      let fits : length body ≤ max_response_bytes =
        omega (arith, ap length (ok-injective same), length-append body (10 ∷ [])) in
      (request_payload_iff payload sendall incoming body response sent line fits).1
        (line-IsResponse response body r p)

module _ {F W : Type 0} ⦃n : Runtime F⦄ where
  serve_own :
      (uid : ℤ) (connection : Connection F) (c : MetricsCollector F W) (body : Text)
      → connection.peer_uid ≡ some (ok uid)
      → read_request connection.incoming ≡ ok body
      → serve_client uid connection c
        ≡ (send connection (answer connection body c).0, (answer connection body c).1)
  unfolding serve_client peer_is_current_user serve_peer serve_request
  serve_own uid connection c body own read =
      let same : eqb_ℤ uid uid ≡ true = (eqb_ℤ_iff uid uid).1 refl in rw (own, same, read) refl

  -- The client and the server together: a request of the client that can be encoded, in at most
  -- 4096 bytes, and that `_serve_client` of a server of the same user answers without an
  -- exception, in at most 4 MiB and with a readable dict, makes `request_payload` return that
  -- answer to it, in whatever chunks both directions arrive; and the collector is left as the
  -- answer leaves it.
  pub request_payload-serve_client :
      (uid : ℤ) (connection : Connection F) (c c' : MetricsCollector F W) (payload : JsonDict F)
      (body : Text) (sent later : List ℕ) (sendall : List ℕ → Result (Unit {0}))
      (incoming : Incoming)
      → connection.peer_uid ≡ some (ok uid)
      → dumps (obj (to_fields payload)) ≡ ok body
      → length body ≤ max_request_bytes
      → stream connection.incoming ≡ (compact (obj (to_fields payload)) ++ 10 ∷ []) ++ later
      → serve_client uid connection c ≡ (ok sent, c')
      → IsReadable 0 (obj (to_fields (answer connection body c).0))
      → length sent ≤ max_response_bytes
      → sendall (compact (obj (to_fields payload)) ++ 10 ∷ []) ≡ ok tt
      → stream incoming ≡ sent
      → (request_payload payload (ok tt) sendall incoming ≡ ok (answer connection body c).0)
        × (c' ≡ (answer connection body c).1)
  unfolding send
  request_payload-serve_client uid connection c c' payload body sent later sendall incoming own e
        small asked served readable few given replied =
      let print : IsPrintable body = subst Prints e (dumps-Prints (obj (to_fields payload))) in
      let line : before_newline (stream connection.incoming) ≡ some body =
        ap before_newline (
          asked
          ∙ ap (λ t. (t ++ 10 ∷ []) ++ later) (compact-dumps (obj (to_fields payload)) body e))
        ∙ before_newline-append (body ++ 10 ∷ []) later body
            (before_newline-printable body print) in
      let read = read_request_line connection.incoming body line small in
      let same = sym (serve_own uid connection c body own read) ∙ served in
      let (bytes, encoded, more) =
        >>=-eq-ok (encode_response (answer connection body c).0) _ (ap (λ r. r.0) same) in
      let (_, _, whole) = >>=-eq-ok (connection.sendall bytes) _ more in
      let exact : bytes ≡ sent = ok-injective whole in
      (
        request_payload-encoded (answer connection body c).0 sent payload sendall incoming []
            readable (encoded ∙ ap ok exact) few given (replied ∙ sym (append-nil sent)),
        sym (ap (λ r. r.1) same),
      )
