-- ===== src/Client/Responses.antt =====
-- `request_payload`: the response does not depend on how its bytes arrive, and it is a dict.
use mathlib.Core.List.{append_assoc, append-nil}
use ttop_desk.Prelude.{
  ℕ, ◌≤◌, ◌≡◌, ◌↔◌, refl, ap, ◌∙◌, true, none, some, List, [], ◌∷◌, ◌++◌, Text, length, leb, ltb,
  arith, sym, Option-cases, inl, inr,
}
use ttop_desk.Python.Exceptions.{Result, ok, runtime_error, >>=-eq-ok, raise_if}
use ttop_desk.Python.Runtime.{Runtime}
use ttop_desk.Python.Strings.{decode_utf8}
use ttop_desk.Json.{Json, Fields, null, obj, to_dict, to_fields}
use ttop_desk.Client.Encode.{compact}
use ttop_desk.Json.Decode.{loads}
use ttop_desk.Protocol.{JsonDict}
use ttop_desk.Server.{Incoming, timed_out, failed, chunk, before_newline}
use ttop_desk.Server.Reading.{stream, before_newline-append, before_newline-later}
use ttop_desk.Client.{
  max_response_bytes, receive, as_dict, or_value_error, decode_response, request_payload,
}

receive-line :
    (response : List ℕ) (incoming : Incoming) (line : List ℕ)
    → before_newline response ≡ none
    → before_newline (response ++ stream incoming) ≡ some line
    → length line ≤ max_response_bytes
    → receive response incoming ≡ ok line
unfolding receive
receive-line response timed_out line h k le =
    absurd (unfold stream in ground (arith, append-nil response))
receive-line response (failed e) line h k le =
    absurd (unfold stream in ground (arith, append-nil response))
receive-line response (chunk [] later) line h k le =
    absurd (unfold stream in ground (arith, append-nil response))
receive-line response (chunk (b ∷ bs) later) line h k le =
    let joined : before_newline ((response ++ b ∷ bs) ++ stream later) ≡ some line =
      ap before_newline (append_assoc response (b ∷ bs) (stream later)) ∙ (unfold stream in k) in
    let room : leb (length response) max_response_bytes ≡ true =
      ground (arith, before_newline-later response (stream (chunk (b ∷ bs) later)) line h k) in
    elim (Option-cases (before_newline (response ++ b ∷ bs))) [
      | inl e ↦ ground (arith, receive-line (response ++ b ∷ bs) later line e joined le)
      | inr (l, e) ↦ ground (arith, before_newline-append (response ++ b ∷ bs) (stream later) l e)
    ]

module _ {F : Type 0} ⦃n : Runtime F⦄ where
  -- The bytes are UTF-8 and hold the JSON object `d`.
  pub record IsResponse (line : List ℕ) (d : JsonDict F) : Type 0 where
    pub decoded : Text
    pub fields : Fields F
    pub is_utf8 : decode_utf8 line ≡ some decoded
    pub is_object : loads decoded ≡ ok (obj fields)
    pub is_dict : to_dict fields ≡ d

  as_dict-eq_ok :
      (v : Json F) (d : JsonDict F)
      → as_dict v ≡ ok d
      → (fs : Fields F) × (v ≡ obj fs) × (to_dict fs ≡ d)
  unfolding as_dict
  as_dict-eq_ok (obj fs) d h = (fs, refl, ground arith)
  as_dict-eq_ok null d h = cc
  as_dict-eq_ok _ d h = cc

  decode_response_sound :
      (line : List ℕ) (d : JsonDict F) → decode_response line ≡ ok d → IsResponse line d
  unfolding decode_response
  decode_response_sound line d h =
      let (u, _, f) =
        >>=-eq-ok (raise_if (ltb max_response_bytes (length line)) runtime_error) _ h in
      let (t, utf, g) = >>=-eq-ok (or_value_error (decode_utf8 line)) _ f in
      let (v, whole, k) = >>=-eq-ok (loads {F = F} t) _ g in
      let (fs, e, same) = as_dict-eq_ok v d k in
      record {
        decoded = t;
        fields = fs;
        is_utf8 = ground arith;
        is_object = whole ∙ ap ok e;
        is_dict = same;
      }

  decode_response_complete :
      (line : List ℕ) (d : JsonDict F)
      → length line ≤ max_response_bytes
      → IsResponse line d
      → decode_response line ≡ ok d
  unfolding decode_response as_dict
  decode_response_complete line d le r = ground arith

  -- Where the request can be sent, and the server's bytes have a line of at most 4 MiB,
  -- `request_payload` returns a dict exactly when that line is UTF-8 and holds the JSON object
  -- with its members, as `json.loads` reads it (its integers of at most 4300 digits), in whatever
  -- chunks it arrives and whatever follows.
  pub request_payload_iff :
      (payload : JsonDict F) (sendall : List ℕ → Result (Unit {0})) (incoming : Incoming)
      (line : List ℕ) (d : JsonDict F)
      → sendall (compact (obj (to_fields payload)) ++ 10 ∷ []) ≡ ok tt
      → before_newline (stream incoming) ≡ some line
      → length line ≤ max_response_bytes
      → (request_payload payload (ok tt) sendall incoming ≡ ok d) ↔ IsResponse line d
  request_payload_iff payload sendall incoming line d sent h le =
      let read : receive [] incoming ≡ ok line =
        receive-line [] incoming line (unfold before_newline in refl) h le in
      let same : request_payload payload (ok tt) sendall incoming ≡ decode_response line =
        unfold request_payload in ground arith in
      (
        (λ k. decode_response_sound line d (sym same ∙ k)),
        (λ r. same ∙ decode_response_complete line d le r),
      )
