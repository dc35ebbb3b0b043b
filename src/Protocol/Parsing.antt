-- ===== src/Protocol/Parsing.antt =====
-- `parse_request`: which bytes carry a request.
use ttop_desk.Prelude.{
  ◌≡◌, refl, ◌∙◌, ap, ◌↔◌, ◌⊎◌, inl, inr, ◌≤◌, ℕ, ltb, length, true, false, some, List, [], ◌∷◌,
  Text, text, member_text, arith, Bool-cases, Option-cases,
}
use ttop_desk.Python.Exceptions.{
  Exception, protocol_error, other_error, Result, ok, Result-cases, is_ok, is_err,
}
use ttop_desk.Python.Dict.{text_key}
use ttop_desk.Json.{Json, null, obj, Fields, to_dict}
use ttop_desk.Json.Decode.{loads}
use ttop_desk.Python.Runtime.{Runtime}
use ttop_desk.Python.Strings.{decode_utf8, strip, is_empty}
use ttop_desk.Protocol.{Request, parse_value, parse_request, or_malformed, max_request_bytes}
use ttop_desk.Protocol.Objects.{Describes, parse_object_sound, parse_object_complete}

-- The bytes `raw` carry an object that asks for `r`.
pub record Accepted (F : Type 0) ⦃n : Runtime F⦄ (raw : List ℕ) (r : Request) : Type 0 where
  pub decoded : Text
  pub fields : Fields F
  pub fits : length raw ≤ 4096
  pub is_utf8 : decode_utf8 raw ≡ some decoded
  pub has_text : is_empty (strip decoded) ≡ false
  pub is_object : loads (strip decoded) ≡ ok (obj fields)
  pub describes : Describes (to_dict fields) r

-- The codes of the errors that a client can meet.
abbrev pub request_error_codes : List Text
request_error_codes =
    text "request_too_large"
    ∷ text "invalid_encoding"
    ∷ text "empty_request"
    ∷ text "malformed_json"
    ∷ text "invalid_request"
    ∷ text "unsupported_command"
    ∷ text "invalid_sort"
    ∷ text "invalid_limit"
    ∷ []

-- A listed code, or a RecursionError.
abbrev pub IsRequestError : Exception → Type 0
IsRequestError e =
    ((c : Text) × (e ≡ protocol_error c) × (member_text c request_error_codes ≡ true))
    ⊎ (e ≡ other_error)

module _ {F : Type 0} ⦃n : Runtime F⦄ where
  or_malformed-eq_ok : (r : Result (Json F)) (v : Json F) → or_malformed r ≡ ok v → r ≡ ok v
  unfolding or_malformed
  or_malformed-eq_ok r v h = ground arith

  parse_value-eq_ok :
      (v : Json F) (r : Request)
      → parse_value v ≡ ok r
      → (fs : Fields F) × (v ≡ obj fs) × Describes (to_dict fs) r
  unfolding parse_value
  parse_value-eq_ok (obj fs) r h = (fs, refl, parse_object_sound (to_dict fs) r h)
  parse_value-eq_ok null r h = cc
  parse_value-eq_ok _ r h = cc

  parse_request_sound : (raw : List ℕ) (r : Request) → parse_request F raw ≡ ok r → Accepted F raw r
  unfolding parse_request
  parse_request_sound raw r h = elim (Bool-cases (ltb max_request_bytes (length raw))) [
    | inl long ↦ absurd (ground arith)
    | inr short ↦ elim (Option-cases (decode_utf8 raw)) [
      | inl bad ↦ absurd (ground arith)
      | inr (t, utf) ↦ elim (Bool-cases (is_empty (strip t))) [
        | inl empty ↦ absurd (ground arith)
        | inr full ↦ elim (Result-cases (or_malformed {F = F} (loads (strip t)))) [
          | is_err x p ↦ absurd (ground arith)
          | is_ok v p ↦
              let (fs, e, d) = parse_value-eq_ok v r (ground arith) in
              record {
                decoded = t;
                fields = fs;
                fits = ground arith;
                is_utf8 = utf;
                has_text = full;
                is_object = or_malformed-eq_ok _ v p ∙ ap ok e;
                describes = d;
              }
        ]
      ]
    ]
  ]

  parse_request_complete :
      (raw : List ℕ) (r : Request) → Accepted F raw r → parse_request F raw ≡ ok r
  unfolding parse_request parse_value or_malformed
  parse_request_complete raw r a =
      ground (arith, parse_object_complete (to_dict a.fields) r a.describes)

  -- `parse_request` returns a request exactly when the bytes are at most 4096, are UTF-8, and hold
  -- a JSON object that asks for that request: a supported command, no key that it does not know,
  -- and for `processes` a known sort and an integer limit from 1 to 20, or the defaults.
  pub parse_request_iff :
      (raw : List ℕ) (r : Request) → (parse_request F raw ≡ ok r) ↔ Accepted F raw r
  parse_request_iff raw r = (parse_request_sound raw r, parse_request_complete raw r)
