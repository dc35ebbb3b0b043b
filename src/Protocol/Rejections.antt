-- ===== src/Protocol/Rejections.antt =====
-- The errors of `parse_request`: a fixed list of codes, whatever the bytes are.
use mathlib.Core.Path.{subst}
use ttop_desk.Prelude.{
  ℕ, ◌≡◌, refl, sym, inl, inr, Bool, true, false, Option, none, some, List, Text, text, member_text,
  arith, ltb, length, ◌⊎◌, if◌then◌else◌,
}
use ttop_desk.Python.Exceptions.{
  Exception, protocol_error, value_error, other_error, Result, ok, err, RaisesOnly, RaisesOnly-err,
  RaisesOnly-ok, RaisesOnly-raise_if, RaisesOnly-bind, raise_if,
}
use ttop_desk.Python.Dict.{text_key}
use ttop_desk.Python.Runtime.{Runtime}
use ttop_desk.Python.Strings.{decode_utf8, strip, is_empty}
use ttop_desk.Json.{Json, null, obj, to_dict}
use ttop_desk.Json.Decode.Errors.{loads-errors}
use ttop_desk.Protocol.{
  Request, JsonDict, plain_commands, command_of, sort_of, limit_of, plain_request,
  processes_request, parse_object, parse_value, or_malformed, or_invalid_encoding, parse_request,
  max_request_bytes,
}
use ttop_desk.Protocol.Parsing.{IsRequestError, request_error_codes}

-- Every code that the parser writes is listed.
coded :
    (member_text (text "request_too_large") request_error_codes ≡ true)
    × (member_text (text "invalid_encoding") request_error_codes ≡ true)
    × (member_text (text "empty_request") request_error_codes ≡ true)
    × (member_text (text "malformed_json") request_error_codes ≡ true)
    × (member_text (text "invalid_request") request_error_codes ≡ true)
    × (member_text (text "unsupported_command") request_error_codes ≡ true)
    × (member_text (text "invalid_sort") request_error_codes ≡ true)
    × (member_text (text "invalid_limit") request_error_codes ≡ true)
unfolding member_text
coded = (refl, refl, refl, refl, refl, refl, refl, refl)

module _ (c : Text) (m : member_text c request_error_codes ≡ true) where
  known : IsRequestError (protocol_error c)
  known = inl (c, refl, m)

  known_if : (b : Bool) → RaisesOnly IsRequestError (raise_if b (protocol_error c))
  known_if b = RaisesOnly-raise_if IsRequestError b (protocol_error c) known

or_invalid_encoding-RaisesOnly :
    (o : Option Text) → RaisesOnly IsRequestError (or_invalid_encoding o)
or_invalid_encoding-RaisesOnly none = RaisesOnly-err IsRequestError _ (known _ coded.1)
or_invalid_encoding-RaisesOnly (some t) = RaisesOnly-ok IsRequestError t

abbrev Rejects : Result Request → Type 0
Rejects = RaisesOnly IsRequestError

module _ {F : Type 0} where
  command_of-RaisesOnly : (v : Option (Json F)) → RaisesOnly IsRequestError (command_of v)
  unfolding command_of
  command_of-RaisesOnly v e h = subst IsRequestError (ground arith) (known _ coded.4)

  sort_of-RaisesOnly : (v : Option (Json F)) → RaisesOnly IsRequestError (sort_of v)
  unfolding sort_of
  sort_of-RaisesOnly v e h = subst IsRequestError (ground arith) (known _ coded.6)

  limit_of-RaisesOnly : (v : Option (Json F)) → RaisesOnly IsRequestError (limit_of v)
  unfolding limit_of
  limit_of-RaisesOnly v e h = subst IsRequestError (ground arith) (known _ coded.7)

  plain_request-Rejects : (c : Text) (d : JsonDict F) → Rejects (plain_request c d)
  unfolding plain_request
  plain_request-Rejects c d =
      RaisesOnly-bind IsRequestError _ _ (known_if _ coded.4 _)
        (λ _. RaisesOnly-ok IsRequestError _)

  processes_request-Rejects : (c : Text) (d : JsonDict F) → Rejects (processes_request c d)
  unfolding processes_request
  processes_request-Rejects c d = RaisesOnly-bind IsRequestError _ _ (known_if _ coded.4 _) λ _.
      RaisesOnly-bind IsRequestError _ _ (sort_of-RaisesOnly _) λ s.
        RaisesOnly-bind IsRequestError _ _ (limit_of-RaisesOnly _)
          λ z. RaisesOnly-ok IsRequestError _

  parse_object-Rejects : (d : JsonDict F) → Rejects (parse_object d)
  unfolding parse_object
  parse_object-Rejects d = RaisesOnly-bind IsRequestError _ _ (command_of-RaisesOnly _) λ c.
      RaisesOnly-bind IsRequestError _ _ (known_if _ coded.5 _)
        λ _. branch c (member_text c plain_commands)
    where
      branch :
          (c : Text) (b : Bool) → Rejects (if b then plain_request c d else processes_request c d)
      branch c true = plain_request-Rejects c d
      branch c false = processes_request-Rejects c d

  parse_value-Rejects : (v : Json F) → Rejects (parse_value v)
  unfolding parse_value
  parse_value-Rejects (obj fs) = parse_object-Rejects (to_dict fs)
  parse_value-Rejects null = RaisesOnly-err IsRequestError _ (known _ coded.4)
  parse_value-Rejects _ = RaisesOnly-err IsRequestError _ (known _ coded.4)

module _ {F : Type 0} ⦃n : Runtime F⦄ where
  or_malformed-RaisesOnly :
      (r : Result (Json F))
      → ((e : Exception) → r ≡ err e → (e ≡ value_error) ⊎ (e ≡ other_error))
      → RaisesOnly IsRequestError (or_malformed r)
  unfolding or_malformed
  or_malformed-RaisesOnly (ok v) h = RaisesOnly-ok IsRequestError v
  or_malformed-RaisesOnly (err x) h = elim (h x refl) [
    | inl e ↦
        subst (λ y. RaisesOnly IsRequestError (or_malformed {F = F} (err y))) (sym e)
          (RaisesOnly-err IsRequestError _ (known _ coded.3))
    | inr e ↦
        subst (λ y. RaisesOnly IsRequestError (or_malformed {F = F} (err y))) (sym e)
          (RaisesOnly-err IsRequestError _ (inr refl))
  ]

module _ (F : Type 0) ⦃n : Runtime F⦄ where
  -- Whatever the bytes are, `parse_request` returns a request or raises one of eight codes; the
  -- only other exception is the RecursionError of a text that is nested too deep.
  pub parse_request_errors :
      (raw : List ℕ) (e : Exception) → parse_request F raw ≡ err e → IsRequestError e
  unfolding parse_request
  parse_request_errors raw =
      RaisesOnly-bind IsRequestError _ _ (known_if _ coded.0 (ltb max_request_bytes (length raw)))
        λ _.
          RaisesOnly-bind IsRequestError _ _ (or_invalid_encoding-RaisesOnly (decode_utf8 raw)) λ t.
            RaisesOnly-bind IsRequestError _ _ (known_if _ coded.2 (is_empty (strip t))) λ _.
              RaisesOnly-bind IsRequestError _ _
                (or_malformed-RaisesOnly {F = F} _ (loads-errors (strip t)))
                λ v. parse_value-Rejects v
