-- ===== src/Protocol/Dispatch.antt =====
-- `handle_request`: every reply is versioned, a refused request reaches no sampler, and what a sampler
-- raises is never shown.
use ttop_desk.Prelude.{
  ℕ, ◌≡◌, ◌≢◌, refl, inl, inr, true, Option, none, some, List, [], ◌∷◌, Text, text, text_eq,
  text_eq_iff, member_text, arith, ℤ, if◌then◌else◌, Bool-cases,
}
use ttop_desk.Python.Exceptions.{Exception, protocol_error, type_error, Result, ok, err}
use ttop_desk.Python.Dict.{text_key, lookup, insert, lookup-insert}
use ttop_desk.Python.Runtime.{Runtime}
use ttop_desk.Json.{str, int}
use ttop_desk.Protocol.{
  Request, JsonDict, Factory, protocol_version, error_response, parse_request, with_version,
  serve_processes, serve_gpu, dispatch, recover, respond, handle_request,
}
use ttop_desk.Protocol.Parsing.{request_error_codes}
use ttop_desk.Protocol.Rejections.{parse_request_errors}

-- `lookup "version"` of a reply
abbrev pub HasVersion : {F : Type 0} → JsonDict F → Type 0
HasVersion d = lookup (text "version") d ≡ some (int protocol_version)

member_later :
    (c x : Text) (xs : List Text) → member_text c xs ≡ true → member_text c (x ∷ xs) ≡ true
unfolding member_text
member_later c x xs h = ground arith

internal_listed :
    member_text (text "internal_error") (text "internal_error" ∷ request_error_codes) ≡ true
unfolding member_text text_eq
internal_listed = refl

module _ {F : Type 0} where
  error_response-HasVersion : (c : Text) → HasVersion (error_response {F = F} c)
  unfolding error_response lookup text_eq
  error_response-HasVersion c = refl

  pong-HasVersion :
      HasVersion {F = F}
        ((text "status", str (text "ok")) ∷ (text "version", int protocol_version) ∷ [])
  unfolding lookup text_eq
  pong-HasVersion = refl

  insert-HasVersion :
      (d : JsonDict F) → HasVersion (insert (text "version") (int protocol_version) d)
  unfolding text_eq
  insert-HasVersion d = lookup-insert (text "version") (text "version") (int protocol_version) d

  abbrev pub IfOk : {S : Type 0} → (JsonDict F → Type 0) → Result (JsonDict F) × S → Type 0
  IfOk P (ok d, _) = P d
  IfOk P (err _, _) = Unit

module _ {F S : Type 0} where
  with_version-HasVersion : (r : Result (JsonDict F) × S) → IfOk HasVersion (with_version r)
  unfolding with_version
  with_version-HasVersion (ok d, s) = insert-HasVersion d
  with_version-HasVersion (err e, s) = tt

  recover-HasVersion : (r : Result (JsonDict F) × S) → IfOk HasVersion r → HasVersion (recover r).0
  unfolding recover
  recover-HasVersion (ok d, s) h = h
  recover-HasVersion (err (protocol_error c), s) h = error_response-HasVersion c
  recover-HasVersion (err _, s) h = error_response-HasVersion (text "internal_error")

  serve_processes-HasVersion :
      (p : Option (Text → ℤ → Factory S F)) (r : Request) (s : S)
      → IfOk HasVersion (serve_processes p r s)
  unfolding serve_processes
  serve_processes-HasVersion none r s = error_response-HasVersion (text "unsupported_command")
  serve_processes-HasVersion (some f) r s = with_version-HasVersion (f r.sort r.limit s)

  serve_gpu-HasVersion : (g : Option (Factory S F)) (s : S) → IfOk HasVersion (serve_gpu g s)
  unfolding serve_gpu
  serve_gpu-HasVersion none s = error_response-HasVersion (text "unsupported_command")
  serve_gpu-HasVersion (some f) s = with_version-HasVersion (f s)

  -- The sampler that a request reaches, if it reaches one.
  abbrev pub sampler_for :
      Factory S F
      → Option (Text → ℤ → Factory S F)
      → Option (Factory S F)
      → Request
      → Option (Factory S F)
  sampler_for snapshot processes gpu r =
      if text_eq r.command (text "snapshot")
      then some snapshot
      else if text_eq r.command (text "processes")
      then elim processes [ none ↦ none | some f ↦ some (f r.sort r.limit) ]
      else if text_eq r.command (text "gpu")
      then gpu
      else none

  module _ (snapshot : Factory S F) (processes : Option (Text → ℤ → Factory S F))
      (gpu : Option (Factory S F)) where
    dispatch-HasVersion :
        (r : Request) (s : S) → IfOk HasVersion (dispatch snapshot processes gpu r s)
    unfolding dispatch
    dispatch-HasVersion r s = elim (Bool-cases (text_eq r.command (text "ping"))) [
      | inl e ↦ rw e pong-HasVersion
      | inr e ↦ rw e (elim (Bool-cases (text_eq r.command (text "snapshot"))) [
        | inl e ↦ rw e (with_version-HasVersion (snapshot s))
        | inr e ↦ rw e (elim (Bool-cases (text_eq r.command (text "processes"))) [
          | inl e ↦ rw e (serve_processes-HasVersion processes r s)
          | inr e ↦ rw e (elim (Bool-cases (text_eq r.command (text "gpu"))) [
            | inl e ↦ rw e (serve_gpu-HasVersion gpu s)
            | inr e ↦ rw e (error_response-HasVersion (text "unsupported_command"))
          ])
        ])
      ])
    ]

    dispatch-sampler :
        (r : Request) (s : S) (f : Factory S F)
        → sampler_for snapshot processes gpu r ≡ some f
        → dispatch snapshot processes gpu r s ≡ with_version (f s)
    unfolding dispatch serve_processes serve_gpu
    dispatch-sampler r s f h = ground (
      arith,
      text_eq_iff r.command (text "ping"),
      text_eq_iff r.command (text "snapshot"),
      text_eq_iff r.command (text "processes"),
      text_eq_iff r.command (text "gpu"),
    )

    respond-HasVersion :
        (p : Result Request) (s : S) → HasVersion (respond snapshot processes gpu p s).0
    unfolding respond
    respond-HasVersion (err e) s = recover-HasVersion (err e, s) tt
    respond-HasVersion (ok r) s = recover-HasVersion _ (dispatch-HasVersion r s)

    -- A request that cannot be parsed reaches no sampler: the caller's state is as it was, and the
    -- reply is an error with one of the eight codes of the parser or `internal_error`.
    pub handle_request_rejected :
        ⦃n : Runtime F⦄
        → (raw : List ℕ) (s : S) (e : Exception) → parse_request F raw ≡ err e
        → (c : Text) × (handle_request raw snapshot processes gpu s ≡ (error_response c, s))
          × (member_text c (text "internal_error" ∷ request_error_codes) ≡ true)
    unfolding handle_request respond recover
    handle_request_rejected raw s e h = elim (parse_request_errors F raw e h) [
      | inl (c, p, m) ↦ (c, rw (h, p), member_later c _ request_error_codes m)
      | inr p ↦ (text "internal_error", rw (h, p), internal_listed)
    ]

    -- Every reply carries the protocol's version, whatever the bytes are and whatever the samplers
    -- return or raise.
    pub handle_request_version :
        ⦃n : Runtime F⦄
        → (raw : List ℕ) (s : S)
        → lookup (text "version") (handle_request raw snapshot processes gpu s).0
          ≡ some (int protocol_version)
    unfolding handle_request
    handle_request_version raw s = respond-HasVersion (parse_request F raw) s

    recover_internal :
        (e : Exception) (s : S)
        → ((c : Text) → e ≢ protocol_error c)
        → recover {F = F} (err e, s) ≡ (error_response (text "internal_error"), s)
    unfolding recover
    recover_internal (protocol_error c) s h = absurd (h c refl)
    recover_internal type_error s h = refl
    recover_internal _ s h = refl

    -- When the sampler that a parsed request reaches raises, and not a ProtocolError, the reply is
    -- `internal_error` and nothing else; what it had done to its state stays.
    pub handle_request_masks :
        ⦃n : Runtime F⦄
        → (raw : List ℕ) (r : Request) (f : Factory S F) (s s' : S) (e : Exception)
        → parse_request F raw ≡ ok r
        → sampler_for snapshot processes gpu r ≡ some f
        → f s ≡ (err e, s')
        → ((c : Text) → e ≢ protocol_error c)
        → handle_request raw snapshot processes gpu s ≡ (error_response (text "internal_error"), s')
    unfolding handle_request respond with_version
    handle_request_masks raw r f s s' e p q h k =
        rw (p, dispatch-sampler r s f q, h) (recover_internal e s' k)
