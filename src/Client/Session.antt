-- ===== src/Client/Session.antt =====
-- `main` of scripts/backend-client.py: the requests one after the other, each on its connection.
use mathlib.Core.List.{append_assoc}
use ttop_desk.Prelude.{
  ℕ, suc, ◌≡◌, ◌⊎◌, inl, inr, refl, ap, sym, ◌∙◌, arith, Bool, Option, List, [], ◌∷◌, ◌++◌, Text, ℤ,
  length, ◌+◌,
}
use ttop_desk.Python.Exceptions.{Exception, ok, err, Result-cases, is_ok, is_err}
use ttop_desk.Python.Runtime.{Runtime}
use ttop_desk.Protocol.{JsonDict}
use ttop_desk.Client.{
  Peer, Output, requests, mode_of, label_line, response_lines, ask, ask_all, main,
}

module _ {F : Type 0} ⦃n : Runtime F⦄ (peers : ℕ → Peer) where
  -- The requests are answered with these responses, from the i-th connection on.
  abbrev pub AreAnswered : List (Text × JsonDict F) → ℕ → List (JsonDict F) → Type 0
  AreAnswered [] i [] = Unit
  AreAnswered ((label, payload) ∷ asked) i (response ∷ responses) =
      (ask payload (peers i) ≡ ok response) × AreAnswered asked (suc i) responses
  AreAnswered _ i _ = ⊥

  -- Each label, and below it its response.
  abbrev pub transcript : List (Text × JsonDict F) → List (JsonDict F) → Text
  transcript ((label, _) ∷ asked) (response ∷ responses) =
      label_line label ++ response_lines response ++ transcript asked responses
  transcript _ _ = []

  -- All requests are answered.
  pub record IsComplete (asked : List (Text × JsonDict F)) (i : ℕ) (o : Output) : Type 0 where
    pub responses : List (JsonDict F)
    pub answered : AreAnswered asked i responses
    pub all_printed : o.printed ≡ transcript asked responses
    pub status : o.result ≡ ok 0

  -- The first request that is not answered.
  pub record IsBroken (asked : List (Text × JsonDict F)) (i : ℕ) (o : Output) : Type 0 where
    pub before : List (Text × JsonDict F)
    pub label : Text
    pub payload : JsonDict F
    pub after : List (Text × JsonDict F)
    pub responses : List (JsonDict F)
    pub raised : Exception
    pub split : asked ≡ before ++ (label, payload) ∷ after
    pub answered : AreAnswered before i responses
    pub unanswered : ask payload (peers (length before + i)) ≡ err raised
    pub some_printed : o.printed ≡ transcript before responses ++ label_line label
    pub status : o.result ≡ err raised

  ask_all_outcome :
      (asked : List (Text × JsonDict F)) (i : ℕ)
      → IsComplete asked i (ask_all asked i peers) ⊎ IsBroken asked i (ask_all asked i peers)
  unfolding ask_all
  ask_all_outcome [] i =
      inl (record { responses = []; answered = tt; all_printed = refl; status = refl })
  ask_all_outcome ((label, payload) ∷ asked) i = elim (Result-cases (ask payload (peers i))) [
    | is_err e q ↦ inr (record {
      before = [];
      label = label;
      payload = payload;
      after = asked;
      responses = [];
      raised = e;
      split = refl;
      answered = tt;
      unanswered = ap (λ k. ask payload (peers k)) (omega arith) ∙ q;
      some_printed = rw (q, ask_all) refl;
      status = rw (q, ask_all) refl;
    })
    | is_ok d q ↦ elim (ask_all_outcome asked (suc i)) [
      | inl c ↦ inl (record {
        responses = d ∷ c.responses;
        answered = (q, c.answered);
        all_printed = rw (q, ask_all, c.all_printed) refl;
        status = rw (q, ask_all) c.status;
      })
      | inr b ↦ inr (record {
        before = (label, payload) ∷ b.before;
        label = b.label;
        payload = b.payload;
        after = b.after;
        responses = d ∷ b.responses;
        raised = b.raised;
        split = ap (λ l. (label, payload) ∷ l) b.split;
        answered = (q, b.answered);
        unanswered = ap (λ k. ask b.payload (peers k)) (omega arith) ∙ b.unanswered;
        some_printed =
            rw (q, ask_all, b.some_printed)
              (sym (
                append_assoc (label_line label ++ response_lines d)
                  (transcript b.before b.responses) (label_line b.label)));
        status = rw (q, ask_all) b.status;
      })
    ]
  ]

  -- `main` has two outcomes. Every request is answered by its connection: it prints each label and
  -- below it the response, in order, and returns 0. Or the request that comes first among those
  -- not answered raises: what `main` has printed are the labels and responses before it, and its
  -- label.
  pub main_outcome :
      (ping : Bool) (processes : Option ℤ) (gpu : Bool) (sort : Text)
      → IsComplete
          (requests (mode_of ping processes gpu) sort)
          0
          (main F ping processes gpu sort peers)
        ⊎ IsBroken
            (requests (mode_of ping processes gpu) sort)
            0
            (main F ping processes gpu sort peers)
  unfolding main
  main_outcome ping processes gpu sort =
      ask_all_outcome (requests (mode_of ping processes gpu) sort) 0
