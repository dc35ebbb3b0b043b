-- ===== src/Server/Clients.antt =====
-- `_serve_client` and the loop: what a client gets, and that no client ends the server.
use ttop_desk.Prelude.{
  ℕ, ◌≡◌, ◌≢◌, refl, Bool, true, false, Option, none, some, List, [], ◌∷◌, Text, text, ℤ, eqb_ℤ,
  All, inl, inr, ◌⊎◌, OnSome,
}
use ttop_desk.Python.Exceptions.{
  Exception, os_error, Result, ok, err, ◌>>=◌, RaisesOnly, RaisesOnly-bind, RaisesOnly-err,
  RaisesOnly-ok,
}
use ttop_desk.Python.Runtime.{finite, Runtime}
use ttop_desk.Protocol.{JsonDict, error_response, encode_response}
use ttop_desk.Protocol.Framing.{IsOneLine, encode_response_line}
use ttop_desk.Metrics.{MetricsCollector}
use ttop_desk.Json.Encode.Success.{all_finite}
use ttop_desk.Metrics.Replies.{to_fields-finite, error_response-finite}
use ttop_desk.Metrics.Encodes.{replies_encode}
use ttop_desk.Server.{
  read_from, read_request, Connection, peer_is_current_user, answer, send, serve_request,
  serve_peer, serve_client, serve_turn, Accepted, nobody, broken, client, Turn, escaping,
  serve_loop,
}

abbrev IsOsError : Exception → Type 0
IsOsError e = e ≡ os_error

pub escaping-none : {A : Type 0} (r : Result A) → RaisesOnly IsOsError r → escaping r ≡ none
escaping-none (ok a) h = refl
escaping-none (err e) h = rw (h e refl) refl

-- A connection whose calls raise nothing but OSError, served at a finite time.
pub record IsOrdinary {F : Type 0} (c : Connection F) : Type 0 where
  pub time : F
  pub time_known : c.readings.timestamp ≡ finite time
  pub peer_raises : OnSome (RaisesOnly IsOsError) c.peer_uid
  pub recv_raises :
      (e : Exception) (request : List ℕ) → read_from request c.incoming ≡ err e → e ≡ os_error
  pub sendall_raises : (line : List ℕ) → RaisesOnly IsOsError (c.sendall line)

-- The reply to a peer with another uid.
abbrev pub denied_line : List ℕ
denied_line = text "{\"status\":\"error\",\"version\":1,\"error\":\"permission_denied\"}\n"

-- The platform tells that the peer has another uid.
abbrev pub IsForeign : {F : Type 0} → ℤ → Connection F → Type 0
IsForeign uid connection = (owner : ℤ) × (connection.peer_uid ≡ some (ok owner)) × (owner ≢ uid)

-- If there is a client, it is foreign.
abbrev pub IsForeignTurn : {F : Type 0} → ℤ → Accepted F → Type 0
IsForeignTurn uid (client connection) = IsForeign uid connection
IsForeignTurn uid _ = Unit

module _ {F W : Type 0} ⦃n : Runtime F⦄ where
  -- The turn has no client, or one that gets the one line whatever it sends and the state is.
  abbrev pub IsTurnedAway : ℤ → MetricsCollector F W → Turn F → Type 0
  IsTurnedAway uid c turn = elim turn.accepted [
    | client connection ↦
        serve_client uid connection c
        ≡ ((connection.sendall denied_line >>= λ _. ok denied_line), c)
    | _ ↦ Unit
  ]

module _ {F : Type 0} ⦃n : Runtime F⦄ where
  send-raises :
      (connection : Connection F) (response : JsonDict F)
      → IsOrdinary connection
      → IsOneLine (encode_response response)
      → RaisesOnly IsOsError (send connection response)
  unfolding send
  send-raises connection response o h = sending (encode_response response) h
    where
      sending :
          (r : Result (List ℕ))
          → IsOneLine r
          → RaisesOnly IsOsError (r >>= λ line. connection.sendall line >>= λ _. ok line)
      sending (err e) h = absurd h
      sending (ok line) h =
          RaisesOnly-bind IsOsError (connection.sendall line) _ (o.sendall_raises line)
            (λ _. RaisesOnly-ok IsOsError line)

error_response-line :
    (F : Type 0) ⦃n : Runtime F⦄ (code : Text)
    → IsOneLine (encode_response (error_response {F = F} code))
error_response-line F code =
    encode_response_line _
      (unfold all_finite in to_fields-finite (error_response code) (error_response-finite F code))

peer-raises :
    {F : Type 0} (uid : ℤ) (connection : Connection F)
    → IsOrdinary connection
    → RaisesOnly IsOsError (peer_is_current_user uid connection)
unfolding peer_is_current_user
peer-raises uid connection o = known connection.peer_uid o.peer_raises
  where
    known :
        (p : Option (Result ℤ))
        → OnSome (RaisesOnly IsOsError) p
        → RaisesOnly IsOsError
            (elim p [ none ↦ ok true | some peer ↦ peer >>= λ owner. ok (eqb_ℤ owner uid) ])
    known none h = RaisesOnly-ok IsOsError true
    known (some r) h = RaisesOnly-bind IsOsError r _ h (λ owner. RaisesOnly-ok IsOsError _)

module _ {F W : Type 0} ⦃n : Runtime F⦄ where
  serve_request-raises :
      (connection : Connection F) (r : Result (List ℕ)) (c : MetricsCollector F W)
      → IsOrdinary connection
      → RaisesOnly IsOsError r
      → RaisesOnly IsOsError (serve_request connection r c).0
  unfolding serve_request
  serve_request-raises connection (err x) c o h = RaisesOnly-err IsOsError x (h x refl)
  serve_request-raises connection (ok request) c o h =
      send-raises connection (answer connection request c).0 o
        (unfold answer in replies_encode connection.readings o.time o.time_known request c)

  serve_peer-raises :
      (connection : Connection F) (peer : Result Bool) (c : MetricsCollector F W)
      → IsOrdinary connection
      → RaisesOnly IsOsError peer
      → RaisesOnly IsOsError (serve_peer connection peer c).0
  unfolding serve_peer
  serve_peer-raises connection (err x) c o h = RaisesOnly-err IsOsError x (h x refl)
  serve_peer-raises connection (ok false) c o h =
      send-raises connection _ o (error_response-line F (text "permission_denied"))
  serve_peer-raises connection (ok true) c o h =
      serve_request-raises connection (read_request connection.incoming) c o
        (unfold read_request in λ e. o.recv_raises e [])

  -- Whatever an ordinary client sends, nothing but an OSError comes out of `_serve_client`.
  pub serve_client_raises :
      (uid : ℤ) (connection : Connection F) (c : MetricsCollector F W)
      → IsOrdinary connection
      → RaisesOnly IsOsError (serve_client uid connection c).0
  unfolding serve_client
  serve_client_raises uid connection c o =
      serve_peer-raises connection (peer_is_current_user uid connection) c o
        (peer-raises uid connection o)

-- The loop goes on, or has returned.
abbrev pub IsQuiet : Option (Result (Unit {0})) → Type 0
IsQuiet r = (r ≡ none) ⊎ (r ≡ some (ok tt))

-- An ordinary client, nobody, or an `accept` that fails because the server is being stopped.
abbrev pub IsOrdinaryAccept : {F : Type 0} → Accepted F → Type 0
IsOrdinaryAccept nobody = Unit
IsOrdinaryAccept (broken e stopped) = (e ≡ os_error) × (stopped ≡ true)
IsOrdinaryAccept (client connection) = IsOrdinary connection

module _ {F W : Type 0} ⦃n : Runtime F⦄ where
  serve_turn-survives :
      (uid : ℤ) (stopped : Bool) (accepted : Accepted F) (c : MetricsCollector F W)
      (continue_with : MetricsCollector F W → Option (Result (Unit {0})) × MetricsCollector F W)
      → IsOrdinaryAccept accepted
      → ((c : MetricsCollector F W) → IsQuiet (continue_with c).0)
      → IsQuiet (serve_turn uid stopped accepted continue_with c).0
  serve_turn-survives uid true accepted c k h rest = inr refl
  serve_turn-survives uid false nobody c k h rest = rest c
  serve_turn-survives uid false (broken e stopped) c k h rest = inr (rw (h.0, h.1) refl)
  serve_turn-survives uid false (client connection) c k h rest =
      let quiet =
        escaping-none (serve_client uid connection c).0 (serve_client_raises uid connection c h) in
      rw (quiet, serve_turn) (rest (serve_client uid connection c).1)

  -- In a run where all turns are ordinary the loop raises nothing: it is still running, or it has
  -- ended because the server was stopped. No client can end it.
  pub serve_loop_survives :
      (uid : ℤ) (turns : List (Turn F)) (c : MetricsCollector F W)
      → All (λ turn. IsOrdinaryAccept turn.accepted) turns
      → IsQuiet (serve_loop uid turns c).0
  unfolding serve_loop
  serve_loop_survives uid [] c h = inl refl
  serve_loop_survives uid (turn ∷ turns) c (h, hs) =
      serve_turn-survives uid turn.stopped turn.accepted c (serve_loop uid turns) h
        λ c. serve_loop_survives uid turns c hs
