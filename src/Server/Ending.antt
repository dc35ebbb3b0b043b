-- ===== src/Server/Ending.antt =====
-- The end of `serve_forever`: the GPU provider is shut down, and the socket's path is left clean.
use mathlib.Core.Path.{subst}
use ttop_desk.Prelude.{
  ℕ, ◌≡◌, ◌≢◌, refl, sym, Bool, true, false, Option, some, List, [], ◌∷◌, Text, text, text_eq, ℤ,
  eqb_ℤ, eqb_ℤ_iff, arith, Bool-cases, Option-cases, inl, inr, ◌⊎◌,
}
use ttop_desk.Python.Exceptions.{protocol_error, Result, ok, err}
use ttop_desk.Python.Runtime.{Runtime}
use ttop_desk.Protocol.{
  Request, JsonDict, Factory, parse_request, with_version, serve_processes, serve_gpu, dispatch,
  recover, respond, handle_request,
}
use ttop_desk.Gpu.Nvidia.{NvidiaNvmlProvider, shutdown}
use ttop_desk.Gpu.Nvidia.Lifecycle.{IsReady, IsFailed}
use ttop_desk.Metrics.{MetricsCollector, snapshot, processes, gpu, close}
use ttop_desk.Server.{
  read_request, Connection, peer_is_current_user, answer, serve_request, serve_peer, serve_client,
  Accepted, nobody, broken, client, Turn, escaping, serve_turn, serve_loop, SocketFile, absent,
  present, remove_owned_socket, stop_serving,
}

module _ {F S : Type 0} (P : S → Type 0) where
  with_version-keeps : (r : Result (JsonDict F) × S) → P r.1 → P (with_version r).1
  unfolding with_version
  with_version-keeps (ok d, s) h = h
  with_version-keeps (err e, s) h = h

  recover-keeps : (r : Result (JsonDict F) × S) → P r.1 → P (recover r).1
  unfolding recover
  recover-keeps (ok d, s) h = h
  recover-keeps (err (protocol_error c), s) h = h
  recover-keeps (err _, s) h = h

  module _ (a : Factory S F) (p : Text → ℤ → Factory S F) (g : Factory S F)
      (ha : (s : S) → P s → P (a s).1) (hp : (k : Text) (z : ℤ) (s : S) → P s → P (p k z s).1)
      (hg : (s : S) → P s → P (g s).1) where
    dispatch-keeps : (q : Request) (s : S) → P s → P (dispatch a (some p) (some g) q s).1
    unfolding dispatch serve_processes serve_gpu
    dispatch-keeps q s h = elim (Bool-cases (text_eq q.command (text "ping"))) [
      | inl e ↦ rw e h
      | inr e ↦ rw e (elim (Bool-cases (text_eq q.command (text "snapshot"))) [
        | inl e ↦ rw e (with_version-keeps (a s) (ha s h))
        | inr e ↦ rw e (elim (Bool-cases (text_eq q.command (text "processes"))) [
          | inl e ↦ rw e (with_version-keeps (p q.sort q.limit s) (hp q.sort q.limit s h))
          | inr e ↦ rw e (elim (Bool-cases (text_eq q.command (text "gpu"))) [
            | inl e ↦ rw e (with_version-keeps (g s) (hg s h))
            | inr e ↦ rw e h
          ])
        ])
      ])
    ]

    respond-keeps : (m : Result Request) (s : S) → P s → P (respond a (some p) (some g) m s).1
    unfolding respond
    respond-keeps (err e) s h = recover-keeps (err e, s) h
    respond-keeps (ok q) s h = recover-keeps _ (dispatch-keeps q s h)

module _ {F W : Type 0} ⦃n : Runtime F⦄ (p : NvidiaNvmlProvider W) where
  -- The collector still has the provider `p`.
  abbrev Has : MetricsCollector F W → Type 0
  Has c = c.gpu_provider ≡ p

  answer-keeps :
      (connection : Connection F) (request : List ℕ) (c : MetricsCollector F W)
      → Has c
      → Has (answer connection request c).1
  unfolding answer handle_request snapshot processes gpu
  answer-keeps connection request c h =
      respond-keeps Has (snapshot connection.readings) (processes connection.readings)
        (gpu connection.readings) (λ s k. k) (λ t z s k. k) (λ s k. k) (parse_request F request) c h

  serve_request-keeps :
      (connection : Connection F) (r : Result (List ℕ)) (c : MetricsCollector F W)
      → Has c
      → Has (serve_request connection r c).1
  unfolding serve_request
  serve_request-keeps connection (err e) c h = h
  serve_request-keeps connection (ok request) c h = answer-keeps connection request c h

  serve_peer-keeps :
      (connection : Connection F) (peer : Result Bool) (c : MetricsCollector F W)
      → Has c
      → Has (serve_peer connection peer c).1
  unfolding serve_peer
  serve_peer-keeps connection (err e) c h = h
  serve_peer-keeps connection (ok false) c h = h
  serve_peer-keeps connection (ok true) c h =
      serve_request-keeps connection (read_request connection.incoming) c h

  serve_turn-keeps :
      (uid : ℤ) (stopped : Bool) (accepted : Accepted F) (c : MetricsCollector F W)
      (continue_with : MetricsCollector F W → Option (Result (Unit {0})) × MetricsCollector F W)
      → Has c
      → ((c : MetricsCollector F W) → Has c → Has (continue_with c).1)
      → Has (serve_turn uid stopped accepted continue_with c).1
  serve_turn-keeps uid true accepted c k h rest = h
  serve_turn-keeps uid false nobody c k h rest = rest c h
  serve_turn-keeps uid false (broken e stopped) c k h rest = h
  serve_turn-keeps uid false (client connection) c k h rest =
      let kept : Has (serve_client uid connection c).1 =
        unfold serve_client in
        serve_peer-keeps connection (peer_is_current_user uid connection) c h in
      elim (Option-cases (escaping (serve_client uid connection c).0)) [
        | inl e ↦ rw (e, serve_turn) (rest (serve_client uid connection c).1 kept)
        | inr (x, e) ↦ rw (e, serve_turn) kept
      ]

  serve_loop-keeps :
      (uid : ℤ) (turns : List (Turn F)) (c : MetricsCollector F W)
      → Has c
      → Has (serve_loop uid turns c).1
  unfolding serve_loop
  serve_loop-keeps uid [] c h = h
  serve_loop-keeps uid (turn ∷ turns) c h =
      serve_turn-keeps uid turn.stopped turn.accepted c (serve_loop uid turns) h
        (serve_loop-keeps uid turns)

shutdown-initialized :
    {W : Type 0} (p : NvidiaNvmlProvider W) (w : W)
    → IsReady p ⊎ IsFailed p
    → ((shutdown p w).0.initialized ≡ false) × ((shutdown p w).0.available ≡ false)
unfolding shutdown
shutdown-initialized p w (inl (_, started, _, ((f, e), _, _))) = rw (started, e) (refl, refl)
shutdown-initialized p w (inr (off, idle, _)) = rw idle (refl, off)

remove_owned_socket-cases :
    (uid : ℤ) (file : SocketFile)
    → ((remove_owned_socket uid file ≡ absent) × ((file ≡ absent) ⊎ (file ≡ present true uid)))
      ⊎ ((remove_owned_socket uid file ≡ file) × (file ≢ present true uid))
unfolding remove_owned_socket
remove_owned_socket-cases uid absent = inl (refl, inl refl)
remove_owned_socket-cases uid (present false owner) = inr (refl, (λ e. cc))
remove_owned_socket-cases uid (present true owner) = elim (Bool-cases (eqb_ℤ owner uid)) [
  | inl e ↦ inl (ground arith, inr (ground (arith, eqb_ℤ_iff owner uid)))
  | inr e ↦ inr (ground arith, (λ h. ground (arith, eqb_ℤ_iff owner uid)))
]

module _ {F W : Type 0} ⦃n : Runtime F⦄ where
  -- Where the server began with a provider that was constructed, its end leaves the provider
  -- neither available nor initialised, whatever clients it has served; and of what then stands at
  -- the path it removes a socket of this user, and leaves anything else.
  pub stop_serving_outcome :
      (uid : ℤ) (turns : List (Turn F)) (file : SocketFile) (c : MetricsCollector F W)
      → IsReady c.gpu_provider ⊎ IsFailed c.gpu_provider
      → ((stop_serving uid file (serve_loop uid turns c).1).1.gpu_provider.initialized ≡ false)
        × ((stop_serving uid file (serve_loop uid turns c).1).1.gpu_provider.available ≡ false)
        × ((((stop_serving uid file (serve_loop uid turns c).1).0 ≡ absent)
              × ((file ≡ absent) ⊎ (file ≡ present true uid)))
            ⊎ (((stop_serving uid file (serve_loop uid turns c).1).0 ≡ file)
                × (file ≢ present true uid)))
  unfolding stop_serving close
  stop_serving_outcome uid turns file c h =
      let after = (serve_loop uid turns c).1 in
      let kept : after.gpu_provider ≡ c.gpu_provider =
        serve_loop-keeps c.gpu_provider uid turns c refl in
      let (idle, off) =
        shutdown-initialized after.gpu_provider after.library_state
          (subst (λ p. IsReady p ⊎ IsFailed p) (sym kept) h) in
      (idle, off, remove_owned_socket-cases uid file)
