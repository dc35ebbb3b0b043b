-- ===== src/Server/Lifetime/Laws.antt =====
-- The run of a server: it ends at the first turn that finds it stopped, and leaves nothing behind.
use mathlib.Core.Path.{subst}
use ttop_desk.Prelude.{
  ◌≡◌, ◌≢◌, refl, sym, ap, ◌∙◌, Bool, true, false, Option, none, some, Option-cases, List, [], ◌∷◌,
  ◌++◌, ℤ, All, arith, inl, inr, ◌⊎◌,
}
use ttop_desk.Python.Exceptions.{runtime_error, Result, ok, err, >>=-eq-ok}
use ttop_desk.Python.Runtime.{Runtime}
use ttop_desk.Metrics.{MetricsCollector}
use ttop_desk.Gpu.Nvidia.Init.{nvidia_nvml_provider}
use ttop_desk.Gpu.Nvidia.{Nvml}
use ttop_desk.Gpu.Nvidia.Lifecycle.{IsReady, IsFailed, nvidia_nvml_provider_outcome}
use ttop_desk.Server.{
  SocketFile, absent, present, Accepted, nobody, broken, client, Turn, serve_client, serve_turn,
  serve_loop,
}
use ttop_desk.Server.Clients.{IsOrdinaryAccept, escaping-none, serve_client_raises}
use ttop_desk.Server.Ending.{stop_serving_outcome}
use ttop_desk.Server.Paths.{IsStale, IsGone, remove_stale_socket_outcome}
use ttop_desk.Server.Lifetime.{
  Startup, prepare_socket_parent, start_listening, create_socket, claim_path, Served, finally_stop,
  serve_bound, serve_claimed, serve_forever, exit_status, status_of, main, backend_server,
  create_gpu_provider,
}

module _ {F W : Type 0} ⦃n : Runtime F⦄ where
  serve_turn-stops :
      (uid : ℤ) (stopped : Bool) (accepted : Accepted F) (c : MetricsCollector F W)
      (go all : MetricsCollector F W → Option (Result (Unit {0})) × MetricsCollector F W)
      → IsOrdinaryAccept accepted
      → ((c : MetricsCollector F W) → all c ≡ (some (ok tt), (go c).1))
      → serve_turn uid stopped accepted all c
        ≡ (some (ok tt), (serve_turn uid stopped accepted go c).1)
  serve_turn-stops uid true accepted c go all h rest = refl
  serve_turn-stops uid false nobody c go all h rest = rest c
  serve_turn-stops uid false (broken e stopped) c go all h rest = rw (h.0, h.1) refl
  serve_turn-stops uid false (client connection) c go all h rest =
      let quiet =
        escaping-none (serve_client uid connection c).0 (serve_client_raises uid connection c h) in
      rw (quiet, serve_turn) (rest (serve_client uid connection c).1)

  -- Liveness.
  pub serve_loop_stops :
      (uid : ℤ) (turns : List (Turn F)) (last : Turn F) (later : List (Turn F))
      (c : MetricsCollector F W)
      → All (λ turn. IsOrdinaryAccept turn.accepted) turns
      → last.stopped ≡ true
      → serve_loop uid (turns ++ last ∷ later) c ≡ (some (ok tt), (serve_loop uid turns c).1)
  unfolding serve_loop
  serve_loop_stops uid [] last later c h stop = rw stop refl
  serve_loop_stops uid (turn ∷ turns) last later c (h, hs) stop =
      serve_turn-stops uid turn.stopped turn.accepted c (serve_loop uid turns)
        (serve_loop uid (turns ++ last ∷ later)) h
        λ c. serve_loop_stops uid turns last later c hs stop

  -- The provider is shut down; of `file` at the path, a socket of this user is removed, and
  -- anything else stays.
  pub record IsReleased (uid : ℤ) (file : SocketFile) (s : Served F W) : Type 0 where
    pub idle : s.collector.gpu_provider.initialized ≡ false
    pub off : s.collector.gpu_provider.available ≡ false
    pub place :
        ((s.file ≡ absent) × ((file ≡ absent) ⊎ (file ≡ present true uid)))
        ⊎ ((s.file ≡ file) × (file ≢ present true uid))

  finally_stop-IsReleased :
      (uid : ℤ) (file : SocketFile) (r : Result (Unit {0})) (turns : List (Turn F))
      (c : MetricsCollector F W)
      → IsReady c.gpu_provider ⊎ IsFailed c.gpu_provider
      → IsReleased uid file (finally_stop uid file (some r) (serve_loop uid turns c).1)
  unfolding finally_stop
  finally_stop-IsReleased uid file r turns c h =
      let (idle, off, place) = stop_serving_outcome uid turns file c h in
      record { idle = idle; off = off; place = place }

  serve_bound-IsReleased :
      (uid : ℤ) (started : Result (Unit {0})) (file : SocketFile) (turns : List (Turn F))
      (c : MetricsCollector F W) (r : Result (Unit {0}))
      → IsReady c.gpu_provider ⊎ IsFailed c.gpu_provider
      → (serve_bound uid started file turns c).outcome ≡ some r
      → IsReleased uid file (serve_bound uid started file turns c)
  unfolding serve_bound serve_loop finally_stop
  serve_bound-IsReleased uid (err e) file turns c r h ended =
      finally_stop-IsReleased uid file (err e) [] c h
  serve_bound-IsReleased uid (ok _) file turns c r h ended =
      elim (Option-cases (serve_loop uid turns c).0) [
        | inl running ↦
            let clash : ◌≡◌ {A = Option (Result (Unit {0}))} none (some r) =
              subst (λ o. (finally_stop uid file o (serve_loop uid turns c).1).outcome ≡ some r)
                running ended in
            cc
        | inr (q, over) ↦ rw over (finally_stop-IsReleased uid file q turns c h)
      ]

  -- Once the path is claimed, and where the server began with a provider that was constructed,
  -- `serve_forever` cannot end, by an exception or without, but with the provider shut down; a
  -- socket of this user is removed from the path, and anything else there stays.
  pub serve_forever_releases :
      (uid : ℤ) (s : Startup) (file : SocketFile) (turns : List (Turn F)) (c : MetricsCollector F W)
      (r : Result (Unit {0}))
      → IsReady c.gpu_provider ⊎ IsFailed c.gpu_provider
      → (claim_path uid s).0 ≡ ok tt
      → (serve_forever uid s file turns c).outcome ≡ some r
      → IsReleased uid file (serve_forever uid s file turns c)
  unfolding serve_forever serve_claimed
  serve_forever_releases uid s file turns c r h claimed ended =
      let bound : serve_forever uid s file turns c
          ≡ serve_bound uid (start_listening s) file turns c =
        rw (claimed, serve_claimed) refl in
      subst (IsReleased uid file) (sym bound) (
        serve_bound-IsReleased uid (start_listening s) file turns c r h
          (ap (λ v. v.outcome) (sym bound) ∙ ended))

  serve_forever-stops :
      (uid : ℤ) (s : Startup) (file : SocketFile) (turns : List (Turn F)) (last : Turn F)
      (later : List (Turn F)) (c : MetricsCollector F W)
      → (claim_path uid s).0 ≡ ok tt
      → start_listening s ≡ ok tt
      → All (λ turn. IsOrdinaryAccept turn.accepted) turns
      → last.stopped ≡ true
      → serve_forever uid s file (turns ++ last ∷ later) c
        ≡ finally_stop uid file (some (ok tt)) (serve_loop uid turns c).1
  unfolding serve_forever serve_claimed serve_bound
  serve_forever-stops uid s file turns last later c claimed started h stop =
      rw (claimed, started, serve_loop_stops uid turns last later c h stop, serve_claimed) refl

  backend_server-outcome :
      (loaded : Result (Nvml W)) (w : W) (c : MetricsCollector F W)
      → backend_server F loaded w ≡ ok c
      → IsReady c.gpu_provider ⊎ IsFailed c.gpu_provider
  unfolding backend_server create_gpu_provider
  backend_server-outcome loaded w c h =
      let (p, made, same) = >>=-eq-ok (nvidia_nvml_provider loaded w).0 _ h in
      let provider : p ≡ c.gpu_provider = ground arith in
      subst (λ q. IsReady q ⊎ IsFailed q) provider (nvidia_nvml_provider_outcome loaded w p made)

  -- Where the server is built, its path is claimed and its socket listens, and all turns before
  -- are ordinary, the loop ends at the first turn that finds the stop event set, whatever would
  -- follow: `main` returns 0, the provider is shut down, and a socket of this user is removed from
  -- the path, where anything else stays.
  pub main_stops :
      (uid : ℤ) (loaded : Result (Nvml W)) (w : W) (s : Startup) (file : SocketFile)
      (turns : List (Turn F)) (last : Turn F) (later : List (Turn F)) (c : MetricsCollector F W)
      → backend_server F loaded w ≡ ok c
      → (claim_path uid s).0 ≡ ok tt
      → start_listening s ≡ ok tt
      → All (λ turn. IsOrdinaryAccept turn.accepted) turns
      → last.stopped ≡ true
      → (main uid (backend_server F loaded w) s file (turns ++ last ∷ later) ≡ some (ok 0))
        × IsReleased uid file (serve_forever uid s file (turns ++ last ∷ later) c)
  unfolding main finally_stop status_of exit_status
  main_stops uid loaded w s file turns last later c built claimed started h stop =
      let ended = serve_forever-stops uid s file turns last later c claimed started h stop in
      (
        rw (built, main) (ap (λ v. status_of v.outcome) ended),
        subst (IsReleased uid file) (sym ended) (
            finally_stop-IsReleased uid file (ok tt) turns c
              (backend_server-outcome loaded w c built)),
      )

  -- Where the parent is a directory, and something is at the path that is neither a dead socket of
  -- this user nor one that is gone at the connection, `main` returns 1: what is at the path stays,
  -- the collector is as it was, and nothing is served.
  pub main_refuses :
      (uid : ℤ) (s : Startup) (file : SocketFile) (turns : List (Turn F)) (c : MetricsCollector F W)
      → s.made ≡ ok tt
      → s.is_directory ≡ true
      → s.file ≢ absent
      → (¬ IsStale uid s.probe s.file)
      → (¬ IsGone uid s.probe s.file)
      → (main uid (ok c) s file turns ≡ some (ok 1))
        × ((serve_forever uid s file turns c).file ≡ s.file)
        × ((serve_forever uid s file turns c).collector ≡ c)
  unfolding serve_forever serve_claimed claim_path prepare_socket_parent create_socket main
      status_of exit_status
  main_refuses uid s file turns c made directory there fresh still =
      elim (remove_stale_socket_outcome uid s.probe s.file) [
        | inl (inl gone, _) ↦ absurd (there gone)
        | inl (inr stale, _) ↦ absurd (fresh stale)
        | inr (inl (gone, _)) ↦ absurd (still gone)
        | inr (inr (_, _, _, refused)) ↦
            let claimed : claim_path uid s ≡ (err runtime_error, s.file) =
              rw (made, directory, claim_path) (ap (create_socket s.created) refused) in
            let served = ap (serve_claimed uid s file turns c) claimed in
            (
              ap (λ v. status_of v.outcome) served,
              ap (λ v. v.file) served,
              ap (λ v. v.collector) served,
            )
      ]
