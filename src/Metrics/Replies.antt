-- ===== src/Metrics/Replies.antt =====
-- No reply holds a float that JSON has no word for, if the factories' dicts hold none.
use ttop_desk.Prelude.{
  ℕ, suc, ◌≡◌, refl, true, Option, none, some, List, [], ◌∷◌, Text, text, text_eq, ℤ, All,
  All-append, OnSome, arith, Bool-cases, inl, inr,
}
use ttop_desk.Python.Exceptions.{protocol_error, Result, ok, err}
use ttop_desk.Python.Dict.{text_key, All-insert}
use ttop_desk.Python.Runtime.{finite, Runtime}
use ttop_desk.Json.{Json, int, str, float, to_fields, to_items}
use ttop_desk.Json.Encode.Success.{all_finite, all_finite_fields}
use ttop_desk.Protocol.{
  Request, JsonDict, Factory, protocol_version, error_response, parse_request, with_version,
  serve_processes, serve_gpu, dispatch, recover, respond, handle_request,
}
use ttop_desk.Protocol.Dispatch.{IfOk}
use ttop_desk.Processes.Entry.{Entry}
use ttop_desk.Gpu.Base.{MemoryValues}
use ttop_desk.Gpu.Base.Laws.{IsMemoryValues}
use ttop_desk.Gpu.Nvidia.{GpuEntry}
use ttop_desk.Gpu.Nvidia.Devices.{IsGpuEntry, IsDevices}
use ttop_desk.Metrics.{entry_dict, memory_dict, gpu_dict, optional, dicts}

All-of : {A : Type 0} (P : A → Type 0) (xs : List A) → ((a : A) → P a) → All P xs
All-of P [] h = tt
All-of P (x ∷ xs) h = (h x, All-of P xs h)

module _ {F : Type 0} where
  -- No value of the dict holds an infinite float or not-a-number.
  abbrev pub AllFinite : JsonDict F → Type 0
  AllFinite = All (λ e. all_finite e.1 ≡ true)

  pub to_fields-finite : (d : JsonDict F) → AllFinite d → all_finite_fields (to_fields d) ≡ true
  unfolding all_finite to_fields
  to_fields-finite [] h = refl
  to_fields-finite ((k, v) ∷ d) h = ground (arith, h.0, to_fields-finite d h.1)

  pub dicts-finite :
      {A : Type 0} (f : A → JsonDict F) (xs : List A)
      → All (λ x. AllFinite (f x)) xs
      → all_finite (dicts f xs) ≡ true
  unfolding all_finite to_items
  dicts-finite f [] h = refl
  dicts-finite f (x ∷ xs) h = ground (arith, to_fields-finite (f x) h.0, dicts-finite f xs h.1)

  optional-finite :
      {A : Type 0} (k : Text) (f : A → Json F) (o : Option A)
      → ((a : A) → all_finite (f a) ≡ true)
      → AllFinite (optional k f o)
  optional-finite k f none h = tt
  optional-finite k f (some a) h = (h a, tt)

  entry_dict-finite : (e : Entry F) → AllFinite (entry_dict e)
  unfolding entry_dict all_finite
  entry_dict-finite e = (
    refl,
    All-append _ _ _ (optional-finite (text "name") str e.name (λ a. refl)) (
        All-append _ _ _ (optional-finite (text "username") str e.username (λ a. refl)) (
          All-append _ _ _ (optional-finite (text "memoryBytes") int e.memory_bytes (λ a. refl)) (
            optional-finite (text "cpuPercent") (λ a. float (finite a)) e.cpu_percent
              (λ a. refl)))),
  )

  pub entries-finite : (es : List (Entry F)) → all_finite (dicts entry_dict es) ≡ true
  entries-finite es = dicts-finite entry_dict es (All-of _ es entry_dict-finite)

  module _ ⦃n : Runtime F⦄ where
    memory_dict-finite :
        (o : Option (MemoryValues F)) → OnSome IsMemoryValues o → AllFinite (memory_dict o)
    unfolding memory_dict all_finite
    memory_dict-finite none h = tt
    memory_dict-finite (some m) h = (refl, (refl, (ground arith, tt)))

    gpu_dict-finite : (e : GpuEntry F) → IsGpuEntry e → AllFinite (gpu_dict e)
    unfolding gpu_dict all_finite
    gpu_dict-finite e h = (
      refl,
      (
        refl,
        All-append _ _ _
            (optional-finite (text "utilizationPercent") (λ a. float (finite a))
              e.utilization_percent (λ a. refl))
            (All-append _ _ _ (memory_dict-finite e.memory h.memory_bounded) (
              optional-finite (text "temperatureCelsius") (λ a. float (finite a))
                e.temperature_celsius (λ a. refl))),
      ),
    )

    pub devices-finite :
        (low high : ℕ) (es : List (GpuEntry F))
        → IsDevices low high es
        → All (λ e. AllFinite (gpu_dict e)) es
    devices-finite low high [] h = tt
    devices-finite low high (e ∷ es) (_, _, g, rest) =
        (gpu_dict-finite e g, devices-finite (suc e.index) high es rest)

module _ (F : Type 0) where
  pub error_response-finite : (c : Text) → AllFinite (error_response {F = F} c)
  unfolding error_response all_finite
  error_response-finite c = (refl, (refl, (refl, tt)))

  int_finite : (z : ℤ) → all_finite {F = F} (int z) ≡ true
  unfolding all_finite
  int_finite z = refl

  pong-finite :
      AllFinite {F = F}
        ((text "status", str (text "ok")) ∷ (text "version", int protocol_version) ∷ [])
  unfolding all_finite
  pong-finite = (refl, (refl, tt))

module _ {F S : Type 0} where
  with_version-finite :
      (r : Result (JsonDict F) × S) → IfOk AllFinite r → IfOk AllFinite (with_version r)
  unfolding with_version
  with_version-finite (ok d, s) h =
      All-insert (λ v. all_finite v ≡ true) (text "version") (int protocol_version) d
        (int_finite F protocol_version) h
  with_version-finite (err e, s) h = tt

  recover-finite : (r : Result (JsonDict F) × S) → IfOk AllFinite r → AllFinite (recover r).0
  unfolding recover
  recover-finite (ok d, s) h = h
  recover-finite (err (protocol_error c), s) h = error_response-finite F c
  recover-finite (err _, s) h = error_response-finite F (text "internal_error")

  serve_processes-finite :
      (p : Option (Text → ℤ → Factory S F)) (q : Request) (s : S)
      → ((f : Text → ℤ → Factory S F)
          → p ≡ some f
          → (k : Text) (z : ℤ) (s : S) → IfOk AllFinite (f k z s))
      → IfOk AllFinite (serve_processes p q s)
  unfolding serve_processes
  serve_processes-finite none q s h = error_response-finite F (text "unsupported_command")
  serve_processes-finite (some f) q s h =
      with_version-finite (f q.sort q.limit s) (h f refl q.sort q.limit s)

  serve_gpu-finite :
      (g : Option (Factory S F)) (s : S)
      → ((f : Factory S F) → g ≡ some f → (s : S) → IfOk AllFinite (f s))
      → IfOk AllFinite (serve_gpu g s)
  unfolding serve_gpu
  serve_gpu-finite none s h = error_response-finite F (text "unsupported_command")
  serve_gpu-finite (some f) s h = with_version-finite (f s) (h f refl s)

  module _ (a : Factory S F) (p : Option (Text → ℤ → Factory S F)) (g : Option (Factory S F))
      (ha : (s : S) → IfOk AllFinite (a s))
      (hp : (f : Text → ℤ → Factory S F)
        → p ≡ some f
        → (k : Text) (z : ℤ) (s : S) → IfOk AllFinite (f k z s))
      (hg : (f : Factory S F) → g ≡ some f → (s : S) → IfOk AllFinite (f s)) where
    dispatch-finite : (q : Request) (s : S) → IfOk AllFinite (dispatch a p g q s)
    unfolding dispatch
    dispatch-finite q s = elim (Bool-cases (text_eq q.command (text "ping"))) [
      | inl e ↦ rw e (pong-finite F)
      | inr e ↦ rw e (elim (Bool-cases (text_eq q.command (text "snapshot"))) [
        | inl e ↦ rw e (with_version-finite (a s) (ha s))
        | inr e ↦ rw e (elim (Bool-cases (text_eq q.command (text "processes"))) [
          | inl e ↦ rw e (serve_processes-finite p q s hp)
          | inr e ↦ rw e (elim (Bool-cases (text_eq q.command (text "gpu"))) [
            | inl e ↦ rw e (serve_gpu-finite g s hg)
            | inr e ↦ rw e (error_response-finite F (text "unsupported_command"))
          ])
        ])
      ])
    ]

    pub handle_request-finite :
        ⦃n : Runtime F⦄ → (raw : List ℕ) (s : S) → AllFinite (handle_request raw a p g s).0
    unfolding handle_request
    handle_request-finite raw s = answered (parse_request F raw)
      where
        answered : (m : Result Request) → AllFinite (respond a p g m s).0
        answered (err e) = unfold respond in recover-finite (err e, s) tt
        answered (ok q) = unfold respond in recover-finite _ (dispatch-finite q s)
