-- ===== src/Metrics/Encodes.antt =====
-- `handle_request` over the collector: `encode_response` can write every reply.
use mathlib.Core.Path.{subst}
use ttop_desk.Prelude.{ℕ, ◌^◌, ◌≡◌, refl, sym, ap, true, none, some, List, [], ◌∷◌, Text, text, ℤ}
use ttop_desk.Python.Exceptions.{Result, ok, err, ◌>>=◌}
use ttop_desk.Python.Runtime.{finite, Runtime}
use ttop_desk.Json.{null, int, float}
use ttop_desk.Json.Encode.Success.{all_finite}
use ttop_desk.Protocol.{Factory, protocol_version, handle_request, encode_response}
use ttop_desk.Protocol.Framing.{IsOneLine, encode_response_line}
use ttop_desk.Protocol.Dispatch.{IfOk}
use ttop_desk.Processes.Entry.{Entry}
use ttop_desk.Processes.Order.{sort_process_entries}
use ttop_desk.Processes.Sampler.{ProcessSampler}
use ttop_desk.Processes.Sampler.{snapshot as process_snapshot}
use ttop_desk.Gpu.Nvidia.Laws.{nvidia_snapshot_returns}
use ttop_desk.Metrics.{
  MetricsCollector, Readings, entry_dict, gpu_dict, dicts, slice, snapshot, processes,
  processes_reply, processes_dict, gpu, or_no_devices,
}
use ttop_desk.Metrics.Replies.{
  AllFinite, to_fields-finite, entries-finite, dicts-finite, devices-finite, handle_request-finite,
}

timestamp-finite :
    {F : Type 0} (r : Readings F) (t : F)
    → r.timestamp ≡ finite t
    → all_finite (float r.timestamp) ≡ true
unfolding all_finite
timestamp-finite r t known = rw known refl

module _ {F W : Type 0} ⦃n : Runtime F⦄ (r : Readings F) (t : F)
    (known : r.timestamp ≡ finite t) where
  snapshot-finite : (c : MetricsCollector F W) → IfOk AllFinite (snapshot r c)
  unfolding snapshot
  snapshot-finite c = sampled (process_snapshot c.process_sampler r.sampled_at r.processes none)
    where
      sampled :
          (m : Result (List (Entry F)) × ProcessSampler F)
          → IfOk AllFinite (
            m.0 >>= λ entries. ok (
                (text "version", int protocol_version)
                ∷ (text "timestamp", float r.timestamp)
                ∷ (text "processes", dicts entry_dict entries)
                ∷ (text "gpu", null)
                ∷ []),
            record c { process_sampler = m.1 },
          )
      sampled (err e, s) = tt
      sampled (ok es, s) =
          unfold all_finite in (refl, (timestamp-finite r t known, (entries-finite es, (refl, tt))))

  processes_reply-finite :
      (sort_by : Text) (limit : ℤ) (es : List (Entry F)) (c : MetricsCollector F W)
      → IfOk AllFinite (processes_reply r sort_by limit es, c)
  unfolding processes_reply
  processes_reply-finite sort_by limit es c = listed (sort_process_entries es sort_by)
    where
      listed :
          (m : Result (List (Entry F)))
          → IfOk AllFinite
              (m >>= λ entries. ok (processes_dict r sort_by limit (slice limit entries)), c)
      listed (err e) = tt
      listed (ok es) =
          unfold all_finite in
          (
            refl,
            (
              refl,
              (timestamp-finite r t known, (refl, (refl, (entries-finite (slice limit es), tt)))),
            ),
          )

  processes-finite :
      (sort_by : Text) (limit : ℤ) (c : MetricsCollector F W)
      → IfOk AllFinite (processes r sort_by limit c)
  unfolding processes
  processes-finite sort_by limit c =
      sampled (process_snapshot c.process_sampler r.sampled_at r.processes (some sort_by))
    where
      sampled :
          (m : Result (List (Entry F)) × ProcessSampler F)
          → IfOk AllFinite
              (m.0 >>= processes_reply r sort_by limit, record c { process_sampler = m.1 })
      sampled (err e, s) = tt
      sampled (ok es, s) =
          processes_reply-finite sort_by limit es (record c { process_sampler = s })

  gpu-finite : (c : MetricsCollector F W) → IfOk AllFinite (gpu r c)
  unfolding gpu
  gpu-finite c =
      let (es, e, h) = nvidia_snapshot_returns F c.gpu_provider c.library_state in
      unfold all_finite in
      (
        refl,
        (
          refl,
          (
            timestamp-finite r t known,
            (
              subst (λ m. all_finite (dicts gpu_dict (or_no_devices m)) ≡ true) (sym e)
                  (dicts-finite gpu_dict es (devices-finite 0 (2 ^ 32) es h)),
              tt,
            ),
          ),
        ),
      )

  -- At a finite time, whatever a client sends and whatever the processes and the GPU library do,
  -- `encode_response` raises nothing on the reply of `handle_request` over the collector: it gives
  -- one line of visible ASCII.
  pub replies_encode :
      (raw : List ℕ) (c : MetricsCollector F W)
      → IsOneLine (
          encode_response (handle_request raw (snapshot r) (some (processes r)) (some (gpu r)) c).0)
  replies_encode raw c = encode_response_line _ (
      unfold all_finite in
      to_fields-finite _ (
        handle_request-finite (snapshot r) (some (processes r)) (some (gpu r)) snapshot-finite
          (λ f e k z s.
            subst {A = Text → ℤ → Factory (MetricsCollector F W) F} (λ g. IfOk AllFinite (g k z s))
              (ap (λ o. elim o [ none ↦ processes r | some h ↦ h ]) e) (processes-finite k z s))
          (λ f e s.
            subst {A = Factory (MetricsCollector F W) F} (λ g. IfOk AllFinite (g s))
              (ap (λ o. elim o [ none ↦ gpu r | some h ↦ h ]) e) (gpu-finite s))
          raw c))
