-- ===== src/Gpu/Nvidia/Lifecycle.antt =====
-- The life of an NVIDIA provider: constructed with one of four outcomes, and shut down once.
use mathlib.Core.Path.{subst}
use ttop_desk.Prelude.{
  ◌≡◌, refl, true, false, Option, none, some, List, [], ◌∷◌, Text, text, ℤ, pos, eqb_ℤ, arith, ◌⊎◌,
  inl, inr, OnSome, Bool-cases, member_text, ℕ,
}
use ttop_desk.Python.Exceptions.{Result, ok, err, os_error, attribute_error}
use ttop_desk.Python.Runtime.{Runtime}
use ttop_desk.Gpu.Nvidia.{Call, Nvml, NvidiaNvmlProvider, device_count, snapshot, shutdown, closed}
use ttop_desk.Gpu.Nvidia.Init.{
  empty_provider, bind_handle, bind_count, bind_shutdown, bind_required, bind_optional,
  initialize_result, start, nvidia_nvml_provider,
}

abbrev pub failure_reasons : List Text
failure_reasons =
    text "library_unavailable"
    ∷ text "required_symbol_unavailable"
    ∷ text "initialization_failed"
    ∷ []

reasons_listed :
    (member_text (text "library_unavailable") failure_reasons ≡ true)
    × (member_text (text "required_symbol_unavailable") failure_reasons ≡ true)
    × (member_text (text "initialization_failed") failure_reasons ≡ true)
unfolding member_text
reasons_listed = (refl, refl, refl)

module _ {W : Type 0} where
  -- The functions that a working provider cannot do without.
  abbrev pub IsBound : NvidiaNvmlProvider W → Type 0
  IsBound p =
      ((f : Call W Unit) × (p.shutdown_function ≡ some f))
      × ((f : Call W ℕ) × (p.count_function ≡ some f))
      × ((f : ℕ → Call W ℕ) × (p.handle_function ≡ some f))

  -- Ready with all that it needs, or not ready, for a reason.
  abbrev pub IsReady : NvidiaNvmlProvider W → Type 0
  IsReady p = (p.available ≡ true) × (p.initialized ≡ true) × (p.failure_reason ≡ []) × IsBound p

  abbrev pub IsFailed : NvidiaNvmlProvider W → Type 0
  IsFailed p =
      (p.available ≡ false)
      × (p.initialized ≡ false)
      × (member_text p.failure_reason failure_reasons ≡ true)

  -- What the required symbols leave: not ready yet, and bound if all of them are there.
  abbrev IsRequired : Option (Call W Unit) × NvidiaNvmlProvider W → Type 0
  IsRequired (o, p) = (p.available ≡ false) × (p.initialized ≡ false) × OnSome (λ _. IsBound p) o

  bind_handle-IsRequired :
      (p : NvidiaNvmlProvider W) (i : Call W Unit)
      → p.available ≡ false
      → p.initialized ≡ false
      → (f : Call W Unit) × (p.shutdown_function ≡ some f)
      → (f : Call W ℕ) × (p.count_function ≡ some f)
      → IsRequired (bind_handle p i)
  unfolding bind_handle
  bind_handle-IsRequired p i a b c d = bound _
    where
      bound :
          (r : Result (ℕ → Call W ℕ))
          → IsRequired (elim r [
            | err e ↦ (none, p)
            | ok function ↦ (some i, record p { handle_function = some function })
          ])
      bound (err e) = (a, b, tt)
      bound (ok f) = (a, b, (c, d, (f, refl)))

  bind_count-IsRequired :
      (p : NvidiaNvmlProvider W) (i : Call W Unit)
      → p.available ≡ false
      → p.initialized ≡ false
      → (f : Call W Unit) × (p.shutdown_function ≡ some f)
      → IsRequired (bind_count p i)
  unfolding bind_count
  bind_count-IsRequired p i a b c = bound _
    where
      bound :
          (r : Result (Call W ℕ))
          → IsRequired (elim r [
            | err e ↦ (none, p)
            | ok function ↦ bind_handle (record p { count_function = some function }) i
          ])
      bound (err e) = (a, b, tt)
      bound (ok f) = bind_handle-IsRequired (record p { count_function = some f }) i a b c (f, refl)

  bind_shutdown-IsRequired :
      (p : NvidiaNvmlProvider W) (i : Call W Unit)
      → p.available ≡ false
      → p.initialized ≡ false
      → IsRequired (bind_shutdown p i)
  unfolding bind_shutdown
  bind_shutdown-IsRequired p i a b = bound _
    where
      bound :
          (r : Result (Call W Unit))
          → IsRequired (elim r [
            | err e ↦ (none, p)
            | ok function ↦ bind_count (record p { shutdown_function = some function }) i
          ])
      bound (err e) = (a, b, tt)
      bound (ok f) = bind_count-IsRequired (record p { shutdown_function = some f }) i a b (f, refl)

  bind_required-IsRequired :
      (p : NvidiaNvmlProvider W)
      → p.available ≡ false
      → p.initialized ≡ false
      → IsRequired (bind_required p)
  unfolding bind_required
  bind_required-IsRequired p a b = bound _
    where
      bound :
          (r : Result (Call W Unit))
          → IsRequired (elim r [ err e ↦ (none, p) | ok initialize ↦ bind_shutdown p initialize ])
      bound (err e) = (a, b, tt)
      bound (ok i) = bind_shutdown-IsRequired p i a b

  initialize_result-outcome :
      (p : NvidiaNvmlProvider W) (r : Result {0} (ℤ × Unit {0}) × W)
      → p.available ≡ false
      → p.initialized ≡ false
      → IsBound p
      → IsReady (initialize_result p r).0 ⊎ IsFailed (initialize_result p r).0
  unfolding initialize_result
  initialize_result-outcome p (err e, w) a b bound = inr (a, b, reasons_listed.2)
  initialize_result-outcome p (ok (result, _), w) a b bound =
      elim (Bool-cases (eqb_ℤ result (pos 0))) [
        | inl e ↦ rw e (inl (refl, refl, refl, bound))
        | inr e ↦ rw e (inr (a, b, reasons_listed.2))
      ]

  start-outcome :
      (r : Option (Call W Unit) × NvidiaNvmlProvider W) (w : W)
      → IsRequired r
      → IsReady (start r w).0 ⊎ IsFailed (start r w).0
  unfolding start bind_optional
  start-outcome (none, p) w (a, b, _) = inr (a, b, reasons_listed.1)
  start-outcome (some initialize, p) w (a, b, bound) =
      initialize_result-outcome (bind_optional p) (initialize w) a b bound

  -- A provider that is constructed is either ready, and then it has no failure reason and has
  -- bound the functions that count devices, find them and shut the library down; or it is neither
  -- available nor initialised, and gives one of three reasons.
  pub nvidia_nvml_provider_outcome :
      (loaded : Result (Nvml W)) (w : W) (p : NvidiaNvmlProvider W)
      → (nvidia_nvml_provider loaded w).0 ≡ ok p
      → IsReady p ⊎ IsFailed p
  unfolding nvidia_nvml_provider
  nvidia_nvml_provider_outcome (ok library) w p h =
      let same : (start (bind_required (record empty_provider { library = some library })) w).0
          ≡ p =
        ground arith in
      subst (λ q. IsReady q ⊎ IsFailed q) same
        (start-outcome (bind_required (record empty_provider { library = some library })) w
          (bind_required-IsRequired (record empty_provider { library = some library }) refl refl))
  nvidia_nvml_provider_outcome (err os_error) w p h =
      let same : empty_provider ≡ p = ground arith in
      subst (λ q. IsReady q ⊎ IsFailed q) same (inr (refl, refl, reasons_listed.0))
  nvidia_nvml_provider_outcome (err attribute_error) w p h =
      let same : empty_provider ≡ p = ground arith in
      subst (λ q. IsReady q ⊎ IsFailed q) same (inr (refl, refl, reasons_listed.0))
  nvidia_nvml_provider_outcome (err _) w p h = cc

module _ {F W : Type 0} ⦃n : Runtime F⦄ where
  -- A provider that is ready is shut down by one call of the library's function, whatever that
  -- call does; from then on a second shutdown and a snapshot leave the library alone, and the
  -- snapshot is empty.
  pub shutdown_once :
      (p : NvidiaNvmlProvider W) (w : W)
      → IsReady p
      → (f : Call W Unit) × (p.shutdown_function ≡ some f)
        × (shutdown p w ≡ (closed p, (f w).1))
        × ((v : W) → shutdown (closed p) v ≡ (closed p, v))
        × ((v : W) → snapshot {F = F} (closed p) v ≡ (ok [], v))
  unfolding shutdown snapshot device_count
  shutdown_once p w (_, started, _, ((f, e), _, _)) = (f, e, ground arith, (λ v. refl), (λ v. refl))
