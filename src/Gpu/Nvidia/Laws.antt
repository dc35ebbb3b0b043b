-- ===== src/Gpu/Nvidia/Laws.antt =====
-- A snapshot of the NVIDIA provider: what it reports, whatever the library does.
use mathlib.Core.Path.{subst, sym}
use ttop_desk.Prelude.{
  ℕ, suc, zero, ◌+◌, ◌^◌, ◌≤◌, ◌<◌, ◌≡◌, Option, none, some, List, [], ◌∷◌, arith, ◌⊎◌, inl, inr,
  Bool-cases, Option-cases,
}
use ttop_desk.Python.Exceptions.{Result, ok, err}
use ttop_desk.Python.Actions.{and_then, Returns, Returns-and_then, Returns-eq_ok}
use ttop_desk.Python.Runtime.{Runtime}
use ttop_desk.Gpu.Nvidia.{
  NvidiaNvmlProvider, GpuEntry, called, device_count, device_handle, device_entry, devices_from,
  snapshot, c_uint,
}
use ttop_desk.Gpu.Nvidia.Devices.{IsGpuEntry, IsDevices, device_entry-Returns}

module _ (F : Type 0) ⦃n : Runtime F⦄ where
  module _ {W : Type 0} (p : NvidiaNvmlProvider W) where
    IsDevices-later :
        (i j high : ℕ) (es : List (GpuEntry F)) → i ≤ j → IsDevices j high es → IsDevices i high es
    IsDevices-later i j high [] le h = tt
    IsDevices-later i j high (e ∷ es) le (a, b, c, d) = (omega arith, b, c, d)

    Returns-later :
        (i j high : ℕ) (r : Result (List (GpuEntry F)) × W)
        → i ≤ j
        → Returns (IsDevices j high) r
        → Returns (IsDevices i high) r
    Returns-later i j high (ok es, w) le h = IsDevices-later i j high es le h
    Returns-later i j high (err e, w) le h = h

    -- One round, given what the remaining rounds do.
    round :
        (index left high : ℕ) (r : Option ℕ × W)
        → index < high
        → ((w : W)
            → Returns (IsDevices (suc index) high) (devices_from {F = F} p (suc index) left w))
        → Returns {W = W} (IsDevices {F = F} index high) (elim r.0 [
          | none ↦ devices_from {F = F} p (suc index) left r.1
          | some h ↦ and_then (device_entry {F = F} p index h r.1) λ entry w2.
              and_then
                (devices_from {F = F} p (suc index) left w2)
                λ rest w3. (ok (entry ∷ rest), w3)
        ])
    round index left high (none, w1) lt k =
        Returns-later index (suc index) high _ (omega arith) (k w1)
    round index left high (some h, w1) lt k =
        Returns-and_then (λ e. IsGpuEntry e × (e.index ≡ index)) (IsDevices index high) _ _
          (device_entry-Returns F p index h w1)
          λ entry w2 he.
            Returns-and_then (IsDevices (suc index) high) (IsDevices index high)
              (devices_from {F = F} p (suc index) left w2) (λ rest w3. (ok (entry ∷ rest), w3))
              (k w2)
              λ rest w3 hr. (
                omega (arith, he.1),
                omega (arith, he.1),
                he.0,
                subst (λ i. IsDevices {F = F} (suc i) high rest) (sym he.1) hr,
              )

    devices_from-Returns :
        (index left high : ℕ) (w : W)
        → index + left ≤ high
        → Returns (IsDevices index high) (devices_from {F = F} p index left w)
    unfolding devices_from
    devices_from-Returns index zero high w le = tt
    devices_from-Returns index (suc left) high w le =
        round index left high (device_handle p index w) (omega arith)
          λ w'. devices_from-Returns (suc index) left high w' (omega arith)

    counted :
        (o : Option ℕ) (w : W)
        → (o ≡ none) ⊎ ((total : ℕ) × (o ≡ some total) × (total < 2 ^ 32))
        → Returns {W = W}
            (IsDevices {F = F} 0 (2 ^ 32))
            (elim o [ none ↦ (ok [], w) | some total ↦ devices_from {F = F} p 0 total w ])
    counted none w h = tt
    counted (some total) w h = devices_from-Returns 0 total (2 ^ 32) w (ground arith)

    device_count-eq :
        (w : W)
        → ((device_count p w).0 ≡ none)
          ⊎ ((total : ℕ) × ((device_count p w).0 ≡ some total) × (total < 2 ^ 32))
    unfolding device_count
    device_count-eq w = elim (Bool-cases p.initialized) [
      | inr e ↦ inl (ground arith)
      | inl e ↦ elim (Option-cases (called p.count_function w).0) [
        | inl f ↦ inl (ground arith)
        | inr (v, f) ↦ inr (c_uint v, ground arith, omega arith)
      ]
    ]

    -- Whatever the library answers, writes or raises, a snapshot raises nothing: it returns
    -- devices with growing indices; each has a name of 1 to 96 characters, and the utilization,
    -- memory and temperature that it reports are in their ranges.
    pub nvidia_snapshot_returns :
        (w : W)
        → (es : List (GpuEntry F)) × ((snapshot {F = F} p w).0 ≡ ok es) × IsDevices 0 (2 ^ 32) es
    unfolding snapshot
    nvidia_snapshot_returns w =
        Returns-eq_ok (IsDevices 0 (2 ^ 32)) _
          (counted (device_count p w).0 (device_count p w).1 (device_count-eq w))
