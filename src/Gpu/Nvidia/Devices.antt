-- ===== src/Gpu/Nvidia/Devices.antt =====
-- One device: its name, and the values that are read of it.
use ttop_desk.Prelude.{
  ℕ, suc, ◌≤◌, ◌<◌, ◌≡◌, ◌≢◌, refl, Option, none, some, List, [], ◌∷◌, Text, text, pos, negsuc,
  take, length, length-take, arith, OnSome,
}
use ttop_desk.Python.Exceptions.{ok}
use ttop_desk.Python.Actions.{Returns, Returns-and_then}
use ttop_desk.Python.Runtime.{Runtime, int_value}
use ttop_desk.Python.Strings.{decode_utf8_replace, strip}
use ttop_desk.Python.Strings.Laws.{length-strip, length-decode_utf8_replace}
use ttop_desk.Gpu.Base.{MemoryValues, percentage, temperature_celsius, memory_values}
use ttop_desk.Gpu.Base.Laws.{
  IsBetween, IsMemoryValues, percentage-small, temperature_celsius-small, memory_values-small,
}
use ttop_desk.Gpu.Nvidia.{
  NvidiaNvmlProvider, GpuEntry, c_string, or_default, called, applied, device_name, utilization,
  memory, temperature, device_entry, c_uint, c_ulonglong, NvmlUtilization, NvmlMemory,
}

length-c_string : (bs : List ℕ) → length (c_string bs) ≤ length bs
unfolding c_string
length-c_string [] = omega arith
length-c_string (b ∷ bs) = ground (arith, length-c_string bs)

abbrev pub IsDeviceName : Text → Type 0
IsDeviceName t = (t ≢ []) × (length t ≤ 96)

or_default-IsDeviceName : (t : Text) → length t ≤ 96 → IsDeviceName (or_default t)
or_default-IsDeviceName [] h = ((λ e. cc), omega arith)
or_default-IsDeviceName (c ∷ cs) h = ((λ e. cc), h)

device_name-IsDeviceName :
    {W : Type 0} (p : NvidiaNvmlProvider W) (handle : ℕ) (w : W)
    → IsDeviceName (device_name p handle w).0
unfolding device_name
device_name-IsDeviceName p handle w =
    named (called (applied 96 (applied handle p.name_function)) w).0
  where
    named :
        (o : Option (List ℕ))
        → IsDeviceName (elim o [
          | none ↦ text "NVIDIA GPU"
          | some bytes ↦ or_default (strip (decode_utf8_replace (c_string (take 96 bytes))))
        ])
    named none = ((λ e. cc), omega arith)
    named (some bytes) = or_default-IsDeviceName _ (
        omega (
          arith,
          length-strip (decode_utf8_replace (c_string (take 96 bytes))),
          length-decode_utf8_replace (c_string (take 96 bytes)),
          length-c_string (take 96 bytes),
          length-take 96 bytes,
        ))

module _ {F : Type 0} ⦃n : Runtime F⦄ where
  -- What the protocol promises of a device.
  pub record IsGpuEntry (e : GpuEntry F) : Type 0 where
    pub name_bounded : IsDeviceName e.name
    pub utilization_bounded : OnSome (IsBetween (pos 0) (pos 100)) e.utilization_percent
    pub memory_bounded : OnSome IsMemoryValues e.memory
    pub temperature_bounded : OnSome (IsBetween (negsuc 19) (pos 150)) e.temperature_celsius

  -- Devices with indices that grow from `low` and stay below `high`.
  abbrev pub IsDevices : ℕ → ℕ → List (GpuEntry F) → Type 0
  IsDevices low high [] = Unit
  IsDevices low high (e ∷ es) =
      (low ≤ e.index) × (e.index < high) × IsGpuEntry e × IsDevices (suc e.index) high es

module _ (F : Type 0) ⦃n : Runtime F⦄ where
  module _ {W : Type 0} (p : NvidiaNvmlProvider W) where
    utilization-Returns :
        (handle : ℕ) (w : W)
        → Returns (OnSome (IsBetween (pos 0) (pos 100))) (utilization {F = F} p handle w)
    unfolding utilization
    utilization-Returns handle w = read (called (applied handle p.utilization_function) w)
      where
        read :
            (r : Option NvmlUtilization × W)
            → Returns (OnSome (IsBetween (pos 0) (pos 100))) (
              (elim r.0 [
                | none ↦ ok none
                | some v ↦ percentage {F = F} (int_value (pos (c_uint v.gpu)))
              ]),
              r.1,
            )
        read (none, w') = tt
        read (some v, w') =
            let (o, e, h) = percentage-small {F = F} (c_uint v.gpu) (omega arith) in rw e h

    memory-Returns :
        (handle : ℕ) (w : W) → Returns (OnSome IsMemoryValues) (memory {F = F} p handle w)
    unfolding memory
    memory-Returns handle w = read (called (applied handle p.memory_function) w)
      where
        read :
            (r : Option NvmlMemory × W)
            → Returns (OnSome IsMemoryValues) (
              (elim r.0 [
                | none ↦ ok none
                | some v ↦
                    memory_values {F = F}
                      (int_value (pos (c_ulonglong v.used)))
                      (int_value (pos (c_ulonglong v.total)))
              ]),
              r.1,
            )
        read (none, w') = tt
        read (some v, w') =
            let (o, e, h) =
              memory_values-small {F = F} (c_ulonglong v.used) (c_ulonglong v.total) (omega arith)
                (omega arith) in
            rw e h

    temperature-Returns :
        (handle : ℕ) (w : W)
        → Returns (OnSome (IsBetween (negsuc 19) (pos 150))) (temperature {F = F} p handle w)
    unfolding temperature
    temperature-Returns handle w =
        read (called (applied 0 (applied handle p.temperature_function)) w)
      where
        read :
            (r : Option ℕ × W)
            → Returns (OnSome (IsBetween (negsuc 19) (pos 150))) (
              (elim r.0 [
                | none ↦ ok none
                | some v ↦ temperature_celsius {F = F} (int_value (pos (c_uint v)))
              ]),
              r.1,
            )
        read (none, w') = tt
        read (some v, w') =
            let (o, e, h) = temperature_celsius-small {F = F} (c_uint v) (omega arith) in rw e h

    pub device_entry-Returns :
        (index handle : ℕ) (w : W)
        → Returns (λ e. IsGpuEntry e × (e.index ≡ index)) (device_entry {F = F} p index handle w)
    unfolding device_entry
    device_entry-Returns index handle w =
        Returns-and_then (OnSome (IsBetween (pos 0) (pos 100))) Good _ _
          (utilization-Returns handle _)
          λ u w2 hu.
            Returns-and_then (OnSome IsMemoryValues) Good _ _ (memory-Returns handle w2) λ m w3 hm.
              Returns-and_then (OnSome (IsBetween (negsuc 19) (pos 150))) Good
                (temperature {F = F} p handle w3) (λ t w4. (ok (entry u m t), w4))
                (temperature-Returns handle w3)
                λ t w4 ht. (
                  record {
                    name_bounded = device_name-IsDeviceName p handle w;
                    utilization_bounded = hu;
                    memory_bounded = hm;
                    temperature_bounded = ht;
                  },
                  refl,
                )
      where
        Good : GpuEntry F → Type 0
        Good e = IsGpuEntry e × (e.index ≡ index)

        entry : Option F → Option (MemoryValues F) → Option F → GpuEntry F
        entry u m t = record {
          index = index;
          name = (device_name p handle w).0;
          utilization_percent = u;
          memory = m;
          temperature_celsius = t;
        }
