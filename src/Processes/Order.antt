-- ===== src/Processes/Order.antt =====
-- The sort keys of processes.py, and `sort_process_entries`.
pub mod Laws
pub mod Plain
use ttop_desk.Prelude.{
  ◌≡◌, Bool, true, false, Option, none, some, List, [], ◌∷◌, map, Text, text, text_eq, text_lt, ℤ,
  pos, negsuc, neg_ℤ, ltb_ℤ, eqb_ℤ, if◌then◌else◌,
}
use ttop_desk.Python.Exceptions.{Result, ok, err, overflow_error, ◌>>=◌, map_result}
use ttop_desk.Python.Runtime.{Runtime, lt_finite, eq_finite}
use ttop_desk.Python.Sort.{Comparison, tuple_order, sorted}
use ttop_desk.Processes.Entry.{Entry}

abbrev pub int_order : Comparison ℤ
int_order = record { lt = ltb_ℤ; eq = eqb_ℤ }

abbrev pub text_order : Comparison Text
text_order = record { lt = text_lt; eq = text_eq }

abbrev pub or_empty : Option Text → Text
or_empty none = []
or_empty (some t) = t

-- (-metric, name, pid)
abbrev pub Key : Type 0 → Type 0
Key F = F × (Text × ℤ)

-- The order of a plain snapshot: (-cpu, -memory, pid).
abbrev pub DefaultKey : Type 0 → Type 0
DefaultKey F = F × (ℤ × ℤ)

module _ {F : Type 0} ⦃n : Runtime F⦄ where
  abbrev pub float_order : Comparison F
  float_order = record { lt = lt_finite; eq = eq_finite }

  abbrev pub key_order : Comparison (Key F)
  key_order = tuple_order float_order (tuple_order text_order int_order)

  -- `float(entry.get(metric, -1.0))`; an int too large for a float is an OverflowError
  unfoldable pub metric_value : Text → Entry F → Result F
  metric_value sort_by entry =
      if text_eq sort_by (text "cpu")
      then elim entry.cpu_percent [ none ↦ ok (n.lit (negsuc 0)) | some a ↦ ok a ]
      else elim entry.memory_bytes [
        | none ↦ ok (n.lit (negsuc 0))
        | some z ↦ elim (n.of_int z) [ none ↦ err overflow_error | some a ↦ ok a ]
      ]

  -- the entry behind its key; `sorted` computes each key once
  unfoldable pub keyed : Text → Entry F → Result (Key F × Entry F)
  keyed sort_by entry = do
    value ← metric_value sort_by entry
    ok ((n.neg value, (or_empty entry.name, entry.pid)), entry)

  unfoldable pub sort_process_entries : List (Entry F) → Text → Result (List (Entry F))
  sort_process_entries entries sort_by = do
    pairs ← map_result (keyed sort_by) entries
    ok (map (λ p. p.1) (sorted (λ p q. key_order.lt p.0 q.0) pairs))

  abbrev pub default_key_order : Comparison (DefaultKey F)
  default_key_order = tuple_order float_order (tuple_order int_order int_order)

  unfoldable pub default_key : Entry F → DefaultKey F
  default_key entry = (
    n.neg (elim entry.cpu_percent [ none ↦ n.lit (negsuc 0) | some a ↦ a ]),
    (neg_ℤ (elim entry.memory_bytes [ none ↦ negsuc 0 | some z ↦ z ]), entry.pid),
  )

  unfoldable pub default_sort : List (Entry F) → List (Entry F)
  default_sort = sorted (λ a b. default_key_order.lt (default_key a) (default_key b))
