-- ===== src/Processes/Order/Laws.antt =====
-- `sort_process_entries` and the plain order: when they succeed, what they return, and that the
-- result does not depend on the order in which the processes were seen.
use mathlib.Core.List.{Perm, Permᴰ}
use mathlib.Core.Path.{subst, fun_ext}
use ttop_desk.Prelude.{
  OnSome, not, ◌||◌, ◌&&◌, if◌then◌else◌, some, text, text_eq, text_lt, ltb_ℤ, ◌≡◌, ◌≢◌, sym, ap,
  ◌∙◌, Bool, true, false, none, List, [], ◌∷◌, map, Text, text_eq_iff, text_lt_asym, text_lt_connex,
  text_lt_irrefl, text_le_trans, negsuc, arith, All, All-map, eqb_ℤ_iff,
}
use ttop_desk.Python.Exceptions.{ok, map_result, map_result-ok}
use ttop_desk.Python.Runtime.{Runtime}
use ttop_desk.Python.Sort.{
  IsLinear, tuple_order, tuple_order-IsLinear, sorted, IsSorted, Apart, AllApart,
}
use ttop_desk.Python.Sort.Laws.{
  Apart-of_ne, All-perm, sorted-map, map-snd, sorted-perm, sorted-IsSorted, sorted-eq_of_perm,
}
use ttop_desk.Processes.Entry.{Entry}
use ttop_desk.Processes.Order.{
  int_order, text_order, float_order, or_empty, Key, key_order, default_key_order, metric_value,
  keyed, sort_process_entries,
}

int_order-IsLinear : IsLinear int_order
int_order-IsLinear = record {
  asym = λ a b h. ground arith;
  trans = λ a b d h k. ground arith;
  eq_lem = λ a b. ground arith;
}

text_order-IsLinear : IsLinear text_order
text_order-IsLinear = record {
  asym = text_lt_asym;
  trans = text_le_trans;
  eq_lem = λ a b. ground (
    arith,
    text_eq_iff a b,
    text_lt_connex a b,
    text_lt_irrefl a,
    text_lt_irrefl b,
    text_lt_asym a b,
  );
}

names_apart : (a b : Text) → text_eq a b ≡ true → text_lt a b ≡ false
names_apart a b h = rw ((text_eq_iff a b).0 h) (text_lt_irrefl b)

-- A comparison of two keys, from the comparisons of their parts.
pub decided :
    (up down same_name name pid : Bool)
    → (up ≡ false → down ≡ true)
    → (same_name ≡ true → name ≡ false)
    → (if down && up then (if same_name then pid else name) else not up)
      ≡ (not up || down && (name || same_name && pid))
decided up down same_name name pid h k = ground arith

module _ {F : Type 0} ⦃n : Runtime F⦄ where
  float_order-IsLinear : IsLinear (float_order {F = F})
  float_order-IsLinear = record {
    asym = λ a b h. ground (arith, n.le_total a b, n.le_total b a);
    trans = λ a b d h k. ground (arith, n.le_trans a b d);
    eq_lem = λ a b. ground arith;
  }

  pub key_order-IsLinear : IsLinear (key_order {F = F})
  key_order-IsLinear =
      tuple_order-IsLinear float_order-IsLinear
        (tuple_order-IsLinear text_order-IsLinear int_order-IsLinear)

  pub default_key_order-IsLinear : IsLinear (default_key_order {F = F})
  default_key_order-IsLinear =
      tuple_order-IsLinear float_order-IsLinear
        (tuple_order-IsLinear int_order-IsLinear int_order-IsLinear)

  -- The memory of the entry has a double, as every memory that the sampler reports has.
  abbrev pub IsConvertible : Entry F → Type 0
  IsConvertible e = OnSome (λ z. n.of_int z ≢ none) e.memory_bytes

  -- What a listing sorts by: the CPU percentage for `cpu`, the memory for every other text. A value
  -- that is not known counts as -1.
  unfoldable pub measure : Text → Entry F → F
  measure sort_by e =
      if text_eq sort_by (text "cpu")
      then elim e.cpu_percent [ some percent ↦ percent | none ↦ n.lit (negsuc 0) ]
      else elim e.memory_bytes [
        | some bytes ↦ elim (n.of_int bytes) [ some a ↦ a | none ↦ n.lit (negsuc 0) ]
        | none ↦ n.lit (negsuc 0)
      ]

  -- `a` is listed before `b`: its measure is greater; or they are level, and its name is lesser; or
  -- the names are one as well, and its pid is lesser.
  pub entry_lt : Text → Entry F → Entry F → Bool
  entry_lt sort_by a b =
      not (n.le (measure sort_by a) (measure sort_by b))
      || n.le (measure sort_by b) (measure sort_by a)
        && (text_lt (or_empty a.name) (or_empty b.name)
            || text_eq (or_empty a.name) (or_empty b.name) && ltb_ℤ a.pid b.pid)

  -- The key of an entry, where the metric has a double.
  sort_key : Text → Entry F → Key F
  sort_key sort_by e = (n.neg (measure sort_by e), (or_empty e.name, e.pid))

  sort_lt : Text → Entry F → Entry F → Bool
  sort_lt sort_by a b = key_order.lt (sort_key sort_by a) (sort_key sort_by b)

  metric_value-ok :
      (sort_by : Text) (e : Entry F)
      → IsConvertible e
      → metric_value sort_by e ≡ ok (measure sort_by e)
  unfolding metric_value measure
  metric_value-ok sort_by e h = ground arith

  keyed-ok :
      (sort_by : Text) (e : Entry F)
      → IsConvertible e
      → keyed sort_by e ≡ ok (sort_key sort_by e, e)
  unfolding keyed sort_key
  keyed-ok sort_by e h = rw (metric_value-ok sort_by e h)

  keyed-All-ok :
      (sort_by : Text) (es : List (Entry F))
      → All IsConvertible es
      → map_result (keyed sort_by) es ≡ ok (map (λ e. (sort_key sort_by e, e)) es)
  keyed-All-ok sort_by es h =
      map_result-ok (keyed sort_by) (λ e. (sort_key sort_by e, e)) es
        (All-map _ _ es (keyed-ok sort_by) h)

  sort_process_entries_key :
      (es : List (Entry F)) (sort_by : Text)
      → All IsConvertible es
      → sort_process_entries es sort_by ≡ ok (sorted (sort_lt sort_by) es)
  unfolding sort_process_entries sort_lt
  sort_process_entries_key es sort_by h =
      rw (keyed-All-ok sort_by es h, sorted-map) (ap ok (map-snd _ _))

  sort_lt-asym :
      (sort_by : Text) (a b : Entry F) → sort_lt sort_by a b ≡ true → sort_lt sort_by b a ≡ false
  unfolding sort_lt
  sort_lt-asym sort_by a b = key_order-IsLinear.asym (sort_key sort_by a) (sort_key sort_by b)

  key_lt_trans :
      (sort_by : Text) (a b c : Entry F)
      → sort_lt sort_by b a ≡ false
      → sort_lt sort_by c b ≡ false
      → sort_lt sort_by c a ≡ false
  unfolding sort_lt
  key_lt_trans sort_by a b c =
      key_order-IsLinear.trans (sort_key sort_by a) (sort_key sort_by b) (sort_key sort_by c)

  -- Entries of two processes are never level: the pid decides at last.
  sort_lt-Apart : (sort_by : Text) (a b : Entry F) → a.pid ≢ b.pid → Apart (sort_lt sort_by) a b
  unfolding sort_lt
  sort_lt-Apart sort_by a b h =
      Apart-of_ne key_order-IsLinear (sort_key sort_by a) (sort_key sort_by b) keys_differ
    where
      keys_differ : key_order.eq (sort_key sort_by a) (sort_key sort_by b) ≡ false
      keys_differ = unfold tuple_order sort_key in ground (arith, eqb_ℤ_iff a.pid b.pid)

  -- No two entries have one pid.
  abbrev pub DistinctPids : List (Entry F) → Type 0
  DistinctPids [] = Unit
  DistinctPids (e ∷ es) = All (λ x. e.pid ≢ x.pid) es × DistinctPids es

  AllApart-of_DistinctPids :
      (sort_by : Text) (es : List (Entry F)) → DistinctPids es → AllApart (sort_lt sort_by) es
  AllApart-of_DistinctPids sort_by [] h = tt
  AllApart-of_DistinctPids sort_by (e ∷ es) h =
      (All-map _ _ es (sort_lt-Apart sort_by e) h.0, AllApart-of_DistinctPids sort_by es h.1)

  sort_lt-entry_lt : (sort_by : Text) → sort_lt sort_by ≡ entry_lt sort_by
  unfolding sort_lt entry_lt sort_key tuple_order
  sort_lt-entry_lt sort_by = fun_ext (λ a. fun_ext (λ b.
      let names = names_apart (or_empty a.name) (or_empty b.name) in
      let total = n.le_total (measure sort_by a) (measure sort_by b) in
      rw
        (
          n.le-neg (measure sort_by a) (measure sort_by b),
          n.le-neg (measure sort_by b) (measure sort_by a),
        )
        (decided (n.le (measure sort_by a) (measure sort_by b))
          (n.le (measure sort_by b) (measure sort_by a))
          (text_eq (or_empty a.name) (or_empty b.name))
          (text_lt (or_empty a.name) (or_empty b.name)) (ltb_ℤ a.pid b.pid) total names)))

  -- Sorting by keys that are computed once is sorting by the order of the entries.
  pub sort_process_entries_lem :
      (es : List (Entry F)) (sort_by : Text)
      → All IsConvertible es
      → sort_process_entries es sort_by ≡ ok (sorted (entry_lt sort_by) es)
  sort_process_entries_lem es sort_by h =
      sort_process_entries_key es sort_by h
      ∙ ap (λ lt. ok (sorted lt es)) (sort_lt-entry_lt sort_by)

  pub sorted_entries-IsSorted :
      (sort_by : Text) (es : List (Entry F))
      → IsSorted (entry_lt sort_by) (sorted (entry_lt sort_by) es)
  sorted_entries-IsSorted sort_by es =
      subst (λ lt. IsSorted lt (sorted lt es)) (sort_lt-entry_lt sort_by)
        (sorted-IsSorted (sort_lt sort_by) (sort_lt-asym sort_by) (key_lt_trans sort_by) es)

  -- Where every memory has a double, `sort_process_entries` succeeds: it returns the same entries,
  -- and none of them comes before an earlier one by measure (descending), name and pid. The
  -- measure is the CPU percentage for `cpu`, and the memory for every other text; an unknown one
  -- is -1.
  pub sort_process_entries_sorts :
      (es : List (Entry F)) (sort_by : Text)
      → All IsConvertible es
      → (out : List (Entry F)) × (sort_process_entries es sort_by ≡ ok out)
        × Perm out es
        × IsSorted (entry_lt sort_by) out
  sort_process_entries_sorts es sort_by h = (
    sorted (entry_lt sort_by) es,
    sort_process_entries_lem es sort_by h,
    sorted-perm (entry_lt sort_by) es,
    sorted_entries-IsSorted sort_by es,
  )

  -- For processes with different pids, and where every memory has a double, the result does not
  -- depend on the order in which they were seen.
  pub sort_process_entries_deterministic :
      (es fs : List (Entry F)) (sort_by : Text)
      → Permᴰ es fs
      → All IsConvertible es
      → DistinctPids es
      → sort_process_entries es sort_by ≡ sort_process_entries fs sort_by
  sort_process_entries_deterministic es fs sort_by p c d =
      let (same, _) =
        sorted-eq_of_perm (sort_lt sort_by) (sort_lt-asym sort_by) (key_lt_trans sort_by) p
          (AllApart-of_DistinctPids sort_by es d) in
      sort_process_entries_key es sort_by c
      ∙ (ap ok same ∙ sym (sort_process_entries_key fs sort_by (All-perm IsConvertible p c)))
