-- ===== src/Processes/Sampler/Results.antt =====
-- `ProcessSampler.snapshot`: its result, the samples it keeps, and what a failure leaves behind.
use ttop_desk.Prelude.{
  OnSome, ◌≤◌, ◌≡◌, refl, ap, sym, ◌∙◌, Bool, Option, none, some, List, [], Text, ℤ, pos, negsuc,
  arith, length, length-take, take, ◌≢◌, All, All-map, All-take,
}
use mathlib.Core.Path.{subst}
use ttop_desk.Python.Exceptions.{Exception, ok, err, Result-cases, is_ok, is_err}
use ttop_desk.Python.Runtime.{Float, Runtime}
use ttop_desk.Python.Sort.{sorted, IsSorted}
use ttop_desk.Python.Sort.Laws.{All-sorted, IsSorted-take, sorted-IsSorted}
use ttop_desk.Processes.Entry.{Process, Processes, Entry}
use ttop_desk.Processes.Normalize.Laws.{IsMemory, IsNormal}
use ttop_desk.Processes.Order.{default_sort, default_key}
use ttop_desk.Processes.Order.Laws.{
  IsConvertible, default_key_order-IsLinear, entry_lt, sort_process_entries_lem,
  sorted_entries-IsSorted,
}
use ttop_desk.Processes.Order.Plain.{plain_lt, default_key-plain_lt}
use ttop_desk.Processes.Sampler.{
  Samples, ProcessSampler, process_sampler, scan, snapshot, conclude, sort_entries,
  max_tracked_processes,
}
use ttop_desk.Processes.Sampler.Laws.{IsJustified, IsSampled, Yields}
use ttop_desk.Processes.Sampler.Rounds.{scanned}

-- `__init__` puts the limit between 1 and 512, whatever it is asked for.
pub process_sampler_bounded :
    (F : Type 0) (limit : ℤ)
    → (1 ≤ (process_sampler {F = F} limit).limit) × ((process_sampler {F = F} limit).limit ≤ 512)
unfolding process_sampler
process_sampler_bounded F (pos k) = (ground arith, ground arith)
process_sampler_bounded F (negsuc k) = (ground arith, ground arith)

module _ {F : Type 0} ⦃n : Runtime F⦄ where
  pub IsNormal-IsConvertible : (e : Entry F) → IsNormal e → IsConvertible e
  IsNormal-IsConvertible e h = memory e.memory_bytes h.memory_whole
    where
      memory : (o : Option ℤ) → OnSome (IsMemory F) o → OnSome (λ z. n.of_int z ≢ none) o
      memory none h = tt
      memory (some z) h = h.1

  IsNormal-IsConvertible-All :
      (yields : Process F → Type 0) (previous : Samples F) (at : Float F) (es : List (Entry F))
      → All (IsJustified yields previous at) es
      → All IsConvertible es
  IsNormal-IsConvertible-All yields previous at es =
      All-map _ _ es (λ e h. IsNormal-IsConvertible e h.0)

  -- The order of a snapshot: by a metric, or the plain one.
  abbrev pub order_of : Option Text → Entry F → Entry F → Bool
  order_of none = plain_lt
  order_of (some sort_by) = entry_lt sort_by

  sort_entries_lem :
      (sort_by : Option Text) (es : List (Entry F))
      → All IsConvertible es
      → sort_entries sort_by es ≡ ok (sorted (order_of sort_by) es)
  unfolding default_sort
  sort_entries_lem none es h = ap (λ lt. ok (sorted lt es)) default_key-plain_lt
  sort_entries_lem (some sort_by) es h = sort_process_entries_lem es sort_by h

  module _ (sampler : ProcessSampler F) (at : Float F) (ps : Processes F)
      (sort_by : Option Text) where
    -- After a whole loop, a snapshot is the loop's entries in order, cut at the limit.
    pub snapshot-scanned :
        (r : Samples F × List (Entry F))
        → scan sampler.previous at 0 ps [] [] ≡ ok r
        → snapshot sampler at ps sort_by ≡ (
          ok (take sampler.limit (sorted (order_of sort_by) r.1)),
          record sampler { previous = r.0 },
        )
    unfolding snapshot conclude
    snapshot-scanned r h = rw (
      h,
      sort_entries_lem sort_by r.1 (
          IsNormal-IsConvertible-All (Yields ps) sampler.previous at r.1
            (scanned sampler.previous at ps r h).entries_justified),
    )

    order-IsSorted :
        (es : List (Entry F)) → IsSorted (order_of sort_by) (sorted (order_of sort_by) es)
    order-IsSorted es = by_order sort_by
      where
        by_order : (o : Option Text) → IsSorted (order_of o) (sorted (order_of o) es)
        by_order none =
            subst (λ lt. IsSorted lt (sorted lt es)) default_key-plain_lt
              (sorted-IsSorted _
                (λ a b. default_key_order-IsLinear.asym (default_key a) (default_key b))
                (λ a b c.
                  default_key_order-IsLinear.trans (default_key a) (default_key b) (default_key c))
                es)
        by_order (some k) = sorted_entries-IsSorted k es

    -- What a snapshot that returns has done.
    pub record IsSnapshot (es : List (Entry F)) (after : ProcessSampler F) : Type 0 where
      pub entries_few : length es ≤ sampler.limit
      pub entries_justified : All (IsJustified (Yields ps) sampler.previous at) es
      pub entries_sorted : IsSorted (order_of sort_by) es
      pub limit_kept : after.limit ≡ sampler.limit
      pub state_small : length after.previous ≤ max_tracked_processes
      pub state_sampled : All (λ e. IsSampled (Yields ps) at e.0 e.1) after.previous

    -- A snapshot that returns has at most `limit` entries: in the order of `sort_by`, or, where it
    -- is none, by CPU and memory (both descending) and pid. Each is normal, and its CPU
    -- percentage, if it has one, is the ratio of two samples with one creation time: the one kept
    -- for its pid, and the one of a process with this pid that this iteration yields. The sampler
    -- keeps its limit and at most 4096 samples, each of a process of this iteration.
    pub snapshot_result :
        (es : List (Entry F)) (after : ProcessSampler F)
        → snapshot sampler at ps sort_by ≡ (ok es, after)
        → IsSnapshot es after
    snapshot_result es after h = elim (Result-cases (scan sampler.previous at 0 ps [] [])) [
      | is_err e p ↦ absurd (unfold snapshot conclude in ground arith)
      | is_ok r p ↦
          let whole = scanned sampler.previous at ps r p in
          let same = sym (snapshot-scanned r p) ∙ h in
          let listed : take sampler.limit (sorted (order_of sort_by) r.1) ≡ es = ground arith in
          let kept : record sampler { previous = r.0 } ≡ after = ground arith in
          subst (λ xs. IsSnapshot xs after) listed
            (subst (λ s. IsSnapshot (take sampler.limit (sorted (order_of sort_by) r.1)) s) kept
              (record {
                entries_few =
                    omega (arith, length-take sampler.limit (sorted (order_of sort_by) r.1));
                entries_justified = All-take _ sampler.limit _ (
                    All-sorted (order_of sort_by) (IsJustified (Yields ps) sampler.previous at) r.1
                      whole.entries_justified);
                entries_sorted = IsSorted-take _ sampler.limit _ (order-IsSorted r.1);
                limit_kept = refl;
                state_small = whole.state_small;
                state_sampled = whole.state_sampled;
              }))
    ]

    -- A snapshot raises only what its loop raises, never in its sort, and then the sampler is as
    -- it was.
    pub snapshot_failure :
        (e : Exception) (after : ProcessSampler F)
        → snapshot sampler at ps sort_by ≡ (err e, after)
        → (scan sampler.previous at 0 ps [] [] ≡ err e) × (after ≡ sampler)
    snapshot_failure e after h = elim (Result-cases (scan sampler.previous at 0 ps [] [])) [
      | is_err x p ↦ unfold snapshot conclude in ground arith
      | is_ok r p ↦ absurd (ground (arith, snapshot-scanned r p))
    ]
