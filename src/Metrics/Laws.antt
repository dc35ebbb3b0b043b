-- ===== src/Metrics/Laws.antt =====
-- `MetricsCollector.processes`: the entries that it lists are the first ones of all that were seen.
use ttop_desk.Prelude.{
  ℕ, ◌≤◌, ◌≡◌, ◌∙◌, ap, some, List, [], Text, pos, take, take-take, All, All-map, All-take,
}
use ttop_desk.Python.Exceptions.{ok}
use ttop_desk.Python.Runtime.{Runtime}
use ttop_desk.Python.Sort.{sorted}
use ttop_desk.Python.Sort.Laws.{All-sorted, IsSorted-take, sorted_of_IsSorted}
use ttop_desk.Processes.Entry.{Entry}
use ttop_desk.Processes.Order.{sort_process_entries}
use ttop_desk.Processes.Order.Laws.{
  IsConvertible, entry_lt, sort_process_entries_lem, sorted_entries-IsSorted,
}
use ttop_desk.Processes.Sampler.{Samples, scan}
use ttop_desk.Processes.Sampler.Laws.{IsJustified, Yields}
use ttop_desk.Processes.Sampler.Rounds.{scanned}
use ttop_desk.Processes.Sampler.Results.{snapshot-scanned, IsNormal-IsConvertible}
use ttop_desk.Metrics.{
  MetricsCollector, Readings, processes, processes_reply, processes_dict, slice,
}

module _ {F : Type 0} ⦃n : Runtime F⦄ where
  -- Sorting again what is sorted and cut changes nothing.
  sort_again :
      (sort_by : Text) (k : ℕ) (es : List (Entry F))
      → All IsConvertible es
      → sort_process_entries (take k (sorted (entry_lt sort_by) es)) sort_by
        ≡ ok (take k (sorted (entry_lt sort_by) es))
  sort_again sort_by k es h =
      sort_process_entries_lem (take k (sorted (entry_lt sort_by) es)) sort_by
        (All-take IsConvertible k _ (All-sorted (entry_lt sort_by) IsConvertible es h))
      ∙ ap ok (
          sorted_of_IsSorted (entry_lt sort_by) _
            (IsSorted-take (entry_lt sort_by) k _ (sorted_entries-IsSorted sort_by es)))

module _ {F W : Type 0} ⦃n : Runtime F⦄ (r : Readings F) where
  -- When the sampler's loop returns, and the limit is at most the sampler's, `processes` lists the
  -- first `limit` of all entries of the loop in order; that it sorts and cuts twice does not show.
  -- The collector keeps the loop's samples.
  pub processes_lists_first :
      (c : MetricsCollector F W) (sort_by : Text) (limit : ℕ) (s : Samples F × List (Entry F))
      → scan c.process_sampler.previous r.sampled_at 0 r.processes [] [] ≡ ok s
      → limit ≤ c.process_sampler.limit
      → processes r sort_by (pos limit) c ≡ (
        ok (processes_dict r sort_by (pos limit) (take limit (sorted (entry_lt sort_by) s.1))),
        record c { process_sampler = record c.process_sampler { previous = s.0 } },
      )
  unfolding processes processes_reply slice
  processes_lists_first c sort_by limit s h le = rw (
    snapshot-scanned c.process_sampler r.sampled_at r.processes (some sort_by) s h,
    sort_again sort_by c.process_sampler.limit s.1 convertible,
    take-take limit c.process_sampler.limit (sorted (entry_lt sort_by) s.1) le,
  )
    where
      convertible : All IsConvertible s.1
      convertible =
          All-map (IsJustified (Yields r.processes) c.process_sampler.previous r.sampled_at) _ s.1
            (λ e j. IsNormal-IsConvertible e j.0)
            (scanned c.process_sampler.previous r.sampled_at r.processes s h).entries_justified
