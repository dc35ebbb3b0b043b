-- ===== src/Processes/Sampler.antt =====
-- `class ProcessSampler`: the CPU samples of the last snapshot, and `snapshot`.
pub mod Laws
pub mod Rounds
pub mod Results
use ttop_desk.Prelude.{
  ℕ, suc, ◌≡◌, Bool, true, false, not, ◌&&◌, Option, none, some, List, [], ◌∷◌, ◌++◌, Text, ℤ, pos,
  leb, leb_ℤ, ltb_ℤ, pos_part, take, if◌then◌else◌,
}
use ttop_desk.Python.Exceptions.{Exception, Result, ok, err, ◌>>=◌, caught}
use ttop_desk.Python.Dict.{int_key, lookup, insert}
use ttop_desk.Python.Runtime.{
  Float, nan, infinite, finite, Runtime, Value, lt_float, le_float, eq_finite, zero_float,
}
use ttop_desk.Processes.Entry.{
  Process, Processes, stop, fail, next, Entry, CpuSample, is_bad_attribute, is_unavailable,
  is_vanished, or_none,
}
use ttop_desk.Processes.Normalize.{finite_nonnegative, process_pid, normalize_process}
use ttop_desk.Processes.Order.{sort_process_entries, default_sort}

abbrev pub max_process_limit : ℤ
max_process_limit = pos 512

abbrev pub max_tracked_processes : ℕ
max_tracked_processes = 4096

-- `_previous`: pid -> CpuSample
abbrev pub Samples : Type 0 → Type 0
Samples F = List (ℤ × CpuSample F)

pub record ProcessSampler (F : Type 0) : Type 0 where
  pub limit : ℕ
  pub previous : Samples F

abbrev max_ℤ : ℤ → ℤ → ℤ
max_ℤ a b = if ltb_ℤ a b then b else a

abbrev min_ℤ : ℤ → ℤ → ℤ
min_ℤ a b = if ltb_ℤ b a then b else a

-- `__init__`: the limit lies between 1 and 512
unfoldable pub process_sampler : {F : Type 0} → ℤ → ProcessSampler F
process_sampler limit = record {
  limit = pos_part (max_ℤ (pos 1) (min_ℤ limit max_process_limit));
  previous = [];
}

module _ {F : Type 0} ⦃n : Runtime F⦄ where
  -- `_creation_time`
  unfoldable pub creation_time : Process F → Result (Option F)
  creation_time process = finite_nonnegative (or_none process.info.create_time)

  abbrev pub sum_times : Option (Option F × Option F) → Option (Float F)
  sum_times (some (some user, some system)) = some (n.add (finite user) (finite system))
  sum_times _ = none

  -- the two reads inside the `try` of `_process_cpu_time`
  unfoldable pub read_times : Process F → Result (Option F × Option F)
  read_times process = do
    (user_time, system_time) ← process.cpu_times
    user ← user_time >>= finite_nonnegative
    system ← system_time >>= finite_nonnegative
    ok (user, system)

  -- `_process_cpu_time`
  unfoldable pub process_cpu_time : Process F → Result (Option (Float F))
  process_cpu_time process = do
    times ← caught is_unavailable (read_times process)
    ok (sum_times times)

  -- `elapsed > 0 and cpu_delta >= 0`
  unfoldable pub is_progress : Float F → Float F → Bool
  is_progress elapsed cpu_delta =
      lt_float (finite zero_float) elapsed && le_float (finite zero_float) cpu_delta

  -- the percentage between two samples of one process, which its creation time identifies
  unfoldable pub percent_between : CpuSample F → CpuSample F → Option (Float F)
  percent_between old now =
      if eq_finite old.create_time now.create_time
        && is_progress (n.sub now.sampled_at old.sampled_at) (n.sub now.cpu_time old.cpu_time)
      then some (
          n.mul (n.div (n.sub now.cpu_time old.cpu_time) (n.sub now.sampled_at old.sampled_at))
            (finite (n.lit (pos 100))))
      else none

  unfoldable pub cpu_percent_since : Option (CpuSample F) → CpuSample F → Option (Float F)
  cpu_percent_since none now = none
  cpu_percent_since (some old) now = percent_between old now

  -- the sample of a process whose times could be read
  unfoldable pub sample_of : Float F → Option F → Option (Float F) → Option (CpuSample F)
  sample_of sampled_at (some create_time) (some cpu_time) =
      some (record { create_time = create_time; sampled_at = sampled_at; cpu_time = cpu_time })
  sample_of sampled_at _ _ = none

  abbrev pub percent_of : Samples F → ℤ → Option (CpuSample F) → Option (Float F)
  percent_of previous pid none = none
  percent_of previous pid (some now) = cpu_percent_since (lookup pid previous) now

  abbrev pub track : ℤ → Option (CpuSample F) → Samples F → Samples F
  track pid none state = state
  track pid (some now) state = insert pid now state

  abbrev pub add_entry : Option (Option (Entry F)) → List (Entry F) → List (Entry F)
  add_entry (some (some entry)) entries = entries ++ entry ∷ []
  add_entry _ entries = entries

  module _ (previous : Samples F) (sampled_at : Float F) where
    -- one round of the loop for a process with a pid
    unfoldable pub visit :
        Process F → ℤ → Samples F → List (Entry F) → Result (Samples F × List (Entry F))
    visit process pid state entries = do
      create_time ← creation_time process
      cpu_time ← process_cpu_time process
      let now = sample_of sampled_at create_time cpu_time
      entry ← caught is_vanished (normalize_process process (percent_of previous pid now))
      ok (track pid now state, add_entry entry entries)

    -- `continue` where the pid cannot be read
    unfoldable pub visit_known :
        Process F → Option ℤ → Samples F → List (Entry F) → Result (Samples F × List (Entry F))
    visit_known process none state entries = ok (state, entries)
    visit_known process (some pid) state entries = visit process pid state entries

    unfoldable pub visit_process :
        Process F → Samples F → List (Entry F) → Result (Samples F × List (Entry F))
    visit_process process state entries = do
      pid ← caught is_bad_attribute (process_pid process)
      visit_known process pid state entries

    -- the `for` loop, which stops at the process with the index 4096
    unfoldable pub scan :
        ℕ → Processes F → Samples F → List (Entry F) → Result (Samples F × List (Entry F))
    scan index stop state entries = ok (state, entries)
    scan index (fail e) state entries = err e
    scan index (next process rest) state entries = elim (leb max_tracked_processes index) [
      | true ↦ ok (state, entries)
      | false ↦ do
        (state', entries') ← visit_process process state entries
        scan (suc index) rest state' entries'
    ]

  abbrev pub sort_entries : Option Text → List (Entry F) → Result (List (Entry F))
  sort_entries none entries = ok (default_sort entries)
  sort_entries (some sort_by) entries = sort_process_entries entries sort_by

  -- what follows the loop: the new samples are kept before the entries are sorted
  unfoldable pub conclude :
      ProcessSampler F
      → Option Text
      → Result (Samples F × List (Entry F))
      → Result (List (Entry F)) × ProcessSampler F
  conclude sampler sort_by (err e) = (err e, sampler)
  conclude sampler sort_by (ok (state, entries)) = (
    sort_entries sort_by entries >>= λ es. ok (take sampler.limit es),
    record sampler { previous = state },
  )

  -- `snapshot(sort_by=...)` at the time `sampled_at`, over what `process_iter` yields
  unfoldable pub snapshot :
      ProcessSampler F
      → Float F
      → Processes F
      → Option Text
      → Result (List (Entry F)) × ProcessSampler F
  snapshot sampler sampled_at processes sort_by =
      conclude sampler sort_by (scan sampler.previous sampled_at 0 processes [] [])
