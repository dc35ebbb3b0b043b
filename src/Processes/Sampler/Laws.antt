-- ===== src/Processes/Sampler/Laws.antt =====
-- `ProcessSampler.snapshot`: what it returns, what it keeps, and what it never does.
use mathlib.Core.Path.{subst}
use ttop_desk.Prelude.{
  OnSome, OnSome-of, ℕ, ◌+◌, ◌≤◌, ◌≡◌, ◌⊎◌, refl, ◌∙◌, ap, true, Option, none, some, List, [], ◌∷◌,
  ℤ, pos, length, length-append, arith, All, All-append, Option-cases, inl, inr,
}
use ttop_desk.Python.Exceptions.{ok, caught}
use ttop_desk.Python.Dict.{int_key, lookup, length-insert, All-insert-pair}
use ttop_desk.Python.Runtime.{
  Float, finite, Runtime, lt_float, le_float, eq_finite, zero_float, to_float,
}
use ttop_desk.Processes.Entry.{Process, Processes, stop, fail, next, Entry, CpuSample}
use ttop_desk.Processes.Normalize.{
  process_pid, normalize_process, finite_nonnegative, keep_finite_nonnegative, optional_float,
}
use ttop_desk.Processes.Normalize.Laws.{IsNormal, normalize_process-IsNormal}
use ttop_desk.Processes.Sampler.{
  Samples, creation_time, process_cpu_time, is_progress, percent_between, cpu_percent_since,
  sample_of, percent_of, track, add_entry,
}

module _ {F : Type 0} ⦃n : Runtime F⦄ where
  -- The iteration yields the process, before it ends or fails.
  abbrev pub Yields : Processes F → Process F → Type 0
  Yields stop p = ⊥
  Yields (fail e) p = ⊥
  Yields (next q later) p = (q ≡ p) ⊎ Yields later p

  -- What a process of this iteration reads: its pid, and its creation time and its CPU time, which
  -- are the sample of this snapshot.
  pub record IsSampled (yields : Process F → Type 0) (at : Float F) (pid : ℤ) (now : CpuSample F)
      : Type 0 where
    pub process : Process F
    pub is_yielded : yields process
    pub has_pid : process_pid process ≡ ok pid
    pub was_created : creation_time process ≡ ok (some now.create_time)
    pub has_used : process_cpu_time process ≡ ok (some now.cpu_time)
    pub is_now : now.sampled_at ≡ at

  -- A percentage that rests on two samples of one process: one that was kept from the last
  -- snapshot, and one of this.
  pub record IsMeasured (yields : Process F → Type 0) (previous : Samples F) (at : Float F)
      (pid : ℤ) (percent : F) : Type 0 where
    pub old : CpuSample F
    pub now : CpuSample F
    pub was_kept : lookup pid previous ≡ some old
    pub is_sampled : IsSampled yields at pid now
    pub same_process : eq_finite old.create_time now.create_time ≡ true
    pub has_elapsed : lt_float (finite zero_float) (n.sub at old.sampled_at) ≡ true
    pub has_progress : le_float (finite zero_float) (n.sub now.cpu_time old.cpu_time) ≡ true
    pub is_ratio :
        n.mul
          (n.div (n.sub now.cpu_time old.cpu_time) (n.sub at old.sampled_at))
          (finite (n.lit (pos 100)))
        ≡ finite percent

  abbrev pub IsJustified : (Process F → Type 0) → Samples F → Float F → Entry F → Type 0
  IsJustified yields previous at e =
      IsNormal e × OnSome (IsMeasured yields previous at e.pid) e.cpu_percent

  finite-eq_some :
      (cpu : Option (Float F)) (a : F)
      → finite_nonnegative (optional_float cpu) ≡ ok (some a)
      → cpu ≡ some (finite a)
  unfolding finite_nonnegative caught to_float keep_finite_nonnegative
  finite-eq_some cpu a h = ground arith

  pub sample_of-IsSampled :
      (yields : Process F → Type 0) (at : Float F) (p : Process F) (pid : ℤ) (c : Option F)
      (t : Option (Float F)) (now : CpuSample F)
      → yields p
      → process_pid p ≡ ok pid
      → creation_time p ≡ ok c
      → process_cpu_time p ≡ ok t
      → sample_of at c t ≡ some now
      → IsSampled yields at pid now
  unfolding sample_of
  sample_of-IsSampled yields at p pid none t now y q ec et h = cc
  sample_of-IsSampled yields at p pid (some c) none now y q ec et h = cc
  sample_of-IsSampled yields at p pid (some c) (some t) now y q ec et h =
      let same : record { create_time = c; sampled_at = at; cpu_time = t } ≡ now = ground arith in
      subst (IsSampled yields at pid) same (record {
        process = p;
        is_yielded = y;
        has_pid = q;
        was_created = ec;
        has_used = et;
        is_now = refl;
      })

  percent_between-eq_some :
      (old now : CpuSample F) (x : Float F)
      → percent_between old now ≡ some x
      → (eq_finite old.create_time now.create_time ≡ true)
        × (lt_float (finite zero_float) (n.sub now.sampled_at old.sampled_at) ≡ true)
        × (le_float (finite zero_float) (n.sub now.cpu_time old.cpu_time) ≡ true)
        × (n.mul
              (n.div (n.sub now.cpu_time old.cpu_time) (n.sub now.sampled_at old.sampled_at))
              (finite (n.lit (pos 100)))
            ≡ x)
  unfolding percent_between is_progress
  percent_between-eq_some old now x h = ground arith

  percent_of-IsMeasured :
      (yields : Process F → Type 0) (previous : Samples F) (at : Float F) (pid : ℤ)
      (o : Option (CpuSample F)) (a : F)
      → ((now : CpuSample F) → o ≡ some now → IsSampled yields at pid now)
      → percent_of previous pid o ≡ some (finite a)
      → IsMeasured yields previous at pid a
  unfolding cpu_percent_since
  percent_of-IsMeasured yields previous at pid none a s h = absurd (ground arith)
  percent_of-IsMeasured yields previous at pid (some now) a s h =
      elim (Option-cases (lookup pid previous)) [
        | inl e ↦ absurd (ground arith)
        | inr (old, e) ↦
            let here = (s now refl).is_now in
            let between : percent_between old now ≡ some (finite a) = ground arith in
            let (same, elapsed, progress, ratio) =
              percent_between-eq_some old now (finite a) between in
            record {
              old = old;
              now = now;
              was_kept = e;
              same_process = same;
              is_sampled = s now refl;
              has_elapsed =
                  subst (λ t. lt_float (finite zero_float) (n.sub t old.sampled_at) ≡ true) here
                    elapsed;
              has_progress = progress;
              is_ratio =
                  subst
                    (λ t.
                      n.mul (n.div (n.sub now.cpu_time old.cpu_time) (n.sub t old.sampled_at))
                        (finite (n.lit (pos 100)))
                      ≡ finite a)
                    here ratio;
            }
      ]

  module _ (yields : Process F → Type 0) (previous : Samples F) (at : Float F) where
    -- What holds after a number of rounds.
    pub record IsScanned (index : ℕ) (r : Samples F × List (Entry F)) : Type 0 where
      pub state_small : length r.0 ≤ index
      pub state_sampled : All (λ e. IsSampled yields at e.0 e.1) r.0
      pub entries_few : length r.1 ≤ index
      pub entries_justified : All (IsJustified yields previous at) r.1

    pub track-IsSampled :
        (pid : ℤ) (o : Option (CpuSample F)) (state : Samples F)
        → ((now : CpuSample F) → o ≡ some now → IsSampled yields at pid now)
        → All (λ e. IsSampled yields at e.0 e.1) state
        → All (λ e. IsSampled yields at e.0 e.1) (track pid o state)
    track-IsSampled pid none state s h = h
    track-IsSampled pid (some now) state s h =
        All-insert-pair (λ e. IsSampled yields at e.0 e.1) pid now state (s now refl) h

    pub track-length :
        (pid : ℤ) (o : Option (CpuSample F)) (state : Samples F)
        → length (track pid o state) ≤ length state + 1
    track-length pid none state = omega arith
    track-length pid (some now) state = length-insert pid now state

    pub add_entry-length :
        (o : Option (Option (Entry F))) (es : List (Entry F))
        → length (add_entry o es) ≤ length es + 1
    add_entry-length none es = omega arith
    add_entry-length (some none) es = omega arith
    add_entry-length (some (some e)) es = omega (arith, length-append es (e ∷ []))

    pub add_entry-All :
        (o : Option (Option (Entry F))) (es : List (Entry F))
        → ((e : Entry F) → o ≡ some (some e) → IsJustified yields previous at e)
        → All (IsJustified yields previous at) es
        → All (IsJustified yields previous at) (add_entry o es)
    add_entry-All none es g h = h
    add_entry-All (some none) es g h = h
    add_entry-All (some (some e)) es g h = All-append _ es (e ∷ []) h (g e refl, tt)

    -- An entry of `normalize_process`, called as the loop calls it, is justified.
    pub normalized-IsJustified :
        (p : Process F) (pid : ℤ) (o : Option (CpuSample F)) (e : Entry F)
        → ((now : CpuSample F) → o ≡ some now → IsSampled yields at pid now)
        → process_pid p ≡ ok pid
        → normalize_process p (percent_of previous pid o) ≡ ok (some e)
        → IsJustified yields previous at e
    normalized-IsJustified p pid o e s q h =
        let (normal, known, percent) =
          normalize_process-IsNormal p (percent_of previous pid o) e h in
        let same : pid ≡ e.pid = ground arith in
        (
          normal,
          OnSome-of _ e.cpu_percent (λ a f.
              subst (λ k. IsMeasured yields previous at k a) same
                (percent_of-IsMeasured yields previous at pid o a s
                  (finite-eq_some (percent_of previous pid o) a (percent ∙ ap ok f)))),
        )
