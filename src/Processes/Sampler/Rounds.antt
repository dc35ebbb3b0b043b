-- ===== src/Processes/Sampler/Rounds.antt =====
-- The loop of `ProcessSampler.snapshot`: what each round keeps, and what holds at its end.
use mathlib.Core.Path.{subst}
use ttop_desk.Prelude.{
  ℕ, suc, ◌≤◌, ◌≡◌, refl, Option, none, some, List, [], ℤ, arith, inl, inr, Bool-cases, leb,
}
use ttop_desk.Python.Exceptions.{ok, ◌>>=◌, caught, >>=-eq-ok, caught-eq_ok}
use ttop_desk.Python.Runtime.{Float, Runtime}
use ttop_desk.Processes.Entry.{
  Process, Processes, stop, fail, next, Entry, CpuSample, is_bad_attribute, is_vanished,
}
use ttop_desk.Processes.Normalize.{process_pid, normalize_process}
use ttop_desk.Processes.Sampler.{
  Samples, creation_time, process_cpu_time, sample_of, percent_of, track, add_entry, visit,
  visit_known, visit_process, scan, max_tracked_processes,
}
use ttop_desk.Processes.Sampler.Laws.{
  IsScanned, IsSampled, Yields, sample_of-IsSampled, track-IsSampled, track-length,
  add_entry-length, add_entry-All, normalized-IsJustified,
}

module _ {F : Type 0} ⦃n : Runtime F⦄ (yields : Process F → Type 0) (previous : Samples F)
    (at : Float F) where
  IsScanned-later :
      (i j : ℕ) (r : Samples F × List (Entry F))
      → i ≤ j
      → IsScanned yields previous at i r
      → IsScanned yields previous at j r
  IsScanned-later i j r le h = record {
    state_small = omega (arith, h.state_small);
    state_sampled = h.state_sampled;
    entries_few = omega (arith, h.entries_few);
    entries_justified = h.entries_justified;
  }

  visit-IsScanned :
      (i : ℕ) (p : Process F) (pid : ℤ) (state : Samples F) (es : List (Entry F))
      (r : Samples F × List (Entry F))
      → yields p
      → process_pid p ≡ ok pid
      → IsScanned yields previous at i (state, es)
      → visit previous at p pid state es ≡ ok r
      → IsScanned yields previous at (suc i) r
  unfolding visit
  visit-IsScanned i p pid state es r y q s h =
      let (c, ec, f) = >>=-eq-ok (creation_time p) _ h in
      let (t, et, g) = >>=-eq-ok (process_cpu_time p) _ f in
      let now = sample_of at c t in
      let sampled : (u : CpuSample F) → now ≡ some u → IsSampled yields at pid u =
        λ u. sample_of-IsSampled yields at p pid c t u y q ec et in
      let (o, eo, k) =
        >>=-eq-ok (caught is_vanished (normalize_process p (percent_of previous pid now))) _ g in
      let same : (track pid now state, add_entry o es) ≡ r = ground arith in
      subst (IsScanned yields previous at (suc i)) same (record {
        state_small = omega (arith, track-length yields previous at pid now state, s.state_small);
        state_sampled = track-IsSampled yields previous at pid now state sampled s.state_sampled;
        entries_few = omega (arith, add_entry-length yields previous at o es, s.entries_few);
        entries_justified =
            add_entry-All yields previous at o es
              (λ e w.
                normalized-IsJustified yields previous at p pid now e sampled q
                  (caught-eq_ok is_vanished _ o eo (some e) w))
              s.entries_justified;
      })

  visit_process-IsScanned :
      (i : ℕ) (p : Process F) (state : Samples F) (es : List (Entry F))
      (r : Samples F × List (Entry F))
      → yields p
      → IsScanned yields previous at i (state, es)
      → visit_process previous at p state es ≡ ok r
      → IsScanned yields previous at (suc i) r
  unfolding visit_process visit_known
  visit_process-IsScanned i p state es r y s h =
      let (o, eo, f) = >>=-eq-ok (caught is_bad_attribute (process_pid p)) _ h in
      known o (λ pid w. caught-eq_ok is_bad_attribute _ o eo pid w) f
    where
      known :
          (o : Option ℤ)
          → ((pid : ℤ) → o ≡ some pid → process_pid p ≡ ok pid)
          → visit_known previous at p o state es ≡ ok r
          → IsScanned yields previous at (suc i) r
      known none q f =
          let same : (state, es) ≡ r = ground arith in
          subst (IsScanned yields previous at (suc i)) same
            (IsScanned-later i (suc i) (state, es) (omega arith) s)
      known (some pid) q f = visit-IsScanned i p pid state es r y (q pid refl) s f

  scan-IsScanned :
      (i : ℕ) (ps : Processes F) (state : Samples F) (es : List (Entry F))
      (r : Samples F × List (Entry F))
      → ((p : Process F) → Yields ps p → yields p)
      → i ≤ max_tracked_processes
      → IsScanned yields previous at i (state, es)
      → scan previous at i ps state es ≡ ok r
      → IsScanned yields previous at max_tracked_processes r
  unfolding scan
  scan-IsScanned i stop state es r ys le s h =
      let same : (state, es) ≡ r = ground arith in
      subst (IsScanned yields previous at max_tracked_processes) same
        (IsScanned-later i _ (state, es) le s)
  scan-IsScanned i (fail e) state es r ys le s h = cc
  scan-IsScanned i (next p ps) state es r ys le s h =
      elim (Bool-cases (leb max_tracked_processes i)) [
        | inl full ↦
            let same : (state, es) ≡ r = ground arith in
            subst (IsScanned yields previous at max_tracked_processes) same
              (IsScanned-later i _ (state, es) le s)
        | inr more ↦
            let rest : (visit_process previous at p state es >>= λ (s, es).
            scan previous at (suc i) ps s es)
                ≡ ok r =
              ground arith in
            let (v, ev, g) = >>=-eq-ok (visit_process previous at p state es) _ rest in
            scan-IsScanned (suc i) ps v.0 v.1 r (λ q w. ys q (inr w)) (ground arith)
              (visit_process-IsScanned i p state es v (ys p (inl refl)) s ev) g
      ]

module _ {F : Type 0} ⦃n : Runtime F⦄ (previous : Samples F) (at : Float F) where
  -- A whole loop: its samples and its entries are at most 4096, and all of them are in order.
  pub scanned :
      (ps : Processes F) (r : Samples F × List (Entry F))
      → scan previous at 0 ps [] [] ≡ ok r
      → IsScanned (Yields ps) previous at max_tracked_processes r
  scanned ps r h =
      scan-IsScanned (Yields ps) previous at 0 ps [] [] r (λ p y. y) (omega arith)
        (record {
          state_small = omega arith;
          state_sampled = tt;
          entries_few = omega arith;
          entries_justified = tt;
        })
        h
