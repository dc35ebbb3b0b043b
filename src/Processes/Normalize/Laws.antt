-- ===== src/Processes/Normalize/Laws.antt =====
-- What every entry of `normalize_process` satisfies, and when there is none.
use mathlib.Core.Path.{subst}
use ttop_desk.Prelude.{
  ◌≤◌, ◌≡◌, ◌≢◌, refl, true, false, Option, none, some, [], ◌∷◌, Text, Lacks, has_char→Lacks, ℤ,
  pos, neg_part, ◌≤ℤ◌, length, arith, Bool-cases, inl, inr, OnSome, OnSome-of,
}
use ttop_desk.Python.Exceptions.{
  ok, ◌>>=◌, caught, Result-cases, is_ok, is_err, >>=-eq-ok, caught-eq_ok,
}
use ttop_desk.Python.Runtime.{
  Float, nan, infinite, finite, Runtime, Value, none_value, str_value, to_float, zero_float,
}
use ttop_desk.Python.Strings.{strip, is_empty, replace_char, basename}
use ttop_desk.Python.Strings.Laws.{
  replace_char-Lacks, replace_char-Lacks_other, length-replace_char, basename-All, basename-Lacks,
  length-basename,
}
use ttop_desk.Processes.Entry.{
  Process, Entry, or_none, is_unavailable, is_bad_number, is_bad_attribute,
}
use ttop_desk.Processes.Normalize.{
  keep_finite_nonnegative, finite_nonnegative, process_pid, clean_text, public_name,
  memory_bytes_of, optional_float, entry_of, entry_for, normalize_process,
}

-- No path separator and no NUL, and bounded.
abbrev pub IsPublicName : Text → Type 0
IsPublicName t = Lacks 47 t × Lacks 92 t × Lacks 0 t × (length t ≤ 256)

abbrev pub IsUserName : Text → Type 0
IsUserName t = (t ≢ []) × Lacks 0 t × (length t ≤ 256)

cut_name :
    (o : Option Text)
    → OnSome IsUserName o
    → OnSome IsPublicName
        (elim o [ none ↦ none | some name ↦ some (basename (replace_char 92 47 name)) ])
cut_name none h = tt
cut_name (some t) h = (
  basename-Lacks (replace_char 92 47 t),
  basename-All (λ x. x ≢ 92) (replace_char 92 47 t) (replace_char-Lacks 92 47 t (omega arith)),
  basename-All (λ x. x ≢ 0) (replace_char 92 47 t)
      (replace_char-Lacks_other 0 92 47 t (omega arith) h.1),
  omega (arith, length-basename (replace_char 92 47 t), length-replace_char 92 47 t),
)

-- Whole and not negative, and within the range of doubles.
abbrev pub IsMemory : (F : Type 0) ⦃n : Runtime F⦄ → ℤ → Type 0
IsMemory F ⦃n⦄ z = (neg_part z ≡ 0) × (n.of_int z ≢ none)

module _ {F : Type 0} ⦃n : Runtime F⦄ where
  abbrev pub IsNonnegative : F → Type 0
  IsNonnegative a = n.le zero_float a ≡ true

  -- What the protocol promises of an entry.
  pub record IsNormal (e : Entry F) : Type 0 where
    pub pid_positive : pos 1 ≤ℤ e.pid
    pub name_public : OnSome IsPublicName e.name
    pub username_bounded : OnSome IsUserName e.username
    pub memory_whole : OnSome (IsMemory F) e.memory_bytes
    pub cpu_nonnegative : OnSome IsNonnegative e.cpu_percent

  keep-IsNonnegative : (o : Option (Float F)) → OnSome IsNonnegative (keep_finite_nonnegative o)
  unfolding keep_finite_nonnegative
  keep-IsNonnegative none = tt
  keep-IsNonnegative (some nan) = tt
  keep-IsNonnegative (some (infinite s)) = tt
  keep-IsNonnegative (some (finite a)) = elim (Bool-cases (n.le zero_float a)) [
    | inl e ↦ rw e e
    | inr e ↦ rw e tt
  ]

  finite_nonnegative-eq_ok :
      (v : Value F) (o : Option F) → finite_nonnegative v ≡ ok o → OnSome IsNonnegative o
  unfolding finite_nonnegative
  finite_nonnegative-eq_ok v o h = elim (Result-cases (caught is_bad_number (to_float v))) [
    | is_ok number p ↦
        let same : keep_finite_nonnegative number ≡ o = ground arith in
        subst (OnSome IsNonnegative) same (keep-IsNonnegative number)
    | is_err e p ↦ absurd (ground arith)
  ]

  clean_text-eq_some : (v : Value F) (t : Text) → clean_text v ≡ some t → IsUserName t
  unfolding clean_text
  clean_text-eq_some (str_value s) t h =
      let same : strip s ≡ t = ground arith in
      subst IsUserName same
        (nonempty (strip s) (ground arith), has_char→Lacks 0 (strip s) (ground arith), ground arith)
    where
      nonempty : (t : Text) → is_empty t ≡ false → t ≢ []
      nonempty [] h = cc
      nonempty (c ∷ cs) h = λ e. cc
  clean_text-eq_some none_value t h = cc
  clean_text-eq_some _ t h = cc

  public_name-IsPublicName : (v : Value F) → OnSome IsPublicName (public_name v)
  unfolding public_name
  public_name-IsPublicName v = cut_name (clean_text v) (OnSome-of _ _ (clean_text-eq_some v))

  whole-IsMemory :
      (r : Option (Option F))
      → OnSome (OnSome IsNonnegative) r
      → OnSome
          (IsMemory F)
          (elim r [ none ↦ none | some o ↦ elim o [ none ↦ none | some a ↦ some (n.trunc a) ] ])
  whole-IsMemory none h = tt
  whole-IsMemory (some none) h = tt
  whole-IsMemory (some (some a)) h = (n.trunc_nonneg a h, n.of_int-trunc a)

  memory_bytes_of-eq_ok :
      (p : Process F) (m : Option ℤ) → memory_bytes_of p ≡ ok m → OnSome (IsMemory F) m
  unfolding memory_bytes_of
  memory_bytes_of-eq_ok p m h =
      let (rss, e, f) = >>=-eq-ok (caught is_unavailable (p.rss >>= finite_nonnegative)) _ h in
      let same : elim rss [
        | none ↦ none
        | some o ↦ elim o [ none ↦ none | some a ↦ some (n.trunc a) ]
      ]
          ≡ m =
        ground arith in
      subst (OnSome (IsMemory F)) same (
        whole-IsMemory rss (
          OnSome-of (OnSome IsNonnegative) rss λ o s.
            let (v, _, g) =
              >>=-eq-ok p.rss finite_nonnegative (caught-eq_ok is_unavailable _ rss e o s) in
            finite_nonnegative-eq_ok v o g))

  entry_of-eq_ok :
      (p : Process F) (cpu : Option (Float F)) (pid : ℤ) (e : Entry F)
      → pos 1 ≤ℤ pid
      → entry_of p cpu pid ≡ ok e
      → IsNormal e × (e.pid ≡ pid) × (finite_nonnegative (optional_float cpu) ≡ ok e.cpu_percent)
  unfolding entry_of
  entry_of-eq_ok p cpu pid e positive h =
      let (m, em, f) = >>=-eq-ok (memory_bytes_of p) _ h in
      let (c, ec, g) = >>=-eq-ok (finite_nonnegative (optional_float cpu)) _ f in
      let whole : Entry F = record {
        pid = pid;
        name = public_name (or_none p.info.name);
        username = clean_text (or_none p.info.username);
        memory_bytes = m;
        cpu_percent = c;
      } in
      let same : whole ≡ e = ground arith in
      subst
        (λ x.
          IsNormal x × (x.pid ≡ pid) × (finite_nonnegative (optional_float cpu) ≡ ok x.cpu_percent))
        same
        (
          record {
            pid_positive = positive;
            name_public = public_name-IsPublicName (or_none p.info.name);
            username_bounded = OnSome-of _ _ (clean_text-eq_some (or_none p.info.username));
            memory_whole = memory_bytes_of-eq_ok p m em;
            cpu_nonnegative = finite_nonnegative-eq_ok _ c ec;
          },
          refl,
          ec,
        )

  entry_for-eq_ok :
      (p : Process F) (cpu : Option (Float F)) (o : Option ℤ) (e : Entry F)
      → entry_for p cpu o ≡ ok (some e)
      → (pid : ℤ) × (o ≡ some pid) × (pos 1 ≤ℤ pid) × (entry_of p cpu pid ≡ ok e)
  unfolding entry_for
  entry_for-eq_ok p cpu none e h = absurd (ground arith)
  entry_for-eq_ok p cpu (some pid) e h = (pid, refl, ground arith, ground arith)

  -- Every entry of `normalize_process` is normal: its pid is positive and is the one that the
  -- process gives; its name has no slash, no backslash and no NUL, and at most 256 characters; its
  -- user name is not empty, has no NUL and at most 256 characters; its memory is a whole number of
  -- at least zero and within the range of doubles; its CPU percentage is finite and not negative,
  -- and is the one handed in.
  pub normalize_process-IsNormal :
      (p : Process F) (cpu : Option (Float F)) (e : Entry F)
      → normalize_process p cpu ≡ ok (some e)
      → IsNormal e
        × (process_pid p ≡ ok e.pid)
        × (finite_nonnegative (optional_float cpu) ≡ ok e.cpu_percent)
  unfolding normalize_process
  normalize_process-IsNormal p cpu e h =
      let (o, eo, f) = >>=-eq-ok (caught is_bad_attribute (process_pid p)) _ h in
      let (pid, known, positive, g) = entry_for-eq_ok p cpu o e f in
      let (normal, same, c) = entry_of-eq_ok p cpu pid e positive g in
      (normal, rw same (caught-eq_ok is_bad_attribute _ o eo pid known), c)
