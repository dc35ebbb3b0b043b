-- ===== src/Server/Paths.antt =====
-- The path of the socket: only a dead socket of the same user is ever replaced.
use ttop_desk.Prelude.{
  ℕ, ◌≡◌, ◌≢◌, refl, true, false, ℤ, none, if◌then◌else◌, ◌∙◌, eqb_ℤ, eqb_ℤ_iff, some, ◌⊎◌, inl,
  inr, arith, Bool-cases, ◌==◌, ==_iff,
}
use ttop_desk.Python.Exceptions.{ok, err, runtime_error, os_error}
use ttop_desk.Server.{
  SocketFile, absent, present, Probe, connected, refused, is_uncertain, unlink, remove_stale_socket,
}

-- A socket of this user on which the connection failed with this errno.
abbrev pub IsRefused : ℕ → ℤ → Probe → SocketFile → Type 0
IsRefused errno uid probe file = (file ≡ present true uid) × (probe ≡ refused (some errno))

-- A socket of this user that nobody listens on: ECONNREFUSED is 111.
abbrev pub IsStale : ℤ → Probe → SocketFile → Type 0
IsStale = IsRefused 111

-- A socket of this user that was gone at the connection: ENOENT is 2.
abbrev pub IsGone : ℤ → Probe → SocketFile → Type 0
IsGone = IsRefused 2

-- The refusal of a socket leaves it there.
refuse :
    (uid owner : ℤ) (probe : Probe)
    → (eqb_ℤ owner uid ≡ false) ⊎ (is_uncertain probe ≡ true)
    → remove_stale_socket uid probe (present true owner) ≡ (err runtime_error, present true owner)
unfolding remove_stale_socket
refuse uid owner probe h = ground arith

-- The socket of this user on which the connection failed in this way.
refused_outcome :
    (uid : ℤ) (errno : ℕ)
    → remove_stale_socket uid (refused (some errno)) (present true uid) ≡ (
        if errno == 111
        then (ok tt, absent)
        else if errno == 2
        then (err os_error, absent)
        else (err runtime_error, present true uid))
unfolding remove_stale_socket unlink
refused_outcome uid errno =
    let own : eqb_ℤ uid uid ≡ true = (eqb_ℤ_iff uid uid).1 refl in
    elim (Bool-cases (errno == 111)) [
      | inl e ↦ rw (own, e, (==_iff errno 111).0 e) refl
      | inr e ↦ elim (Bool-cases (errno == 2)) [
        | inl f ↦ rw (own, e, f) refl
        | inr f ↦ rw (own, e, f) refl
      ]
    ]

-- `remove_stale_socket` has three outcomes, and none removes anything but a socket of this user.
-- It returns, and the path is free: nothing was there, or a socket of this user on which the
-- connection failed with ECONNREFUSED (111), and it is removed. Or the connection failed with
-- ENOENT (2), since the socket of this user was gone by then: the path is free, and the removal
-- raises an OSError. In every other case it raises a RuntimeError, and what is there stays.
pub remove_stale_socket_outcome :
    (uid : ℤ) (probe : Probe) (file : SocketFile)
    → (((file ≡ absent) ⊎ IsStale uid probe file)
        × (remove_stale_socket uid probe file ≡ (ok tt, absent)))
      ⊎ (IsGone uid probe file × (remove_stale_socket uid probe file ≡ (err os_error, absent)))
      ⊎ ((file ≢ absent)
          × (¬ IsStale uid probe file)
          × (¬ IsGone uid probe file)
          × (remove_stale_socket uid probe file ≡ (err runtime_error, file)))
unfolding remove_stale_socket unlink
remove_stale_socket_outcome uid probe absent = inl (inl refl, refl)
remove_stale_socket_outcome uid probe (present false owner) =
    inr (inr ((λ e. cc), (λ e. cc), (λ e. cc), refl))
remove_stale_socket_outcome uid probe (present true owner) = elim (Bool-cases (eqb_ℤ owner uid)) [
  | inr e ↦
      let other : (present true owner ≡ present true uid) → ⊥ =
        λ h. ground (arith, eqb_ℤ_iff owner uid) in
      inr (inr ((λ h. cc), (λ h. other h.0), (λ h. other h.0), refuse uid owner probe (inl e)))
  | inl e ↦ let same : owner ≡ uid = (eqb_ℤ_iff owner uid).0 e in rw same (own probe)
]
  where
    own :
        (probe : Probe)
        → (((present true uid ≡ absent) ⊎ IsStale uid probe (present true uid))
            × (remove_stale_socket uid probe (present true uid) ≡ (ok tt, absent)))
          ⊎ (IsGone uid probe (present true uid)
              × (remove_stale_socket uid probe (present true uid) ≡ (err os_error, absent)))
          ⊎ ((present true uid ≢ absent)
              × (¬ IsStale uid probe (present true uid))
              × (¬ IsGone uid probe (present true uid))
              × (remove_stale_socket uid probe (present true uid)
                  ≡ (err runtime_error, present true uid)))
    own connected = inr (inr ((λ h. cc), (λ h. cc), (λ h. cc), refuse uid uid connected (inr refl)))
    own (refused none) =
        inr (inr ((λ h. cc), (λ h. cc), (λ h. cc), refuse uid uid (refused none) (inr refl)))
    own (refused (some errno)) = elim (Bool-cases (errno == 111)) [
      | inl e ↦
          let n = (==_iff errno 111).0 e in
          inl (inr (refl, rw n refl), refused_outcome uid errno ∙ rw e refl)
      | inr e ↦ elim (Bool-cases (errno == 2)) [
        | inl f ↦ inr (
            inl
              ((refl, rw ((==_iff errno 2).0 f) refl), refused_outcome uid errno ∙ rw (e, f) refl))
        | inr f ↦ inr (
            inr (
              (λ h. cc),
              (λ h. ground arith),
              (λ h. ground arith),
              refused_outcome uid errno ∙ rw (e, f) refl,
            ))
      ]
    ]
