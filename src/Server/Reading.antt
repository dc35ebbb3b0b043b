-- ===== src/Server/Reading.antt =====
-- `_read_request`: what it returns does not depend on how the bytes arrive.
use ttop_desk.Prelude.{
  ℕ, ◌+◌, ◌-◌, ◌≤◌, ◌≡◌, refl, sym, ap, ◌∙◌, true, none, some, List, [], ◌∷◌, ◌++◌, ◌==◌, length,
  length-append, leb, min, Lacks, arith, Bool-cases, Option-cases, inl, inr,
}
use mathlib.Core.List.{append_assoc, append-nil}
use mathlib.Core.Path.{subst}
use ttop_desk.Python.Exceptions.{ok}
use ttop_desk.Protocol.{max_request_bytes}
use ttop_desk.Server.{Incoming, timed_out, failed, chunk, before_newline, read_from, read_request}

-- All the bytes that the client sends before it closes, fails or is silent for too long.
unfoldable pub stream : Incoming → List ℕ
stream timed_out = []
stream (failed e) = []
stream (chunk [] later) = []
stream (chunk (b ∷ bs) later) = (b ∷ bs) ++ stream later

-- No chunk is longer than what its `recv` asks for, when `read` bytes are there already.
abbrev pub Fits : ℕ → Incoming → Type 0
Fits read timed_out = Unit
Fits read (failed e) = Unit
Fits read (chunk bs later) = (length bs ≤ min 1024 (4097 - read)) × Fits (read + length bs) later

pub before_newline-append :
    (xs ys line : List ℕ) → before_newline xs ≡ some line → before_newline (xs ++ ys) ≡ some line
unfolding before_newline
before_newline-append [] ys line h = cc
before_newline-append (x ∷ xs) ys line h = elim (Option-cases (before_newline xs)) [
  | inl e ↦ ground arith
  | inr (rest, e) ↦ ground (arith, before_newline-append xs ys rest e)
]

-- A line that ends behind `xs` is at least as long as `xs`.
pub before_newline-later :
    (xs ys line : List ℕ)
    → before_newline xs ≡ none
    → before_newline (xs ++ ys) ≡ some line
    → length xs ≤ length line
unfolding before_newline
before_newline-later [] ys line h k = omega arith
before_newline-later (x ∷ xs) ys line h k = elim (Option-cases (before_newline (xs ++ ys))) [
  | inl e ↦ absurd (ground arith)
  | inr (rest, e) ↦ ground (arith, before_newline-later xs ys rest)
]

before_newline-none : (xs : List ℕ) → before_newline xs ≡ none → Lacks 10 xs
unfolding before_newline
before_newline-none [] h = tt
before_newline-none (x ∷ xs) h = (ground arith, before_newline-none xs (ground arith))

before_newline-some :
    (xs line : List ℕ) → before_newline xs ≡ some line → Lacks 10 line × (length line ≤ length xs)
before_newline-some [] line h = absurd (unfold before_newline in ground arith)
before_newline-some (x ∷ xs) line h = elim (Bool-cases (x == 10)) [
  | inl e ↦
      let same : [] ≡ line = unfold before_newline in ground arith in
      subst (λ l. Lacks 10 l × (length l ≤ length (x ∷ xs))) same (tt, omega arith)
  | inr e ↦ elim (Option-cases (before_newline xs)) [
    | inl f ↦ absurd (unfold before_newline in ground arith)
    | inr (rest, f) ↦
        let same : x ∷ rest ≡ line = unfold before_newline in ground arith in
        let (lacks, short) = before_newline-some xs rest f in
        subst (λ l. Lacks 10 l × (length l ≤ length (x ∷ xs))) same
          ((ground arith, lacks), omega (arith, short))
  ]
]

read_from-line :
    (request : List ℕ) (incoming : Incoming) (line : List ℕ)
    → before_newline request ≡ none
    → before_newline (request ++ stream incoming) ≡ some line
    → length line ≤ max_request_bytes
    → read_from request incoming ≡ ok line
unfolding read_from
read_from-line request timed_out line h k le =
    absurd (unfold stream in ground (arith, append-nil request))
read_from-line request (failed e) line h k le =
    absurd (unfold stream in ground (arith, append-nil request))
read_from-line request (chunk [] later) line h k le =
    absurd (unfold stream in ground (arith, append-nil request))
read_from-line request (chunk (b ∷ bs) later) line h k le =
    let whole : before_newline ((request ++ b ∷ bs) ++ stream later) ≡ some line =
      ap before_newline (append_assoc request (b ∷ bs) (stream later)) ∙ (unfold stream in k) in
    let fits : leb (length request) max_request_bytes ≡ true =
      ground (arith, before_newline-later request (stream (chunk (b ∷ bs) later)) line h k) in
    elim (Option-cases (before_newline (request ++ b ∷ bs))) [
      | inl e ↦ ground (arith, read_from-line (request ++ b ∷ bs) later line e whole le)
      | inr (l, e) ↦ ground (arith, before_newline-append (request ++ b ∷ bs) (stream later) l e)
    ]

-- When the bytes that a client sends have a line of at most 4096 bytes, `_read_request` returns
-- that line, in whatever chunks it arrives and whatever follows.
pub read_request_line :
    (incoming : Incoming) (line : List ℕ)
    → before_newline (stream incoming) ≡ some line
    → length line ≤ max_request_bytes
    → read_request incoming ≡ ok line
unfolding read_request
read_request_line incoming line h le =
    read_from-line [] incoming line (unfold before_newline in refl) h le

whole_request :
    (request bytes : List ℕ)
    → length request ≤ 4097
    → before_newline request ≡ none
    → request ≡ bytes
    → (length bytes ≤ 4097) × Lacks 10 bytes
whole_request request bytes le h same =
    subst (λ l. (length l ≤ 4097) × Lacks 10 l) same (le, before_newline-none request h)

read_from-bounded :
    (request : List ℕ) (incoming : Incoming) (bytes : List ℕ)
    → length request ≤ 4097
    → before_newline request ≡ none
    → Fits (length request) incoming
    → read_from request incoming ≡ ok bytes
    → (length bytes ≤ 4097) × Lacks 10 bytes
unfolding read_from
read_from-bounded request timed_out bytes le h fit k =
    whole_request request bytes le h (ground arith)
read_from-bounded request (failed e) bytes le h fit k =
    whole_request request bytes le h (ground arith)
read_from-bounded request (chunk [] later) bytes le h fit k =
    whole_request request bytes le h (ground arith)
read_from-bounded request (chunk (b ∷ bs) later) bytes le h (short, fit) k =
    elim (Bool-cases (leb (length request) max_request_bytes)) [
      | inr full ↦ whole_request request bytes le h (ground arith)
      | inl room ↦ elim (Option-cases (before_newline (request ++ b ∷ bs))) [
        | inl e ↦
            read_from-bounded (request ++ b ∷ bs) later bytes
              (omega (arith, length-append request (b ∷ bs))) e
              (subst (λ l. Fits l later) (sym (length-append request (b ∷ bs))) fit) (ground arith)
        | inr (line, e) ↦
            let same : line ≡ bytes = ground arith in
            let (lacks, shorter) = before_newline-some (request ++ b ∷ bs) line e in
            subst (λ l. (length l ≤ 4097) × Lacks 10 l) same
              (omega (arith, shorter, length-append request (b ∷ bs)), lacks)
      ]
    ]

-- Where no `recv` returns more than it was asked for, `_read_request` returns at most 4097 bytes,
-- one more than a request may have, and none of them is a newline.
pub read_request_bounded :
    (incoming : Incoming) (bytes : List ℕ)
    → Fits 0 incoming
    → read_request incoming ≡ ok bytes
    → (length bytes ≤ 4097) × Lacks 10 bytes
unfolding read_request
read_request_bounded incoming bytes fit h =
    read_from-bounded [] incoming bytes (omega arith) (unfold before_newline in refl) fit h
