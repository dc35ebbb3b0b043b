-- ===== src/Protocol/Objects.antt =====
-- The tails of `parse_request`: which JSON objects ask for which request.
use mathlib.Core.Path.{subst}
use ttop_desk.Prelude.{
  ◌≡◌, refl, Bool, true, false, Option, none, some, List, [], ◌∷◌, Text, text, text_eq_iff,
  member_text, arith, ℤ, pos, ◌≤ℤ◌, if◌then◌else◌,
}
use ttop_desk.Python.Exceptions.{ok, Result-cases, is_ok, is_err}
use ttop_desk.Python.Dict.{text_key, lookup}
use ttop_desk.Json.{Json, int, str}
use ttop_desk.Protocol.{
  Request, JsonDict, supported_commands, plain_commands, process_sort_values, default_process_sort,
  default_process_limit, keys_within, has_key, command_of, sort_of, limit_of, plain_request,
  processes_request, parse_object,
}

-- `d.get(key, default)`
abbrev pub get_or : {F : Type 0} → Text → JsonDict F → Json F → Json F
get_or k d default = elim (lookup k d) [ none ↦ default | some v ↦ v ]

-- Each command has its own keys.
abbrev pub keys_allowed_for : {F : Type 0} → Text → JsonDict F → Bool
keys_allowed_for command d =
    if member_text command plain_commands
    then keys_within d (text "command" ∷ [])
    else keys_within d (text "command" ∷ text "sort" ∷ text "limit" ∷ [])

-- The object `d` asks for `r`: a known command, no foreign key, and parameters within bounds.
pub record Describes {F : Type 0} (d : JsonDict F) (r : Request) : Type 0 where
  pub command_named : lookup (text "command") d ≡ some (str r.command)
  pub command_known : member_text r.command supported_commands ≡ true
  pub keys_allowed : keys_allowed_for r.command d ≡ true
  pub sort_named : get_or (text "sort") d (str default_process_sort) ≡ str r.sort
  pub sort_known : member_text r.sort process_sort_values ≡ true
  pub limit_named : get_or (text "limit") d (int default_process_limit) ≡ int r.limit
  pub limit_low : pos 1 ≤ℤ r.limit
  pub limit_high : r.limit ≤ℤ pos 20

cpu_known : member_text default_process_sort process_sort_values ≡ true
unfolding member_text
cpu_known = refl

sort_foreign : member_text (text "sort") (text "command" ∷ []) ≡ false
unfolding member_text
sort_foreign = refl

limit_foreign : member_text (text "limit") (text "command" ∷ []) ≡ false
unfolding member_text
limit_foreign = refl

module _ {F : Type 0} where
  lookup-keys_within :
      (k : Text) (names : List Text) (d : JsonDict F)
      → keys_within d names ≡ true
      → member_text k names ≡ false
      → lookup k d ≡ none
  unfolding keys_within lookup
  lookup-keys_within k names [] h m = refl
  lookup-keys_within k names ((j, v) ∷ d) h m =
      ground (arith, text_eq_iff j k, lookup-keys_within k names d)

  command_of-eq_ok : (v : Option (Json F)) {c : Text} → command_of v ≡ ok c → v ≡ some (str c)
  unfolding command_of
  command_of-eq_ok v h = ground arith

  sort_of-eq_ok :
      (v : Option (Json F)) {s : Text}
      → sort_of v ≡ ok s
      → (elim v [ none ↦ str default_process_sort | some w ↦ w ] ≡ str s)
        × (member_text s process_sort_values ≡ true)
  unfolding sort_of
  sort_of-eq_ok v h = ground (arith, cpu_known)

  limit_of-eq_ok :
      (v : Option (Json F)) {z : ℤ}
      → limit_of v ≡ ok z
      → (elim v [ none ↦ int default_process_limit | some w ↦ w ] ≡ int z)
        × (pos 1 ≤ℤ z)
        × (z ≤ℤ pos 20)
  unfolding limit_of
  limit_of-eq_ok v h = ground arith

  plain_request-eq_ok :
      (c : Text) (d : JsonDict F) (r : Request)
      → lookup (text "command") d ≡ some (str c)
      → member_text c supported_commands ≡ true
      → member_text c plain_commands ≡ true
      → plain_request c d ≡ ok r
      → Describes d r
  unfolding plain_request
  plain_request-eq_ok c d r h k p e = ground (
    arith,
    lookup-keys_within (text "sort") (text "command" ∷ []) d,
    sort_foreign,
    lookup-keys_within (text "limit") (text "command" ∷ []) d,
    limit_foreign,
    cpu_known,
  )

  listing_described :
      (c s : Text) (z : ℤ) (d : JsonDict F)
      → lookup (text "command") d ≡ some (str c)
      → member_text c supported_commands ≡ true
      → member_text c plain_commands ≡ false
      → keys_within d (text "command" ∷ text "sort" ∷ text "limit" ∷ []) ≡ true
      → (get_or (text "sort") d (str default_process_sort) ≡ str s)
        × (member_text s process_sort_values ≡ true)
      → (get_or (text "limit") d (int default_process_limit) ≡ int z) × (pos 1 ≤ℤ z) × (z ≤ℤ pos 20)
      → Describes d (record { command = c; sort = s; limit = z })
  listing_described c s z d h k plain within sort limit = record {
    command_named = h;
    command_known = k;
    keys_allowed = rw plain within;
    sort_named = sort.0;
    sort_known = sort.1;
    limit_named = limit.0;
    limit_low = limit.1;
    limit_high = limit.2;
  }

  processes_request-eq :
      (c : Text) (d : JsonDict F) (r : Request) (s : Text) (z : ℤ)
      → sort_of (lookup (text "sort") d) ≡ ok s
      → limit_of (lookup (text "limit") d) ≡ ok z
      → processes_request c d ≡ ok r
      → (record { command = c; sort = s; limit = z } ≡ r)
        × (keys_within d (text "command" ∷ text "sort" ∷ text "limit" ∷ []) ≡ true)
  unfolding processes_request
  processes_request-eq c d r s z p q e = ground arith

  processes_request-eq_ok :
      (c : Text) (d : JsonDict F) (r : Request)
      → lookup (text "command") d ≡ some (str c)
      → member_text c supported_commands ≡ true
      → member_text c plain_commands ≡ false
      → processes_request c d ≡ ok r
      → Describes d r
  unfolding processes_request
  processes_request-eq_ok c d r h k plain e =
      elim (Result-cases (sort_of (lookup (text "sort") d))) [
        | is_err x p ↦ ground arith
        | is_ok s p ↦ elim (Result-cases (limit_of (lookup (text "limit") d))) [
          | is_err x q ↦ ground arith
          | is_ok z q ↦
              let (same, within) = processes_request-eq c d r s z p q e in
              subst (Describes d) same (
                listing_described c s z d h k plain within (sort_of-eq_ok _ p) (limit_of-eq_ok _ q))
        ]
      ]

  -- a successful `parse_object`, part by part
  pub parse_object_sound : (d : JsonDict F) (r : Request) → parse_object d ≡ ok r → Describes d r
  unfolding parse_object
  parse_object_sound d r e = elim (Result-cases (command_of (lookup (text "command") d))) [
    | is_err x p ↦ ground arith
    | is_ok c p ↦
        ground
          (arith, command_of-eq_ok _ p, plain_request-eq_ok c d r, processes_request-eq_ok c d r)
  ]

  has_key-lookup :
      (k : Text) (d : JsonDict F) (v : Json F) → lookup k d ≡ some v → has_key k d ≡ true
  unfolding lookup has_key
  has_key-lookup k [] v h = cc
  has_key-lookup k ((j, w) ∷ d) v h = ground (arith, has_key-lookup k d v)

  pub parse_object_complete : (d : JsonDict F) (r : Request) → Describes d r → parse_object d ≡ ok r
  unfolding parse_object plain_request processes_request command_of sort_of limit_of
  parse_object_complete d r h = ground (
    arith,
    has_key-lookup (text "command") d (str r.command) h.command_named,
    lookup-keys_within (text "sort") (text "command" ∷ []) d,
    sort_foreign,
    lookup-keys_within (text "limit") (text "command" ∷ []) d,
    limit_foreign,
  )
