-- ===== src/Client/Requests.antt =====
-- The client and the server agree on requests.
use ttop_desk.Prelude.{
  some, text_eq, ◌≡◌, refl, ◌∙◌, true, [], ◌∷◌, Text, text, ℤ, pos, ◌≤ℤ◌, All, arith, member_text,
}
use ttop_desk.Python.Exceptions.{ok, ◌>>=◌}
use ttop_desk.Python.Dict.{text_key, lookup}
use ttop_desk.Json.{str, int}
use ttop_desk.Protocol.{
  Request, JsonDict, process_sort_values, sort_of, limit_of, parse_object, command_of,
  plain_request, processes_request, keys_within, has_key,
}
use ttop_desk.Client.{Mode, ping_only, gpu_only, ping_and_snapshot, list_processes, requests}

-- The limit of a listing is one that the server takes.
abbrev pub IsAskable : Mode → Type 0
IsAskable (list_processes limit) = (pos 1 ≤ℤ limit) × (limit ≤ℤ pos 20)
IsAskable _ = Unit

sort_taken :
    (F : Type 0) (s : Text)
    → member_text s process_sort_values ≡ true
    → sort_of {F = F} (some (str s)) ≡ ok s
unfolding sort_of
sort_taken F s h = ground arith

limit_taken :
    (F : Type 0) (z : ℤ) → pos 1 ≤ℤ z → z ≤ℤ pos 20 → limit_of {F = F} (some (int z)) ≡ ok z
unfolding limit_of
limit_taken F z low high = ground arith

module _ (F : Type 0) where
  -- The server's parser takes the payload as a request for the command of its label.
  abbrev pub IsTaken : Text × JsonDict F → Type 0
  IsTaken (label, payload) = (q : Request) × (parse_object payload ≡ ok q) × (q.command ≡ label)

  listing_parsed :
      (sort : Text) (limit : ℤ)
      → parse_object {F = F} (
          (text "command", str (text "processes"))
          ∷ (text "sort", str sort)
          ∷ (text "limit", int limit)
          ∷ [])
        ≡ (sort_of {F = F} (some (str sort)) >>= λ s. limit_of {F = F} (some (int limit)) >>= λ z.
            ok (record { command = text "processes"; sort = s; limit = z }))
  unfolding parse_object command_of lookup text_eq member_text processes_request keys_within
  listing_parsed sort limit = refl

  fixed-IsTaken :
      IsTaken (text "ping", (text "command", str (text "ping")) ∷ [])
      × IsTaken (text "gpu", (text "command", str (text "gpu")) ∷ [])
      × IsTaken (text "snapshot", (text "command", str (text "snapshot")) ∷ [])
  unfolding parse_object command_of lookup text_eq member_text plain_request keys_within has_key
  fixed-IsTaken = ((_, refl, refl), (_, refl, refl), (_, refl, refl))

  -- Every payload that the client's `main` builds is one that the server's parser takes as a
  -- request for the command of its label, where a listing asks for 1 to 20 processes, by `cpu` or
  -- by `memory`.
  pub requests-IsTaken :
      (mode : Mode) (sort : Text)
      → IsAskable mode
      → member_text sort process_sort_values ≡ true
      → All IsTaken (requests mode sort)
  unfolding requests
  requests-IsTaken ping_only sort h k = (fixed-IsTaken.0, tt)
  requests-IsTaken gpu_only sort h k = (fixed-IsTaken.1, tt)
  requests-IsTaken ping_and_snapshot sort h k = (fixed-IsTaken.0, (fixed-IsTaken.2, tt))
  requests-IsTaken (list_processes limit) sort (low, high) k = (
    (
      record { command = text "processes"; sort = sort; limit = limit },
      listing_parsed sort limit ∙ rw (sort_taken F sort k, limit_taken F limit low high) refl,
      refl,
    ),
    tt,
  )
