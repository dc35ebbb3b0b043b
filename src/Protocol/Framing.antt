-- ===== src/Protocol/Framing.antt =====
-- `encode_response`: one line of ASCII for each response.
use ttop_desk.Prelude.{ℕ, ◌≡◌, refl, true, List, [], ◌∷◌, ◌++◌, Text}
use ttop_desk.Python.Exceptions.{Result, ok, err, ◌>>=◌}
use ttop_desk.Python.Runtime.{Runtime, IsPrintable}
use ttop_desk.Json.{obj, to_fields}
use ttop_desk.Json.Encode.{dumps}
use ttop_desk.Json.Encode.Printable.{Prints, dumps-Prints}
use ttop_desk.Json.Encode.Success.{all_finite, Succeeds, dumps-Succeeds}
use ttop_desk.Protocol.{JsonDict, encode_response}

-- The bytes are one line: visible ASCII and then the newline.
abbrev pub IsOneLine : Result (List ℕ) → Type 0
IsOneLine (err _) = ⊥
IsOneLine (ok bytes) = (body : Text) × (bytes ≡ body ++ 10 ∷ []) × IsPrintable body

line_of : (r : Result Text) → Succeeds r → Prints r → IsOneLine (r >>= λ body. ok (body ++ 10 ∷ []))
line_of (ok body) h p = (body, refl, p)
line_of (err e) h p = h

module _ {F : Type 0} ⦃n : Runtime F⦄ where
  -- A response without infinities and not-a-numbers is encoded as one line: its only newline is
  -- the last byte, and all bytes before it are visible ASCII.
  pub encode_response_line :
      (response : JsonDict F)
      → all_finite (obj (to_fields response)) ≡ true
      → IsOneLine (encode_response response)
  unfolding encode_response
  encode_response_line response h =
      line_of (dumps (obj (to_fields response))) (dumps-Succeeds _ h) (dumps-Prints _)
