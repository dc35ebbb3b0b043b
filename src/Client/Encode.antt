-- ===== src/Client/Encode.antt =====
-- scripts/backend-client.py: its two calls of `json.dumps`. They allow not-a-number and the
-- infinities, which the server's encoder refuses.
use ttop_desk.Prelude.{
  ℕ, zero, suc, ◌≡◌, Bool, List, [], ◌∷◌, ◌++◌, map, Text, text, text_lt, if◌then◌else◌, arith,
}
use ttop_desk.Python.Exceptions.{ok, >>=-eq-ok}
use ttop_desk.Python.Runtime.{Float, nan, infinite, finite, Runtime}
use ttop_desk.Python.Dict.{text_key, insert}
use ttop_desk.Python.Sort.{sorted}
use ttop_desk.Json.{
  Json, null, bool, int, float, str, arr, obj, Items, end_items, item, Fields, end_fields, field,
}
use ttop_desk.Json.Encode.{dumps, dumps_items, dumps_fields, quote, int_text}

-- A newline and two spaces for each level.
unfoldable pub line_start : ℕ → Text
line_start level = 10 ∷ spaces level
  where
    spaces : ℕ → Text
    spaces zero = []
    spaces (suc n) = 32 ∷ 32 ∷ spaces n

-- The lines of an array or an object between its brackets.
unfoldable pub bracketed : Text → Text → ℕ → List Text → Text
bracketed opening closing level [] = opening ++ closing
bracketed opening closing level (member ∷ members) =
    opening ++ line_start (suc level) ++ member ++ later members
  where
    later : List Text → Text
    later [] = line_start level ++ closing
    later (m ∷ ms) = text "," ++ line_start (suc level) ++ m ++ later ms

abbrev pub key_lt : Text × Text → Text × Text → Bool
key_lt a b = text_lt a.0 b.0

module _ {F : Type 0} ⦃n : Runtime F⦄ where
  unfoldable pub float_text : Float F → Text
  float_text nan = text "NaN"
  float_text (infinite negative) = if negative then text "-Infinity" else text "Infinity"
  float_text (finite a) = n.repr a

  -- `json.dumps(value, separators=(",", ":"))`
  unfoldable mutual
    pub compact : Json F → Text
    compact null = text "null"
    compact (bool b) = if b then text "true" else text "false"
    compact (int z) = int_text z
    compact (float x) = float_text x
    compact (str s) = quote s
    compact (arr end_items) = text "[]"
    compact (arr (item v vs)) = 91 ∷ (compact v ++ compact_items vs)
    compact (obj end_fields) = text "{}"
    compact (obj (field k v fs)) = 123 ∷ (quote k ++ 58 ∷ (compact v ++ compact_fields fs))

    pub compact_items : Items F → Text
    compact_items end_items = 93 ∷ []
    compact_items (item v vs) = 44 ∷ (compact v ++ compact_items vs)

    pub compact_fields : Fields F → Text
    compact_fields end_fields = 125 ∷ []
    compact_fields (field k v fs) = 44 ∷ (quote k ++ 58 ∷ (compact v ++ compact_fields fs))

  -- `json.dumps(value, indent=2, sort_keys=True)`; the fields of an object are first a dict
  unfoldable mutual
    pub indented : ℕ → Json F → Text
    indented level null = text "null"
    indented level (bool b) = if b then text "true" else text "false"
    indented level (int z) = int_text z
    indented level (float x) = float_text x
    indented level (str s) = quote s
    indented level (arr vs) = bracketed (text "[") (text "]") level (indented_items (suc level) vs)
    indented level (obj fs) = bracketed (text "{") (text "}") level (
        map (λ m. quote m.0 ++ text ": " ++ m.1)
          (sorted key_lt (indented_fields (suc level) fs [])))

    pub indented_items : ℕ → Items F → List Text
    indented_items level end_items = []
    indented_items level (item v vs) = indented level v ∷ indented_items level vs

    pub indented_fields : ℕ → Fields F → List (Text × Text) → List (Text × Text)
    indented_fields level end_fields dict = dict
    indented_fields level (field k v fs) dict =
        indented_fields level fs (insert k (indented level v) dict)

  mutual
    unfolding dumps compact float_text

    -- The client encodes what the server's encoder accepts in the same way.
    pub compact-dumps : (v : Json F) (t : Text) → dumps v ≡ ok t → compact v ≡ t
    compact-dumps null t h = ground arith
    compact-dumps (bool b) t h = ground arith
    compact-dumps (int z) t h = ground arith
    compact-dumps (float nan) t h = cc
    compact-dumps (float (infinite s)) t h = cc
    compact-dumps (float (finite a)) t h = ground arith
    compact-dumps (str s) t h = ground arith
    compact-dumps (arr end_items) t h = ground arith
    compact-dumps (arr (item v vs)) t h =
        let (a, p, h') = >>=-eq-ok (dumps v) _ h in
        let (b, q, e) = >>=-eq-ok (dumps_items vs) _ h' in
        rw (compact-dumps v a p, compact_items-dumps vs b q) (ground arith)
    compact-dumps (obj end_fields) t h = ground arith
    compact-dumps (obj (field k v fs)) t h =
        let (a, p, h') = >>=-eq-ok (dumps v) _ h in
        let (b, q, e) = >>=-eq-ok (dumps_fields fs) _ h' in
        rw (compact-dumps v a p, compact_fields-dumps fs b q) (ground arith)

    compact_items-dumps : (vs : Items F) (t : Text) → dumps_items vs ≡ ok t → compact_items vs ≡ t
    compact_items-dumps end_items t h = ground arith
    compact_items-dumps (item v vs) t h =
        let (a, p, h') = >>=-eq-ok (dumps v) _ h in
        let (b, q, e) = >>=-eq-ok (dumps_items vs) _ h' in
        rw (compact-dumps v a p, compact_items-dumps vs b q) (ground arith)

    compact_fields-dumps :
        (fs : Fields F) (t : Text) → dumps_fields fs ≡ ok t → compact_fields fs ≡ t
    compact_fields-dumps end_fields t h = ground arith
    compact_fields-dumps (field k v fs) t h =
        let (a, p, h') = >>=-eq-ok (dumps v) _ h in
        let (b, q, e) = >>=-eq-ok (dumps_fields fs) _ h' in
        rw (compact-dumps v a p, compact_fields-dumps fs b q) (ground arith)
