-- ===== src/Json.antt =====
-- The JSON values of Python's `json` module.
pub mod Encode
pub mod Lexer
pub mod Decode
mod Tests
use ttop_desk.Prelude.{
  ℕ, ◌≡◌, refl, Bool, List, [], ◌∷◌, Text, ℤ, text_eq, if◌then◌else◌, Option, none, some, arith,
  text_eq_iff,
}
use ttop_desk.Python.Runtime.{Float}
use ttop_desk.Python.Dict.{lookup}

-- Arrays and objects hold their own lists; the fields of an object are a dict in insertion order.
mutual
  pub data Json (F : Type 0) : Type 0 where
    null : Json F
    bool : Bool → Json F
    int : ℤ → Json F
    float : Float F → Json F
    str : Text → Json F
    arr : Items F → Json F
    obj : Fields F → Json F

  pub data Items (F : Type 0) : Type 0 where
    end_items : Items F
    item : Json F → Items F → Items F

  pub data Fields (F : Type 0) : Type 0 where
    end_fields : Fields F
    field : Text → Json F → Fields F → Fields F

module _ {F : Type 0} where
  -- A dict of the sources as an object, and back.
  unfoldable pub to_fields : List (Text × Json F) → Fields F
  to_fields [] = end_fields
  to_fields ((k, v) ∷ d) = field k v (to_fields d)

  unfoldable pub to_items : List (Json F) → Items F
  to_items [] = end_items
  to_items (v ∷ vs) = item v (to_items vs)

  unfoldable pub to_dict : Fields F → List (Text × Json F)
  to_dict end_fields = []
  to_dict (field k v fs) = (k, v) ∷ to_dict fs
