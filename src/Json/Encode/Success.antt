-- ===== src/Json/Encode/Success.antt =====
-- `json.dumps(..., allow_nan=False)` fails on nothing but a float that is not finite.
use ttop_desk.Prelude.{◌≡◌, Bool, true, false, ◌&&◌, arith}
use ttop_desk.Python.Exceptions.{Result, ok, err, ◌>>=◌}
use ttop_desk.Python.Runtime.{nan, infinite, finite, Runtime}
use ttop_desk.Json.{
  Json, null, bool, int, float, str, arr, obj, Items, end_items, item, Fields, end_fields, field,
}
use ttop_desk.Json.Encode.{dumps, dumps_items, dumps_fields}

-- No float in the value is infinite or not-a-number.
module _ {F : Type 0} where
  unfoldable mutual
    pub all_finite : Json F → Bool
    all_finite (float nan) = false
    all_finite (float (infinite _)) = false
    all_finite (float (finite _)) = true
    all_finite (arr vs) = all_finite_items vs
    all_finite (obj fs) = all_finite_fields fs
    all_finite null = true
    all_finite (bool _) = true
    all_finite (int _) = true
    all_finite (str _) = true

    pub all_finite_items : Items F → Bool
    all_finite_items end_items = true
    all_finite_items (item v vs) = all_finite v && all_finite_items vs

    pub all_finite_fields : Fields F → Bool
    all_finite_fields end_fields = true
    all_finite_fields (field _ v fs) = all_finite v && all_finite_fields fs

abbrev pub Succeeds {ℓ} : {A : Type ℓ} → Result A → Type 0
Succeeds (ok _) = Unit
Succeeds (err _) = ⊥

both_succeed {ℓ κ μ} :
    {A : Type ℓ} {B : Type κ} {C : Type μ} (first : Result A) (rest : Result B) (f : A → B → C)
    → Succeeds first
    → Succeeds rest
    → Succeeds (first >>= λ a. rest >>= λ b. ok (f a b))
both_succeed (ok a) (ok b) f p q = tt
both_succeed (ok a) (err e) f p q = q
both_succeed (err e) rest f p q = p

module _ {F : Type 0} ⦃n : Runtime F⦄ where
  mutual
    unfolding dumps all_finite

    dumps-Succeeds_of : (v : Json F) → all_finite v ≡ true → Succeeds (dumps v)
    dumps-Succeeds_of null h = tt
    dumps-Succeeds_of (bool b) h = tt
    dumps-Succeeds_of (int z) h = tt
    dumps-Succeeds_of (float nan) h = cc
    dumps-Succeeds_of (float (infinite s)) h = cc
    dumps-Succeeds_of (float (finite a)) h = tt
    dumps-Succeeds_of (str s) h = tt
    dumps-Succeeds_of (arr end_items) h = tt
    dumps-Succeeds_of (arr (item v vs)) h =
        both_succeed (dumps v) (dumps_items vs) _ (dumps-Succeeds_of v (ground arith))
          (dumps_items-Succeeds vs (ground arith))
    dumps-Succeeds_of (obj end_fields) h = tt
    dumps-Succeeds_of (obj (field k v fs)) h =
        both_succeed (dumps v) (dumps_fields fs) _ (dumps-Succeeds_of v (ground arith))
          (dumps_fields-Succeeds fs (ground arith))

    dumps_items-Succeeds : (vs : Items F) → all_finite_items vs ≡ true → Succeeds (dumps_items vs)
    dumps_items-Succeeds end_items h = tt
    dumps_items-Succeeds (item v vs) h =
        both_succeed (dumps v) (dumps_items vs) _ (dumps-Succeeds_of v (ground arith))
          (dumps_items-Succeeds vs (ground arith))

    dumps_fields-Succeeds :
        (fs : Fields F) → all_finite_fields fs ≡ true → Succeeds (dumps_fields fs)
    dumps_fields-Succeeds end_fields h = tt
    dumps_fields-Succeeds (field k v fs) h =
        both_succeed (dumps v) (dumps_fields fs) _ (dumps-Succeeds_of v (ground arith))
          (dumps_fields-Succeeds fs (ground arith))

  pub dumps-Succeeds : (v : Json F) → all_finite v ≡ true → Succeeds (dumps v)
  dumps-Succeeds v h = dumps-Succeeds_of v h
