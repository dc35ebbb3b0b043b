-- ===== src/Processes/Order/Plain.antt =====
-- The order of a snapshot that is not asked for a metric.
use mathlib.Core.Path.{fun_ext}
use ttop_desk.Prelude.{
  ◌≡◌, ◌∙◌, Bool, true, false, not, ◌||◌, ◌&&◌, none, some, ℤ, negsuc, neg_ℤ, ltb_ℤ, eqb_ℤ,
  eqb_ℤ_iff, text, arith, if◌then◌else◌,
}
use ttop_desk.Python.Runtime.{Runtime}
use ttop_desk.Python.Sort.{tuple_order}
use ttop_desk.Processes.Entry.{Entry}
use ttop_desk.Processes.Order.{default_key, default_key_order}
use ttop_desk.Processes.Order.Laws.{measure, decided}

ltb_ℤ-neg : (a b : ℤ) → ltb_ℤ (neg_ℤ a) (neg_ℤ b) ≡ ltb_ℤ b a
ltb_ℤ-neg a b = ground arith

eqb_ℤ-neg : (a b : ℤ) → eqb_ℤ (neg_ℤ a) (neg_ℤ b) ≡ eqb_ℤ b a
eqb_ℤ-neg a b = ground arith

apart : (a b : ℤ) → eqb_ℤ a b ≡ true → ltb_ℤ a b ≡ false
apart a b h = ground arith

module _ {F : Type 0} ⦃n : Runtime F⦄ where
  -- The memory, or -1 where it is not known.
  unfoldable pub known_memory : Entry F → ℤ
  known_memory e = elim e.memory_bytes [ some bytes ↦ bytes | none ↦ negsuc 0 ]

  -- `a` stands before `b`: it uses more of the CPU; or as much, and more memory; or as much of both,
  -- and its pid is lesser.
  pub plain_lt : Entry F → Entry F → Bool
  plain_lt a b =
      not (n.le (measure (text "cpu") a) (measure (text "cpu") b))
      || n.le (measure (text "cpu") b) (measure (text "cpu") a)
        && (ltb_ℤ (known_memory b) (known_memory a)
            || eqb_ℤ (known_memory b) (known_memory a) && ltb_ℤ a.pid b.pid)

  pub default_key-plain_lt :
      (λ a b. default_key_order.lt (default_key a) (default_key b)) ≡ plain_lt
  unfolding plain_lt default_key tuple_order measure known_memory ttop_desk.Prelude.text_eq
  default_key-plain_lt = fun_ext (λ a. fun_ext (λ b.
      let x = measure (text "cpu") a in
      let y = measure (text "cpu") b in
      rw
        (
          n.le-neg x y,
          n.le-neg y x,
          ltb_ℤ-neg (known_memory a) (known_memory b),
          eqb_ℤ-neg (known_memory a) (known_memory b),
        )
        (decided (n.le x y) (n.le y x) (eqb_ℤ (known_memory b) (known_memory a))
          (ltb_ℤ (known_memory b) (known_memory a)) (ltb_ℤ a.pid b.pid) (n.le_total x y)
          (apart (known_memory b) (known_memory a)))))
