-- ===== src/Decimal/Arith.antt =====
-- What follows from the laws of decimals: cancellation, the order of differences, sums.
use iag_finance.Base.{
  ◌≡◌, sym, subst, ap, ◌∙◌, true, false, Bool-cases, inl, inr, List, [], ◌∷◌, ◌++◌, arith,
}
use iag_finance.Decimal.Ops.{
  Decimal, Laws, nought, add, sub, neg, abs, cmp, less_than, less_than_or_equal, greater_than,
  is_zero,
}

-- a ≼ b: `b` is not less than `a`.
infix 50 ◌≼◌
abbrev pub ◌≼◌ : {D : Type 0} ⦃dec : Decimal D⦄ → D → D → Type 0
a ≼ b = greater_than a b ≡ false

module _ {D : Type 0} ⦃dec : Decimal D⦄ where
  abbrev pub sum : List D → D
  sum [] = nought
  sum (x ∷ xs) = add x (sum xs)

module _ {D : Type 0} ⦃dec : Decimal D⦄ (laws : Laws D) where
  open laws use {
    add_comm, add_assoc, add_nought, add_neg, sub_eq, abs_eq, cmp_refl, eq_of_cmp, cmp_flip,
    cmp_trans, cmp_add,
  }

  pub nought_add : (a : D) → add nought a ≡ a
  nought_add a = add_comm nought a ∙ add_nought a

  pub add-neg : (a : D) → add (neg a) a ≡ nought
  add-neg a = add_comm (neg a) a ∙ add_neg a

  pub add_left_comm : (a b c : D) → add a (add b c) ≡ add b (add a c)
  add_left_comm a b c = rw (← add_assoc a b c) (rw (← add_assoc b a c) (rw (add_comm a b)))

  pub sub-add_cancel : (a b : D) → add (sub a b) b ≡ a
  sub-add_cancel a b = rw (sub_eq a b) (rw (add_assoc a (neg b) b) (rw (add-neg b) (add_nought a)))

  pub add-sub_cancel : (a b : D) → add b (sub a b) ≡ a
  add-sub_cancel a b = add_comm b (sub a b) ∙ sub-add_cancel a b

  pub sub_self : (a : D) → sub a a ≡ nought
  sub_self a = sub_eq a a ∙ add_neg a

  pub sub_nought : (a : D) → sub a nought ≡ a
  sub_nought a = sym (add_nought (sub a nought)) ∙ sub-add_cancel a nought

  pub add_right_cancel : (a b c : D) → add a c ≡ add b c → a ≡ b
  add_right_cancel a b c h = eq_of_cmp a b (sym (cmp_add a b c) ∙ rw h (cmp_refl (add b c)))

  pub sub_of_add : (a b c : D) → add a b ≡ c → sub c b ≡ a
  sub_of_add a b c h = add_right_cancel (sub c b) a b (sub-add_cancel c b ∙ sym h)

  pub neg-sub : (a b : D) → neg (sub a b) ≡ sub b a
  neg-sub a b = sym (
      sub_of_add (neg (sub a b)) a b (
        ap (add (neg (sub a b))) (sym (sub-add_cancel a b))
        ∙ sym (add_assoc (neg (sub a b)) (sub a b) b)
        ∙ ap (λ t. add t b) (add-neg (sub a b))
        ∙ nought_add b))

  -- A difference has the sign of the comparison.
  pub cmp-sub : (a b : D) → cmp (sub a b) nought ≡ cmp a b
  cmp-sub a b = sym (cmp_add (sub a b) nought b) ∙ rw (sub-add_cancel a b) (rw (nought_add b))

  pub eq_of_is_zero : (a : D) → is_zero a ≡ true → a ≡ nought
  eq_of_is_zero a h = ground (arith, eq_of_cmp a nought)

  pub abs-sub_neg : (a b : D) → less_than a b ≡ true → abs (sub a b) ≡ sub b a
  abs-sub_neg a b h = ground (arith, abs_eq (sub a b), cmp-sub a b, neg-sub a b)

  pub abs-sub_pos : (a b : D) → less_than a b ≡ false → abs (sub a b) ≡ sub a b
  abs-sub_pos a b h = ground (arith, abs_eq (sub a b), cmp-sub a b)

  pub ≼_refl : (a : D) → a ≼ a
  ≼_refl a = ground (arith, cmp_refl a)

  pub ≼_trans : (a b c : D) → a ≼ b → b ≼ c → a ≼ c
  ≼_trans a b c h k = ground (
    arith,
    cmp_trans a b c,
    eq_of_cmp a b,
    eq_of_cmp b c,
    eq_of_cmp a c,
    cmp_flip a b,
    cmp_flip b c,
    cmp_flip a c,
    cmp_trans c a b,
    cmp_trans c b a,
    cmp_trans b c a,
  )

  pub ≼_antisymm : (a b : D) → a ≼ b → b ≼ a → a ≡ b
  ≼_antisymm a b h k = ground (arith, eq_of_cmp a b, cmp_flip a b)

  pub add_mono_right : (a b c : D) → a ≼ b → add a c ≼ add b c
  add_mono_right a b c h = ground (arith, cmp_add a b c)

  pub add_nonneg : (a b : D) → nought ≼ a → nought ≼ b → nought ≼ add a b
  add_nonneg a b h k =
      ≼_trans nought b (add a b) k
        (subst (λ t. t ≼ add a b) (nought_add b) (add_mono_right nought a b h))

  pub le_add_right : (a b : D) → nought ≼ b → a ≼ add a b
  le_add_right a b h =
      rw (add_comm a b) (subst (λ t. t ≼ add b a) (nought_add a) (add_mono_right nought b a h))

  pub sum-append : (xs ys : List D) → sum (xs ++ ys) ≡ add (sum xs) (sum ys)
  sum-append [] ys = sym (nought_add (sum ys))
  sum-append (x ∷ xs) ys = rw (sum-append xs ys) (sym (add_assoc x (sum xs) (sum ys)))

  -- More than a positive amount is positive.
  pub still_positive :
      (a b : D)
      → less_than_or_equal a nought ≡ false
      → nought ≼ b
      → less_than_or_equal (add a b) nought ≡ false
  still_positive a b h k = elim (Bool-cases (less_than_or_equal (add a b) nought)) [
    | inl not_more ↦
        let low = ≼_trans a (add a b) nought (le_add_right a b k) (ground (arith, not_more)) in
        ground (arith, h, low)
    | inr more ↦ more
  ]
