-- ===== src/Decimal/Ops.antt =====
-- The operations of decimal.Decimal, the comparisons that are defined by `Cmp`, and the laws.
use Prim.Native.Nat.{Ordering}
use iag_finance.Base.{ℕ, String, ◌≡◌, Bool, true, false, not, if◌then◌else◌}

pub record Decimal (D : Type 0) : Type 0 where
  pub nought : D  -- decimal.Zero
  pub of_int : ℕ → D  -- decimal.NewFromInt, of a number that is not negative
  pub plus : D → D → D
  pub minus : D → D → D
  pub negated : D → D
  pub absolute : D → D
  pub times : D → D → D
  pub quotient : D → D → D
  pub quotient_round : D → D → ℕ → D
  pub rounded : ℕ → D → D
  pub compared : D → D → Ordering
  pub text : D → String

module _ {D : Type 0} ⦃dec : Decimal D⦄ where
  abbrev pub nought : D
  nought = dec.nought

  abbrev pub from_int : ℕ → D
  from_int = dec.of_int

  abbrev pub add : D → D → D
  add = dec.plus

  abbrev pub sub : D → D → D
  sub = dec.minus

  abbrev pub neg : D → D
  neg = dec.negated

  abbrev pub abs : D → D
  abs = dec.absolute

  abbrev pub mul : D → D → D
  mul = dec.times

  abbrev pub div : D → D → D
  div = dec.quotient

  abbrev pub div_round : D → D → ℕ → D
  div_round = dec.quotient_round

  abbrev pub round : ℕ → D → D
  round = dec.rounded

  abbrev pub cmp : D → D → Ordering
  cmp = dec.compared

  abbrev pub to_string : D → String
  to_string = dec.text

  abbrev pub less_than : D → D → Bool
  less_than a b = elim (cmp a b) [ Ordering.lt ↦ true | _ ↦ false ]

  abbrev pub greater_than : D → D → Bool
  greater_than a b = elim (cmp a b) [ Ordering.gt ↦ true | _ ↦ false ]

  abbrev pub less_than_or_equal : D → D → Bool
  less_than_or_equal a b = not (greater_than a b)

  abbrev pub greater_than_or_equal : D → D → Bool
  greater_than_or_equal a b = not (less_than a b)

  abbrev pub equal : D → D → Bool
  equal a b = elim (cmp a b) [ Ordering.eq ↦ true | _ ↦ false ]

  abbrev pub is_zero : D → Bool
  is_zero a = equal a nought

  abbrev pub is_positive : D → Bool
  is_positive a = greater_than a nought

  abbrev pub is_negative : D → Bool
  is_negative a = less_than a nought

abbrev pub flip : Ordering → Ordering
flip Ordering.lt = Ordering.gt
flip Ordering.eq = Ordering.eq
flip Ordering.gt = Ordering.lt

-- The documented arithmetic: an ordered commutative group, and what rounding and products leave alone.
pub record Laws (D : Type 0) ⦃dec : Decimal D⦄ : Type 0 where
  pub add_comm : (a b : D) → add a b ≡ add b a
  pub add_assoc : (a b c : D) → add (add a b) c ≡ add a (add b c)
  pub add_nought : (a : D) → add a nought ≡ a
  pub add_neg : (a : D) → add a (neg a) ≡ nought
  pub sub_eq : (a b : D) → sub a b ≡ add a (neg b)
  pub abs_eq : (a : D) → abs a ≡ (if is_negative a then neg a else a)
  pub cmp_refl : (a : D) → cmp a a ≡ Ordering.eq
  pub eq_of_cmp : (a b : D) → cmp a b ≡ Ordering.eq → a ≡ b
  pub cmp_flip : (a b : D) → cmp b a ≡ flip (cmp a b)
  pub cmp_trans :
      (a b c : D) → cmp a b ≡ Ordering.lt → cmp b c ≡ Ordering.lt → cmp a c ≡ Ordering.lt
  pub cmp_add : (a b c : D) → cmp (add a c) (add b c) ≡ cmp a b
  pub mul_one : (a : D) → mul a (from_int 1) ≡ a
  pub nought_mul : (a : D) → mul nought a ≡ nought
  pub round_nought : (p : ℕ) → ◌≡◌ {A = D} (round p nought) nought
  pub round_4_2 : (a : D) → round 4 (round 2 a) ≡ round 2 a
  pub round_2_2 : (a : D) → round 2 (round 2 a) ≡ round 2 a
  pub round_sub : (a b : D) → round 2 (sub (round 2 a) (round 2 b)) ≡ sub (round 2 a) (round 2 b)
  pub round_add : (a b : D) → round 2 (add (round 2 a) (round 2 b)) ≡ add (round 2 a) (round 2 b)
