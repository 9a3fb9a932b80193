-- ===== src/Decimal/Fixed.antt =====
-- Fixed-point numbers in millionths meet the laws of decimals.
use Prim.Native.Nat.{compare, Ordering}
use iag_finance.Base.{ℕ, ◌+◌, ◌-◌, ◌*◌, ◌/◌, ◌^◌, ◌≡◌, refl, arith}
use iag_finance.Base.Int.{ℤ, pos, pos_part, neg_part, ◌+ℤ◌, sub_ℕ}
use iag_finance.Base.Int.{neg as neg_ℤ}
use iag_finance.Decimal.Ops.{Decimal, Laws}

-- A function of the magnitude, with the sign kept.
unfoldable pub on_magnitude : (ℕ → ℕ) → ℤ → ℤ
on_magnitude f a = sub_ℕ (f (pos_part a)) (f (neg_part a))

-- Half away from zero, to `p` places.
unfoldable pub round_to : ℕ → ℕ → ℕ
round_to p m = let u = 10 ^ (6 - p) in (m + u / 2) / u * u

unfoldable pub product : ℕ → ℕ → ℕ
product a b = a * b / 1_000_000

unfoldable pub times : ℤ → ℤ → ℤ
unfolding product
times a b =
    sub_ℕ (product (pos_part a) (pos_part b) + product (neg_part a) (neg_part b))
      (product (pos_part a) (neg_part b) + product (neg_part a) (pos_part b))

unfoldable pub ratio : ℕ → ℕ → ℕ → ℕ
ratio p a b = let u = 10 ^ (6 - p) in (2 * a * 1_000_000 + b * u) / (2 * b * u) * u

unfoldable pub quotient_round : ℤ → ℤ → ℕ → ℤ
unfolding ratio
quotient_round a b p =
    sub_ℕ (ratio p (pos_part a) (pos_part b) + ratio p (neg_part a) (neg_part b))
      (ratio p (pos_part a) (neg_part b) + ratio p (neg_part a) (pos_part b))

unfoldable pub compare_ℤ : ℤ → ℤ → Ordering
compare_ℤ a b = compare (pos_part a + neg_part b) (pos_part b + neg_part a)

unfoldable pub absolute : ℤ → ℤ
absolute a = pos (pos_part a + neg_part a)

instance abbrev pub fixed : Decimal ℤ
fixed = record {
  nought = pos 0;
  of_int = λ n. pos (n * 1_000_000);
  plus = ◌+ℤ◌;
  minus = λ a b. a +ℤ neg_ℤ b;
  negated = neg_ℤ;
  absolute = absolute;
  times = times;
  quotient = λ a b. quotient_round a b 6;
  quotient_round = quotient_round;
  rounded = λ p a. on_magnitude (round_to p) a;
  compared = compare_ℤ;
  text = λ _. "";
}

round_to_4_2 : (m : ℕ) → round_to 4 (round_to 2 m) ≡ round_to 2 m
unfolding round_to
round_to_4_2 m = omega arith

round_to_2_2 : (m : ℕ) → round_to 2 (round_to 2 m) ≡ round_to 2 m
unfolding round_to
round_to_2_2 m = omega arith

round_to_2_sub : (m n : ℕ) → round_to 2 (round_to 2 m - round_to 2 n) ≡ round_to 2 m - round_to 2 n
unfolding round_to
round_to_2_sub m n = omega arith

round_to_2_add : (m n : ℕ) → round_to 2 (round_to 2 m + round_to 2 n) ≡ round_to 2 m + round_to 2 n
unfolding round_to
round_to_2_add m n = omega arith

product_one : (m : ℕ) → product m 1_000_000 ≡ m
unfolding product
product_one m = omega arith

pub fixed-Laws : Laws ℤ
unfolding on_magnitude round_to times product compare_ℤ absolute ◌+ℤ◌ neg_ℤ
fixed-Laws = record {
  add_comm = λ a b. ground arith;
  add_assoc = λ a b c. ground arith;
  add_nought = λ a. ground arith;
  add_neg = λ a. ground arith;
  sub_eq = λ a b. refl;
  abs_eq = λ a. ground arith;
  cmp_refl = λ a. ground arith;
  eq_of_cmp = λ a b h. ground arith;
  cmp_flip = λ a b. ground arith;
  cmp_trans = λ a b c h k. ground arith;
  cmp_add = λ a b c. ground arith;
  mul_one = λ a. ground arith;
  nought_mul = λ a. ground arith;
  round_nought = λ p. ground arith;
  round_2_2 = λ a. ground (arith, round_to_2_2 (pos_part a), round_to_2_2 (neg_part a));
  round_sub = λ a b. ground (
    arith,
    round_to_2_sub (pos_part a) (pos_part b),
    round_to_2_sub (neg_part a) (neg_part b),
    round_to_2_sub (pos_part b) (pos_part a),
    round_to_2_sub (neg_part b) (neg_part a),
    round_to_2_add (pos_part a) (neg_part b),
    round_to_2_add (neg_part a) (pos_part b),
  );
  round_add = λ a b. ground (
    arith,
    round_to_2_add (pos_part a) (pos_part b),
    round_to_2_add (neg_part a) (neg_part b),
    round_to_2_sub (pos_part a) (neg_part b),
    round_to_2_sub (neg_part a) (pos_part b),
    round_to_2_sub (pos_part b) (neg_part a),
    round_to_2_sub (neg_part b) (pos_part a),
  );
  round_4_2 = λ a. ground (arith, round_to_4_2 (pos_part a), round_to_4_2 (neg_part a));
}
