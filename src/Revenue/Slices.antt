-- ===== src/Revenue/Slices.antt =====
-- The slices of a ratable schedule: ratableSlices of internal/repository/revrec.go.
use iag_finance.Base.{
  ℕ, zero, suc, ◌-◌, ◌<◌, ◌≡◌, ◌∙◌, sym, ap, List, [], ◌∷◌, ◌++◌, length, length-append, arith,
}
use iag_finance.Decimal.{
  Decimal, Laws, nought, from_int, add, sub, div_round, sum, sum-append, add-sub_cancel, nought_add,
}

module _ {D : Type 0} ⦃dec : Decimal D⦄ where
  -- The loop: `n` slices of `per`, and what they add up to on top of `acc`.
  unfoldable pub equal_slices : D → ℕ → D → List D × D
  equal_slices per zero acc = ([], acc)
  equal_slices per (suc n) acc =
      let (slices, acc') = equal_slices per n (add acc per) in (per ∷ slices, acc')

  unfoldable pub ratable_slices : D → ℕ → List D
  unfolding equal_slices
  ratable_slices total n =
      let (slices, acc) = equal_slices (div_round total (from_int n) 2) (n - 1) nought in
      slices ++ (sub total acc ∷ [])

module _ {D : Type 0} ⦃dec : Decimal D⦄ (laws : Laws D) where
  equal_slices-sum :
      (per : D) (n : ℕ) (acc : D)
      → (add acc (sum (equal_slices per n acc).0) ≡ (equal_slices per n acc).1)
        × (length (equal_slices per n acc).0 ≡ n)
  unfolding equal_slices
  equal_slices-sum per zero acc = (laws.add_nought acc, ground arith)
  equal_slices-sum per (suc n) acc =
      let (sums, counts) = equal_slices-sum per n (add acc per) in
      (
        sym (laws.add_assoc acc per (sum (equal_slices per n (add acc per)).0)) ∙ sums,
        ground (arith, counts),
      )

  -- A total in `n` slices, for any positive `n`, is `n` amounts that add up to exactly the total,
  -- whatever the rounding of the quotient.
  pub ratable_slices-sum :
      (total : D) (n : ℕ)
      → 0 < n
      → (sum (ratable_slices total n) ≡ total) × (length (ratable_slices total n) ≡ n)
  unfolding ratable_slices
  ratable_slices-sum total n h =
      let per = div_round total (from_int n) 2 in
      let slices = equal_slices per (n - 1) nought in
      let (sums, counts) = equal_slices-sum per (n - 1) nought in
      (
        sum-append laws slices.0 (sub total slices.1 ∷ [])
            ∙ ap (λ t. add t (add (sub total slices.1) nought))
                (sym (nought_add laws (sum slices.0)) ∙ sums)
            ∙ ap (add slices.1) (laws.add_nought (sub total slices.1))
            ∙ add-sub_cancel laws total slices.1,
        ground (arith, counts, length-append slices.0 (sub total slices.1 ∷ [])),
      )
