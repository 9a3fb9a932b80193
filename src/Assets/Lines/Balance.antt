-- ===== src/Assets/Lines/Balance.antt =====
-- The lines of a disposal balance.
use iag_finance.Base.{
  String, ◌≡◌, refl, sym, ap, ◌∙◌, false, List, ◌++◌, map, arith, Bool-cases, inl, inr, concat,
}
use iag_finance.Decimal.{
  Decimal, Laws, nought, add, sub, neg, sum, ◌≼◌, is_positive, nought_add, add-sub_cancel, neg-sub,
  cmp-sub, add_left_comm,
}
use iag_finance.Assets.Lines.{DisposalLine, line_if, net_lines, disposal_lines, fallback_lines}

module _ {D : Type 0} ⦃dec : Decimal D⦄ where
  abbrev pub debits : List (DisposalLine D) → D
  debits ls = sum (map (λ (l : DisposalLine D). l.1) ls)

  abbrev pub credits : List (DisposalLine D) → D
  credits ls = sum (map (λ (l : DisposalLine D). l.2) ls)

module _ {D : Type 0} ⦃dec : Decimal D⦄ (laws : Laws D) where
  -- A line that is left out is nought.
  left_out : (a : D) → nought ≼ a → is_positive a ≡ false → a ≡ nought
  left_out a h k = ground (arith, laws.eq_of_cmp a nought, laws.cmp_flip a nought)

  debit_if :
      (a : D) (code memo : String) (ls : List (DisposalLine D))
      → nought ≼ a
      → let more = line_if (is_positive a) (code, a, nought, memo) ++ ls in
        (debits more ≡ add a (debits ls)) × (credits more ≡ credits ls)
  debit_if a code memo ls h = elim (Bool-cases (is_positive a)) [
    | inl there ↦ rw there (refl, nought_add laws (credits ls))
    | inr left ↦ rw left (
      sym (nought_add laws (debits ls)) ∙ ap (λ t. add t (debits ls)) (sym (left_out a h left)),
      refl,
    )
  ]

  credit_if :
      (a : D) (code memo : String) (ls : List (DisposalLine D))
      → nought ≼ a
      → let more = line_if (is_positive a) (code, nought, a, memo) ++ ls in
        (debits more ≡ debits ls) × (credits more ≡ add a (credits ls))
  credit_if a code memo ls h = elim (Bool-cases (is_positive a)) [
    | inl there ↦ rw there (nought_add laws (debits ls), refl)
    | inr left ↦ rw left (
      refl,
      sym (nought_add laws (credits ls)) ∙ ap (λ t. add t (credits ls)) (sym (left_out a h left)),
    )
  ]

  -- A gain or a loss makes up for the difference.
  net_lines-balance :
      (a b : D) → add a (credits (net_lines (sub b a))) ≡ add b (debits (net_lines (sub b a)))
  unfolding net_lines
  net_lines-balance a b = ground (
    arith,
    laws.add_nought a,
    laws.add_nought b,
    laws.add_nought nought,
    laws.add_nought (sub b a),
    laws.add_nought (neg (sub b a)),
    neg-sub laws b a,
    add-sub_cancel laws b a,
    add-sub_cancel laws a b,
    cmp-sub laws b a,
    laws.eq_of_cmp b a,
  )

  carried : (p cost acc d k : D) → add (sub cost acc) k ≡ add p d → add p (add acc d) ≡ add cost k
  carried p cost acc d k h =
      add_left_comm laws p acc d
      ∙ ap (add acc) (sym h)
      ∙ sym (laws.add_assoc acc (sub cost acc) k)
      ∙ ap (λ t. add t k) (add-sub_cancel laws cost acc)

  -- The lines of a disposal have the same total of debits and credits: for an asset of the
  -- register, with its cost and accumulated depreciation, and for one that it does not know, with
  -- its book value, as long as none of the amounts is negative.
  pub disposal_lines-Even :
      (ref : String) (proceeds cost accumulated book_value : D)
      → nought ≼ proceeds
      → nought ≼ cost
      → nought ≼ accumulated
      → nought ≼ book_value
      → (debits (disposal_lines ref proceeds cost accumulated)
          ≡ credits (disposal_lines ref proceeds cost accumulated))
        × (debits (fallback_lines ref proceeds book_value)
            ≡ credits (fallback_lines ref proceeds book_value))
  unfolding disposal_lines fallback_lines
  disposal_lines-Even ref proceeds cost accumulated book_value p c a b =
      let net = net_lines (sub proceeds (sub cost accumulated)) in
      let memo_a = concat "Reverse accumulated depreciation " ref in
      let memo_c = concat "De-recognise asset cost " ref in
      let memo_b = concat "Asset de-recognition " ref in
      let lc = line_if (is_positive cost) ("1500", nought, cost, memo_c) ++ net in
      let la = line_if (is_positive accumulated) ("1510", accumulated, nought, memo_a) ++ lc in
      let (dp, cp) = debit_if proceeds "1000" (concat "Disposal proceeds " ref) la p in
      let (da, ca) = debit_if accumulated "1510" memo_a lc a in
      let (dc, cc) = credit_if cost "1500" memo_c net c in
      let net' = net_lines (sub proceeds book_value) in
      let lb = line_if (is_positive book_value) ("1500", nought, book_value, memo_b) ++ net' in
      let (dp', cp') = debit_if proceeds "1000" (concat "Disposal proceeds " ref) lb p in
      let (db, cb) = credit_if book_value "1500" memo_b net' b in
      (
        dp
            ∙ ap (add proceeds) (da ∙ ap (add accumulated) dc)
            ∙ carried proceeds cost accumulated (debits net) (credits net)
                (net_lines-balance (sub cost accumulated) proceeds)
            ∙ sym (cp ∙ ca ∙ cc),
        dp' ∙ ap (add proceeds) db ∙ sym (net_lines-balance book_value proceeds) ∙ sym (cp' ∙ cb),
      )
