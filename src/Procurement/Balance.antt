-- ===== src/Procurement/Balance.antt =====
-- The postings balance, whatever split or VAT an event claims.
use iag_finance.Base.{
  String, ◌≡◌, refl, sym, ap, ◌∙◌, Bool, true, false, Bool-cases, inl, inr, List, [], ◌∷◌, ◌++◌,
  arith,
}
use iag_finance.Decimal.{
  Decimal, Laws, nought, add, sub, ◌≼◌, is_positive, less_than_or_equal, nought_add, add-sub_cancel,
  sub-add_cancel, cmp-sub, still_positive,
}
use iag_finance.Store.{LineInput, ok}
use iag_finance.Ledger.Lines.{validate_balance}
use iag_finance.Ledger.Lines.Totals.{debits, credits, sums_accepted}
use iag_finance.Procurement.Postings.{
  input, debit_positive, stock_part, grn_accrual_lines, sensible_vat, net_debits,
  reverse_charge_lines, ap_invoice_lines,
}

module _ {D : Type 0} ⦃dec : Decimal D⦄ (laws : Laws D) where
  positive_or_nought : (a : D) → nought ≼ a → is_positive a ≡ false → a ≡ nought
  positive_or_nought a h k = ground (arith, laws.eq_of_cmp a nought, laws.cmp_flip a nought)

  debit_positive-sum :
      (code memo : String) (a : D) (ls : List (LineInput D))
      → nought ≼ a
      → (debits (debit_positive code a memo ++ ls) ≡ add a (debits ls))
        × (credits (debit_positive code a memo ++ ls) ≡ credits ls)
  debit_positive-sum code memo a ls h = elim (Bool-cases (is_positive a)) [
    | inl there ↦ rw there (refl, nought_add laws (credits ls))
    | inr left ↦ rw left (
      sym (nought_add laws (debits ls))
          ∙ ap (λ t. add t (debits ls)) (sym (positive_or_nought a h left)),
      refl,
    )
  ]

  sub_nonneg : (a b : D) → a ≼ b → nought ≼ sub b a
  sub_nonneg a b h =
      ground (arith, cmp-sub laws b a, laws.cmp_flip a b, laws.cmp_flip (sub b a) nought)

  stock_part-within :
      (value inventory_value : D)
      → nought ≼ value
      → (nought ≼ stock_part value inventory_value) × (stock_part value inventory_value ≼ value)
  unfolding stock_part
  stock_part-within value inventory_value h =
      ground
        (arith, laws.cmp_refl value, laws.cmp_refl nought, laws.cmp_flip inventory_value nought)

  -- The two parts of a value add up to it.
  split-sum :
      (value inventory_value : D) (code code' memo memo' : String) (ls : List (LineInput D))
      → nought ≼ value
      → let stock = stock_part value inventory_value in
        let both =
          debit_positive code stock memo ++ (debit_positive code' (sub value stock) memo' ++ ls) in
        (debits both ≡ add value (debits ls)) × (credits both ≡ credits ls)
  split-sum value inventory_value code code' memo memo' ls h =
      let stock = stock_part value inventory_value in
      let (low, high) = stock_part-within value inventory_value h in
      let rest = debit_positive code' (sub value stock) memo' ++ ls in
      let (d, c) = debit_positive-sum code memo stock rest low in
      let (d', c') =
        debit_positive-sum code' memo' (sub value stock) ls (sub_nonneg stock value high) in
      (
        d
            ∙ ap (add stock) d'
            ∙ sym (laws.add_assoc stock (sub value stock) (debits ls))
            ∙ ap (λ t. add t (debits ls)) (add-sub_cancel laws value stock),
        c ∙ c',
      )

  not_negative : (a : D) → less_than_or_equal a nought ≡ false → nought ≼ a
  not_negative a h = ground (arith, h, laws.cmp_flip a nought)

  append_assoc : (xs ys zs : List (LineInput D)) → (xs ++ ys) ++ zs ≡ xs ++ (ys ++ zs)
  append_assoc [] ys zs = refl
  append_assoc (x ∷ xs) ys zs = ap (λ ls. x ∷ ls) (append_assoc xs ys zs)

  net_debits-sum :
      (to_clearing : Bool) (net inventory_value : D) (ls : List (LineInput D))
      → nought ≼ net
      → (debits (net_debits to_clearing net inventory_value ++ ls) ≡ add net (debits ls))
        × (credits (net_debits to_clearing net inventory_value ++ ls) ≡ credits ls)
  unfolding net_debits
  net_debits-sum true net inventory_value ls h = (refl, nought_add laws (credits ls))
  net_debits-sum false net inventory_value ls h = elim (Bool-cases (is_positive net)) [
    | inl there ↦
        let stock = stock_part net inventory_value in
        let both =
          split-sum net inventory_value "1400" "5000" "Purchased into stock" "Expense / COGS" ls
            h in
        rw there (
          rw
            (append_assoc (debit_positive "1400" stock "Purchased into stock")
              (debit_positive "5000" (sub net stock) "Expense / COGS") ls)
            both)
    | inr left ↦ rw left (
      sym (nought_add laws (debits ls))
          ∙ ap (λ t. add t (debits ls)) (sym (positive_or_nought net h left)),
      refl,
    )
  ]

  reverse_charge_lines-sum :
      (vat : D) → debits (reverse_charge_lines vat) ≡ credits (reverse_charge_lines vat)
  reverse_charge_lines-sum vat =
      ground (arith, laws.add_nought nought, laws.add_nought vat, nought_add laws (add vat nought))

  reverse_charge_lines-nonneg : (vat : D) → nought ≼ debits (reverse_charge_lines vat)
  reverse_charge_lines-nonneg vat = ground (
    arith,
    laws.add_nought nought,
    laws.add_nought vat,
    laws.cmp_refl nought,
    laws.cmp_flip vat nought,
  )

  sensible_vat-within :
      (gross vat : D)
      → nought ≼ gross
      → (nought ≼ sensible_vat gross vat) × (sensible_vat gross vat ≼ gross)
  sensible_vat-within gross vat h =
      ground (arith, laws.cmp_refl nought, laws.cmp_flip vat nought, laws.cmp_flip vat gross)

  grn_accrual_lines-Accepted :
      (value inventory_value : D)
      → less_than_or_equal value nought ≡ false
      → validate_balance (grn_accrual_lines value inventory_value) ≡ ok tt
  unfolding grn_accrual_lines
  grn_accrual_lines-Accepted value inventory_value h =
      let last = input "2150" nought value "GR/IR accrual" ∷ [] in
      let (d, c) =
        split-sum value inventory_value "1400" "5000" "Goods received into stock"
          "Goods received (GRNI)" last (not_negative value h) in
      sums_accepted laws (grn_accrual_lines value inventory_value) value h
        (d ∙ ap (add value) (laws.add_nought nought) ∙ laws.add_nought value)
        (c ∙ laws.add_nought value)

  ap_invoice_lines-Accepted :
      (to_clearing : Bool) (gross vat inventory_value self_assessed : D)
      → less_than_or_equal gross nought ≡ false
      → validate_balance (
          ap_invoice_lines to_clearing gross (sensible_vat gross vat) inventory_value self_assessed)
        ≡ ok tt
  unfolding ap_invoice_lines
  ap_invoice_lines-Accepted to_clearing gross vat inventory_value self_assessed h =
      let v = sensible_vat gross vat in
      let net = sub gross v in
      let (low, high) = sensible_vat-within gross vat (not_negative gross h) in
      let rc = reverse_charge_lines self_assessed in
      let last = input "2000" nought gross "AP liability" ∷ rc in
      let rest = debit_positive "1300" v "Input VAT" ++ last in
      let (d, c) = net_debits-sum to_clearing net inventory_value rest (sub_nonneg v gross high) in
      let (d', c') = debit_positive-sum "1300" "Input VAT" v last low in
      let more = debits rc in
      sums_accepted laws (ap_invoice_lines to_clearing gross v inventory_value self_assessed)
        (add gross more)
        (still_positive laws gross more h (reverse_charge_lines-nonneg self_assessed))
        (d
          ∙ ap (add net) (d' ∙ ap (add v) (nought_add laws more))
          ∙ sym (laws.add_assoc net v more)
          ∙ ap (λ t. add t more) (sub-add_cancel laws gross v))
        (c ∙ c' ∙ ap (add gross) (sym (reverse_charge_lines-sum self_assessed)))

  -- The lines of a goods receipt and those of a vendor invoice are always accepted: for a positive
  -- value and a positive gross, whatever part of it the event claims to be stock or VAT, whether a
  -- purchase order is cleared or not, and whatever VAT the buyer assesses.
  pub purchases-Accepted :
      (to_clearing : Bool) (value gross vat inventory_value self_assessed : D)
      → less_than_or_equal value nought ≡ false
      → less_than_or_equal gross nought ≡ false
      → (validate_balance (grn_accrual_lines value inventory_value) ≡ ok tt)
        × (validate_balance (
              ap_invoice_lines to_clearing gross
                (sensible_vat gross vat)
                inventory_value
                self_assessed)
            ≡ ok tt)
  purchases-Accepted to_clearing value gross vat inventory_value self_assessed h k = (
    grn_accrual_lines-Accepted value inventory_value h,
    ap_invoice_lines-Accepted to_clearing gross vat inventory_value self_assessed k,
  )
