-- ===== src/Ledger/Lines.antt =====
-- The lines of an entry: the checks of internal/ledger/service.go, the base amounts of
-- internal/repository/repository.go, and the constraints of journal_lines (migrations 002, 044, 069, 077).
pub mod Totals
use iag_finance.Base.{
  ℕ, ◌+◌, String, Bool, true, false, ◌==◌, not, ◌&&◌, ◌||◌, Option, none, some, List, [], ◌∷◌,
  if◌then◌else◌, str_eq,
}
use iag_finance.Decimal.{Decimal, nought, from_int, add, mul, round, equal, is_zero, is_positive}
use iag_finance.Store.{
  AccountType, asset, liability, equity, revenue, expense, Account, Dimension, JournalLine,
  LineInput, ResolvedLine, CreateJournalParams, Result, ok, err, account_not_found, unnatural_side,
  empty_entry, unbalanced_entry, check_violation,
}

-- GetAccountByCode: only active accounts are found.
unfoldable pub get_account_by_code : String → List Account → Option Account
get_account_by_code code [] = none
get_account_by_code code (a ∷ as') =
    if str_eq a.code code && a.active then some a else get_account_by_code code as'

-- One more result of a loop that stops at the first error.
unfoldable pub cons_result : {A : Type 0} → Result A → Result (List A) → Result (List A)
cons_result (ok a) (ok as') = ok (a ∷ as')
cons_result (ok a) (err e) = err e
cons_result (err e) _ = err e

-- dim_entity IS NOT DISTINCT FROM the entity of the entry
unfoldable pub is_of_entity : ℕ → ℕ → List Dimension → Bool
is_of_entity entity id [] = false
is_of_entity entity id (d ∷ ds) =
    if d.id == id then d.entity_id == entity else is_of_entity entity id ds

abbrev pub may_use : ℕ → List Dimension → Option ℕ → Bool
may_use entity ds none = true
may_use entity ds (some id) = is_of_entity entity id ds

-- assert_dimension_entity, for every line of an entry; one that is missing belongs to none.
unfoldable pub has_own_dimensions :
    {D : Type 0} → ℕ → List Dimension → List Dimension → List (ResolvedLine D) → Bool
has_own_dimensions entity cost_centers projects [] = true
has_own_dimensions entity cost_centers projects (l ∷ ls) =
    may_use entity cost_centers l.cost_center_id
    && (may_use entity projects l.project_id && has_own_dimensions entity cost_centers projects ls)

module _ {D : Type 0} ⦃dec : Decimal D⦄ where
  -- The loop of validateBalance, and of validateEntryLines.
  unfoldable pub totals : {L : Type 0} → (L → D) → (L → D) → D → D → List L → D × D
  totals debit_of credit_of debit credit [] = (debit, credit)
  totals debit_of credit_of debit credit (l ∷ ls) =
      totals debit_of credit_of (add debit (debit_of l)) (add credit (credit_of l)) ls

  unfoldable pub check_totals : D × D → Result (Unit {0})
  check_totals (debit, credit) =
      if is_zero debit && is_zero credit
      then err empty_entry
      else if not (equal debit credit)
      then err unbalanced_entry
      else ok tt

  unfoldable pub validate_balance : List (LineInput D) → Result (Unit {0})
  unfolding check_totals
  validate_balance lines =
      check_totals (totals (λ (l : LineInput D). l.debit) (λ l. l.credit) nought nought lines)

  unfoldable pub validate_entry_lines : List (JournalLine D) → Result (Unit {0})
  unfolding check_totals
  validate_entry_lines lines =
      check_totals (totals (λ (l : JournalLine D). l.debit) (λ l. l.credit) nought nought lines)

  unfoldable pub violates_natural_side : AccountType → D → D → Bool
  violates_natural_side asset debit credit = is_positive credit
  violates_natural_side expense debit credit = is_positive credit
  violates_natural_side liability debit credit = is_positive debit
  violates_natural_side equity debit credit = is_positive debit
  violates_natural_side revenue debit credit = is_positive debit
  violates_natural_side _ debit credit = false

  -- One round of resolveLines.
  unfoldable pub resolve_line : List Account → ℕ → LineInput D → Result (ResolvedLine D)
  unfolding violates_natural_side
  resolve_line accounts i l = elim (get_account_by_code l.account_code accounts) [
    | none ↦ err account_not_found
    | some a ↦
        if a.restrict_to_natural_side && violates_natural_side a.account_type l.debit l.credit
        then err unnatural_side
        else ok (record {
          account_id = a.id;
          debit = l.debit;
          credit = l.credit;
          memo = l.memo;
          line_order = i;
          currency = "";
          debit_base = none;
          credit_base = none;
          cost_center_id = l.cost_center_id;
          project_id = l.project_id;
        })
  ]

  unfoldable pub resolve_from :
      List Account → ℕ → List (LineInput D) → Result (List (ResolvedLine D))
  unfolding cons_result
  resolve_from accounts i [] = ok []
  resolve_from accounts i (l ∷ ls) =
      cons_result (resolve_line accounts i l) (resolve_from accounts (i + 1) ls)

  unfoldable pub resolve_lines : List Account → List (LineInput D) → Result (List (ResolvedLine D))
  unfolding resolve_from
  resolve_lines accounts lines = resolve_from accounts 0 lines

  -- One side of ResolvedLine.baseAmounts.
  unfoldable pub base_amount : D → Option D → D → D
  base_amount rate none nominal = round 2 (mul nominal rate)
  base_amount rate (some base) nominal = round 2 base

  -- ResolvedLine.currencyOr
  unfoldable pub currency_or : ResolvedLine D → String → String
  currency_or l entry_currency = if str_eq l.currency "" then entry_currency else l.currency

  -- CreateJournalParams.lineCurrency
  unfoldable pub line_currency : CreateJournalParams D → String → String
  line_currency p base = if str_eq p.currency "" then base else p.currency

  -- CreateJournalParams.rate
  unfoldable pub rate : CreateJournalParams D → D
  rate p = if is_zero p.fx_rate then from_int 1 else p.fx_rate

  -- The row that a line is stored as: NUMERIC(18,4) columns round to four places.
  unfoldable pub line_row : D → String → ResolvedLine D → JournalLine D
  unfolding base_amount currency_or
  line_row fx entry_currency l = record {
    account_id = l.account_id;
    debit = round 4 l.debit;
    credit = round 4 l.credit;
    memo = l.memo;
    line_order = l.line_order;
    currency = currency_or l entry_currency;
    debit_base = round 4 (base_amount fx l.debit_base l.debit);
    credit_base = round 4 (base_amount fx l.credit_base l.credit);
    cost_center_id = l.cost_center_id;
    project_id = l.project_id;
  }

  -- journal_line_one_side: exactly one side is positive, and the other is zero.
  unfoldable pub one_side : JournalLine D → Bool
  one_side l =
      (is_positive l.debit && is_zero l.credit) || (is_positive l.credit && is_zero l.debit)

  unfoldable pub insert_line : D → String → ResolvedLine D → Result (JournalLine D)
  unfolding line_row one_side
  insert_line fx entry_currency l =
      let row = line_row fx entry_currency l in if one_side row then ok row else err check_violation

  unfoldable pub insert_lines : D → String → List (ResolvedLine D) → Result (List (JournalLine D))
  unfolding insert_line cons_result
  insert_lines fx entry_currency [] = ok []
  insert_lines fx entry_currency (l ∷ ls) =
      cons_result (insert_line fx entry_currency l) (insert_lines fx entry_currency ls)
