-- ===== src/YearEnd.antt =====
-- The close of a fiscal year: internal/ledger/yearend.go and internal/repository/yearend.go.
pub mod Balance
pub mod Locked
use iag_finance.Base.{
  ℕ, zero, suc, ◌+◌, ◌*◌, ◌-◌, String, Bool, true, false, not, ◌&&◌, ◌||◌, Option, none, some, List,
  [], ◌∷◌, ◌++◌, if◌then◌else◌, ◌==◌, ltb, leb, concat,
}
use iag_finance.Calendar.{Date, Period, period_of_date, period_end, first_day, year_of, add_months}
use iag_finance.Decimal.{
  Decimal, nought, add, sub, neg, is_zero, is_positive, is_negative, to_string,
}
use iag_finance.Store.{
  Account, AccountType, revenue, expense, JournalEntry, LineInput, ResolvedLine,
  CreateJournalParams, closed_period, Store, Context, Action, year_has_drafts, nothing_to_close,
  pure, gets, lift, raise_if, ◌>>=◌, ◌>>◌,
}
use iag_finance.Ledger.Lines.{validate_balance, resolve_lines}
use iag_finance.Ledger.Booking.{book_posted_entry, no_side, is_empty, is_posted}
use iag_finance.Ledger.Entries.{actor_or_system}
use iag_finance.Ledger.Periods.{set_period_status, is_draft}
use iag_finance.Ledger.Trial.{sum_entries}

abbrev pub retained_earnings_code : String
retained_earnings_code = "3000"

-- repository.AccountBalance, of an account of revenue or expense.
pub record AccountBalance (D : Type 0) : Type 0 where
  pub code : String
  pub is_revenue : Bool
  pub balance : D

abbrev pub temporary : AccountType → Option Bool
temporary revenue = some true
temporary expense = some false
temporary _ = none

abbrev pub last_day : ℕ → Date
last_day year = first_day (year * 12 + 12) - 1

module _ {D : Type 0} where
  -- CountDraftEntriesInYear
  unfoldable pub count_drafts_in_year : ℕ → List (JournalEntry D) → ℕ
  count_drafts_in_year year [] = 0
  count_drafts_in_year year (e ∷ es) =
      (if is_draft e.status && (year_of (period_of_date e.accounting_date) == year) then 1 else 0)
      + count_drafts_in_year year es

  -- Posted, and dated from 1 January to 31 December.
  abbrev pub in_year : ℕ → JournalEntry D → Bool
  in_year year e =
      is_posted e.status
      && leb (first_day (year * 12)) e.accounting_date
      && leb e.accounting_date (last_day year)

module _ {D : Type 0} ⦃dec : Decimal D⦄ where
  abbrev pub balance_row : Account → Bool → D → D → AccountBalance D
  balance_row a is_revenue debit credit = record {
    code = a.code;
    is_revenue = is_revenue;
    balance = if is_revenue then sub credit debit else sub debit credit;
  }

  -- The row of an account, unless it had no activity.
  unfoldable pub year_balance : ℕ → List (JournalEntry D) → Account → List (AccountBalance D)
  year_balance year es a = elim (temporary a.account_type) [
    | none ↦ []
    | some is_revenue ↦
        let debit = sum_entries (λ l. l.debit_base) (in_year year) a.id es in
        let credit = sum_entries (λ l. l.credit_base) (in_year year) a.id es in
        if a.active && not (is_zero debit && is_zero credit)
        then balance_row a is_revenue debit credit ∷ []
        else []
  ]

  -- RevenueExpenseBalancesForYear
  unfoldable pub revenue_expense_balances :
      ℕ → List (JournalEntry D) → List Account → List (AccountBalance D)
  revenue_expense_balances year es [] = []
  revenue_expense_balances year es (a ∷ as') =
      year_balance year es a ++ revenue_expense_balances year es as'

  abbrev pub closing_line : String → D → D → LineInput D
  closing_line code debit credit = record {
    account_code = code;
    debit = debit;
    credit = credit;
    memo = "Year-end close";
    cost_center_id = none;
    project_id = none;
  }

  -- zeroingLine: a negative balance flips the side.
  unfoldable pub zeroing_line : String → D → Bool → LineInput D
  zeroing_line code balance debit_to_clear =
      if is_negative balance
      then (if debit_to_clear
          then closing_line code nought (neg balance)
          else closing_line code (neg balance) nought)
      else if debit_to_clear
      then closing_line code balance nought
      else closing_line code nought balance

  -- The loop over the balances: the lines, and the net income.
  unfoldable pub closing_lines : D → List (AccountBalance D) → List (LineInput D) × D
  closing_lines net [] = ([], net)
  closing_lines net (b ∷ bs) =
      let next =
        if is_zero b.balance
        then net
        else if b.is_revenue
        then add net b.balance
        else sub net b.balance in
      let (lines, total) = closing_lines next bs in
      (
        if is_zero b.balance then lines else zeroing_line b.code b.balance b.is_revenue ∷ lines,
        total,
      )

  abbrev pub earnings : D → D → String → List (LineInput D)
  earnings debit credit memo =
      (record {
        account_code = retained_earnings_code;
        debit = debit;
        credit = credit;
        memo = memo;
        cost_center_id = none;
        project_id = none;
      })
      ∷ []

  -- A profit credits equity, a loss debits it.
  unfoldable pub earnings_lines : D → List (LineInput D)
  earnings_lines net =
      if is_positive net
      then earnings nought net "Net income to retained earnings"
      else if is_negative net
      then earnings (neg net) nought "Net loss to retained earnings"
      else []

  abbrev pub close_params : ℕ → String → String → List (ResolvedLine D) → CreateJournalParams D
  close_params year text event_id lines = record {
    description = concat "Year-end close " text;
    source_event_id = some event_id;
    source_service = some "iag.finance";
    correlation_id = none;
    created_by = none;
    accounting_date = some (period_end (year * 12 + 11));
    currency = "";
    fx_rate = nought;
    lines = lines;
    counterparty_entity_id = none;
  }

module _ {D : Type 0} ⦃dec : Decimal D⦄ (c : Context) where
  -- Locking the year, month by month.
  unfoldable pub close_months : Period → ℕ → Option ℕ → Action D (Unit {0})
  close_months p zero by = pure tt
  close_months p (suc n) by = do
    set_period_status c p closed_period by
    close_months (add_months p 1) n by

  -- The entry of the lines; `year` is also given as its text.
  unfoldable pub book_close :
      ℕ → String → String → Option ℕ → List (LineInput D) → D → Action D (Option (JournalEntry D))
  book_close year text actor by lines net = do
    raise_if (is_empty lines) nothing_to_close
    lift (validate_balance (lines ++ earnings_lines net))
    resolved ← (λ s. (resolve_lines s.accounts (lines ++ earnings_lines net), s))
    let event_id = concat "yearend-close:" text
    entry ←
        book_posted_entry c (close_params year text event_id resolved) event_id
          "finance.yearend.close" c.now (no_side c)
          (some (record {
            actor = actor_or_system actor;
            event_type = "ledger.yearend.close";
            message =
                concat "year-end close " (concat text (concat ": net income " (to_string net)));
          }))
    close_months (year * 12) 12 by
    pure entry

  -- CloseFiscalYear
  unfoldable pub close_fiscal_year :
      ℕ → String → String → Option ℕ → Action D (Option (JournalEntry D))
  close_fiscal_year year text actor by = do
    drafts ← gets (λ s. count_drafts_in_year year s.entries)
    raise_if (ltb 0 drafts) year_has_drafts
    balances ← gets (λ s. revenue_expense_balances year s.entries s.accounts)
    let (lines, net) = closing_lines nought balances
    book_close year text actor by lines net
