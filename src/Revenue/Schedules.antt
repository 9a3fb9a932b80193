-- ===== src/Revenue/Schedules.antt =====
-- The deferral of revenue: CreateSchedule of internal/repository/revrec.go.
use iag_finance.Base.{
  ℕ, ◌+◌, String, Bool, true, false, not, Option, none, some, List, [], ◌∷◌, ◌++◌, if◌then◌else◌,
  str_eq, ltb, concat, is_some, length,
}
use iag_finance.Calendar.{Time, Period, add_months, date_of}
use iag_finance.Decimal.{Decimal, nought, less_than_or_equal, is_positive, is_negative, round}
use iag_finance.Store.{
  RevenueSchedule, ScheduleLine, Obligation, RecognitionMethod, ratable, milestone, ResolvedLine,
  CreateJournalParams, AuditInfo, Account, Context, Action, Result, ok, err, account_not_found,
  invalid_total, check_violation, schedule_exists, schedule_not_found, gets, modify, raise_if,
  or_raise, ◌>>=◌, ◌>>◌,
}
use iag_finance.Ledger.Lines.{get_account_by_code}
use iag_finance.Ledger.Booking.{book_posted_entry}
use iag_finance.Ledger.Rates.{rate_or_one}
use iag_finance.Revenue.Slices.{ratable_slices}

abbrev pub revenue_code : String
revenue_code = "4000"

abbrev pub deferred_code : String
deferred_code = "2300"

abbrev pub accrued_code : String
accrued_code = "1200"

-- repository.ObligationInput
pub record ObligationInput (D : Type 0) : Type 0 where
  pub description : String
  pub amount : D

-- repository.CreateScheduleInput, with a start period that has been parsed.
pub record CreateScheduleInput (D : Type 0) : Type 0 where
  pub source_ref : String
  pub total : D
  pub currency : String
  pub method : RecognitionMethod
  pub start_period : Period
  pub periods : ℕ
  pub obligations : List (ObligationInput D)

-- accountIDByCode
unfoldable pub account_id_by_code : String → List Account → Result ℕ
account_id_by_code code accounts = elim (get_account_by_code code accounts) [
  | none ↦ err account_not_found
  | some a ↦ ok a.id
]

abbrev pub account_of : {D : Type 0} → String → Action D ℕ
account_of code s = (account_id_by_code code s.accounts, s)

module _ {D : Type 0} ⦃dec : Decimal D⦄ where
  abbrev pub plain_line : ℕ → D → D → String → ℕ → ResolvedLine D
  plain_line account_id debit credit memo line_order = record {
    account_id = account_id;
    debit = debit;
    credit = credit;
    memo = memo;
    line_order = line_order;
    currency = "";
    debit_base = none;
    credit_base = none;
    cost_center_id = none;
    project_id = none;
  }

  -- The two lines of every entry of this module: the same amount on both sides.
  unfoldable pub transfer_lines : ℕ → String → ℕ → String → D → List (ResolvedLine D)
  transfer_lines debit debit_memo credit credit_memo amount =
      plain_line debit amount nought debit_memo 0
      ∷ plain_line credit nought amount credit_memo 1
      ∷ []

  abbrev pub transfer_params :
      String → String → String → D → Time → List (ResolvedLine D) → CreateJournalParams D
  transfer_params description event_id currency fx_rate posted_at lines = record {
    description = description;
    source_event_id = some event_id;
    source_service = some "iag.finance";
    correlation_id = none;
    created_by = none;
    accounting_date = some posted_at;
    currency = currency;
    fx_rate = fx_rate;
    lines = lines;
    counterparty_entity_id = none;
  }

  unfoldable pub find_schedule : String → List (RevenueSchedule D) → Option (RevenueSchedule D)
  find_schedule ref [] = none
  find_schedule ref (r ∷ rs) = if str_eq r.source_ref ref then some r else find_schedule ref rs

  abbrev pub slice_line : ℕ → ℕ → Period → D → ScheduleLine D
  slice_line id schedule period amount = record {
    id = id;
    schedule_id = schedule;
    period = period;
    amount = round 2 amount;
    journal_entry_id = none;
  }

  -- One line for every slice, a month apart, with ids from `id` on.
  unfoldable pub slice_lines : ℕ → ℕ → Period → List D → List (ScheduleLine D)
  slice_lines id schedule period [] = []
  slice_lines id schedule period (a ∷ as') =
      slice_line id schedule period a ∷ slice_lines (id + 1) schedule (add_months period 1) as'

  unfoldable pub obligation_rows : ℕ → ℕ → List (ObligationInput D) → List (Obligation D)
  obligation_rows id schedule [] = []
  obligation_rows id schedule (o ∷ os) =
      record {
        id = id;
        schedule_id = schedule;
        description = o.description;
        amount = round 2 o.amount;
        satisfied_at = none;
        journal_entry_id = none;
      }
      ∷ obligation_rows (id + 1) schedule os

  -- The CHECK of performance_obligations.
  unfoldable pub all_positive : List (Obligation D) → Bool
  all_positive [] = true
  all_positive (o ∷ os) = if is_positive o.amount then all_positive os else false

  -- The CHECK of revenue_schedule_lines.
  unfoldable pub none_negative : List (ScheduleLine D) → Bool
  none_negative [] = true
  none_negative (l ∷ ls) = if is_negative l.amount then false else none_negative ls

module _ {D : Type 0} ⦃dec : Decimal D⦄ (c : Context) where
  abbrev pub schedule_row : CreateScheduleInput D → String → ℕ → ℕ → ℕ → RevenueSchedule D
  schedule_row in' currency periods id entry = record {
    id = id;
    source_ref = in'.source_ref;
    entity_id = c.entity;
    total = round 2 in'.total;
    currency = currency;
    method = in'.method;
    start_period = in'.start_period;
    periods = periods;
    completed = false;
    defer_entry_id = entry;
  }

  -- The rows of the plan: slices or obligations.
  unfoldable pub lay_out : CreateScheduleInput D → ℕ → ℕ → RecognitionMethod → Action D (Unit {0})
  lay_out in' periods schedule milestone = do
    rows ← gets (λ s. obligation_rows s.next_id schedule in'.obligations)
    raise_if (not (all_positive rows)) check_violation
    modify
        (λ s. record s { obligations = rows ++ s.obligations; next_id = s.next_id + length rows })
  lay_out in' periods schedule ratable = do
    lines ←
        gets
          (λ s. slice_lines s.next_id schedule in'.start_period (ratable_slices in'.total periods))
    raise_if (not (none_negative lines)) check_violation
    modify (λ s. record s {
      schedule_lines = lines ++ s.schedule_lines;
      next_id = s.next_id + length lines;
    })

  -- The side effect of the deferral entry.
  unfoldable pub write_schedule : CreateScheduleInput D → String → ℕ → ℕ → Action D (Unit {0})
  unfolding lay_out find_schedule
  write_schedule in' currency periods entry = do
    raise_if (not (is_positive (round 2 in'.total))) check_violation
    raise_if (← gets (λ s. is_some (find_schedule in'.source_ref s.schedules))) schedule_exists
    id ← gets (λ s. s.next_id)
    modify (λ s. record s {
      schedules = schedule_row in' currency periods id entry ∷ s.schedules;
      next_id = s.next_id + 1;
    })
    lay_out in' periods id in'.method

  -- What is returned is the row that was inserted, or on a replay the one that is there.
  unfoldable pub create_schedule :
      CreateScheduleInput D → Time → Option AuditInfo → Action D (RevenueSchedule D)
  unfolding write_schedule
  create_schedule in' posted_at audit = do
    raise_if (less_than_or_equal in'.total nought) invalid_total
    let currency = if str_eq in'.currency "" then c.base_currency else in'.currency
    let periods = if ltb in'.periods 1 then 1 else in'.periods
    let memo = concat "Deferred revenue " in'.source_ref
    let description = concat "Defer revenue " in'.source_ref
    revenue ← account_of revenue_code
    deferred ← account_of deferred_code
    fx_rate ← gets (λ s. rate_or_one c.base_currency currency (date_of posted_at) s.rates)
    let event_id = concat "revsched:" in'.source_ref
    _ ←
        book_posted_entry c
          (transfer_params description event_id currency fx_rate posted_at
            (transfer_lines revenue description deferred memo in'.total))
          event_id "finance.revenue.defer" posted_at (write_schedule in' currency periods) audit
    or_raise (← gets (λ s. find_schedule in'.source_ref s.schedules)) schedule_not_found
