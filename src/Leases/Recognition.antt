-- ===== src/Leases/Recognition.antt =====
-- The recognition of a lease: CreateLease of internal/repository/leases.go and of
-- internal/ledger/leases.go.
use iag_finance.Base.{
  ℕ, ◌+◌, String, false, not, Option, none, some, List, [], ◌∷◌, ◌++◌, if◌then◌else◌, str_eq, ltb,
  concat, is_some, length,
}
use iag_finance.Calendar.{Time, Period, date_of}
use iag_finance.Decimal.{Decimal, nought, less_than_or_equal, is_positive, is_negative, round}
use iag_finance.Store.{
  Lease, LeaseLine, AuditInfo, Context, Action, check_violation, invalid_lease, lease_exists,
  lease_not_found, gets, modify, raise_if, or_raise, ◌>>=◌, ◌>>◌,
}
use iag_finance.Ledger.Booking.{book_posted_entry}
use iag_finance.Ledger.Entries.{actor_or_system}
use iag_finance.Ledger.Periods.{guard_open}
use iag_finance.Ledger.Rates.{rate_or_one}
use iag_finance.Leases.Schedule.{ScheduleRow, build_lease_schedule}
use iag_finance.Revenue.Schedules.{account_of, transfer_lines, transfer_params}

abbrev pub rou_asset_code : String
rou_asset_code = "1600"

abbrev pub rou_accum_dep_code : String
rou_accum_dep_code = "1610"

abbrev pub lease_liab_code : String
lease_liab_code = "2500"

abbrev pub rou_depr_code : String
rou_depr_code = "5320"

abbrev pub lease_interest_code : String
lease_interest_code = "5600"

-- repository.CreateLeaseInput, with a start period that has been parsed.
pub record CreateLeaseInput (D : Type 0) : Type 0 where
  pub lease_ref : String
  pub description : String
  pub currency : String
  pub monthly_payment : D
  pub annual_rate : D
  pub term_months : ℕ
  pub start_period : Period

module _ {D : Type 0} ⦃dec : Decimal D⦄ where
  unfoldable pub find_lease : String → List (Lease D) → Option (Lease D)
  find_lease ref [] = none
  find_lease ref (l ∷ ls) = if str_eq l.lease_ref ref then some l else find_lease ref ls

  abbrev pub lease_line : ℕ → ℕ → ScheduleRow D → LeaseLine D
  lease_line id lease r = record {
    id = id;
    lease_id = lease;
    period = r.period;
    opening_liability = round 2 r.opening;
    interest = round 2 r.interest;
    payment = round 2 r.payment;
    principal = round 2 r.principal;
    closing_liability = round 2 r.closing;
    depreciation = round 2 r.depreciation;
    journal_entry_id = none;
  }

  -- One line for every row of the schedule, with ids from `id` on.
  unfoldable pub lease_line_rows : ℕ → ℕ → List (ScheduleRow D) → List (LeaseLine D)
  lease_line_rows id lease [] = []
  lease_line_rows id lease (r ∷ rs) = lease_line id lease r ∷ lease_line_rows (id + 1) lease rs

module _ {D : Type 0} ⦃dec : Decimal D⦄ (c : Context) where
  abbrev pub lease_currency : CreateLeaseInput D → String
  lease_currency in' = if str_eq in'.currency "" then c.base_currency else in'.currency

  abbrev pub lease_row : CreateLeaseInput D → D → ℕ → ℕ → Lease D
  lease_row in' pv id entry = record {
    id = id;
    lease_ref = in'.lease_ref;
    entity_id = c.entity;
    description = in'.description;
    currency = lease_currency in';
    monthly_payment = round 2 in'.monthly_payment;
    annual_rate = round 6 in'.annual_rate;
    term_months = in'.term_months;
    start_period = in'.start_period;
    rou_asset = round 2 pv;
    initial_liability = round 2 pv;
    completed = false;
    recognize_entry_id = entry;
  }

  -- The side effect of the recognition entry.
  unfoldable pub write_lease :
      CreateLeaseInput D → D → List (ScheduleRow D) → ℕ → Action D (Unit {0})
  write_lease in' pv rows entry = do
    raise_if (not (is_positive (round 2 in'.monthly_payment))) check_violation
    raise_if (← gets (λ s. is_some (find_lease in'.lease_ref s.leases))) lease_exists
    id ← gets (λ s. s.next_id)
    modify (λ s. record s {
      leases = lease_row in' pv id entry ∷ s.leases;
      lease_lines = lease_line_rows (s.next_id + 1) id rows ++ s.lease_lines;
      next_id = s.next_id + 1 + length rows;
    })

  unfoldable pub book_lease :
      CreateLeaseInput D → Time → Option AuditInfo → D → List (ScheduleRow D) → Action D (Lease D)
  book_lease in' posted_at audit pv rows = do
    raise_if (less_than_or_equal pv nought) invalid_lease
    rou ← account_of rou_asset_code
    liability ← account_of lease_liab_code
    fx_rate ←
        gets (λ s. rate_or_one c.base_currency (lease_currency in') (date_of posted_at) s.rates)
    let event_id = concat "lease:" in'.lease_ref
    let lines =
        transfer_lines rou (concat "Right-of-use asset " in'.lease_ref) liability
          (concat "Lease liability " in'.lease_ref) pv
    _ ←
        book_posted_entry c
          (transfer_params (concat "Recognise lease " in'.lease_ref) event_id (lease_currency in')
            fx_rate posted_at lines)
          event_id "finance.lease.recognize" posted_at (write_lease in' pv rows) audit
    or_raise (← gets (λ s. find_lease in'.lease_ref s.leases)) lease_not_found

  -- CreateLease of the repository. What is returned is the row that was inserted, or on a replay
  -- the one that is there.
  unfoldable pub create_lease : CreateLeaseInput D → Time → Option AuditInfo → Action D (Lease D)
  create_lease in' posted_at audit = do
    raise_if (less_than_or_equal in'.monthly_payment nought) invalid_lease
    raise_if (ltb in'.term_months 1) invalid_lease
    raise_if (is_negative in'.annual_rate) invalid_lease
    let (pv, rows) =
        build_lease_schedule in'.monthly_payment in'.annual_rate in'.term_months in'.start_period
    book_lease in' posted_at audit pv rows

  -- CreateLease of the service.
  unfoldable pub recognise_lease : CreateLeaseInput D → String → Action D (Lease D)
  recognise_lease in' actor = do
    guard_open c.now
    create_lease in' c.now (
        some (record {
          actor = actor_or_system actor;
          event_type = "finance.lease.recognize";
          message = concat "recognise lease " in'.lease_ref;
        }))
