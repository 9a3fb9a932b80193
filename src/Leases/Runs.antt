-- ===== src/Leases/Runs.antt =====
-- The periodic lease run: RunLeasePeriod of internal/repository/leases.go and of
-- internal/ledger/leases.go.
pub mod Balance
pub mod Whole
use iag_finance.Base.{
  ℕ, ◌+◌, String, Bool, true, false, not, ◌&&◌, Option, none, some, List, [], ◌∷◌, if◌then◌else◌,
  ◌==◌, leb, concat, is_some, length,
}
use iag_finance.Calendar.{Time, Period, period_end}
use iag_finance.Decimal.{Decimal, nought, add, is_zero}
use iag_finance.Store.{
  Lease, LeaseLine, JournalEntry, ResolvedLine, AuditInfo, Context, Action, period_closed, pure,
  gets, modify, raise_if, ◌>>=◌, ◌>>◌,
}
use iag_finance.Ledger.Booking.{book_posted_entry, is_empty}
use iag_finance.Ledger.Entries.{actor_or_system}
use iag_finance.Ledger.Periods.{is_period_closed}
use iag_finance.Leases.Recognition.{
  lease_interest_code, rou_depr_code, lease_liab_code, rou_accum_dep_code,
}
use iag_finance.Revenue.Schedules.{account_of, plain_line, transfer_params}

abbrev pub default_funding_code : String
default_funding_code = "1000"

-- The accounts of a run.
pub record RunAccounts : Type 0 where
  pub interest : ℕ
  pub depreciation : ℕ
  pub liability : ℕ
  pub funding : ℕ
  pub accumulated : ℕ

-- What the due lines add up to.
pub record RunSums (D : Type 0) : Type 0 where
  pub interest : D
  pub principal : D
  pub payment : D
  pub depreciation : D

module _ {D : Type 0} ⦃dec : Decimal D⦄ where
  -- WHERE period <= $1 AND journal_entry_id IS NULL
  abbrev pub is_lease_due : Period → LeaseLine D → Bool
  is_lease_due period l = leb l.period period && not (is_some l.journal_entry_id)

  unfoldable pub due_lease_lines : Period → List (LeaseLine D) → List (LeaseLine D)
  due_lease_lines period [] = []
  due_lease_lines period (l ∷ ls) =
      let rest = due_lease_lines period ls in if is_lease_due period l then l ∷ rest else rest

  unfoldable pub run_sums : RunSums D → List (LeaseLine D) → RunSums D
  run_sums acc [] = acc
  run_sums acc (l ∷ ls) =
      run_sums
        (record {
          interest = add acc.interest l.interest;
          principal = add acc.principal l.principal;
          payment = add acc.payment l.payment;
          depreciation = add acc.depreciation l.depreciation;
        })
        ls

  abbrev pub no_sums : RunSums D
  no_sums = record {
    interest = nought;
    principal = nought;
    payment = nought;
    depreciation = nought;
  }

  -- The closure `add`: a line that is nought on both sides is left out, and takes no number.
  unfoldable pub number_lines : ℕ → List (ℕ × D × D × String) → List (ResolvedLine D)
  number_lines order [] = []
  number_lines order ((account, debit, credit, memo) ∷ ls) =
      let skipped = is_zero debit && is_zero credit in
      let rest = number_lines (if skipped then order else order + 1) ls in
      if skipped then rest else plain_line account debit credit memo order ∷ rest

  unfoldable pub run_lines : RunAccounts → RunSums D → String → List (ResolvedLine D)
  unfolding number_lines
  run_lines ids sums text = number_lines 0 (
      (ids.interest, sums.interest, nought, concat "Lease interest " text)
      ∷ (ids.depreciation, sums.depreciation, nought, concat "ROU depreciation " text)
      ∷ (ids.liability, sums.principal, nought, concat "Lease principal " text)
      ∷ (ids.funding, nought, sums.payment, concat "Lease payment " text)
      ∷ (ids.accumulated, nought, sums.depreciation, concat "Accum ROU depreciation " text)
      ∷ [])

  unfoldable pub has_lease_line : ℕ → List (LeaseLine D) → Bool
  has_lease_line id [] = false
  has_lease_line id (l ∷ ls) = if l.id == id then true else has_lease_line id ls

  -- UPDATE ... SET journal_entry_id = $2 WHERE id = $1 AND journal_entry_id IS NULL, for every due line.
  unfoldable pub stamp_lease_lines :
      List (LeaseLine D) → ℕ → List (LeaseLine D) → List (LeaseLine D)
  stamp_lease_lines dues entry [] = []
  stamp_lease_lines dues entry (l ∷ ls) =
      (if has_lease_line l.id dues && not (is_some l.journal_entry_id)
        then record l { journal_entry_id = some entry }
        else l)
      ∷ stamp_lease_lines dues entry ls

  unfoldable pub all_booked : ℕ → List (LeaseLine D) → Bool
  all_booked lease [] = true
  all_booked lease (l ∷ ls) =
      if (l.lease_id == lease) && not (is_some l.journal_entry_id)
      then false
      else all_booked lease ls

  -- Leases that are active and have no line left.
  unfoldable pub complete_leases : List (LeaseLine D) → List (Lease D) → List (Lease D)
  complete_leases lines [] = []
  complete_leases lines (l ∷ ls) =
      (if not l.completed && all_booked l.id lines then record l { completed = true } else l)
      ∷ complete_leases lines ls

  -- The side effect of the entry.
  unfoldable pub book_lease_lines : List (LeaseLine D) → ℕ → Action D (Unit {0})
  book_lease_lines dues entry = modify (λ s. record s {
    lease_lines = stamp_lease_lines dues entry s.lease_lines;
    leases = complete_leases (stamp_lease_lines dues entry s.lease_lines) s.leases;
  })

  abbrev pub run_accounts : Action D RunAccounts
  run_accounts = do
    interest ← account_of lease_interest_code
    depreciation ← account_of rou_depr_code
    liability ← account_of lease_liab_code
    funding ← account_of default_funding_code
    accumulated ← account_of rou_accum_dep_code
    pure (record {
      interest = interest;
      depreciation = depreciation;
      liability = liability;
      funding = funding;
      accumulated = accumulated;
    })

module _ {D : Type 0} ⦃dec : Decimal D⦄ (c : Context) where
  unfoldable pub run_due_lines :
      String
      → Time
      → Option AuditInfo
      → List (LeaseLine D)
      → Action D (Option (JournalEntry D) × D × ℕ)
  run_due_lines text posted_at audit dues = if is_empty dues then pure (none, nought, 0) else do
    ids ← run_accounts
    let sums = run_sums no_sums dues
    let event_id = concat "leaserun:" text
    entry ←
        book_posted_entry c
          (transfer_params (concat "Lease period " text) event_id "" nought posted_at
            (run_lines ids sums text))
          event_id "finance.lease.run" posted_at (book_lease_lines dues) audit
    pure (entry, add sums.interest sums.principal, length dues)

  -- RunLeasePeriod of the repository; `period` is also given as its text.
  unfoldable pub run_lease_period :
      Period → String → Time → Option AuditInfo → Action D (Option (JournalEntry D) × D × ℕ)
  run_lease_period period text posted_at audit = do
    dues ← gets (λ s. due_lease_lines period s.lease_lines)
    run_due_lines text posted_at audit dues

  -- RunLeasePeriod of the service.
  unfoldable pub run_leases : Period → String → String → Action D (Option (JournalEntry D) × D × ℕ)
  run_leases period text actor = do
    raise_if (← gets (λ s. is_period_closed period s.periods)) period_closed
    run_lease_period period text (period_end period) (
        some (record {
          actor = actor_or_system actor;
          event_type = "finance.lease.run";
          message = concat "lease period " text;
        }))
