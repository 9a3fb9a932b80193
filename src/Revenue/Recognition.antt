-- ===== src/Revenue/Recognition.antt =====
-- Recognition of deferred revenue: RunRecognition, SatisfyObligation and AccrueRevenue of
-- internal/repository/revrec.go.
use iag_finance.Base.{
  ℕ, String, Bool, true, false, not, ◌&&◌, ◌||◌, Option, none, some, List, [], ◌∷◌, if◌then◌else◌,
  ◌==◌, leb, concat, is_some, length,
}
use iag_finance.Calendar.{Time, Period}
use iag_finance.Decimal.{Decimal, nought, add, less_than_or_equal, is_positive}
use iag_finance.Store.{
  RevenueSchedule, ScheduleLine, Obligation, RecognitionMethod, ratable, milestone, JournalEntry,
  AuditInfo, Context, Action, schedule_not_found, obligation_satisfied, pure, gets, modify,
  raise_if, or_raise, ◌>>=◌, ◌>>◌,
}
use iag_finance.Ledger.Booking.{book_posted_entry, no_side, is_empty}
use iag_finance.Revenue.Schedules.{
  revenue_code, deferred_code, accrued_code, account_of, transfer_lines, transfer_params,
}

abbrev pub is_ratable : RecognitionMethod → Bool
is_ratable ratable = true
is_ratable milestone = false

module _ {D : Type 0} ⦃dec : Decimal D⦄ where
  unfoldable pub find_obligation : ℕ → List (Obligation D) → Option (Obligation D)
  find_obligation id [] = none
  find_obligation id (o ∷ os) = if o.id == id then some o else find_obligation id os

  -- WHERE period <= $1 AND journal_entry_id IS NULL AND amount > 0
  abbrev pub is_due : Period → ScheduleLine D → Bool
  is_due period l = leb l.period period && not (is_some l.journal_entry_id) && is_positive l.amount

  unfoldable pub due_lines : Period → List (ScheduleLine D) → List (ScheduleLine D)
  due_lines period [] = []
  due_lines period (l ∷ ls) =
      let rest = due_lines period ls in if is_due period l then l ∷ rest else rest

  unfoldable pub total_of : D → List (ScheduleLine D) → D
  total_of acc [] = acc
  total_of acc (l ∷ ls) = total_of (add acc l.amount) ls

  unfoldable pub has_id : ℕ → List (ScheduleLine D) → Bool
  has_id id [] = false
  has_id id (l ∷ ls) = if l.id == id then true else has_id id ls

  -- UPDATE ... SET journal_entry_id = $2 WHERE id = $1 AND journal_entry_id IS NULL, for every due line.
  unfoldable pub stamp : List (ScheduleLine D) → ℕ → List (ScheduleLine D) → List (ScheduleLine D)
  unfolding has_id
  stamp dues entry [] = []
  stamp dues entry (l ∷ ls) =
      (if has_id l.id dues && not (is_some l.journal_entry_id)
        then record l { journal_entry_id = some entry }
        else l)
      ∷ stamp dues entry ls

  unfoldable pub all_recognised : ℕ → List (ScheduleLine D) → Bool
  all_recognised schedule [] = true
  all_recognised schedule (l ∷ ls) =
      if (l.schedule_id == schedule) && not (is_some l.journal_entry_id)
      then false
      else all_recognised schedule ls

  unfoldable pub complete :
      List (ScheduleLine D) → List (RevenueSchedule D) → List (RevenueSchedule D)
  unfolding all_recognised
  complete ls [] = []
  complete ls (r ∷ rs) =
      (if is_ratable r.method && all_recognised r.id ls then record r { completed = true } else r)
      ∷ complete ls rs

  -- The side effect of the recognition entry.
  unfoldable pub recognise : List (ScheduleLine D) → ℕ → Action D (Unit {0})
  unfolding stamp complete
  recognise dues entry = modify (λ s. record s {
    schedule_lines = stamp dues entry s.schedule_lines;
    schedules = complete (stamp dues entry s.schedule_lines) s.schedules;
  })

module _ {D : Type 0} ⦃dec : Decimal D⦄ (c : Context) where
  abbrev pub book_dues :
      String
      → Time
      → Option AuditInfo
      → List (ScheduleLine D)
      → D
      → Action D (Option (JournalEntry D) × D × ℕ)
  book_dues text posted_at audit dues total = do
    deferred ← account_of deferred_code
    revenue ← account_of revenue_code
    let event_id = concat "revrec:" text
    let lines =
        transfer_lines deferred (concat "Recognise revenue " text) revenue
          (concat "Revenue recognised " text) total
    entry ←
        book_posted_entry c
          (transfer_params (concat "Revenue recognition " text) event_id "" nought posted_at lines)
          event_id "finance.revenue.recognize" posted_at (recognise dues) audit
    pure (entry, total, length dues)

  -- Nothing is booked when nothing is due.
  abbrev pub run_dues :
      String
      → Time
      → Option AuditInfo
      → List (ScheduleLine D)
      → D
      → Action D (Option (JournalEntry D) × D × ℕ)
  run_dues text posted_at audit dues total =
      if is_empty dues || less_than_or_equal total nought
      then pure (none, nought, 0)
      else book_dues text posted_at audit dues total

  -- The entry, its total and the number of lines; `period` is also given as its text.
  unfoldable pub run_recognition :
      Period → String → Time → Option AuditInfo → Action D (Option (JournalEntry D) × D × ℕ)
  unfolding recognise
  run_recognition period text posted_at audit = do
    dues ← gets (λ s. due_lines period s.schedule_lines)
    run_dues text posted_at audit dues (total_of nought dues)

  -- WHERE id = $1 AND satisfied_at IS NULL
  unfoldable pub satisfy : ℕ → ℕ → List (Obligation D) → List (Obligation D)
  satisfy id entry [] = []
  satisfy id entry (o ∷ os) =
      (if (o.id == id) && not (is_some o.satisfied_at)
        then record o { satisfied_at = some c.now; journal_entry_id = some entry }
        else o)
      ∷ satisfy id entry os

  abbrev pub set_satisfied : ℕ → ℕ → Action D (Unit {0})
  set_satisfied id entry = modify (λ s. record s { obligations = satisfy id entry s.obligations })

  unfoldable pub satisfy_obligation :
      ℕ → Time → Option AuditInfo → Action D (Option (JournalEntry D))
  unfolding satisfy
  satisfy_obligation id posted_at audit = do
    o ← or_raise (← gets (λ s. find_obligation id s.obligations)) schedule_not_found
    raise_if (is_some o.satisfied_at) obligation_satisfied
    deferred ← account_of deferred_code
    revenue ← account_of revenue_code
    let event_id = concat "revrec.obligation:" (c.show_id id)
    let lines =
        transfer_lines deferred "Recognise obligation" revenue "Revenue recognised (milestone)"
          o.amount
    book_posted_entry c (transfer_params "Milestone recognition" event_id "" nought posted_at lines)
        event_id "finance.revenue.milestone" posted_at (set_satisfied id) audit

  unfoldable pub accrue_revenue :
      String → D → Time → Option AuditInfo → Action D (Option (JournalEntry D))
  accrue_revenue ref amount posted_at audit = do
    accrued ← account_of accrued_code
    revenue ← account_of revenue_code
    let event_id = concat "accrue:" ref
    let lines =
        transfer_lines accrued (concat "Accrued revenue " ref) revenue
          (concat "Revenue earned " ref) amount
    book_posted_entry c
        (transfer_params (concat "Accrue revenue " ref) event_id "" nought posted_at lines) event_id
        "finance.revenue.accrue" posted_at (no_side c) audit
