-- ===== src/Ledger/Booking.antt =====
-- Booking of posted entries: internal/repository/booking.go, and the balance trigger of
-- migration 077.
pub mod Events
pub mod Balance
pub mod Replay
pub mod Frame
use iag_finance.Base.{
  ℕ, ◌+◌, String, Bool, true, false, not, ◌&&◌, Option, none, some, List, [], ◌∷◌, if◌then◌else◌,
  str_eq, ◌==◌, is_some, concat,
}
use iag_finance.Calendar.{Time, Date, date_of}
use iag_finance.Decimal.{Decimal, nought, equal}
use iag_finance.Store.{
  JournalLine, JournalEntry, EntryStatus, posted, CreateJournalParams, LineInput, ResolvedLine,
  AuditInfo, Store, Context, Action, Result, ok, err, Error, unique_violation, check_violation,
  empty_entry, pure, gets, modify, lift, raise_if, ◌>>=◌, ◌>>◌,
}
use iag_finance.Audit.{append_audit}
use iag_finance.Ledger.Lines.{
  totals, validate_balance, resolve_lines, line_currency, rate, insert_lines, has_own_dimensions,
}
use iag_finance.Ledger.Periods.{EventRef, PostingWindow, resolve_posting_window}
use iag_finance.Ledger.Rates.{rate_or_one}

-- A text that is the value of a nullable column.
abbrev pub is_text : String → Option String → Bool
is_text t none = false
is_text t (some u) = str_eq u t

abbrev pub optional_string : String → Option String
optional_string t = if str_eq t "" then none else some t

abbrev pub resolve_accounting_date : Option Time → Time → Date
resolve_accounting_date none fallback = date_of fallback
resolve_accounting_date (some t) _ = date_of t

abbrev pub is_posted : EntryStatus → Bool
is_posted posted = true
is_posted _ = false

-- IsEventProcessed
unfoldable pub is_event_processed : String → List (String × String) → Bool
is_event_processed event_id [] = false
is_event_processed event_id ((e, t) ∷ es) =
    if str_eq e event_id then true else is_event_processed event_id es

module _ {D : Type 0} where
  -- WHERE id = $1
  unfoldable pub entry_by_id : ℕ → List (JournalEntry D) → Option (JournalEntry D)
  entry_by_id id [] = none
  entry_by_id id (e ∷ es) = if e.id == id then some e else entry_by_id id es

  -- GetJournalEntryBySourceEvent
  unfoldable pub entry_by_source_event : String → List (JournalEntry D) → Option (JournalEntry D)
  entry_by_source_event event_id [] = none
  entry_by_source_event event_id (e ∷ es) =
      if is_text event_id e.source_event_id then some e else entry_by_source_event event_id es

  -- A clash on uq_journal_source_event, which watches values that are not NULL.
  abbrev pub source_event_taken : Option String → List (JournalEntry D) → Bool
  source_event_taken none es = false
  source_event_taken (some event_id) es = is_some (entry_by_source_event event_id es)

  unfoldable pub next_entry_number : Action D ℕ
  next_entry_number s = (ok s.next_number, record s { next_number = s.next_number + 1 })

  -- markProcessedTx: false when the event was recorded already.
  unfoldable pub mark_processed : String → String → Action D Bool
  mark_processed event_id event_type s =
      if is_event_processed event_id s.processed
      then (ok false, s)
      else (ok true, record s { processed = (event_id, event_type) ∷ s.processed })

module _ {D : Type 0} ⦃dec : Decimal D⦄ where
  abbrev pub base_totals : List (JournalLine D) → D × D
  base_totals = totals (λ (l : JournalLine D). l.debit_base) (λ l. l.credit_base) nought nought

  -- assert_journal_balanced: a posted entry balances in base currency.
  unfoldable pub is_balanced : JournalEntry D → Bool
  is_balanced e =
      let (debit, credit) = base_totals e.lines in
      not (is_posted e.status && not (equal debit credit))

  -- The trigger, deferred to the commit of a transaction that wrote the entry.
  unfoldable pub assert_balanced : ℕ → Action D (Unit {0})
  unfolding is_balanced
  assert_balanced id s = elim (entry_by_id id s.entries) [
    | none ↦ (ok tt, s)
    | some e ↦ (if is_balanced e then ok tt else err check_violation, s)
  ]

abbrev pub is_unique_violation : Error → Bool
is_unique_violation unique_violation = true
is_unique_violation _ = false

abbrev pub is_empty : {L : Type 0} → List L → Bool
is_empty [] = true
is_empty (_ ∷ _) = false

-- A unique violation is an outcome rather than an error, unless there is no event to look up.
abbrev pub caught : {D : Type 0} → Bool → Result ℕ × Store D → Result (Option ℕ) × Store D
caught no_event (ok id, t) = (ok (some id), t)
caught no_event (err e, t) = (if is_unique_violation e && not no_event then ok none else err e, t)

abbrev pub catch_unique : {D : Type 0} → Bool → Action D ℕ → Action D (Option ℕ)
catch_unique no_event m s = caught no_event (m s)

module _ {D : Type 0} ⦃dec : Decimal D⦄ (c : Context) where
  -- The row of journal_entries that insertPostedEntryTx writes, with its lines.
  abbrev pub posted_entry :
      CreateJournalParams D → ℕ → Time → ℕ → List (JournalLine D) → JournalEntry D
  posted_entry p number posted_at id rows = record {
    id = id;
    entry_number = number;
    description = p.description;
    status = posted;
    source_event_id = p.source_event_id;
    source_service = p.source_service;
    correlation_id = p.correlation_id;
    accounting_date = resolve_accounting_date p.accounting_date posted_at;
    reverses_entry_id = none;
    posted_at = some posted_at;
    created_by = p.created_by;
    entity_id = c.entity;
    counterparty_entity_id = none;
    lines = rows;
  }

  unfoldable pub insert_posted_entry : CreateJournalParams D → ℕ → Time → Action D ℕ
  insert_posted_entry p number posted_at = do
    raise_if (← gets (λ s. source_event_taken p.source_event_id s.entries)) unique_violation
    raise_if (not (← gets (λ s. has_own_dimensions c.entity s.cost_centers s.projects p.lines)))
        check_violation
    rows ← lift (insert_lines (rate p) (line_currency p c.base_currency) p.lines)
    id ← gets (λ s. s.next_id)
    modify (λ s. record s {
      entries = posted_entry p number posted_at id rows ∷ s.entries;
      next_id = s.next_id + 1;
    })
    pure id

  -- The side effect, the audit entry and the trigger.
  abbrev pub write_rest : ℕ → (ℕ → Action D (Unit {0})) → Option AuditInfo → Action D (Option ℕ)
  write_rest id side audit = do side id; append_audit c audit; assert_balanced id; pure (some id)

  -- What follows the insertion: the event is recorded and the rest is written.
  -- `none` is a race lost to another booking of the event.
  abbrev pub finish_booking :
      String
      → String
      → (ℕ → Action D (Unit {0}))
      → Option AuditInfo
      → Option ℕ
      → Action D (Option ℕ)
  finish_booking event_id event_type side audit none = pure none
  finish_booking event_id event_type side audit (some id) = do
    won ← (if str_eq event_id "" then pure true else mark_processed event_id event_type)
    if won then write_rest id side audit else pure none

  -- The transaction of BookPostedEntry, before it commits or rolls back.
  unfoldable pub booking :
      CreateJournalParams D
      → String
      → String
      → Time
      → (ℕ → Action D (Unit {0}))
      → Option AuditInfo
      → Action D (Option ℕ)
  booking p event_id event_type posted_at side audit = do
    number ← next_entry_number
    inserted ← catch_unique (str_eq event_id "") (insert_posted_entry p number posted_at)
    finish_booking event_id event_type side audit inserted

  -- Commit, or roll back and return the entry that won the race.
  abbrev pub conclude :
      String → Store D → Result (Option ℕ) × Store D → Result (Option (JournalEntry D)) × Store D
  conclude event_id s (ok (some id), t) = (ok (entry_by_id id t.entries), t)
  conclude event_id s (ok none, t) =
      (ok (entry_by_source_event event_id s.entries), record s { next_number = t.next_number })
  conclude event_id s (err e, t) = (err e, record s { next_number = t.next_number })

  unfoldable pub book_tx :
      CreateJournalParams D
      → String
      → String
      → Time
      → (ℕ → Action D (Unit {0}))
      → Option AuditInfo
      → Action D (Option (JournalEntry D))
  book_tx p event_id event_type posted_at side audit s =
      conclude event_id s (booking p event_id event_type posted_at side audit s)

  -- The event id is also the entry's source event where the caller set none.
  abbrev pub with_source_event : CreateJournalParams D → String → CreateJournalParams D
  with_source_event p event_id = record p {
    source_event_id =
        if not (str_eq event_id "") && not (is_some p.source_event_id)
        then some event_id
        else p.source_event_id;
  }

  unfoldable pub book_posted_entry :
      CreateJournalParams D
      → String
      → String
      → Time
      → (ℕ → Action D (Unit {0}))
      → Option AuditInfo
      → Action D (Option (JournalEntry D))
  unfolding book_tx
  book_posted_entry p event_id event_type posted_at side audit s =
      if not (str_eq event_id "") && is_event_processed event_id s.processed
      then (ok (entry_by_source_event event_id s.entries), s)
      else book_tx (with_source_event p event_id) event_id event_type posted_at side audit s

  -- A nil side effect.
  abbrev pub no_side : ℕ → Action D (Unit {0})
  no_side _ = pure tt
