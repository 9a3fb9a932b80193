-- ===== src/Ledger/Entries.antt =====
-- Draft entries and their posting: CreateJournalEntry and PostJournalEntry of
-- internal/ledger/service.go, and CreateJournalEntry, MarkEntryPosted and DeleteDraftEntry of
-- internal/repository/{repository,booking}.go.
pub mod Lookup
use iag_finance.Base.{
  ℕ, ◌+◌, String, Bool, true, false, not, Option, none, some, List, [], ◌∷◌, if◌then◌else◌, str_eq,
  ◌==◌, concat,
}
use iag_finance.Calendar.{Time, period_of_date}
use iag_finance.Decimal.{Decimal, from_int}
use iag_finance.Store.{
  JournalLine, JournalEntry, draft, posted, LineInput, ResolvedLine, AuditInfo, Context, Action, ok,
  err, duplicate_event, invalid_status, entry_not_found, not_draft, period_closed, empty_entry,
  unique_violation, check_violation, pure, gets, modify, lift, transaction, raise_if, or_raise,
  ◌>>=◌, ◌>>◌,
}
use iag_finance.Audit.{append_audit}
use iag_finance.Ledger.Lines.{
  validate_balance, validate_entry_lines, resolve_lines, insert_lines, has_own_dimensions,
}
use iag_finance.Ledger.Periods.{is_period_closed, is_draft}
use iag_finance.Ledger.Booking.{
  entry_by_id, is_event_processed, source_event_taken, next_entry_number, assert_balanced, is_empty,
  resolve_accounting_date,
}

abbrev pub actor_or_system : String → String
actor_or_system actor = if str_eq actor "" then "system" else actor

-- ledger.CreateEntryInput
pub record CreateEntryInput (D : Type 0) : Type 0 where
  pub description : String
  pub lines : List (LineInput D)
  pub source_event_id : Option String
  pub source_service : Option String
  pub correlation_id : Option String
  pub created_by : Option ℕ
  pub accounting_date : Option Time
  pub counterparty_entity_id : Option ℕ

module _ {D : Type 0} where
  -- UPDATE journal_entries SET ... WHERE id = $1
  unfoldable pub update_entry :
      ℕ → (JournalEntry D → JournalEntry D) → List (JournalEntry D) → List (JournalEntry D)
  update_entry id f [] = []
  update_entry id f (e ∷ es) = (if e.id == id then f e else e) ∷ update_entry id f es

  -- DELETE FROM journal_entries WHERE id = $1
  unfoldable pub delete_entry : ℕ → List (JournalEntry D) → List (JournalEntry D)
  delete_entry id [] = []
  delete_entry id (e ∷ es) = let rest = delete_entry id es in if e.id == id then rest else e ∷ rest

abbrev pub seen_event : Option String → List (String × String) → Bool
seen_event none processed = false
seen_event (some event_id) processed = is_event_processed event_id processed

module _ {D : Type 0} ⦃dec : Decimal D⦄ (c : Context) where
  -- The draft row of repository.CreateJournalEntry; it sets no currency and no rate.
  abbrev pub draft_entry : CreateEntryInput D → ℕ → ℕ → List (JournalLine D) → JournalEntry D
  draft_entry in' number id rows = record {
    id = id;
    entry_number = number;
    description = in'.description;
    status = draft;
    source_event_id = in'.source_event_id;
    source_service = in'.source_service;
    correlation_id = in'.correlation_id;
    accounting_date = resolve_accounting_date in'.accounting_date c.now;
    reverses_entry_id = none;
    posted_at = none;
    created_by = in'.created_by;
    entity_id = c.entity;
    counterparty_entity_id = in'.counterparty_entity_id;
    lines = rows;
  }

  -- repository.CreateJournalEntry
  unfoldable pub insert_draft :
      CreateEntryInput D → List (ResolvedLine D) → ℕ → Action D (JournalEntry D)
  insert_draft in' resolved number = do
    raise_if (← gets (λ s. source_event_taken in'.source_event_id s.entries)) unique_violation
    raise_if (not (← gets (λ s. has_own_dimensions c.entity s.cost_centers s.projects resolved)))
        check_violation
    rows ← lift (insert_lines (from_int 1) c.base_currency resolved)
    id ← gets (λ s. s.next_id)
    modify (λ s. record s {
      entries = draft_entry in' number id rows ∷ s.entries;
      next_id = s.next_id + 1;
    })
    pure (draft_entry in' number id rows)

  -- Service.CreateJournalEntry
  unfoldable pub create_journal_entry : CreateEntryInput D → Action D (JournalEntry D)
  unfolding insert_draft
  create_journal_entry in' = do
    raise_if (is_empty in'.lines) empty_entry
    lift (validate_balance in'.lines)
    raise_if (← gets (λ s. seen_event in'.source_event_id s.processed)) duplicate_event
    resolved ← (λ s. (resolve_lines s.accounts in'.lines, s))
    number ← next_entry_number
    transaction (insert_draft in' resolved number)

  abbrev pub as_posted : Time → JournalEntry D → JournalEntry D
  as_posted at e = record e { status = posted; posted_at = some at }

  -- repository.MarkEntryPosted, inside its transaction. False when there is no draft to post.
  unfoldable pub mark_posted : ℕ → Time → Option AuditInfo → Action D Bool
  mark_posted id at audit s = elim (entry_by_id id s.entries) [
    | none ↦ (ok false, s)
    | some e ↦
        if not (is_draft e.status)
        then (ok false, s)
        else if is_period_closed (period_of_date e.accounting_date) s.periods
        then (err period_closed, s)
        else (do
          modify (λ t. record t { entries = update_entry id (as_posted at) t.entries })
          append_audit c audit
          assert_balanced id
          pure true)
            s
  ]

  unfoldable pub mark_entry_posted : ℕ → Time → Option AuditInfo → Action D Bool
  unfolding mark_posted
  mark_entry_posted id at audit = transaction (mark_posted id at audit)

  -- Service.PostJournalEntry
  unfoldable pub post_journal_entry : ℕ → String → Action D (Option (JournalEntry D))
  unfolding mark_entry_posted
  post_journal_entry id actor = do
    e ← or_raise (← gets (λ s. entry_by_id id s.entries)) entry_not_found
    raise_if (not (is_draft e.status)) invalid_status
    lift (validate_entry_lines e.lines)
    done ← mark_entry_posted id c.now (
        some (record {
          actor = actor_or_system actor;
          event_type = "ledger.posted";
          message =
              concat "posted "
                (concat (c.show_number e.entry_number) (concat " (" (concat e.description ")")));
        }))
    raise_if (not done) invalid_status
    gets (λ s. entry_by_id id s.entries)

  unfoldable pub delete_tx : ℕ → Action D (Unit {0})
  delete_tx id = do
    e ← or_raise (← gets (λ s. entry_by_id id s.entries)) entry_not_found
    raise_if (not (is_draft e.status)) not_draft
    modify (λ s. record s { entries = delete_entry id s.entries })

  -- repository.DeleteDraftEntry
  unfoldable pub delete_draft_entry : ℕ → Action D (Unit {0})
  unfolding delete_tx
  delete_draft_entry id = transaction (delete_tx id)
