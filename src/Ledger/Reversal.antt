-- ===== src/Ledger/Reversal.antt =====
-- Reversal of posted entries: ReverseEntry of internal/repository/booking.go and
-- ReverseJournalEntry of internal/ledger/service.go.
use iag_finance.Base.{
  ℕ, ◌+◌, String, not, Option, none, some, List, [], ◌∷◌, if◌then◌else◌, str_eq, concat,
}
use iag_finance.Calendar.{date_of}
use iag_finance.Decimal.{Decimal, nought}
use iag_finance.Store.{
  JournalLine, JournalEntry, posted, reversed, AuditInfo, Context, default_entity, Action, Result,
  ok, err, entry_not_found, not_reversible, check_violation, pure, gets, modify, lift, transaction,
  raise_if, or_raise, ◌>>=◌, ◌>>◌,
}
use iag_finance.Audit.{append_audit}
use iag_finance.Ledger.Lines.{cons_result, one_side}
use iag_finance.Ledger.Booking.{entry_by_id, next_entry_number, assert_balanced, is_posted}
use iag_finance.Ledger.Entries.{actor_or_system, update_entry}

abbrev pub reversal_text : String → String → String
reversal_text what reason = if str_eq reason "" then what else concat what (concat " — " reason)

module _ {D : Type 0} ⦃dec : Decimal D⦄ (c : Context) where
  -- The mirror of a line. The columns that the INSERT leaves out take their defaults: the base
  -- amounts are zero, and the currency is 'UGX'.
  unfoldable pub mirror : JournalLine D → JournalLine D
  mirror l = record {
    account_id = l.account_id;
    debit = l.credit;
    credit = l.debit;
    memo = concat "Reversal: " l.memo;
    line_order = l.line_order;
    currency = "UGX";
    debit_base = nought;
    credit_base = nought;
    cost_center_id = none;
    project_id = none;
  }

  abbrev pub checked : JournalLine D → Result (JournalLine D)
  checked l = if one_side l then ok l else err check_violation

  unfoldable pub mirror_lines : List (JournalLine D) → Result (List (JournalLine D))
  unfolding mirror one_side cons_result
  mirror_lines [] = ok []
  mirror_lines (l ∷ ls) = cons_result (checked (mirror l)) (mirror_lines ls)

  abbrev pub as_reversed : JournalEntry D → JournalEntry D
  as_reversed e = record e { status = reversed }

  -- The row of the reversal: its date and its entity are the defaults of their columns.
  abbrev pub reversal_entry :
      JournalEntry D → String → ℕ → ℕ → List (JournalLine D) → JournalEntry D
  reversal_entry e reason number id rows = record {
    id = id;
    entry_number = number;
    description = reversal_text (concat "Reversal of " (c.show_number e.entry_number)) reason;
    status = posted;
    source_event_id = none;
    source_service = none;
    correlation_id = none;
    accounting_date = date_of c.now;
    reverses_entry_id = some e.id;
    posted_at = some c.now;
    created_by = none;
    entity_id = default_entity;
    counterparty_entity_id = none;
    lines = rows;
  }

  unfoldable pub reverse_tx : ℕ → String → Option AuditInfo → Action D ℕ
  reverse_tx original reason audit = do
    e ← or_raise (← gets (λ s. entry_by_id original s.entries)) entry_not_found
    raise_if (not (is_posted e.status)) not_reversible
    number ← next_entry_number
    rows ← lift (mirror_lines e.lines)
    id ← gets (λ s. s.next_id)
    modify (λ s. record s {
      entries =
          reversal_entry e reason number id rows ∷ update_entry original as_reversed s.entries;
      next_id = s.next_id + 1;
    })
    append_audit c audit
    assert_balanced id
    pure id

  -- repository.ReverseEntry
  unfoldable pub reverse_entry : ℕ → String → Option AuditInfo → Action D (Option (JournalEntry D))
  unfolding reverse_tx
  reverse_entry original reason audit = do
    id ← transaction (reverse_tx original reason audit)
    gets (λ s. entry_by_id id s.entries)

  -- Service.ReverseJournalEntry
  unfoldable pub reverse_journal_entry : ℕ → String → String → Action D (Option (JournalEntry D))
  unfolding reverse_entry
  reverse_journal_entry id reason actor = reverse_entry id reason (
      some (record {
        actor = actor_or_system actor;
        event_type = "ledger.reversed";
        message = concat "reversed entry " (concat (c.show_id id) (concat ": " reason));
      }))
