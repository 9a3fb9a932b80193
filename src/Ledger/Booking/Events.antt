-- ===== src/Ledger/Booking/Events.antt =====
-- Booking of an event: BookFromEvent of internal/ledger/service.go and describeDeferral of
-- internal/ledger/eventdate.go.
use iag_finance.Base.{String, not, Option, none, some, List, if◌then◌else◌, concat}
use iag_finance.Calendar.{date_of}
use iag_finance.Decimal.{Decimal}
use iag_finance.Store.{
  JournalEntry, CreateJournalParams, LineInput, ResolvedLine, Context, Action, empty_entry, gets,
  lift, raise_if, ◌>>=◌, ◌>>◌,
}
use iag_finance.Ledger.Lines.{validate_balance, resolve_lines}
use iag_finance.Ledger.Periods.{EventRef, PostingWindow, resolve_posting_window}
use iag_finance.Ledger.Rates.{rate_or_one}
use iag_finance.Ledger.Booking.{book_posted_entry, no_side, is_empty, optional_string}

unfoldable pub describe_deferral : Context → String → PostingWindow → String
describe_deferral c description w =
    if not w.deferred
    then description
    else concat description (
        concat " [dated " (
          concat (c.show_date w.transaction_time)
            (concat "; period closed, filed " (concat (c.show_date w.accounting) "]"))))

module _ {D : Type 0} ⦃dec : Decimal D⦄ (c : Context) where
  -- What BookFromEvent books: the entry of the event, dated by the window.
  abbrev pub event_params :
      EventRef → String → String → D → PostingWindow → List (ResolvedLine D) → CreateJournalParams D
  event_params ref description currency fx_rate window resolved = record {
    description = description;
    source_event_id = some ref.id;
    source_service = optional_string ref.source;
    correlation_id = optional_string ref.correlation_id;
    created_by = none;
    accounting_date = some window.accounting;
    currency = currency;
    fx_rate = fx_rate;
    lines = resolved;
    counterparty_entity_id = none;
  }

  unfoldable pub book_from_event :
      EventRef → String → String → List (LineInput D) → Action D (Option (JournalEntry D))
  book_from_event ref description currency lines = do
    raise_if (is_empty lines) empty_entry
    lift (validate_balance lines)
    resolved ← (λ s. (resolve_lines s.accounts lines, s))
    window ← (λ s. (resolve_posting_window c.now ref s.periods, s))
    let described = describe_deferral c description window
    fx_rate ←
        gets (λ s. rate_or_one c.base_currency currency (date_of window.transaction_time) s.rates)
    book_posted_entry c (event_params ref described currency fx_rate window resolved) ref.id
        ref.event_type c.now (no_side c)
        (some (record {
          actor = concat "system:" ref.source;
          event_type = "ledger.booked";
          message =
              concat ref.event_type
                (concat " booked from " (concat ref.source (concat " (" (concat described ")"))));
        }))
