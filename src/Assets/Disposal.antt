-- ===== src/Assets/Disposal.antt =====
-- The disposal of an asset: BookAssetDisposalSubledger and MarkFixedAssetDisposedTx of
-- internal/repository/fixed_assets.go, BookAssetDisposal of internal/ledger/assetdisposal.go.
use iag_finance.Base.{
  ℕ, String, Bool, true, false, not, ◌&&◌, Option, none, some, List, [], ◌∷◌, if◌then◌else◌, str_eq,
  concat,
}
use iag_finance.Calendar.{Time, date_of}
use iag_finance.Decimal.{Decimal, nought, is_negative}
use iag_finance.Store.{
  FixedAsset, JournalEntry, CreateJournalParams, ResolvedLine, AuditInfo, Store, Context, Action,
  Result, ok, err, pure, gets, modify, ◌>>=◌, ◌>>◌,
}
use iag_finance.Audit.{append_audit}
use iag_finance.Ledger.Booking.{
  is_event_processed, entry_by_source_event, entry_by_id, mark_processed, next_entry_number,
  insert_posted_entry, assert_balanced, catch_unique, optional_string, is_empty,
}
use iag_finance.Ledger.Booking.Events.{book_from_event, describe_deferral}
use iag_finance.Ledger.Periods.{EventRef, PostingWindow, resolve_posting_window}
use iag_finance.Ledger.Rates.{rate_or_one}
use iag_finance.Assets.Lines.{DisposalLine, disposal_lines, fallback_lines, add_lines, input_lines}
use iag_finance.Assets.Register.{find_asset}

module _ {D : Type 0} ⦃dec : Decimal D⦄ where
  -- UPDATE fa_assets SET status = 'disposed' WHERE asset_ref = $1
  unfoldable pub dispose : String → List (FixedAsset D) → List (FixedAsset D)
  dispose ref [] = []
  dispose ref (a ∷ as') =
      (if str_eq a.asset_ref ref then record a { active = false } else a) ∷ dispose ref as'

  -- MarkFixedAssetDisposedTx, which asks for an active row.
  unfoldable pub mark_fixed_asset_disposed : String → List (FixedAsset D) → List (FixedAsset D)
  mark_fixed_asset_disposed ref [] = []
  mark_fixed_asset_disposed ref (a ∷ as') =
      (if str_eq a.asset_ref ref && a.active then record a { active = false } else a)
      ∷ mark_fixed_asset_disposed ref as'

-- The arguments of BookAssetDisposalSubledger.
pub record DisposalParams (D : Type 0) : Type 0 where
  pub event_id : String
  pub event_type : String
  pub source : String
  pub correlation_id : String
  pub currency : String
  pub asset_ref : String
  pub description : String
  pub proceeds : D
  pub accounting_date : Time
  pub fx_rate : D

module _ {D : Type 0} ⦃dec : Decimal D⦄ (c : Context) where
  abbrev pub disposal_entry : DisposalParams D → List (ResolvedLine D) → CreateJournalParams D
  disposal_entry p lines = record {
    description = p.description;
    source_event_id = optional_string p.event_id;
    source_service = optional_string p.source;
    correlation_id = optional_string p.correlation_id;
    created_by = none;
    accounting_date = some p.accounting_date;
    currency = p.currency;
    fx_rate = p.fx_rate;
    lines = lines;
    counterparty_entity_id = none;
  }

  abbrev pub write_disposal : DisposalParams D → Option AuditInfo → ℕ → Action D (Option ℕ)
  write_disposal p audit id = do
    modify (λ s. record s { assets = dispose p.asset_ref s.assets })
    append_audit c audit
    assert_balanced id
    pure (some id)

  -- `none` is a race lost to another booking of the event.
  abbrev pub finish_disposal : DisposalParams D → Option AuditInfo → Option ℕ → Action D (Option ℕ)
  finish_disposal p audit none = pure none
  finish_disposal p audit (some id) = do
    won ← (if str_eq p.event_id "" then pure true else mark_processed p.event_id p.event_type)
    if won then write_disposal p audit id else pure none

  unfoldable pub disposal_tx :
      DisposalParams D → Option AuditInfo → FixedAsset D → Action D (Option ℕ)
  disposal_tx p audit a = do
    lines ← (λ s. (
      add_lines s.accounts 0
          (disposal_lines p.asset_ref p.proceeds a.cost a.accumulated_depreciation),
      s,
    ))
    number ← next_entry_number
    inserted ←
        catch_unique (str_eq p.event_id "")
          (insert_posted_entry c (disposal_entry p lines) number c.now)
    finish_disposal p audit inserted

  -- Commit, or roll back and return the entry that won the race.
  abbrev pub conclude_disposal :
      String
      → Store D
      → Result (Option ℕ) × Store D
      → Result (Option (JournalEntry D) × Bool) × Store D
  conclude_disposal event_id s (ok (some id), t) = (ok (entry_by_id id t.entries, true), t)
  conclude_disposal event_id s (ok none, t) = (
    ok (entry_by_source_event event_id s.entries, true),
    record s { next_number = t.next_number },
  )
  conclude_disposal event_id s (err e, t) = (err e, record s { next_number = t.next_number })

  -- The entry, and whether the register knows the asset.
  unfoldable pub dispose_found :
      DisposalParams D
      → Option AuditInfo
      → Option (FixedAsset D)
      → Action D (Option (JournalEntry D) × Bool)
  dispose_found p audit none = pure (none, false)
  dispose_found p audit (some a) = if not a.active then pure (none, true) else λ s.
      conclude_disposal p.event_id s (disposal_tx p audit a s)

  unfoldable pub book_asset_disposal_subledger :
      DisposalParams D → Option AuditInfo → Action D (Option (JournalEntry D) × Bool)
  book_asset_disposal_subledger p audit s =
      if not (str_eq p.event_id "") && is_event_processed p.event_id s.processed
      then (ok (entry_by_source_event p.event_id s.entries, true), s)
      else dispose_found p audit (find_asset p.asset_ref s.assets) s

  abbrev pub floored : D → D
  floored a = if is_negative a then nought else a

  abbrev pub book_fallback :
      EventRef → String → String → List (DisposalLine D) → Action D (Option (JournalEntry D))
  book_fallback ref description currency lines =
      if is_empty lines
      then pure none
      else book_from_event c ref description currency (input_lines lines)

  abbrev pub disposal_params :
      EventRef → String → String → String → D → PostingWindow → D → DisposalParams D
  disposal_params ref currency tag description proceeds window fx_rate = record {
    event_id = ref.id;
    event_type = ref.event_type;
    source = ref.source;
    correlation_id = ref.correlation_id;
    currency = currency;
    asset_ref = tag;
    description = description;
    proceeds = proceeds;
    accounting_date = window.accounting;
    fx_rate = fx_rate;
  }

  unfoldable pub dispose_asset :
      EventRef → String → String → String → D → D → Action D (Option (JournalEntry D))
  dispose_asset ref currency tag method proceeds book_value = do
    window ← (λ s. (resolve_posting_window c.now ref s.periods, s))
    let description =
        describe_deferral c
          (concat "Asset disposal " (concat tag (concat " (" (concat method ")")))) window
    fx_rate ←
        gets (λ s. rate_or_one c.base_currency currency (date_of window.transaction_time) s.rates)
    (entry, handled) ←
        book_asset_disposal_subledger
          (disposal_params ref currency tag description proceeds window fx_rate)
          (some (record {
            actor = concat "system:" ref.source;
            event_type = "ledger.asset.disposed";
            message = description;
          }))
    if handled
        then pure entry
        else book_fallback ref description currency (fallback_lines tag proceeds book_value)

  -- BookAssetDisposal
  unfoldable pub book_asset_disposal :
      EventRef → String → String → String → D → D → Action D (Option (JournalEntry D))
  book_asset_disposal ref currency tag method proceeds book_value =
      dispose_asset ref (if str_eq currency "" then c.base_currency else currency) tag method
        (floored proceeds) (floored book_value)
