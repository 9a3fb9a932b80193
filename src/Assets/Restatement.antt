-- ===== src/Assets/Restatement.antt =====
-- Impairment and revaluation: internal/repository/fixed_assets_ias16.go, and the calls of them in
-- internal/ledger/fixed_assets.go.
pub mod Register
pub mod Carrying
use iag_finance.Base.{
  ℕ, String, true, false, not, Option, none, some, List, [], ◌∷◌, ◌++◌, if◌then◌else◌, concat, ◌==◌,
}
use iag_finance.Calendar.{Time, date_of}
use iag_finance.Decimal.{
  Decimal, nought, add, sub, neg, round, is_zero, is_positive, is_negative, less_than, greater_than,
  less_than_or_equal,
}
use iag_finance.Store.{
  FixedAsset, Impairment, Revaluation, CreateJournalParams, ResolvedLine, AuditInfo, Store, Context,
  Action, asset_not_found, asset_inactive, no_impairment, duplicate_event_repo, pure, gets, modify,
  raise_if, or_raise, transaction, ◌>>=◌, ◌>>◌,
}
use iag_finance.Audit.{append_audit}
use iag_finance.Ledger.Booking.{
  is_event_processed, mark_processed, next_entry_number, insert_posted_entry, assert_balanced,
}
use iag_finance.Ledger.Entries.{actor_or_system}
use iag_finance.Ledger.Periods.{guard_open}
use iag_finance.Assets.Lines.{DisposalLine, line_if, add_lines}
use iag_finance.Assets.Register.{find_asset}
use iag_finance.Assets.Depreciation.{accumulate}
use iag_finance.Assets.Rows.{
  update_asset, lock_asset, net_book_value, impairment_lines, reversal_lines, surplus_of,
  from_surplus, decrease_lines, revaluation_lines, restate_cost, add_impairment, add_revaluation,
  adjustment_params,
}

-- What the entry of an adjustment says: its event, the event's type, its description and its date.
pub record Notice : Type 0 where
  pub event_id : String
  pub event_type : String
  pub description : String
  pub effective : Time

abbrev pub event_of : Context → String → String → Time → String
event_of c kind ref effective = concat kind (concat ref (concat ":" (c.show_date effective)))

abbrev pub by_actor : String → String → String → Option AuditInfo
by_actor actor event_type message =
    some (record { actor = actor_or_system actor; event_type = event_type; message = message })

module _ {D : Type 0} ⦃dec : Decimal D⦄ (c : Context) where
  -- postAssetAdjustment, after resolveTxLines.
  unfoldable pub post_asset_adjustment : Notice → List (DisposalLine D) → Action D ℕ
  post_asset_adjustment n lines = do
    resolved ← (λ s. (add_lines s.accounts 0 lines, s))
    number ← next_entry_number
    entry ←
        insert_posted_entry c (adjustment_params n.event_id n.description n.effective resolved)
          number n.effective
    won ← mark_processed n.event_id n.event_type
    raise_if (not won) duplicate_event_repo
    pure entry

  -- The end that the three transactions share: the entry, the row of the asset, the row of its
  -- history, and the audit entry.
  unfoldable pub adjust_asset :
      Notice
      → List (DisposalLine D)
      → ℕ
      → (FixedAsset D → FixedAsset D)
      → (Store D → Store D)
      → Option AuditInfo
      → Action D (Unit {0})
  adjust_asset n lines id f write audit = do
    entry ← post_asset_adjustment n lines
    modify (λ s. record s { assets = update_asset id f s.assets })
    modify write
    append_audit c audit
    assert_balanced entry

  -- The row after the transaction, or of a call that was processed before.
  abbrev pub once : String → String → Action D (Unit {0}) → Action D (Option (FixedAsset D))
  once event_id ref tx = do
    processed ← gets (λ s. is_event_processed event_id s.processed)
    (if processed then pure tt else transaction tx)
    gets (λ s. find_asset ref s.assets)

  unfoldable pub impairment_tx : String → D → Notice → Option AuditInfo → Action D (Unit {0})
  impairment_tx ref recoverable n audit = do
    a ← lock_asset ref
    raise_if (not a.active) asset_inactive
    let loss = sub (net_book_value a) recoverable
    raise_if (less_than_or_equal loss nought) no_impairment
    adjust_asset n (impairment_lines ref loss) a.id (accumulate loss)
        (add_impairment (record {
          asset_id = a.id;
          effective_date = date_of n.effective;
          recoverable_amount = round 2 recoverable;
          impairment_loss = round 2 loss;
          is_reversal = false;
        }))
        audit

  -- BookImpairment
  unfoldable pub book_impairment :
      String → D → Time → Option AuditInfo → Action D (Option (FixedAsset D))
  book_impairment ref recoverable effective audit =
      let event_id = event_of c "fa.impair:" ref effective in
      once event_id ref (
        impairment_tx ref recoverable
          (record {
            event_id = event_id;
            event_type = "finance.asset.impair";
            description = concat "Impairment " ref;
            effective = effective;
          })
          audit)

  abbrev pub reversible : D → FixedAsset D → D
  reversible amount a =
      if greater_than amount a.accumulated_depreciation then a.accumulated_depreciation else amount

  -- accumulated_depreciation - $2
  abbrev pub release : D → FixedAsset D → FixedAsset D
  release amount a = record a {
    accumulated_depreciation = round 2 (sub a.accumulated_depreciation amount);
  }

  unfoldable pub reversal_tx : String → D → Notice → Option AuditInfo → Action D (Unit {0})
  reversal_tx ref requested n audit = do
    a ← lock_asset ref
    raise_if (not a.active) asset_inactive
    let amount = reversible requested a
    raise_if (less_than_or_equal amount nought) no_impairment
    adjust_asset n (reversal_lines ref amount) a.id (release amount)
        (add_impairment (record {
          asset_id = a.id;
          effective_date = date_of n.effective;
          recoverable_amount = nought;
          impairment_loss = round 2 (neg amount);
          is_reversal = true;
        }))
        audit

  -- ReverseImpairment
  unfoldable pub reverse_impairment :
      String → D → Time → Option AuditInfo → Action D (Option (FixedAsset D))
  reverse_impairment ref amount effective audit =
      let event_id = event_of c "fa.impair.rev:" ref effective in
      once event_id ref (
        reversal_tx ref amount
          (record {
            event_id = event_id;
            event_type = "finance.asset.impair.reverse";
            description = concat "Impairment reversal " ref;
            effective = effective;
          })
          audit)

  unfoldable pub revaluation_tx : String → D → Notice → Option AuditInfo → Action D (Unit {0})
  revaluation_tx ref new_carrying n audit = do
    a ← lock_asset ref
    raise_if (not a.active) asset_inactive
    let delta = sub new_carrying (net_book_value a)
    raise_if (is_zero delta) no_impairment
    surplus ← gets (λ s. surplus_of a.id s.revaluations)
    adjust_asset n (revaluation_lines ref delta surplus) a.id (restate_cost delta)
        (add_revaluation (record {
          asset_id = a.id;
          effective_date = date_of n.effective;
          new_carrying_amount = round 2 new_carrying;
          surplus_delta = round 2 delta;
        }))
        audit

  -- BookRevaluation
  unfoldable pub book_revaluation :
      String → D → Time → Option AuditInfo → Action D (Option (FixedAsset D))
  book_revaluation ref new_carrying effective audit =
      let event_id = event_of c "fa.revalue:" ref effective in
      once event_id ref (
        revaluation_tx ref new_carrying
          (record {
            event_id = event_id;
            event_type = "finance.asset.revalue";
            description = concat "Revaluation " ref;
            effective = effective;
          })
          audit)

  -- ImpairAsset
  unfoldable pub impair_asset : String → D → Time → String → Action D (Option (FixedAsset D))
  impair_asset ref recoverable effective actor = do
    guard_open effective
    book_impairment ref recoverable effective
        (by_actor actor "finance.asset.impair" (concat "impair " ref))

  -- ReverseImpairment of internal/ledger/fixed_assets.go
  unfoldable pub reverse_asset : String → D → Time → String → Action D (Option (FixedAsset D))
  reverse_asset ref amount effective actor = do
    guard_open effective
    reverse_impairment ref amount effective
        (by_actor actor "finance.asset.impair.reverse" (concat "reverse impairment " ref))

  -- RevalueAsset
  unfoldable pub revalue_asset : String → D → Time → String → Action D (Option (FixedAsset D))
  revalue_asset ref new_carrying effective actor = do
    guard_open effective
    book_revaluation ref new_carrying effective
        (by_actor actor "finance.asset.revalue" (concat "revalue " ref))
