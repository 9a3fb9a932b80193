-- ===== src/Approvals/Execute.antt =====
-- The action that an approval allows.
use iag_finance.Base.{ℕ, String, Bool, true, false, Option, none, some, if◌then◌else◌}
use iag_finance.Decimal.{Decimal}
use iag_finance.Store.{
  Approval, ApprovalStatus, ApprovalTarget, journal, payment, unknown_target, executed,
  JournalEntry, Context, Action, approval_not_found, unknown_target_type, pure, raise, gets, modify,
  or_raise, ◌>>=◌, ◌>>◌,
}
use iag_finance.Ledger.Entries.{post_journal_entry}
use iag_finance.Payments.Journal.{apply_item_payment}
use iag_finance.Approvals.Tiers.{Texts, ApprovalProgress}
use iag_finance.Approvals.Sign.{find_approval, update_approval, record_approval_tier}

abbrev pub is_executed : ApprovalStatus → Bool
is_executed executed = true
is_executed _ = false

module _ {D : Type 0} where
  abbrev pub as_executed : String → Approval D → Approval D
  as_executed ref a = record a { status = executed; result_ref = ref }

  unfoldable pub mark_approval_executed : ℕ → String → Action D (Unit {0})
  mark_approval_executed id ref =
      modify (λ s. record s { approvals = update_approval id (as_executed ref) s.approvals })

module _ {D : Type 0} ⦃dec : Decimal D⦄ (c : Context) where
  abbrev pub result_of : Option (JournalEntry D) → String
  result_of none = ""
  result_of (some e) = c.show_number e.entry_number

  -- The post or the payment, and the reference that it results in.
  unfoldable pub run_target : Approval D → String → ApprovalTarget → Action D String
  run_target a actor (journal entry) = post_journal_entry c entry actor >>= λ e. pure (result_of e)
  run_target a actor (payment direction item ref) =
      apply_item_payment c direction item a.amount a.currency ref actor none >>= λ _. pure ref
  run_target a actor unknown_target = raise unknown_target_type

  unfoldable pub execute_approval : ℕ → String → Action D (Unit {0})
  unfolding run_target mark_approval_executed
  execute_approval id actor = do
    a ← or_raise (← gets (λ s. find_approval id s.approvals)) approval_not_found
    if is_executed a.status
        then pure tt
        else (run_target a actor a.target >>= λ ref. mark_approval_executed id ref)

module _ {D : Type 0} ⦃dec : Decimal D⦄ (c : Context) (txt : Texts) where
  -- Service.ApproveApproval
  unfoldable pub approve_approval :
      ℕ → String → (String → Bool) → String → Action D (Approval D × ApprovalProgress)
  unfolding execute_approval
  approve_approval id actor has_perm note = do
    (finalize, progress) ← record_approval_tier c txt id actor has_perm note
    if finalize then execute_approval c id actor else pure tt
    a ← or_raise (← gets (λ s. find_approval id s.approvals)) approval_not_found
    pure (a, progress)
