-- ===== src/Examples/Approving.antt =====
-- An approval of one tier.
use iag_finance.Base.{String, ◌≡◌, refl, Bool, true, none, [], ◌∷◌, str_eq}
use iag_finance.Base.Int.{ℤ}
use iag_finance.Decimal.Fixed.{fixed}
use iag_finance.Store.{
  Store, Approval, pending, journal, ok, err, approval_conflict, entry_not_found,
}
use iag_finance.Approvals.Tiers.{Texts, ApprovalProgress}
use iag_finance.Approvals.Sign.{find_approval, record_approval_tier}
use iag_finance.Approvals.Execute.{approve_approval}
use iag_finance.Approvals.Authority.{AllSigned, all_signed, is_signed}
use iag_finance.Approvals.Authority.Execution.{IsApproved, approve_approval-AllSigned}
use iag_finance.Approvals.Authority.Duties.{approve_approval-stuck}
use iag_finance.Approvals.Authority.Separation.{
  AllSeparate, all_separate, is_separate, is_other, is_first, requester_of,
  approve_approval-AllSeparate,
}
use iag_finance.Examples.Data.{units, ctx, empty_store}

abbrev texts : Texts
texts = record { trim_space = λ s. s; equal_fold = str_eq; lower = λ s. s }

abbrev request : Approval ℤ
request = record {
  id = 1;
  target = journal 1;
  amount = units 5;
  currency = "UGX";
  status = pending;
  requested_by = "bob";
  description = "";
  result_ref = "";
  decided_at = none;
}

abbrev with_request : Store ℤ
with_request = record empty_store {
  approvals = request ∷ [];
  tiers = (record { tier = 1; min_amount = units 1; required_perm = "t1" }) ∷ [];
}

abbrev has_all : String → Bool
has_all _ = true

with_request-AllSigned : AllSigned with_request
unfolding all_signed is_signed
with_request-AllSigned = refl

approve_approval-AllSigned_example :
    AllSigned (approve_approval ctx texts 1 "ann" has_all "" with_request).1
approve_approval-AllSigned_example =
    approve_approval-AllSigned ctx texts 1 "ann" has_all "" with_request with_request-AllSigned

-- One of two tiers has signed.
abbrev half_signed : Store ℤ
half_signed = record with_request {
  tiers =
      (record { tier = 1; min_amount = units 1; required_perm = "t1" })
      ∷ ((record { tier = 2; min_amount = units 2; required_perm = "t2" }) ∷ []);
  decisions =
      (record { approval_id = 1; tier = 1; actor = "carol"; approves = true; note = "" }) ∷ [];
}

half_signed-AllSeparate : AllSeparate texts half_signed
unfolding all_separate is_separate is_other is_first requester_of str_eq
half_signed-AllSeparate = refl

approve_approval-AllSeparate_example :
    AllSeparate texts (approve_approval ctx texts 1 "ann" has_all "" half_signed).1
approve_approval-AllSeparate_example =
    approve_approval-AllSeparate ctx texts 1 "ann" has_all "" half_signed half_signed-AllSeparate

-- The entry of the request does not exist, so its action fails.
abbrev last_signed : Store ℤ
last_signed = (record_approval_tier ctx texts 1 "ann" has_all "" with_request).1

abbrev last_progress : ApprovalProgress
last_progress = record {
  required_tiers = 1 ∷ [];
  approved_tiers = 1 ∷ [];
  next_tier = none;
  next_perm = "";
  complete = true;
}

last_signature :
    record_approval_tier ctx texts 1 "ann" has_all "" with_request
    ≡ (ok (true, last_progress), last_signed)
unfolding record_approval_tier iag_finance.Approvals.Sign.record_tx
    iag_finance.Approvals.Sign.sign_and_decide iag_finance.Approvals.Sign.decide
    iag_finance.Approvals.Sign.add_decision iag_finance.Approvals.Sign.update_approval find_approval
    iag_finance.Approvals.Tiers.required_approval_tiers
    iag_finance.Approvals.Tiers.approved_approval_tiers
    iag_finance.Approvals.Tiers.next_unsigned_tier iag_finance.Approvals.Tiers.all_approval_tiers
    iag_finance.Approvals.Tiers.contains_approval_tier iag_finance.Approvals.Tiers.insert_tier
    iag_finance.Approvals.Tiers.actor_approved iag_finance.Approvals.Tiers.has_approved
    iag_finance.Approvals.Tiers.same_approval_actor
    iag_finance.Approvals.Tiers.build_approval_progress str_eq iag_finance.Decimal.Fixed.compare_ℤ
last_signature = refl

failed_execution :
    approve_approval ctx texts 1 "ann" has_all "" with_request ≡ (err entry_not_found, last_signed)
unfolding approve_approval iag_finance.Approvals.Execute.execute_approval
    iag_finance.Approvals.Execute.run_target iag_finance.Approvals.Execute.mark_approval_executed
    iag_finance.Ledger.Entries.post_journal_entry iag_finance.Ledger.Booking.entry_by_id
    record_approval_tier iag_finance.Approvals.Sign.record_tx
    iag_finance.Approvals.Sign.sign_and_decide iag_finance.Approvals.Sign.decide
    iag_finance.Approvals.Sign.add_decision iag_finance.Approvals.Sign.update_approval find_approval
    iag_finance.Approvals.Tiers.required_approval_tiers
    iag_finance.Approvals.Tiers.approved_approval_tiers
    iag_finance.Approvals.Tiers.next_unsigned_tier iag_finance.Approvals.Tiers.all_approval_tiers
    iag_finance.Approvals.Tiers.contains_approval_tier iag_finance.Approvals.Tiers.insert_tier
    iag_finance.Approvals.Tiers.actor_approved iag_finance.Approvals.Tiers.has_approved
    iag_finance.Approvals.Tiers.same_approval_actor
    iag_finance.Approvals.Tiers.build_approval_progress str_eq iag_finance.Decimal.Fixed.compare_ℤ
failed_execution = refl

approve_approval-stuck_example :
    IsApproved (find_approval 1 last_signed.approvals)
    × (approve_approval ctx texts 1 "dan" has_all "again" last_signed
        ≡ (err approval_conflict, last_signed))
approve_approval-stuck_example =
    approve_approval-stuck ctx texts 1 "ann" "dan" has_all has_all "" "again" with_request
      last_signed last_signed last_progress entry_not_found last_signature failed_execution
