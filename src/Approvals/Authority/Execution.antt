-- ===== src/Approvals/Authority/Execution.antt =====
-- The execution of an approval touches no approval, and only what is fully signed is executed.
use iag_finance.Base.{
  ℕ, String, ◌≡◌, refl, Bool, true, false, Option, none, some, List, [], ◌∷◌, arith,
}
use iag_finance.Calendar.{Time}
use iag_finance.Decimal.{Decimal}
use iag_finance.Store.{
  Approval, ApprovalStatus, ApprovalTarget, ApprovalTier, Decision, journal, payment,
  unknown_target, approved, Direction, ar, ap, ItemStatus, OpenItem, ResolvedLine, OutboxEvent,
  AuditInfo, Store, Context, Result, ok, err,
}
use iag_finance.Audit.{append_audit, append_chain}
use iag_finance.Ledger.Booking.{
  next_entry_number, insert_posted_entry, mark_processed, assert_balanced,
}
use iag_finance.Ledger.Entries.{mark_posted, mark_entry_posted, post_journal_entry}
use iag_finance.Payments.Apply.{update_item, insert_payment, enqueue_outbox, enqueue_if}
use iag_finance.Payments.Journal.{
  PaymentWithJournalParams, book_payment, record_payment, payment_tx, apply_payment_with_journal,
  apply_item_payment, pay_item, payment_params, payment_audit,
}
use iag_finance.Approvals.Tiers.{Texts, ApprovalProgress}
use iag_finance.Approvals.Sign.{
  find_approval, update_approval, set_status, decide, add_decision, sign_and_decide, record_tx,
  record_approval_tier,
}
use iag_finance.Approvals.Execute.{
  as_executed, mark_approval_executed, run_target, execute_approval, approve_approval,
}
use iag_finance.Approvals.Authority.{
  AllSigned, is_signed, all_signed, update-all_signed, record_approval_tier-AllSigned,
}

module _ {D : Type 0} where
  abbrev pub SameApprovals : Store D → Store D → Type 0
  SameApprovals s t =
      (t.approvals ≡ s.approvals) × (t.tiers ≡ s.tiers) × (t.decisions ≡ s.decisions)

module _ {D : Type 0} ⦃dec : Decimal D⦄ (c : Context) where
  append_audit-approvals :
      (a : Option AuditInfo) (s : Store D) → SameApprovals s (append_audit c a s).1
  unfolding append_audit append_chain
  append_audit-approvals none s = (refl, refl, refl)
  append_audit-approvals (some a) s = ground arith

  enqueue_if-approvals : (o : Option OutboxEvent) (s : Store D) → SameApprovals s (enqueue_if o s).1
  unfolding enqueue_outbox
  enqueue_if-approvals none s = (refl, refl, refl)
  enqueue_if-approvals (some ev) s = ground arith

  book_payment-approvals :
      (p : PaymentWithJournalParams D) (s : Store D) → SameApprovals s (book_payment c p s).1
  unfolding book_payment next_entry_number insert_posted_entry mark_processed
  book_payment-approvals p s = ground arith

  update_item-approvals :
      (d : Direction) (id : ℕ) (paid : D) (status : ItemStatus) (s : Store D)
      → SameApprovals s (update_item d id paid status s).1
  unfolding update_item
  update_item-approvals ar id paid status s = (refl, refl, refl)
  update_item-approvals ap id paid status s = (refl, refl, refl)

  record_payment-approvals :
      (p : PaymentWithJournalParams D) (audit : Option AuditInfo) (entry : ℕ) (s : Store D)
      → SameApprovals s (record_payment c p audit entry s).1
  unfolding record_payment insert_payment assert_balanced
  record_payment-approvals p audit entry s =
      grind (arith, append_audit-approvals, enqueue_if-approvals)

  payment-approvals :
      (p : PaymentWithJournalParams D) (audit : Option AuditInfo) (s : Store D)
      → SameApprovals s (apply_payment_with_journal c p audit s).1
  unfolding apply_payment_with_journal payment_tx
  payment-approvals p audit s =
      grind (arith, book_payment-approvals, update_item-approvals, record_payment-approvals)

  pay_item-approvals :
      (d : Direction) (id : ℕ) (i : OpenItem D) (amount : D) (paid_in ref actor : String)
      (outbox : Option OutboxEvent) (doc_rate : D) (lines : List (ResolvedLine D)) (s : Store D)
      → SameApprovals s (pay_item c d id i amount paid_in ref actor outbox doc_rate lines s).1
  unfolding pay_item
  pay_item-approvals d id i amount paid_in ref actor outbox doc_rate lines s = ground (
    arith,
    payment-approvals (payment_params c d i amount paid_in ref doc_rate lines outbox)
        (some (payment_audit c d i amount paid_in ref actor)) s,
  )

  item_payment-approvals :
      (d : Direction) (id : ℕ) (amount : D) (currency ref actor : String)
      (outbox : Option OutboxEvent) (s : Store D)
      → SameApprovals s (apply_item_payment c d id amount currency ref actor outbox s).1
  unfolding apply_item_payment
  item_payment-approvals d id amount currency ref actor outbox s = grind (arith, pay_item-approvals)

  mark_entry_posted-approvals :
      (id : ℕ) (at : Time) (audit : Option AuditInfo) (s : Store D)
      → SameApprovals s (mark_entry_posted c id at audit s).1
  unfolding mark_entry_posted mark_posted assert_balanced
  mark_entry_posted-approvals id at audit s = grind (arith, append_audit-approvals)

  post-approvals :
      (id : ℕ) (actor : String) (s : Store D) → SameApprovals s (post_journal_entry c id actor s).1
  unfolding post_journal_entry
  post-approvals id actor s = grind (arith, mark_entry_posted-approvals)

  pub run_target-approvals :
      (a : Approval D) (actor : String) (t : ApprovalTarget) (s : Store D)
      → SameApprovals s (run_target c a actor t s).1
  unfolding run_target
  run_target-approvals a actor (journal id) s = grind (arith, post-approvals)
  run_target-approvals a actor (payment d item ref) s = grind (arith, item_payment-approvals)
  run_target-approvals a actor unknown_target s = (refl, refl, refl)

module _ {D : Type 0} where
  -- The status of an approval in a table.
  abbrev pub IsApproved : Option (Approval D) → Type 0
  IsApproved none = ⊥
  IsApproved (some a) = a.status ≡ approved

  abbrev pub Finalized : ℕ → Result (Bool × ApprovalProgress) × Store D → Type 0
  Finalized id (ok (true, _), t) = IsApproved (find_approval id t.approvals)
  Finalized id (ok (false, _), t) = Unit
  Finalized id (err _, t) = Unit

module _ {D : Type 0} ⦃dec : Decimal D⦄ (c : Context) where
  find-update :
      (id : ℕ) (status : ApprovalStatus) (at : Time) (as' : List (Approval D)) (a : Approval D)
      → find_approval id as' ≡ some a
      → find_approval id (update_approval id (set_status status at) as')
        ≡ some (set_status status at a)
  unfolding find_approval update_approval
  find-update id status at [] a h = ground arith
  find-update id status at (x ∷ as') a h = ground (arith, find-update id status at as' a)

  sign_and_decide-Finalized :
      (txt : Texts) (id : ℕ) (actor : String) (has_perm : String → Bool) (note : String)
      (required : List (ApprovalTier D)) (signed : List ℕ) (next : Option (ApprovalTier D))
      (a : Approval D) (s : Store D)
      → find_approval id s.approvals ≡ some a
      → Finalized id (sign_and_decide c txt id actor has_perm note required signed next s)
  unfolding sign_and_decide decide add_decision
  sign_and_decide-Finalized txt id actor has_perm note required signed none a s found =
      ground (arith, find-update id approved c.now s.approvals a)
  sign_and_decide-Finalized txt id actor has_perm note required signed (some t) a s found =
      ground (arith, find-update id approved c.now s.approvals a)

  pub record-Finalized :
      (txt : Texts) (id : ℕ) (actor : String) (has_perm : String → Bool) (note : String)
      (s : Store D)
      → Finalized id (record_approval_tier c txt id actor has_perm note s)
  unfolding record_approval_tier record_tx
  record-Finalized txt id actor has_perm note s = grind (arith, sign_and_decide-Finalized)

  found-is_signed :
      (tiers : List (ApprovalTier D)) (ds : List Decision) (id : ℕ) (as' : List (Approval D))
      (a : Approval D)
      → find_approval id as' ≡ some a
      → all_signed tiers ds as' ≡ true
      → is_signed tiers ds a ≡ true
  unfolding find_approval all_signed
  found-is_signed tiers ds id [] a h b = ground arith
  found-is_signed tiers ds id (x ∷ as') a h b = ground (arith, found-is_signed tiers ds id as' a)

  executed-is_signed :
      (tiers : List (ApprovalTier D)) (ds : List Decision) (ref : String) (a : Approval D)
      → a.status ≡ approved
      → is_signed tiers ds a ≡ true
      → is_signed tiers ds (as_executed ref a) ≡ true
  unfolding is_signed
  executed-is_signed tiers ds ref a is h = ground arith

  mark_executed-AllSigned :
      (id : ℕ) (ref : String) (a : Approval D) (s : Store D)
      → find_approval id s.approvals ≡ some a
      → a.status ≡ approved
      → AllSigned s
      → AllSigned (mark_approval_executed id ref s).1
  unfolding mark_approval_executed
  mark_executed-AllSigned id ref a s found is b =
      update-all_signed s.tiers s.decisions id (as_executed ref) s.approvals a found
        (executed-is_signed s.tiers s.decisions ref a is
          (found-is_signed s.tiers s.decisions id s.approvals a found b))
        b

  execute_approval-AllSigned :
      (id : ℕ) (actor : String) (s : Store D)
      → IsApproved (find_approval id s.approvals)
      → AllSigned s
      → AllSigned (execute_approval c id actor s).1
  unfolding execute_approval
  execute_approval-AllSigned id actor s is b =
      grind (arith, run_target-approvals, mark_executed-AllSigned)

module _ {D : Type 0} ⦃dec : Decimal D⦄ (c : Context) (txt : Texts) where
  -- If every approval that is approved or executed has the signatures of all the tiers that its
  -- amount needs, so it is after an approval is signed and, with the last signature, its post or
  -- payment is executed, whether any of it succeeds or fails.
  pub approve_approval-AllSigned :
      (id : ℕ) (actor : String) (has_perm : String → Bool) (note : String) (s : Store D)
      → AllSigned s
      → AllSigned (approve_approval c txt id actor has_perm note s).1
  unfolding approve_approval
  approve_approval-AllSigned id actor has_perm note s b = grind (
    arith,
    record_approval_tier-AllSigned c txt id actor has_perm note s b,
    record-Finalized c txt id actor has_perm note s,
    execute_approval-AllSigned,
  )
