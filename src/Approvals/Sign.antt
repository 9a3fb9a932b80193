-- ===== src/Approvals/Sign.antt =====
-- Submission, signature and rejection of an approval.
use iag_finance.Base.{
  ℕ, ◌+◌, String, Bool, true, false, not, ◌||◌, Option, none, some, List, [], ◌∷◌, ◌++◌,
  if◌then◌else◌, ◌==◌, str_eq,
}
use iag_finance.Calendar.{Time}
use iag_finance.Decimal.{Decimal, round}
use iag_finance.Store.{
  Approval, ApprovalStatus, ApprovalTarget, ApprovalTier, pending, approved, rejected, Store,
  Context, Action, approval_not_found, approval_conflict, approval_forbidden, pure, gets, modify,
  transaction, raise_if, or_raise, ◌>>=◌, ◌>>◌,
}
use iag_finance.Ledger.Booking.{is_empty}
use iag_finance.Approvals.Tiers.{
  Texts, ApprovalProgress, required_approval_tiers, all_approval_tiers, next_unsigned_tier,
  approved_approval_tiers, actor_approved, same_approval_actor, build_approval_progress,
}

abbrev pub is_pending : ApprovalStatus → Bool
is_pending pending = true
is_pending _ = false

module _ {D : Type 0} where
  unfoldable pub find_approval : ℕ → List (Approval D) → Option (Approval D)
  find_approval id [] = none
  find_approval id (a ∷ as') = if a.id == id then some a else find_approval id as'

  -- UPDATE finance_approvals SET ... WHERE id = $1, of the one row with that id.
  unfoldable pub update_approval :
      ℕ → (Approval D → Approval D) → List (Approval D) → List (Approval D)
  update_approval id f [] = []
  update_approval id f (a ∷ as') = if a.id == id then f a ∷ as' else a ∷ update_approval id f as'

  abbrev pub set_status : ApprovalStatus → Time → Approval D → Approval D
  set_status status at a = record a { status = status; decided_at = some at }

  unfoldable pub decide : Context → ℕ → ApprovalStatus → Action D (Unit {0})
  decide c id status =
      modify
        (λ s. record s { approvals = update_approval id (set_status status c.now) s.approvals })

  unfoldable pub add_decision : ℕ → ℕ → String → Bool → String → Action D (Unit {0})
  add_decision id tier actor approves note = modify (λ s. record s {
    decisions =
        (record { approval_id = id; tier = tier; actor = actor; approves = approves; note = note })
        ∷ s.decisions;
  })

-- The loop of RejectApproval: whether a permission of a required tier is held, and the first such tier.
unfoldable pub reject_loop :
    {D : Type 0} → List (ApprovalTier D) → (String → Bool) → Bool → ℕ → Bool × ℕ
reject_loop [] has_perm allowed tier = (allowed, tier)
reject_loop (t ∷ ts) has_perm allowed tier =
    let held = reject_loop ts has_perm true (if tier == 0 then t.tier else tier) in
    let other = reject_loop ts has_perm allowed tier in
    if has_perm t.required_perm then held else other

module _ {D : Type 0} ⦃dec : Decimal D⦄ (c : Context) (txt : Texts) where
  abbrev pub required_of : Approval D → Store D → List (ApprovalTier D)
  required_of a s = required_approval_tiers s.tiers a.amount

  -- The signature for the tier, if there is one that is still to sign; whether it is the last.
  abbrev pub sign :
      ℕ
      → String
      → (String → Bool)
      → String
      → List (ApprovalTier D)
      → List ℕ
      → Option (ApprovalTier D)
      → Action D (Bool × List ℕ)
  sign id actor has_perm note required signed none = pure (true, signed)
  sign id actor has_perm note required signed (some t) = do
    raise_if (not (has_perm t.required_perm)) approval_forbidden
    add_decision id t.tier actor true note
    pure (all_approval_tiers required (signed ++ (t.tier ∷ [])), signed ++ (t.tier ∷ []))

  -- The signature, and the approval if it is the last.
  unfoldable pub sign_and_decide :
      ℕ
      → String
      → (String → Bool)
      → String
      → List (ApprovalTier D)
      → List ℕ
      → Option (ApprovalTier D)
      → Action D (Bool × ApprovalProgress)
  sign_and_decide id actor has_perm note required signed next = do
    (finalize, now_signed) ← sign id actor has_perm note required signed next
    if finalize then decide c id approved else pure tt
    pure (finalize, build_approval_progress required now_signed finalize)

  unfoldable pub record_tx :
      ℕ → String → (String → Bool) → String → Action D (Bool × ApprovalProgress)
  record_tx id actor has_perm note = do
    a ← or_raise (← gets (λ s. find_approval id s.approvals)) approval_not_found
    raise_if (not (is_pending a.status)) approval_conflict
    raise_if (same_approval_actor txt actor a.requested_by) approval_forbidden
    required ← gets (required_of a)
    signed ← gets (λ s. approved_approval_tiers id s.decisions)
    raise_if (← gets (λ s. actor_approved txt id actor s.decisions)) approval_forbidden
    sign_and_decide id actor has_perm note required signed (next_unsigned_tier required signed)

  unfoldable pub record_approval_tier :
      ℕ → String → (String → Bool) → String → Action D (Bool × ApprovalProgress)
  unfolding record_tx
  record_approval_tier id actor has_perm note = transaction (record_tx id actor has_perm note)

  unfoldable pub reject_tx : ℕ → String → (String → Bool) → String → Action D ApprovalProgress
  reject_tx id actor has_perm note = do
    a ← or_raise (← gets (λ s. find_approval id s.approvals)) approval_not_found
    raise_if (not (is_pending a.status)) approval_conflict
    required ← gets (required_of a)
    let own = same_approval_actor txt actor a.requested_by || is_empty required
    let (allowed, tier) = reject_loop required has_perm own 0
    raise_if (not allowed) approval_forbidden
    add_decision id tier actor false note
    decide c id rejected
    signed ← gets (λ s. approved_approval_tiers id s.decisions)
    pure (build_approval_progress required signed false)

  -- repository.RejectApproval
  unfoldable pub reject_approval : ℕ → String → (String → Bool) → String → Action D ApprovalProgress
  unfolding reject_tx
  reject_approval id actor has_perm note = transaction (reject_tx id actor has_perm note)

module _ {D : Type 0} ⦃dec : Decimal D⦄ (c : Context) where
  abbrev pub new_approval : ApprovalTarget → D → String → String → String → ℕ → Approval D
  new_approval target amount currency requested_by description id = record {
    id = id;
    target = target;
    amount = round 2 amount;
    currency = if str_eq currency "" then c.base_currency else currency;
    status = pending;
    requested_by = requested_by;
    description = description;
    result_ref = "";
    decided_at = none;
  }

  -- repository.CreateApproval
  unfoldable pub create_approval :
      ApprovalTarget → D → String → String → String → Action D (Approval D)
  create_approval target amount currency requested_by description = do
    id ← gets (λ s. s.next_id)
    modify (λ s. record s {
      approvals = new_approval target amount currency requested_by description id ∷ s.approvals;
      next_id = s.next_id + 1;
    })
    pure (new_approval target amount currency requested_by description id)

  unfoldable pub approval_required : D → Store D → Bool
  approval_required amount s = not (is_empty (required_approval_tiers s.tiers amount))

  -- Service.SubmitForApproval: none when the amount is below the first band.
  unfoldable pub submit_for_approval :
      ApprovalTarget → D → String → String → String → Action D (Option (Approval D))
  unfolding create_approval approval_required
  submit_for_approval target amount currency requested_by description s =
      if not (approval_required amount s)
      then pure none s
      else (create_approval target amount currency requested_by description >>= λ a. pure (some a))
          s
