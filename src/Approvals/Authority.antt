-- ===== src/Approvals/Authority.antt =====
-- Nothing is approved without the signature of every tier that its amount needs.
pub mod Duties
pub mod Separation
pub mod Execution
mod Coverage
use iag_finance.Base.{
  ℕ, String, ◌≡◌, refl, ◌⊎◌, inl, inr, Bool, true, false, not, ◌&&◌, ◌||◌, Option, none, some, List,
  [], ◌∷◌, ◌++◌, All, arith, if◌then◌else◌, ◌==◌, Bool-cases, subst,
}
use iag_finance.Decimal.{Decimal}
use iag_finance.Store.{
  Approval, ApprovalStatus, ApprovalTier, Decision, pending, approved, rejected, executed, Store,
  Context, Result, ok, err,
}
use iag_finance.Approvals.Tiers.{
  Texts, required_approval_tiers, contains_approval_tier, all_approval_tiers, next_unsigned_tier,
  insert_tier, approved_approval_tiers,
}
use iag_finance.Calendar.{Time}
use iag_finance.Approvals.Sign.{
  set_status, find_approval, update_approval, decide, add_decision, sign_and_decide, record_tx,
  record_approval_tier, reject_tx, reject_approval,
}
use iag_finance.Approvals.Authority.Coverage.{
  all-Covers, all-next_unsigned_tier, decision-Covers, signature-Covers,
}

abbrev pub is_authorized : ApprovalStatus → Bool
is_authorized approved = true
is_authorized executed = true
is_authorized _ = false

module _ {D : Type 0} ⦃dec : Decimal D⦄ where
  -- An approval that is approved or executed has the signatures of all tiers that it needs.
  unfoldable pub is_signed : List (ApprovalTier D) → List Decision → Approval D → Bool
  is_signed tiers ds a =
      not (is_authorized a.status)
      || all_approval_tiers (required_approval_tiers tiers a.amount)
          (approved_approval_tiers a.id ds)

  unfoldable pub all_signed : List (ApprovalTier D) → List Decision → List (Approval D) → Bool
  all_signed tiers ds [] = true
  all_signed tiers ds (a ∷ as') = is_signed tiers ds a && all_signed tiers ds as'

  abbrev pub AllSigned : Store D → Type 0
  AllSigned s = all_signed s.tiers s.decisions s.approvals ≡ true

  decision-is_signed :
      (tiers : List (ApprovalTier D)) (d : Decision) (ds : List Decision) (a : Approval D)
      → is_signed tiers ds a ≡ true
      → is_signed tiers (d ∷ ds) a ≡ true
  unfolding is_signed
  decision-is_signed tiers d ds a b = ground (
    arith,
    all-Covers (required_approval_tiers tiers a.amount) (approved_approval_tiers a.id ds)
        (approved_approval_tiers a.id (d ∷ ds)) (decision-Covers a.id d ds),
  )

  decision-all_signed :
      (tiers : List (ApprovalTier D)) (d : Decision) (ds : List Decision) (as' : List (Approval D))
      → all_signed tiers ds as' ≡ true
      → all_signed tiers (d ∷ ds) as' ≡ true
  unfolding all_signed
  decision-all_signed tiers d ds [] b = refl
  decision-all_signed tiers d ds (a ∷ as') b =
      ground (arith, decision-is_signed tiers d ds a, decision-all_signed tiers d ds as')

  pub update-all_signed :
      (tiers : List (ApprovalTier D)) (ds : List Decision) (id : ℕ) (f : Approval D → Approval D)
      (as' : List (Approval D)) (a : Approval D)
      → find_approval id as' ≡ some a
      → is_signed tiers ds (f a) ≡ true
      → all_signed tiers ds as' ≡ true
      → all_signed tiers ds (update_approval id f as') ≡ true
  unfolding find_approval update_approval all_signed
  update-all_signed tiers ds id f [] a found new b = refl
  update-all_signed tiers ds id f (x ∷ as') a found new b =
      ground (arith, update-all_signed tiers ds id f as' a)

  find_approval-id :
      (id : ℕ) (as' : List (Approval D)) (a : Approval D)
      → find_approval id as' ≡ some a
      → a.id ≡ id
  unfolding find_approval
  find_approval-id id [] a h = ground arith
  find_approval-id id (x ∷ as') a h = ground (arith, find_approval-id id as' a)

module _ {D : Type 0} ⦃dec : Decimal D⦄ where
  rejected-is_signed :
      (tiers : List (ApprovalTier D)) (ds : List Decision) (at : Time) (a : Approval D)
      → is_signed tiers ds (set_status rejected at a) ≡ true
  unfolding is_signed
  rejected-is_signed tiers ds at a = refl

  approved-is_signed :
      (tiers : List (ApprovalTier D)) (ds : List Decision) (at : Time) (a : Approval D) (id : ℕ)
      → a.id ≡ id
      → all_approval_tiers (required_approval_tiers tiers a.amount) (approved_approval_tiers id ds)
        ≡ true
      → is_signed tiers ds (set_status approved at a) ≡ true
  unfolding is_signed
  approved-is_signed tiers ds at a id is h = ground arith

  signed_last :
      (tiers : List (ApprovalTier D)) (ds : List Decision) (amount : D) (id tier : ℕ)
      (actor note : String)
      → all_approval_tiers
          (required_approval_tiers tiers amount)
          (approved_approval_tiers id ds ++ (tier ∷ []))
        ≡ true
      → all_approval_tiers (required_approval_tiers tiers amount) (
          approved_approval_tiers id (
            (record { approval_id = id; tier = tier; actor = actor; approves = true; note = note })
            ∷ ds))
        ≡ true
  signed_last tiers ds amount id tier actor note h =
      all-Covers (required_approval_tiers tiers amount) _ _ (signature-Covers id tier actor note ds)
        h

  add_decision-AllSigned :
      (id tier : ℕ) (actor : String) (approves : Bool) (note : String) (s : Store D)
      → AllSigned s
      → AllSigned (add_decision id tier actor approves note s).1
  unfolding add_decision
  add_decision-AllSigned id tier actor approves note s b =
      decision-all_signed s.tiers _ s.decisions s.approvals b

  reject-AllSigned :
      (c : Context) (id : ℕ) (a : Approval D) (s : Store D)
      → find_approval id s.approvals ≡ some a
      → AllSigned s
      → AllSigned (decide c id rejected s).1
  unfolding decide
  reject-AllSigned c id a s found b =
      update-all_signed s.tiers s.decisions id (set_status rejected c.now) s.approvals a found
        (rejected-is_signed s.tiers s.decisions c.now a) b

  approve-AllSigned :
      (c : Context) (id : ℕ) (a : Approval D) (s : Store D)
      → find_approval id s.approvals ≡ some a
      → all_approval_tiers
          (required_approval_tiers s.tiers a.amount)
          (approved_approval_tiers id s.decisions)
        ≡ true
      → AllSigned s
      → AllSigned (decide c id approved s).1
  unfolding decide
  approve-AllSigned c id a s found h b =
      update-all_signed s.tiers s.decisions id (set_status approved c.now) s.approvals a found
        (approved-is_signed s.tiers s.decisions c.now a id (find_approval-id id s.approvals a found)
          h)
        b

  add_decision-approvals :
      (id tier : ℕ) (actor : String) (approves : Bool) (note : String) (s : Store D)
      → ((add_decision id tier actor approves note s).1.approvals ≡ s.approvals)
        × ((add_decision id tier actor approves note s).1.tiers ≡ s.tiers)
        × ((add_decision id tier actor approves note s).0 ≡ ok tt)
  unfolding add_decision
  add_decision-approvals id tier actor approves note s = (refl, refl, refl)

  add_decision-signed :
      (id tier : ℕ) (actor note : String) (s : Store D) (amount : D)
      → all_approval_tiers
          (required_approval_tiers s.tiers amount)
          (approved_approval_tiers id s.decisions ++ (tier ∷ []))
        ≡ true
      → all_approval_tiers
          (required_approval_tiers s.tiers amount)
          (approved_approval_tiers id (add_decision id tier actor true note s).1.decisions)
        ≡ true
  unfolding add_decision
  add_decision-signed id tier actor note s amount h =
      signed_last s.tiers s.decisions amount id tier actor note h

module _ {D : Type 0} ⦃dec : Decimal D⦄ (c : Context) (txt : Texts) where
  -- If every approval that is approved or executed has the signatures of all the tiers that its
  -- amount needs, so it is after a rejection, whether it succeeds or fails.
  pub reject_approval-AllSigned :
      (id : ℕ) (actor : String) (has_perm : String → Bool) (note : String) (s : Store D)
      → AllSigned s
      → AllSigned (reject_approval c txt id actor has_perm note s).1
  unfolding reject_approval reject_tx
  reject_approval-AllSigned id actor has_perm note s b =
      grind (arith, add_decision-AllSigned, add_decision-approvals, reject-AllSigned)

  sign_and_decide-AllSigned :
      (id : ℕ) (actor : String) (has_perm : String → Bool) (note : String) (a : Approval D)
      (s : Store D) (next : Option (ApprovalTier D))
      → find_approval id s.approvals ≡ some a
      → next_unsigned_tier
          (required_approval_tiers s.tiers a.amount)
          (approved_approval_tiers id s.decisions)
        ≡ next
      → AllSigned s
      → AllSigned
          (sign_and_decide c txt id actor has_perm note
            (required_approval_tiers s.tiers a.amount)
            (approved_approval_tiers id s.decisions)
            next
            s).1
  unfolding sign_and_decide decide
  sign_and_decide-AllSigned id actor has_perm note a s none found last b =
      approve-AllSigned c id a s found
        (all-next_unsigned_tier (required_approval_tiers s.tiers a.amount)
          (approved_approval_tiers id s.decisions) last)
        b
  sign_and_decide-AllSigned id actor has_perm note a s (some t) found last b = ground (
    arith,
    add_decision-AllSigned id t.tier actor true note s b,
    add_decision-approvals id t.tier actor true note s,
    add_decision-signed id t.tier actor note s a.amount,
    approve-AllSigned c id a (add_decision id t.tier actor true note s).1,
  )

  -- Signing an approval, whether it succeeds or fails, keeps this: every approval that is approved or
  -- executed has the signatures of all the tiers that its amount needs.
  pub record_approval_tier-AllSigned :
      (id : ℕ) (actor : String) (has_perm : String → Bool) (note : String) (s : Store D)
      → AllSigned s
      → AllSigned (record_approval_tier c txt id actor has_perm note s).1
  unfolding record_approval_tier record_tx
  record_approval_tier-AllSigned id actor has_perm note s b =
      grind (arith, sign_and_decide-AllSigned)
