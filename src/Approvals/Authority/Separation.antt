-- ===== src/Approvals/Authority/Separation.antt =====
-- Separation of duties: who has signed an approval.
use iag_finance.Base.{
  ℕ, String, ◌≡◌, refl, ◌∙◌, Bool, true, false, not, ◌&&◌, ◌||◌, Option, none, some, List, [], ◌∷◌,
  ◌==◌, str_eq, arith, if◌then◌else◌,
}
use iag_finance.Decimal.{Decimal}
use iag_finance.Store.{Approval, ApprovalStatus, ApprovalTier, Decision, Store, Context}
use iag_finance.Approvals.Tiers.{Texts, actor_approved, has_approved, same_approval_actor}
use iag_finance.Approvals.Sign.{
  update_approval, set_status, decide, find_approval, add_decision, sign_and_decide, record_tx,
  record_approval_tier,
}
use iag_finance.Approvals.Execute.{
  as_executed, mark_approval_executed, execute_approval, approve_approval,
}
use iag_finance.Approvals.Authority.Execution.{run_target-approvals}

abbrev pub is_blank : Texts → String → Bool
is_blank txt a = str_eq (txt.trim_space a) ""

-- Somebody else than the requester, as far as both are named.
unfoldable pub is_other : Texts → String → String → Bool
is_other txt signer requester =
    is_blank txt signer
    || (is_blank txt requester
        || (txt.equal_fold (txt.trim_space signer) "unknown"
            || not (txt.equal_fold (txt.trim_space signer) (txt.trim_space requester))))

-- None of the earlier signatures of the approval is by the same actor.
unfoldable pub is_first : Texts → ℕ → String → List Decision → Bool
is_first txt id actor [] = true
is_first txt id actor (d ∷ ds) =
    not ((d.approval_id == id) && d.approves && str_eq (txt.lower d.actor) (txt.lower actor))
    && is_first txt id actor ds

abbrev other_than : Texts → String → Option String → Bool
other_than txt actor none = true
other_than txt actor (some requester) = is_other txt actor requester

module _ {D : Type 0} where
  unfoldable pub requester_of : ℕ → List (Approval D) → Option String
  requester_of id [] = none
  requester_of id (a ∷ as') = if a.id == id then some a.requested_by else requester_of id as'

  -- A signature is by somebody else than the requester, and the actor's first of the approval.
  unfoldable pub is_separate : Texts → List (Approval D) → Decision → List Decision → Bool
  is_separate txt as' d ds =
      not d.approves
      || (other_than txt d.actor (requester_of d.approval_id as')
          && (is_blank txt d.actor || is_first txt d.approval_id d.actor ds))

  unfoldable pub all_separate : Texts → List (Approval D) → List Decision → Bool
  all_separate txt as' [] = true
  all_separate txt as' (d ∷ ds) = is_separate txt as' d ds && all_separate txt as' ds

  abbrev pub AllSeparate : Texts → Store D → Type 0
  AllSeparate txt s = all_separate txt s.approvals s.decisions ≡ true

  requester_of-update :
      (id id' : ℕ) (f : Approval D → Approval D) (as' : List (Approval D))
      → ((a : Approval D) → ((f a).id ≡ a.id) × ((f a).requested_by ≡ a.requested_by))
      → requester_of id' (update_approval id f as') ≡ requester_of id' as'
  unfolding requester_of update_approval
  requester_of-update id id' f [] kept = refl
  requester_of-update id id' f (a ∷ as') kept =
      ground (arith, kept a, requester_of-update id id' f as' kept)

  all_separate-update :
      (txt : Texts) (id : ℕ) (f : Approval D → Approval D) (as' : List (Approval D))
      (ds : List Decision)
      → ((a : Approval D) → ((f a).id ≡ a.id) × ((f a).requested_by ≡ a.requested_by))
      → all_separate txt (update_approval id f as') ds ≡ all_separate txt as' ds
  unfolding all_separate is_separate
  all_separate-update txt id f as' [] kept = refl
  all_separate-update txt id f as' (d ∷ ds) kept =
      rw (requester_of-update id d.approval_id f as' kept, all_separate-update txt id f as' ds kept)
        refl

  requester-found :
      (id : ℕ) (as' : List (Approval D)) (a : Approval D)
      → find_approval id as' ≡ some a
      → requester_of id as' ≡ some a.requested_by
  unfolding find_approval requester_of
  requester-found id [] a h = ground (arith, h)
  requester-found id (x ∷ as') a h = ground (arith, h, requester-found id as' a)

is_first-of_new :
    (txt : Texts) (id : ℕ) (actor : String) (ds : List Decision)
    → is_first txt id actor ds ≡ not (has_approved txt id actor ds)
unfolding is_first has_approved
is_first-of_new txt id actor [] = refl
is_first-of_new txt id actor (d ∷ ds) = ground (arith, is_first-of_new txt id actor ds)

module _ {D : Type 0} ⦃dec : Decimal D⦄ (c : Context) (txt : Texts) where
  -- One more signature, by an actor that both guards let pass.
  signature-separate :
      (id tier : ℕ) (actor note : String) (a : Approval D) (s : Store D)
      → find_approval id s.approvals ≡ some a
      → same_approval_actor txt actor a.requested_by ≡ false
      → actor_approved txt id actor s.decisions ≡ false
      → AllSeparate txt s
      → AllSeparate txt (add_decision id tier actor true note s).1
  unfolding add_decision all_separate is_separate same_approval_actor actor_approved is_other
  signature-separate id tier actor note a s found other new h = ground (
    arith,
    requester-found id s.approvals a found,
    other,
    new,
    h,
    is_first-of_new txt id actor s.decisions,
  )

  decide-separate :
      (id : ℕ) (status : ApprovalStatus) (s : Store D)
      → AllSeparate txt s
      → AllSeparate txt (decide c id status s).1
  unfolding decide
  decide-separate id status s h =
      all_separate-update txt id (set_status status c.now) s.approvals s.decisions
        (λ a. (refl, refl))
      ∙ h

  sign_and_decide-separate :
      (id : ℕ) (actor : String) (has_perm : String → Bool) (note : String)
      (required : List (ApprovalTier D)) (signed : List ℕ) (next : Option (ApprovalTier D))
      (a : Approval D) (s : Store D)
      → find_approval id s.approvals ≡ some a
      → same_approval_actor txt actor a.requested_by ≡ false
      → actor_approved txt id actor s.decisions ≡ false
      → AllSeparate txt s
      → AllSeparate txt (sign_and_decide c txt id actor has_perm note required signed next s).1
  unfolding sign_and_decide
  sign_and_decide-separate id actor has_perm note required signed none a s found other new h =
      grind (arith, decide-separate)
  sign_and_decide-separate id actor has_perm note required signed (some n) a s found other new h =
      grind (arith, decide-separate, signature-separate id n.tier actor note a s found other new h)

  record_approval_tier-separate :
      (id : ℕ) (actor : String) (has_perm : String → Bool) (note : String) (s : Store D)
      → AllSeparate txt s
      → AllSeparate txt (record_approval_tier c txt id actor has_perm note s).1
  unfolding record_approval_tier record_tx
  record_approval_tier-separate id actor has_perm note s h = grind (arith, sign_and_decide-separate)

  mark_executed-separate :
      (id : ℕ) (ref : String) (s : Store D)
      → AllSeparate txt s
      → AllSeparate txt (mark_approval_executed id ref s).1
  unfolding mark_approval_executed
  mark_executed-separate id ref s h =
      all_separate-update txt id (as_executed ref) s.approvals s.decisions (λ a. (refl, refl)) ∙ h

  execute_approval-separate :
      (id : ℕ) (actor : String) (s : Store D)
      → AllSeparate txt s
      → AllSeparate txt (execute_approval c id actor s).1
  unfolding execute_approval
  execute_approval-separate id actor s h =
      grind (arith, run_target-approvals, mark_executed-separate)

  -- If no signature of an approval is by its requester and none is by an actor who had signed it
  -- before, so it is after an approval is signed and, with the last signature, its action is
  -- executed, whether any of it succeeds or fails. Blank actors are not compared at all, and one
  -- called unknown is not compared with the requester.
  pub approve_approval-AllSeparate :
      (id : ℕ) (actor : String) (has_perm : String → Bool) (note : String) (s : Store D)
      → AllSeparate txt s
      → AllSeparate txt (approve_approval c txt id actor has_perm note s).1
  unfolding approve_approval
  approve_approval-AllSeparate id actor has_perm note s h =
      grind
        (arith, record_approval_tier-separate id actor has_perm note s h, execute_approval-separate)
