-- ===== src/Approvals/Authority/Duties.antt =====
-- What becomes of an approval whose action fails.
use iag_finance.Base.{ℕ, String, ◌≡◌, Bool, true, Option, none, some, List, [], ◌∷◌, arith}
use iag_finance.Decimal.{Decimal}
use iag_finance.Store.{Approval, Store, Context, Result, ok, err, Error, approval_conflict}
use iag_finance.Approvals.Tiers.{Texts, ApprovalProgress}
use iag_finance.Approvals.Sign.{find_approval, update_approval, record_tx, record_approval_tier}
use iag_finance.Approvals.Execute.{
  as_executed, mark_approval_executed, execute_approval, approve_approval,
}
use iag_finance.Approvals.Authority.Execution.{run_target-approvals, IsApproved, record-Finalized}

module _ {D : Type 0} where
  abbrev IsPresent : Option (Approval D) → Type 0
  IsPresent none = ⊥
  IsPresent (some a) = Unit

  find-executed :
      (id : ℕ) (ref : String) (as' : List (Approval D))
      → IsPresent (find_approval id as')
      → IsPresent (find_approval id (update_approval id (as_executed ref) as'))
  unfolding find_approval update_approval
  find-executed id ref [] h = h
  find-executed id ref (a ∷ as') h = ground (arith, h, find-executed id ref as')

  -- An execution that fails leaves the approval approved, and one that succeeds leaves it there.
  abbrev Leaves : ℕ → Result (Unit {0}) × Store D → Type 0
  Leaves id (ok _, t) = IsPresent (find_approval id t.approvals)
  Leaves id (err _, t) = IsApproved (find_approval id t.approvals)

module _ {D : Type 0} ⦃dec : Decimal D⦄ (c : Context) where
  execute_approval-Leaves :
      (id : ℕ) (actor : String) (s : Store D)
      → IsApproved (find_approval id s.approvals)
      → Leaves id (execute_approval c id actor s)
  unfolding execute_approval mark_approval_executed
  execute_approval-Leaves id actor s is = grind (arith, run_target-approvals, find-executed)

module _ {D : Type 0} ⦃dec : Decimal D⦄ (c : Context) (txt : Texts) where
  refused :
      (id : ℕ) (actor : String) (has_perm : String → Bool) (note : String) (s : Store D)
      → IsApproved (find_approval id s.approvals)
      → approve_approval c txt id actor has_perm note s ≡ (err approval_conflict, s)
  unfolding approve_approval record_approval_tier record_tx
  refused id actor has_perm note s is = ground (arith, is)

  failed-IsApproved :
      (id : ℕ) (actor : String) (has_perm : String → Bool) (note : String) (s t u : Store D)
      (progress : ApprovalProgress) (e : Error)
      → record_approval_tier c txt id actor has_perm note s ≡ (ok (true, progress), u)
      → approve_approval c txt id actor has_perm note s ≡ (err e, t)
      → IsApproved (find_approval id t.approvals)
  unfolding approve_approval
  failed-IsApproved id actor has_perm note s t u progress e last failed =
      grind (
        arith,
        record-Finalized c txt id actor has_perm note s,
        execute_approval-Leaves c id actor u,
      )

  -- When the last signature of an approval was accepted and the call failed nevertheless, because
  -- the action could not be executed, then the approval stays approved and its action is never
  -- retried: every later approval of it, by whomever, is refused as a conflict and changes nothing.
  pub approve_approval-stuck :
      (id : ℕ) (actor actor' : String) (has_perm has_perm' : String → Bool) (note note' : String)
      (s t u : Store D) (progress : ApprovalProgress) (e : Error)
      → record_approval_tier c txt id actor has_perm note s ≡ (ok (true, progress), u)
      → approve_approval c txt id actor has_perm note s ≡ (err e, t)
      → IsApproved (find_approval id t.approvals)
        × (approve_approval c txt id actor' has_perm' note' t ≡ (err approval_conflict, t))
  approve_approval-stuck id actor actor' has_perm has_perm' note note' s t u progress e last
        failed =
      let is = failed-IsApproved id actor has_perm note s t u progress e last failed in
      (is, refused id actor' has_perm' note' t is)
