-- ===== src/Approvals/Tiers.antt =====
-- The tiers an amount needs, and the progress of an approval.
use iag_finance.Base.{
  ℕ, String, Bool, true, false, ◌&&◌, ◌||◌, Option, none, some, List, [], ◌∷◌, map, if◌then◌else◌,
  ◌==◌, leb, str_eq,
}
use iag_finance.Decimal.{Decimal, greater_than}
use iag_finance.Store.{ApprovalTier, Decision}

-- strings.TrimSpace and strings.EqualFold of Go's library, and lower() of the database.
pub record Texts : Type 0 where
  pub trim_space : String → String
  pub equal_fold : String → String → Bool
  pub lower : String → String

module _ {D : Type 0} ⦃dec : Decimal D⦄ where
  unfoldable pub required_approval_tiers : List (ApprovalTier D) → D → List (ApprovalTier D)
  required_approval_tiers [] amount = []
  required_approval_tiers (t ∷ ts) amount =
      let rest = required_approval_tiers ts amount in
      if greater_than amount t.min_amount then t ∷ rest else rest

unfoldable pub contains_approval_tier : List ℕ → ℕ → Bool
contains_approval_tier [] v = false
contains_approval_tier (x ∷ xs) v = if x == v then true else contains_approval_tier xs v

module _ {D : Type 0} where
  unfoldable pub all_approval_tiers : List (ApprovalTier D) → List ℕ → Bool
  all_approval_tiers [] approved = true
  all_approval_tiers (t ∷ ts) approved =
      if contains_approval_tier approved t.tier then all_approval_tiers ts approved else false

  -- The first required tier that has not signed.
  unfoldable pub next_unsigned_tier : List (ApprovalTier D) → List ℕ → Option (ApprovalTier D)
  next_unsigned_tier [] approved = none
  next_unsigned_tier (t ∷ ts) approved =
      if contains_approval_tier approved t.tier then next_unsigned_tier ts approved else some t

-- ORDER BY tier
unfoldable pub insert_tier : ℕ → List ℕ → List ℕ
insert_tier n [] = n ∷ []
insert_tier n (m ∷ ms) = if leb n m then n ∷ m ∷ ms else m ∷ insert_tier n ms

-- approvedApprovalTiersTx
unfoldable pub approved_approval_tiers : ℕ → List Decision → List ℕ
approved_approval_tiers id [] = []
approved_approval_tiers id (d ∷ ds) =
    let rest = approved_approval_tiers id ds in
    if (d.approval_id == id) && d.approves then insert_tier d.tier rest else rest

unfoldable pub has_approved : Texts → ℕ → String → List Decision → Bool
has_approved txt id actor [] = false
has_approved txt id actor (d ∷ ds) =
    if (d.approval_id == id) && d.approves && str_eq (txt.lower d.actor) (txt.lower actor)
    then true
    else has_approved txt id actor ds

-- actorApprovedTx
unfoldable pub actor_approved : Texts → ℕ → String → List Decision → Bool
unfolding has_approved
actor_approved txt id actor ds =
    if str_eq (txt.trim_space actor) "" then false else has_approved txt id actor ds

unfoldable pub same_approval_actor : Texts → String → String → Bool
same_approval_actor txt a b =
    let x = txt.trim_space a in
    let y = txt.trim_space b in
    if str_eq x "" || str_eq y "" || txt.equal_fold x "unknown" then false else txt.equal_fold x y

pub record ApprovalProgress : Type 0 where
  pub required_tiers : List ℕ
  pub approved_tiers : List ℕ
  pub next_tier : Option ℕ
  pub next_perm : String
  pub complete : Bool

abbrev pub tier_of : {D : Type 0} → Option (ApprovalTier D) → Option ℕ
tier_of none = none
tier_of (some t) = some t.tier

abbrev pub perm_of : {D : Type 0} → Option (ApprovalTier D) → String
perm_of none = ""
perm_of (some t) = t.required_perm

unfoldable pub build_approval_progress :
    {D : Type 0} → List (ApprovalTier D) → List ℕ → Bool → ApprovalProgress
build_approval_progress required approved complete =
    let next = if complete then none else next_unsigned_tier required approved in
    record {
      required_tiers = map (λ t. t.tier) required;
      approved_tiers = approved;
      next_tier = tier_of next;
      next_perm = perm_of next;
      complete = complete;
    }
