-- ===== src/Approvals/Authority/Coverage.antt =====
-- Which tiers are among the ones that have signed.
use iag_finance.Base.{
  ℕ, String, ◌≡◌, refl, true, none, List, [], ◌∷◌, ◌++◌, arith, if◌then◌else◌, ◌==◌,
}
use iag_finance.Store.{ApprovalTier, Decision}
use iag_finance.Approvals.Tiers.{
  contains_approval_tier, all_approval_tiers, next_unsigned_tier, insert_tier,
  approved_approval_tiers,
}

contains-insert :
    (n v : ℕ) (ms : List ℕ)
    → contains_approval_tier (insert_tier n ms) v
      ≡ (if n == v then true else contains_approval_tier ms v)
unfolding contains_approval_tier insert_tier
contains-insert n v [] = refl
contains-insert n v (m ∷ ms) = ground (arith, contains-insert n v ms)

contains-append :
    (n v : ℕ) (ms : List ℕ)
    → contains_approval_tier (ms ++ (n ∷ [])) v
      ≡ (if n == v then true else contains_approval_tier ms v)
unfolding contains_approval_tier
contains-append n v [] = refl
contains-append n v (m ∷ ms) = ground (arith, contains-append n v ms)

-- Every tier of the first list is in the second.
abbrev pub Covers : List ℕ → List ℕ → Type 0
Covers xs ys = (v : ℕ) → contains_approval_tier xs v ≡ true → contains_approval_tier ys v ≡ true

module _ {D : Type 0} where
  pub all-Covers :
      (ts : List (ApprovalTier D)) (xs ys : List ℕ)
      → Covers xs ys
      → all_approval_tiers ts xs ≡ true
      → all_approval_tiers ts ys ≡ true
  unfolding all_approval_tiers
  all-Covers [] xs ys covers h = refl
  all-Covers (t ∷ ts) xs ys covers h = ground (arith, covers t.tier, all-Covers ts xs ys covers)

  pub all-next_unsigned_tier :
      (ts : List (ApprovalTier D)) (xs : List ℕ)
      → next_unsigned_tier ts xs ≡ none
      → all_approval_tiers ts xs ≡ true
  unfolding all_approval_tiers next_unsigned_tier
  all-next_unsigned_tier [] xs h = refl
  all-next_unsigned_tier (t ∷ ts) xs h = ground (arith, all-next_unsigned_tier ts xs)

pub decision-Covers :
    (id : ℕ) (d : Decision) (ds : List Decision)
    → Covers (approved_approval_tiers id ds) (approved_approval_tiers id (d ∷ ds))
unfolding approved_approval_tiers
decision-Covers id d ds v h =
    ground (arith, contains-insert d.tier v (approved_approval_tiers id ds))

pub signature-Covers :
    (id tier : ℕ) (actor note : String) (ds : List Decision)
    → Covers (approved_approval_tiers id ds ++ (tier ∷ [])) (
        approved_approval_tiers id (
          (record { approval_id = id; tier = tier; actor = actor; approves = true; note = note })
          ∷ ds))
unfolding approved_approval_tiers
signature-Covers id tier actor note ds v h = ground (
  arith,
  contains-insert tier v (approved_approval_tiers id ds),
  contains-append tier v (approved_approval_tiers id ds),
)
