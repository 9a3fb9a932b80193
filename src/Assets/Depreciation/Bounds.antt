-- ===== src/Assets/Depreciation/Bounds.antt =====
-- Accumulated depreciation stays within what is depreciable.
use iag_finance.Base.{
  String, ◌≡◌, refl, subst, ◌⊎◌, Bool, true, false, Option, none, some, List, [], ◌∷◌, All, arith,
  if◌then◌else◌, inl, inr,
}
use iag_finance.Calendar.{date_of, period_end, Date, Time, Period}
use iag_finance.Decimal.{
  Decimal, Laws, nought, add, sub, round, ◌≼◌, add_mono_right, sub-add_cancel, add_nonneg, ≼_refl,
}
use iag_finance.Store.{FixedAsset, DepreciationEntry, Store, Context}
use iag_finance.Ledger.Booking.{next_entry_number, insert_posted_entry, assert_balanced}
use iag_finance.Assets.Depreciation.{
  charge, remaining, monthly_charge, accumulate, depreciate, depreciate_one, Charges,
  book_depreciation, depreciation_tx, run_depreciation, is_depreciable,
}

module _ {D : Type 0} ⦃dec : Decimal D⦄ where
  -- Between nought and cost less salvage value; all in two places.
  abbrev pub WithinCost : FixedAsset D → Type 0
  WithinCost a =
      (round 2 a.cost ≡ a.cost)
      × (round 2 a.salvage_value ≡ a.salvage_value)
      × (round 2 a.accumulated_depreciation ≡ a.accumulated_depreciation)
      × (nought ≼ a.accumulated_depreciation)
      × (a.accumulated_depreciation ≼ sub a.cost a.salvage_value)

module _ {D : Type 0} ⦃dec : Decimal D⦄ (laws : Laws D) where
  remaining-places : (a : FixedAsset D) → WithinCost a → round 2 (remaining a) ≡ remaining a
  remaining-places a (c, s, d, low, high) = ground (
    arith,
    laws.round_sub a.cost a.salvage_value,
    laws.round_sub (sub a.cost a.salvage_value) a.accumulated_depreciation,
  )

  monthly_charge-places : (a : FixedAsset D) → round 2 (monthly_charge a) ≡ monthly_charge a
  unfolding monthly_charge
  monthly_charge-places a = grind (arith, laws.round_2_2)

  -- A charge is not negative and at most what remains, in two places.
  charge-bounds :
      (a : FixedAsset D) (amount : D)
      → WithinCost a
      → charge a ≡ some amount
      → (nought ≼ amount) × (amount ≼ remaining a) × (round 2 amount ≡ amount)
  unfolding charge
  charge-bounds a amount w h = ground (
    arith,
    remaining-places a w,
    monthly_charge-places a,
    ≼_refl laws (remaining a),
    laws.cmp_flip amount nought,
  )

  accumulate-WithinCost :
      (a : FixedAsset D) (amount : D)
      → WithinCost a
      → (nought ≼ amount) × (amount ≼ remaining a) × (round 2 amount ≡ amount)
      → WithinCost (accumulate amount a)
  accumulate-WithinCost a amount (c, s, d, low, high) (positive, most, places) =
      let whole : round 2 (add a.accumulated_depreciation amount)
          ≡ add a.accumulated_depreciation amount =
        ground (arith, laws.round_add a.accumulated_depreciation amount) in
      rw whole (
        c,
        s,
        whole,
        add_nonneg laws a.accumulated_depreciation amount low positive,
        rw (laws.add_comm a.accumulated_depreciation amount) (
            subst (λ t. add amount a.accumulated_depreciation ≼ t)
              (sub-add_cancel laws (sub a.cost a.salvage_value) a.accumulated_depreciation)
              (add_mono_right laws amount (remaining a) a.accumulated_depreciation most)),
      )

  depreciate_one-WithinCost :
      (p : Period) (a : FixedAsset D) (due : Bool) (rest : Charges D)
      → WithinCost a
      → All WithinCost rest.assets
      → All WithinCost (depreciate_one p a (if due then charge a else none) rest).assets
  depreciate_one-WithinCost p a false rest w h = (w, h)
  depreciate_one-WithinCost p a true rest w h = by_charge (charge a) refl
    where
      by_charge : (o : Option D) → charge a ≡ o → All WithinCost (depreciate_one p a o rest).assets
      by_charge none charged = (w, h)
      by_charge (some amount) charged =
          (accumulate-WithinCost a amount w (charge-bounds a amount w charged), h)

  depreciate-WithinCost :
      (p : Period) (end' : Date) (done : List (DepreciationEntry D)) (as' : List (FixedAsset D))
      → All WithinCost as'
      → All WithinCost (depreciate p end' done as').assets
  unfolding depreciate
  depreciate-WithinCost p end' done [] h = tt
  depreciate-WithinCost p end' done (a ∷ as') (w, h) =
      depreciate_one-WithinCost p a (is_depreciable p end' done a) (depreciate p end' done as') w
        (depreciate-WithinCost p end' done as' h)

module _ {D : Type 0} ⦃dec : Decimal D⦄ (c : Context) where
  pub book_depreciation-register :
      (p : Period) (text : String) (at : Time) (total : D) (s : Store D)
      → let t = (book_depreciation c p text at total s).1 in
        (t.assets ≡ s.assets) × (t.depreciation ≡ s.depreciation)
  unfolding book_depreciation next_entry_number insert_posted_entry assert_balanced
  book_depreciation-register p text at total s = ground arith

  abbrev pub charges_of : Period → Store D → Charges D
  charges_of p s = depreciate p (date_of (period_end p)) s.depreciation s.assets

  run_depreciation-register :
      (p : Period) (text : String) (at : Time) (s : Store D)
      → let t = (run_depreciation c p text at s).1 in
        (t.assets ≡ s.assets) ⊎ (t.assets ≡ (charges_of p s).assets)
  unfolding run_depreciation depreciation_tx
  run_depreciation-register p text at s = grind (arith, book_depreciation-register)

  -- If the accumulated depreciation of every asset is between nought and its cost less its salvage
  -- value, in amounts of two places, so it is after the depreciation of any period, whether it
  -- succeeds or fails.
  pub run_depreciation-WithinCost :
      (laws : Laws D) (p : Period) (text : String) (at : Time) (s : Store D)
      → All WithinCost s.assets
      → All WithinCost (run_depreciation c p text at s).1.assets
  run_depreciation-WithinCost laws p text at s h = elim (run_depreciation-register p text at s) [
    | inl same ↦ rw same h
    | inr charged ↦
        rw charged (depreciate-WithinCost laws p (date_of (period_end p)) s.depreciation s.assets h)
  ]
