-- ===== src/Assets/Restatement/Carrying.antt =====
-- What an asset is carried at after it was restated.
use iag_finance.Base.{
  concat, String, ◌≡◌, refl, sym, ap, ◌∙◌, subst, false, Option, none, some, arith,
}
use iag_finance.Calendar.{Time, date_of}
use iag_finance.Decimal.{Decimal, Laws, add, sub, round, sub_of_add, sub-add_cancel, add-sub_cancel}
use iag_finance.Store.{Action, FixedAsset, Store, AuditInfo, Context, ok}
use iag_finance.Ledger.Booking.{is_event_processed}
use iag_finance.Assets.Depreciation.{accumulate}
use iag_finance.Assets.Register.{find_asset}
use iag_finance.Assets.Restatement.{
  once, Notice, impairment_tx, revaluation_tx, book_impairment, book_revaluation, event_of,
}
use iag_finance.Assets.Rows.{
  update_asset, lock_asset, net_book_value, impairment_lines, surplus_of, revaluation_lines,
  restate_cost, add_impairment, add_revaluation,
}
use iag_finance.Assets.Restatement.Register.{find_asset-update_asset, adjust_asset-assets}

module _ {D : Type 0} ⦃dec : Decimal D⦄ where
  abbrev pub IsCarriedAt : D → Option (FixedAsset D) → Type 0
  IsCarriedAt value none = ⊥
  IsCarriedAt value (some a) = net_book_value a ≡ value

  -- Cost and accumulated depreciation are in two places, as their columns are.
  abbrev pub InPlaces : FixedAsset D → Type 0
  InPlaces a =
      (round 2 a.cost ≡ a.cost) × (round 2 a.accumulated_depreciation ≡ a.accumulated_depreciation)

  once-found :
      (c : Context) (event_id ref : String) (tx : Action D (Unit {0})) (s : Store D)
      (a : FixedAsset D) (f : FixedAsset D → FixedAsset D) (found : Option (FixedAsset D))
      → is_event_processed event_id s.processed ≡ false
      → find_asset ref s.assets ≡ some a
      → ((b : FixedAsset D) → (f b).asset_ref ≡ b.asset_ref)
      → ((tx s).0 ≡ ok tt → (tx s).1.assets ≡ update_asset a.id f s.assets)
      → (once c event_id ref tx s).0 ≡ ok found
      → found ≡ some (f a)
  once-found c event_id ref tx s a f found new there kept changed done =
      ground
        (arith, new, done, changed, find_asset-update_asset ref a.id f s.assets a kept there refl)

module _ {D : Type 0} ⦃dec : Decimal D⦄ (laws : Laws D) where
  written_down-carrying :
      (a : FixedAsset D) (value : D)
      → InPlaces a
      → round 2 value ≡ value
      → net_book_value (accumulate (sub (net_book_value a) value) a) ≡ value
  written_down-carrying a value (p, q) r =
      let acc = a.accumulated_depreciation in
      let nbv = net_book_value a in
      let whole_nbv : round 2 nbv ≡ nbv = ground (arith, p, q, laws.round_sub a.cost acc) in
      let whole : round 2 (sub nbv value) ≡ sub nbv value =
        ground (arith, r, whole_nbv, laws.round_sub nbv value) in
      let places : round 2 (add acc (sub nbv value)) ≡ add acc (sub nbv value) =
        ground (arith, q, whole, laws.round_add acc (sub nbv value)) in
      let total : sub a.cost value ≡ add acc (sub nbv value) =
        sub_of_add laws (add acc (sub nbv value)) value a.cost (
          laws.add_assoc acc (sub nbv value) value
          ∙ ap (add acc) (sub-add_cancel laws nbv value)
          ∙ add-sub_cancel laws a.cost acc) in
      ap (sub a.cost) (places ∙ sym total)
      ∙ sub_of_add laws value (sub a.cost value) a.cost (add-sub_cancel laws a.cost value)

  restated-carrying :
      (a : FixedAsset D) (value : D)
      → InPlaces a
      → round 2 value ≡ value
      → net_book_value (restate_cost (sub value (net_book_value a)) a) ≡ value
  restated-carrying a value (p, q) r =
      let acc = a.accumulated_depreciation in
      let nbv = net_book_value a in
      let delta = sub value nbv in
      let whole_nbv : round 2 nbv ≡ nbv = ground (arith, p, q, laws.round_sub a.cost acc) in
      let whole : round 2 delta ≡ delta = ground (arith, r, whole_nbv, laws.round_sub value nbv) in
      let places : round 2 (add a.cost delta) ≡ add a.cost delta =
        ground (arith, p, whole, laws.round_add a.cost delta) in
      ap (λ t. sub t acc) places
      ∙ sub_of_add laws value acc (add a.cost delta) (
          ap (λ t. add t acc) (sym (sub-add_cancel laws value nbv))
          ∙ laws.add_assoc delta nbv acc
          ∙ ap (add delta) (sub-add_cancel laws a.cost acc)
          ∙ laws.add_comm delta a.cost)

module _ {D : Type 0} ⦃dec : Decimal D⦄ (c : Context) where
  impairment_tx-assets :
      (ref : String) (value : D) (n : Notice) (audit : Option AuditInfo) (s : Store D)
      (a : FixedAsset D)
      → find_asset ref s.assets ≡ some a
      → (impairment_tx c ref value n audit s).0 ≡ ok tt
      → (impairment_tx c ref value n audit s).1.assets
        ≡ update_asset a.id (accumulate (sub (net_book_value a) value)) s.assets
  unfolding impairment_tx lock_asset
  impairment_tx-assets ref value n audit s a there done =
      let loss = sub (net_book_value a) value in
      ground (
        arith,
        there,
        done,
        adjust_asset-assets c n (impairment_lines ref loss) a.id (accumulate loss)
            (add_impairment (record {
              asset_id = a.id;
              effective_date = date_of n.effective;
              recoverable_amount = round 2 value;
              impairment_loss = round 2 loss;
              is_reversal = false;
            }))
            audit s (λ t. refl),
      )

  revaluation_tx-assets :
      (ref : String) (value : D) (n : Notice) (audit : Option AuditInfo) (s : Store D)
      (a : FixedAsset D)
      → find_asset ref s.assets ≡ some a
      → (revaluation_tx c ref value n audit s).0 ≡ ok tt
      → (revaluation_tx c ref value n audit s).1.assets
        ≡ update_asset a.id (restate_cost (sub value (net_book_value a))) s.assets
  unfolding revaluation_tx lock_asset
  revaluation_tx-assets ref value n audit s a there done =
      let delta = sub value (net_book_value a) in
      ground (
        arith,
        there,
        done,
        adjust_asset-assets c n (revaluation_lines ref delta (surplus_of a.id s.revaluations)) a.id
            (restate_cost delta)
            (add_revaluation (record {
              asset_id = a.id;
              effective_date = date_of n.effective;
              new_carrying_amount = round 2 value;
              surplus_delta = round 2 delta;
            }))
            audit s (λ t. refl),
      )

  -- When an impairment of an asset succeeds that was not impaired on that date, the asset it returns
  -- has the recoverable amount as its net book value; all amounts are in two places.
  pub book_impairment-IsCarriedAt :
      (laws : Laws D) (ref : String) (value : D) (effective : Time) (audit : Option AuditInfo)
      (s : Store D) (a : FixedAsset D) (found : Option (FixedAsset D))
      → find_asset ref s.assets ≡ some a
      → InPlaces a
      → round 2 value ≡ value
      → is_event_processed (event_of c "fa.impair:" ref effective) s.processed ≡ false
      → (book_impairment c ref value effective audit s).0 ≡ ok found
      → IsCarriedAt value found
  unfolding book_impairment
  book_impairment-IsCarriedAt laws ref value effective audit s a found there places whole new done =
      let event_id = event_of c "fa.impair:" ref effective in
      let n : Notice = record {
        event_id = event_id;
        event_type = "finance.asset.impair";
        description = concat "Impairment " ref;
        effective = effective;
      } in
      let loss = sub (net_book_value a) value in
      subst (IsCarriedAt value)
        (sym (
          once-found c event_id ref (impairment_tx c ref value n audit) s a (accumulate loss) found
            new there (λ b. refl) (impairment_tx-assets ref value n audit s a there) done))
        (written_down-carrying laws a value places whole)

  -- When a revaluation of an asset succeeds that was not revalued on that date, the asset it returns
  -- has the new carrying amount as its net book value, upwards and downwards; all amounts are in
  -- two places.
  pub book_revaluation-IsCarriedAt :
      (laws : Laws D) (ref : String) (value : D) (effective : Time) (audit : Option AuditInfo)
      (s : Store D) (a : FixedAsset D) (found : Option (FixedAsset D))
      → find_asset ref s.assets ≡ some a
      → InPlaces a
      → round 2 value ≡ value
      → is_event_processed (event_of c "fa.revalue:" ref effective) s.processed ≡ false
      → (book_revaluation c ref value effective audit s).0 ≡ ok found
      → IsCarriedAt value found
  unfolding book_revaluation
  book_revaluation-IsCarriedAt laws ref value effective audit s a found there places whole new
        done =
      let event_id = event_of c "fa.revalue:" ref effective in
      let n : Notice = record {
        event_id = event_id;
        event_type = "finance.asset.revalue";
        description = concat "Revaluation " ref;
        effective = effective;
      } in
      let delta = sub value (net_book_value a) in
      subst (IsCarriedAt value)
        (sym (
          once-found c event_id ref (revaluation_tx c ref value n audit) s a (restate_cost delta)
            found new there (λ b. refl) (revaluation_tx-assets ref value n audit s a there) done))
        (restated-carrying laws a value places whole)
