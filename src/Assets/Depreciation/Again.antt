-- ===== src/Assets/Depreciation/Again.antt =====
-- A period that is run again is not charged twice.
use iag_finance.Base.{
  ℕ, String, ◌≡◌, refl, ◌⊎◌, inl, inr, Bool, true, false, Option, none, some, List, [], ◌∷◌, ◌++◌,
  if◌then◌else◌, arith,
}
use iag_finance.Calendar.{Date, Time, Period, date_of, period_end}
use iag_finance.Decimal.{Decimal, Laws, nought}
use iag_finance.Store.{FixedAsset, DepreciationEntry, Store, Context, ok}
use iag_finance.Assets.Depreciation.{
  Charges, DepreciationRun, is_charged, is_depreciable, charge, accumulate, depreciate,
  depreciate_one, depreciation_tx, run_depreciation,
}
use iag_finance.Assets.Depreciation.Bounds.{charges_of, book_depreciation-register}

module _ {D : Type 0} ⦃dec : Decimal D⦄ where
  -- A run that found nothing to charge.
  abbrev pub nothing_run : Period → DepreciationRun D
  nothing_run p = record {
    period = p;
    assets_depreciated = 0;
    total_amount = nought;
    journal_entry_id = none;
  }

  -- Every asset that has an entry for the period among `es` has one among `done`.
  abbrev Includes : Period → List (DepreciationEntry D) → List (DepreciationEntry D) → Type 0
  Includes p done es = (id : ℕ) → is_charged id p es ≡ true → is_charged id p done ≡ true

  abbrev no_charges : List (FixedAsset D) → Charges D
  no_charges as' = record { assets = as'; entries = []; total = nought; count = 0 }

  is_charged-append :
      (id : ℕ) (p : Period) (xs ys : List (DepreciationEntry D))
      → (is_charged id p xs ≡ true) ⊎ (is_charged id p ys ≡ true)
      → is_charged id p (xs ++ ys) ≡ true
  unfolding is_charged
  is_charged-append id p [] ys h = ground arith
  is_charged-append id p (x ∷ xs) ys h = grind (arith, is_charged-append id p xs ys)

  next_none :
      (p : Period) (end' : Date) (more : List (DepreciationEntry D)) (a : FixedAsset D)
      (rest : Charges D)
      → (if is_depreciable p end' more a then charge a else none) ≡ none
      → depreciate p end' more rest.assets ≡ no_charges rest.assets
      → depreciate p end' more (a ∷ rest.assets) ≡ no_charges (a ∷ rest.assets)
  unfolding depreciate
  next_none p end' more a rest nothing h = rw nothing (rw h refl)

  none_either : {o : Option D} → o ≡ none → (due : Bool) → (if due then o else none) ≡ none
  none_either nothing true = nothing
  none_either nothing false = refl

  charged_now :
      (p : Period) (a : FixedAsset D) (amount : D) (rest : Charges D)
      → is_charged a.id p (depreciate_one p a (some amount) rest).entries ≡ true
  unfolding is_charged
  charged_now p a amount rest = ground arith

  charged_before :
      (p : Period) (end' : Date) (more : List (DepreciationEntry D)) (a : FixedAsset D)
      → is_charged a.id p more ≡ true
      → is_depreciable p end' more a ≡ false
  unfolding is_depreciable
  charged_before p end' more a h = ground arith

  still_not :
      (p : Period) (end' : Date) (done more : List (DepreciationEntry D)) (a : FixedAsset D)
      → Includes p more done
      → is_depreciable p end' done a ≡ false
      → is_depreciable p end' more a ≡ false
  unfolding is_depreciable
  still_not p end' done more a before h = ground (arith, before a.id)

  smaller :
      (p : Period) (more : List (DepreciationEntry D)) (a : FixedAsset D) (o : Option D)
      (rest : Charges D)
      → Includes p more (depreciate_one p a o rest).entries
      → Includes p more rest.entries
  unfolding is_charged
  smaller p more a none rest h = h
  smaller p more a (some amount) rest h = λ id k. h id (ground arith)

  depreciate_one-again :
      (p : Period) (end' : Date) (done more : List (DepreciationEntry D)) (a : FixedAsset D)
      (rest : Charges D)
      → Includes p more done
      → let o = (if is_depreciable p end' done a then charge a else none) in
        Includes p more (depreciate_one p a o rest).entries
        → depreciate p end' more rest.assets ≡ no_charges rest.assets
        → let next = (depreciate_one p a o rest).assets in
          depreciate p end' more next ≡ no_charges next
  depreciate_one-again p end' done more a rest before after h =
      by_due (is_depreciable p end' done a) refl after
    where
      by_charge :
          (o : Option D)
          → charge a ≡ o
          → Includes p more (depreciate_one p a o rest).entries
          → let next = (depreciate_one p a o rest).assets in
            depreciate p end' more next ≡ no_charges next
      by_charge none nothing inside =
          next_none p end' more a rest (none_either nothing (is_depreciable p end' more a)) h
      by_charge (some amount) charged inside =
          next_none p end' more (accumulate amount a) rest
            (rw
              (charged_before p end' more (accumulate amount a)
                (inside a.id (charged_now p a amount rest)))
              refl)
            h

      by_due :
          (due : Bool)
          → is_depreciable p end' done a ≡ due
          → Includes p more (depreciate_one p a (if due then charge a else none) rest).entries
          → let next = (depreciate_one p a (if due then charge a else none) rest).assets in
            depreciate p end' more next ≡ no_charges next
      by_due true due inside = by_charge (charge a) refl inside
      by_due false due inside =
          next_none p end' more a rest (rw (still_not p end' done more a before due) refl) h

  depreciate-again :
      (p : Period) (end' : Date) (done more : List (DepreciationEntry D))
      (as' : List (FixedAsset D))
      → Includes p more done
      → Includes p more (depreciate p end' done as').entries
      → let next = (depreciate p end' done as').assets in
        depreciate p end' more next ≡ no_charges next
  unfolding depreciate
  depreciate-again p end' done more [] before after = refl
  depreciate-again p end' done more (a ∷ as') before after =
      depreciate_one-again p end' done more a (depreciate p end' done as') before after (
        depreciate-again p end' done more as' before (
          smaller p more a (if is_depreciable p end' done a then charge a else none)
            (depreciate p end' done as') after))

module _ {D : Type 0} ⦃dec : Decimal D⦄ (c : Context) where
  run_registers :
      (p : Period) (text : String) (at : Time) (s t : Store D) (r : DepreciationRun D)
      → run_depreciation c p text at s ≡ (ok r, t)
      → (t.assets ≡ (charges_of c p s).assets)
        × (t.depreciation ≡ (charges_of c p s).entries ++ s.depreciation)
  unfolding run_depreciation depreciation_tx
  run_registers p text at s t r h = grind (arith, book_depreciation-register c)

module _ {D : Type 0} ⦃dec : Decimal D⦄ (laws : Laws D) (c : Context) where
  run_nothing :
      (p : Period) (text : String) (at : Time) (t : Store D)
      → charges_of c p t ≡ no_charges t.assets
      → run_depreciation c p text at t ≡ (ok (nothing_run p), t)
  unfolding run_depreciation depreciation_tx
  run_nothing p text at t h = ground (arith, laws.cmp_refl nought)

  -- When the depreciation of a period has succeeded, a second run of the same period charges no
  -- asset, books no entry and changes nothing: the run can be repeated at any time.
  pub run_depreciation-again :
      (p : Period) (text text' : String) (at at' : Time) (s t : Store D) (r : DepreciationRun D)
      → run_depreciation c p text at s ≡ (ok r, t)
      → run_depreciation c p text' at' t ≡ (ok (nothing_run p), t)
  run_depreciation-again p text text' at at' s t r h =
      let (assets, entries) = run_registers c p text at s t r h in
      let ch = charges_of c p s in
      run_nothing p text' at' t (
        rw assets (
          rw entries (
            depreciate-again p (date_of (period_end p)) s.depreciation
              (ch.entries ++ s.depreciation) s.assets
              (λ id k. is_charged-append id p ch.entries s.depreciation (inr k))
              (λ id k. is_charged-append id p ch.entries s.depreciation (inl k)))))
