-- ===== src/Assets/Restatement/Register.antt =====
-- The register after an adjustment.
use iag_finance.Base.{ℕ, String, ◌≡◌, ap, ◌∙◌, Option, some, List, [], ◌∷◌, arith}
use iag_finance.Decimal.{Decimal}
use iag_finance.Store.{modify, ◌>>◌, ◌>>=◌, FixedAsset, Store, AuditInfo, Context, Result, ok, err}
use iag_finance.Audit.{append_audit}
use iag_finance.Ledger.Booking.{
  mark_processed, next_entry_number, insert_posted_entry, assert_balanced,
}
use iag_finance.Assets.Lines.{DisposalLine}
use iag_finance.Assets.Register.{find_asset}
use iag_finance.Assets.Restatement.{Notice, post_asset_adjustment, adjust_asset}
use iag_finance.Assets.Rows.{update_asset}

module _ {D : Type 0} ⦃dec : Decimal D⦄ where
  pub find_asset-update_asset :
      (ref : String) (id : ℕ) (f : FixedAsset D → FixedAsset D) (as' : List (FixedAsset D))
      (a : FixedAsset D)
      → ((b : FixedAsset D) → (f b).asset_ref ≡ b.asset_ref)
      → find_asset ref as' ≡ some a
      → a.id ≡ id
      → find_asset ref (update_asset id f as') ≡ some (f a)
  unfolding find_asset update_asset
  find_asset-update_asset ref id f [] a kept h same = ground (arith, h)
  find_asset-update_asset ref id f (b ∷ as') a kept h same =
      ground (arith, kept b, h, same, find_asset-update_asset ref id f as' a kept)

module _ {D : Type 0} ⦃dec : Decimal D⦄ (c : Context) where
  post_asset_adjustment-assets :
      (n : Notice) (lines : List (DisposalLine D)) (s : Store D)
      → (post_asset_adjustment c n lines s).1.assets ≡ s.assets
  unfolding post_asset_adjustment next_entry_number insert_posted_entry mark_processed
  post_asset_adjustment-assets n lines s = ground arith

  rest-assets :
      (id : ℕ) (f : FixedAsset D → FixedAsset D) (write : Store D → Store D)
      (audit : Option AuditInfo) (entry : ℕ) (t : Store D)
      → ((t : Store D) → (write t).assets ≡ t.assets)
      → ((modify (λ s. record s { assets = update_asset id f s.assets })
            >> (modify write >> (append_audit c audit >> assert_balanced entry)))
          t).1.assets
        ≡ update_asset id f t.assets
  unfolding append_audit assert_balanced
  rest-assets id f write audit entry t kept =
      ground (arith, kept (record t { assets = update_asset id f t.assets }))

  pub adjust_asset-assets :
      (n : Notice) (lines : List (DisposalLine D)) (id : ℕ) (f : FixedAsset D → FixedAsset D)
      (write : Store D → Store D) (audit : Option AuditInfo) (s : Store D)
      → ((t : Store D) → (write t).assets ≡ t.assets)
      → (adjust_asset c n lines id f write audit s).0 ≡ ok tt
      → (adjust_asset c n lines id f write audit s).1.assets ≡ update_asset id f s.assets
  unfolding adjust_asset
  adjust_asset-assets n lines id f write audit s kept =
      by_result (post_asset_adjustment c n lines s) (post_asset_adjustment-assets n lines s)
    where
      by_result :
          (r : Result ℕ × Store D)
          → r.1.assets ≡ s.assets
          → let m = (λ (_ : Store D). r) >>= λ entry.
              modify (λ s. record s { assets = update_asset id f s.assets })
              >> (modify write >> (append_audit c audit >> assert_balanced entry)) in
            (m s).0 ≡ ok tt → (m s).1.assets ≡ update_asset id f s.assets
      by_result (ok entry, t) same done =
          rest-assets id f write audit entry t kept ∙ ap (update_asset id f) same
      by_result (err e, t) same done = ground (arith, done)
