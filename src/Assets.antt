-- ===== src/Assets.antt =====
-- The register of fixed assets: internal/repository/fixed_assets.go,
-- internal/repository/fixed_assets_ias16.go, internal/ledger/fixed_assets.go and
-- internal/ledger/assetdisposal.go.
pub mod Register
pub mod Depreciation
pub mod Lines
pub mod Disposal
pub mod Rows
pub mod Restatement
