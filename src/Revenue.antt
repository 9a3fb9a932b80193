-- ===== src/Revenue.antt =====
-- Deferral and recognition of revenue: internal/repository/revrec.go.
pub mod Slices
pub mod Schedules
pub mod Recognition
pub mod Plan
