-- ===== src/Ledger/Booking/Balance.antt =====
-- Every posted entry balances in base currency: what booking does to that invariant.
use iag_finance.Base.{ℕ, ◌≤◌, String, ◌≡◌, refl, true, Option, none, some, All, arith}
use iag_finance.Calendar.{Time}
use iag_finance.Decimal.{Decimal}
use iag_finance.Store.{CreateJournalParams, AuditInfo, Store, Context, Action}
use iag_finance.Audit.{append_audit}
use iag_finance.Ledger.Booking.{
  entry_by_id, is_balanced, assert_balanced, insert_posted_entry, booking, book_tx, mark_processed,
  next_entry_number,
}

module _ {D : Type 0} ⦃dec : Decimal D⦄ where
  abbrev pub IsBalanced : Store D → Type 0
  IsBalanced s = All (λ e. is_balanced e ≡ true) s.entries

  -- A side effect writes to other tables.
  abbrev pub LeavesEntries : (ℕ → Action D (Unit {0})) → Type 0
  LeavesEntries side =
      (id : ℕ) (s : Store D)
      → ((side id s).1.entries ≡ s.entries) × (s.next_id ≤ (side id s).1.next_id)

  pub append_audit-entries :
      (c : Context) (a : Option AuditInfo) (s : Store D)
      → (append_audit c a s).1.entries ≡ s.entries
  unfolding append_audit
  append_audit-entries c none s = refl
  append_audit-entries c (some a) s = ground arith

module _ {D : Type 0} ⦃dec : Decimal D⦄ (c : Context) where
  pub book_tx-IsBalanced :
      (p : CreateJournalParams D) (event_id event_type : String) (at : Time)
      (side : ℕ → Action D (Unit {0})) (audit : Option AuditInfo) (s : Store D)
      → LeavesEntries side
      → IsBalanced s
      → IsBalanced (book_tx c p event_id event_type at side audit s).1
  unfolding book_tx booking insert_posted_entry next_entry_number assert_balanced entry_by_id
      mark_processed
  book_tx-IsBalanced p event_id event_type at side audit s keeps b =
      grind (arith, append_audit-entries, keeps)
