-- ===== src/Revenue/Plan.antt =====
-- What a recognition run leaves, and the balance of the entries of this module.
use iag_finance.Base.{
  inl, str_eq, ℕ, String, ◌≡◌, refl, ◌⊎◌, Bool, true, false, Option, List, [], ◌∷◌, All, length,
  map, arith, if◌then◌else◌, concat,
}
use iag_finance.Calendar.{Time, Period}
use iag_finance.Decimal.{Decimal, Laws, nought, less_than_or_equal, nought_add}
use iag_finance.Store.{ScheduleLine, AuditInfo, Store, Context, Result, ok, err}
use iag_finance.Ledger.Lines.{line_row, base_amount, totals}
use iag_finance.Ledger.Booking.{
  base_totals, book_posted_entry, is_event_processed, entry_by_source_event, is_empty,
}
use iag_finance.Revenue.Schedules.{account_id_by_code, deferred_code, revenue_code, transfer_lines}
use iag_finance.Revenue.Recognition.{
  is_due, due_lines, total_of, has_id, stamp, recognise, run_recognition,
}

module _ {D : Type 0} ⦃dec : Decimal D⦄ (laws : Laws D) where
  -- An entry that moves one amount between two accounts has the same total of base debits and base
  -- credits at any rate, however the products round.
  pub transfer_lines-Even :
      (fx : D) (currency debit_memo credit_memo : String) (debit credit : ℕ) (amount : D)
      → let t = base_totals (
          map (line_row fx currency) (transfer_lines debit debit_memo credit credit_memo amount)) in
        t.0 ≡ t.1
  unfolding totals line_row base_amount transfer_lines
  transfer_lines-Even fx currency debit_memo credit_memo debit credit amount = simp (
    laws.nought_mul fx,
    laws.round_nought 2,
    laws.round_nought 4,
    laws.add_nought,
    nought_add laws,
  )

abbrev pub is_ok : {A : Type 0} → Result A → Bool
is_ok (ok _) = true
is_ok (err _) = false

module _ {D : Type 0} ⦃dec : Decimal D⦄ where
  abbrev Listed : Period → List (ScheduleLine D) → List (ScheduleLine D) → Type 0
  Listed p dues = All (λ l. (is_due p l ≡ false) ⊎ (has_id l.id dues ≡ true))

  Listed-cons :
      (p : Period) (d : ScheduleLine D) (dues ls : List (ScheduleLine D))
      → Listed p dues ls
      → Listed p (d ∷ dues) ls
  unfolding has_id
  Listed-cons p d dues [] h = tt
  Listed-cons p d dues (l ∷ ls) h = (ground (arith, h.0), Listed-cons p d dues ls h.1)

  one_more-Listed :
      (p : Period) (l : ScheduleLine D) (dues ls : List (ScheduleLine D)) (b : Bool)
      → is_due p l ≡ b
      → Listed p dues ls
      → Listed p (if b then l ∷ dues else dues) (l ∷ ls)
  unfolding has_id
  one_more-Listed p l dues ls true due h = (ground arith, Listed-cons p l dues ls h)
  one_more-Listed p l dues ls false later h = (inl later, h)

  due_lines-Listed : (p : Period) (ls : List (ScheduleLine D)) → Listed p (due_lines p ls) ls
  unfolding due_lines
  due_lines-Listed p [] = tt
  due_lines-Listed p (l ∷ ls) =
      one_more-Listed p l (due_lines p ls) ls (is_due p l) refl (due_lines-Listed p ls)

  stamp-due :
      (p : Period) (dues : List (ScheduleLine D)) (entry : ℕ) (ls : List (ScheduleLine D))
      → Listed p dues ls
      → due_lines p (stamp dues entry ls) ≡ []
  unfolding due_lines stamp
  stamp-due p dues entry [] h = refl
  stamp-due p dues entry (l ∷ ls) h = ground (arith, h.0, stamp-due p dues entry ls h.1)

  -- After a recognition entry has been booked, no line that was due in its period is still due:
  -- every one is stamped.
  pub recognise-due :
      (p : Period) (entry : ℕ) (s : Store D)
      → due_lines p (recognise (due_lines p s.schedule_lines) entry s).1.schedule_lines ≡ []
  unfolding recognise
  recognise-due p entry s =
      stamp-due p (due_lines p s.schedule_lines) entry s.schedule_lines
        (due_lines-Listed p s.schedule_lines)

module _ {D : Type 0} ⦃dec : Decimal D⦄ (c : Context) where
  -- When a period has been run already and lines of a positive total have become due in it since,
  -- a second run, with both accounts in place, books nothing and stamps nothing, but reports the
  -- new lines and their total as recognised.
  pub run_recognition-again :
      (p : Period) (text : String) (at : Time) (audit : Option AuditInfo) (s : Store D)
      → is_event_processed (concat "revrec:" text) s.processed ≡ true
      → str_eq (concat "revrec:" text) "" ≡ false
      → is_empty (due_lines p s.schedule_lines) ≡ false
      → less_than_or_equal (total_of nought (due_lines p s.schedule_lines)) nought ≡ false
      → is_ok (account_id_by_code deferred_code s.accounts) ≡ true
      → is_ok (account_id_by_code revenue_code s.accounts) ≡ true
      → run_recognition c p text at audit s ≡ (
        ok (
          entry_by_source_event (concat "revrec:" text) s.entries,
          total_of nought (due_lines p s.schedule_lines),
          length (due_lines p s.schedule_lines),
        ),
        s,
      )
  unfolding run_recognition book_posted_entry
  run_recognition-again p text at audit s done named dues positive deferred revenue = ground arith
