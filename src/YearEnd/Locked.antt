-- ===== src/YearEnd/Locked.antt =====
-- The months of a year that was closed.
use iag_finance.Base.{ℕ, zero, suc, ◌+◌, ◌*◌, ◌<◌, String, ◌≡◌, true, Option, List, arith, subst}
use iag_finance.Calendar.{Period}
use iag_finance.Decimal.{Decimal, nought}
use iag_finance.Store.{LineInput, JournalEntry, Store, Context, closed_period, ok}
use iag_finance.Ledger.Periods.{is_period_closed, count_drafts, set_period_status}
use iag_finance.Ledger.Periods.Closing.{find_period-upsert, closed_row}
use iag_finance.YearEnd.{
  close_months, closing_lines, revenue_expense_balances, book_close, close_fiscal_year,
}

module _ {D : Type 0} ⦃dec : Decimal D⦄ (c : Context) where
  -- Closed, and without a draft.
  abbrev pub IsLocked : Period → Store D → Type 0
  IsLocked p s = (is_period_closed p s.periods ≡ true) × (count_drafts p s.entries ≡ 0)

  set_period_status-IsLocked :
      (p q : Period) (by : Option ℕ) (s : Store D)
      → IsLocked q s
      → IsLocked q (set_period_status c p closed_period by s).1
  unfolding set_period_status is_period_closed
  set_period_status-IsLocked p q by s h =
      ground (arith, h, find_period-upsert q (closed_row c p by) s.periods)

  close_months-keeps :
      (p : Period) (n : ℕ) (by : Option ℕ) (q : Period) (s : Store D)
      → IsLocked q s
      → IsLocked q (close_months c p n by s).1
  unfolding close_months
  close_months-keeps p zero by q s h = h
  close_months-keeps p (suc n) by q s h =
      grind (arith, set_period_status-IsLocked, close_months-keeps (p + 1) n by q)

  set_period_status-locks :
      (p : Period) (by : Option ℕ) (s : Store D)
      → (set_period_status c p closed_period by s).0 ≡ ok tt
      → IsLocked p (set_period_status c p closed_period by s).1
  unfolding set_period_status is_period_closed
  set_period_status-locks p by s h =
      ground (arith, h, find_period-upsert p (closed_row c p by) s.periods)

  close_months-IsLocked :
      (p : Period) (n m : ℕ) (by : Option ℕ) (s : Store D)
      → m < n
      → (close_months c p n by s).0 ≡ ok tt
      → IsLocked (p + m) (close_months c p n by s).1
  unfolding close_months
  close_months-IsLocked p zero m by s less done = ground (arith, less)
  close_months-IsLocked p (suc n) zero by s less done =
      grind (arith, set_period_status-locks p by s, close_months-keeps (p + 1) n by p)
  close_months-IsLocked p (suc n) (suc m) by s less done =
      subst (λ q. IsLocked q (close_months c p (suc n) by s).1) (omega arith)
        (after_first p n m by s (omega arith) done (
          close_months-IsLocked (p + 1) n m by (set_period_status c p closed_period by s).1
            (omega arith)))
    where
      after_first :
          (p n m : ℕ) (by : Option ℕ) (s : Store D)
          → m < n
          → (close_months c p (suc n) by s).0 ≡ ok tt
          → ((close_months c (p + 1) n by (set_period_status c p closed_period by s).1).0 ≡ ok tt
              → IsLocked
                  (p + 1 + m)
                  (close_months c (p + 1) n by (set_period_status c p closed_period by s).1).1)
          → IsLocked (p + 1 + m) (close_months c p (suc n) by s).1
      after_first p n m by s less done rest = ground (arith, done, rest)

  book_close-locks :
      (year : ℕ) (text actor : String) (by : Option ℕ) (lines : List (LineInput D)) (net : D)
      (m : ℕ) (s : Store D) (entry : Option (JournalEntry D))
      → m < 12
      → (book_close c year text actor by lines net s).0 ≡ ok entry
      → IsLocked (year * 12 + m) (book_close c year text actor by lines net s).1
  unfolding book_close
  book_close-locks year text actor by lines net m s entry less done =
      grind (arith, close_months-IsLocked)

  -- When the close of a year succeeds, each of its twelve months is closed afterwards and no draft
  -- is dated in it, whichever of them were closed before.
  pub close_fiscal_year-IsLocked :
      (year : ℕ) (text actor : String) (by : Option ℕ) (m : ℕ) (s : Store D)
      (entry : Option (JournalEntry D))
      → m < 12
      → (close_fiscal_year c year text actor by s).0 ≡ ok entry
      → IsLocked (year * 12 + m) (close_fiscal_year c year text actor by s).1
  unfolding close_fiscal_year
  close_fiscal_year-IsLocked year text actor by m s entry less done =
      let (lines, net) =
        closing_lines nought (revenue_expense_balances year s.entries s.accounts) in
      ground (arith, done, book_close-locks year text actor by lines net m s entry less)
