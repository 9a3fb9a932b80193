-- ===== src/Ledger/Trial.antt =====
-- The trial balance of internal/repository/repository.go, and what booking and reversal do to it.
pub mod Balance
pub mod Reversal
use iag_finance.Base.{
  ℕ, ◌+◌, String, Bool, true, false, ◌&&◌, Option, none, some, List, [], ◌∷◌, if◌then◌else◌, ◌==◌,
  leb,
}
use iag_finance.Calendar.{Date}
use iag_finance.Decimal.{Decimal, nought, add}
use iag_finance.Store.{Account, JournalLine, JournalEntry, Store}
use iag_finance.Ledger.Booking.{is_posted}

abbrev pub not_before : Option Date → Date → Bool
not_before none d = true
not_before (some from) d = leb from d

abbrev pub not_after : Option Date → Date → Bool
not_after none d = true
not_after (some to) d = leb d to

unfoldable pub any_of : List ℕ → ℕ → Bool
any_of [] entity = false
any_of (e ∷ es) entity = if e == entity then true else any_of es entity

pub record TrialBalanceRow (D : Type 0) : Type 0 where
  pub account_code : String
  pub debit : D
  pub credit : D

module _ {D : Type 0} ⦃dec : Decimal D⦄ where
  -- The join of an entry: posted, within the dates and of one of the entities.
  unfoldable pub in_range : Option Date → Option Date → List ℕ → JournalEntry D → Bool
  in_range from to entities e =
      is_posted e.status
      && not_before from e.accounting_date
      && not_after to e.accounting_date
      && any_of entities e.entity_id

  -- SUM over the lines of an account, of one side.
  unfoldable pub sum_lines : (JournalLine D → D) → ℕ → List (JournalLine D) → D
  sum_lines side account [] = nought
  sum_lines side account (l ∷ ls) =
      let rest = sum_lines side account ls in
      if l.account_id == account then add (side l) rest else rest

  unfoldable pub sum_entries :
      (JournalLine D → D) → (JournalEntry D → Bool) → ℕ → List (JournalEntry D) → D
  sum_entries side counts account [] = nought
  sum_entries side counts account (e ∷ es) =
      let rest = sum_entries side counts account es in
      if counts e then add (sum_lines side account e.lines) rest else rest

  -- A row for every active account.
  unfoldable pub trial_rows :
      (JournalEntry D → Bool) → List (JournalEntry D) → List Account → List (TrialBalanceRow D)
  trial_rows counts es [] = []
  trial_rows counts es (a ∷ as') =
      let rest = trial_rows counts es as' in
      if a.active
      then (record {
        account_code = a.code;
        debit = sum_entries (λ l. l.debit_base) counts a.id es;
        credit = sum_entries (λ l. l.credit_base) counts a.id es;
      })
        ∷ rest
      else rest

  unfoldable pub trial_balance :
      Option Date → Option Date → List ℕ → Store D → List (TrialBalanceRow D)
  unfolding trial_rows in_range
  trial_balance from to entities s = trial_rows (in_range from to entities) s.entries s.accounts
