-- ===== src/Ledger/Trial/Balance.antt =====
-- The trial balance balances.
use iag_finance.Base.{
  ℕ, suc, ◌<◌, ◌≡◌, ◌∙◌, sym, ap, refl, ◌⊎◌, inl, inr, Bool, true, Option, List, [], ◌∷◌, map, All,
  arith, if◌then◌else◌, ◌==◌, Bool-cases,
}
use iag_finance.Calendar.{Date}
use iag_finance.Decimal.{Decimal, Laws, nought, add, sum, nought_add, add_left_comm}
use iag_finance.Store.{Account, JournalLine, JournalEntry, Store}
use iag_finance.Ledger.Lines.Totals.{totals_from_nought}
use iag_finance.Ledger.Booking.{is_balanced}
use iag_finance.Ledger.Booking.Balance.{IsBalanced}
use iag_finance.Ledger.Trial.{
  TrialBalanceRow, in_range, sum_lines, sum_entries, trial_rows, trial_balance,
}

-- How many active accounts have an id.
unfoldable pub count_active : ℕ → List Account → ℕ
count_active id [] = 0
count_active id (a ∷ as') =
    let rest = count_active id as' in
    if a.active then (if id == a.id then suc rest else rest) else rest

module _ {D : Type 0} where
  -- Every line is on exactly one active account.
  abbrev pub Charted : List Account → List (JournalEntry D) → Type 0
  Charted as' = All (λ e. All (λ l. count_active l.account_id as' ≡ 1) e.lines)

module _ {D : Type 0} ⦃dec : Decimal D⦄ (laws : Laws D) where
  -- A sum over the active accounts.
  unfoldable over : (ℕ → D) → List Account → D
  over f [] = nought
  over f (a ∷ as') = if a.active then add (f a.id) (over f as') else over f as'

  add_swap : (a b c d : D) → add (add a b) (add c d) ≡ add (add a c) (add b d)
  add_swap a b c d =
      laws.add_assoc a b (add c d)
      ∙ ap (add a) (add_left_comm laws b c d)
      ∙ sym (laws.add_assoc a c (add b d))

  over-add :
      (f g : ℕ → D) (as' : List Account)
      → over (λ i. add (f i) (g i)) as' ≡ add (over f as') (over g as')
  unfolding over
  over-add f g [] = sym (laws.add_nought nought)
  over-add f g (a ∷ as') =
      ground (arith, over-add f g as', add_swap (f a.id) (g a.id) (over f as') (over g as'))

  over-nought : (as' : List Account) → over (λ _. nought) as' ≡ nought
  unfolding over
  over-nought [] = refl
  over-nought (a ∷ as') = ground (arith, over-nought as', laws.add_nought nought)

  over-hit :
      (k : ℕ) (x : D) (as' : List Account)
      → ((count_active k as' ≡ 0) × (over (λ i. if k == i then x else nought) as' ≡ nought))
        ⊎ ((count_active k as' ≡ 1) × (over (λ i. if k == i then x else nought) as' ≡ x))
        ⊎ (1 < count_active k as')
  unfolding over count_active
  over-hit k x [] = ground arith
  over-hit k x (a ∷ as') =
      ground (arith, over-hit k x as', laws.add_nought x, laws.add_nought nought, nought_add laws x)

  over-ap : (f g : ℕ → D) (as' : List Account) → ((i : ℕ) → f i ≡ g i) → over f as' ≡ over g as'
  unfolding over
  over-ap f g [] h = refl
  over-ap f g (a ∷ as') h = ground (arith, over-ap f g as' h, h a.id)

  sum_lines-cons :
      (side : JournalLine D → D) (l : JournalLine D) (ls : List (JournalLine D)) (i : ℕ)
      → sum_lines side i (l ∷ ls)
        ≡ add (if l.account_id == i then side l else nought) (sum_lines side i ls)
  unfolding sum_lines
  sum_lines-cons side l ls i = ground (arith, nought_add laws (sum_lines side i ls))

  over-lines :
      (side : JournalLine D → D) (as' : List Account) (ls : List (JournalLine D))
      → All (λ l. count_active l.account_id as' ≡ 1) ls
      → over (λ i. sum_lines side i ls) as' ≡ sum (map side ls)
  unfolding sum_lines
  over-lines side as' [] h = over-nought as'
  over-lines side as' (l ∷ ls) h =
      over-ap _ _ as' (sum_lines-cons side l ls)
      ∙ over-add (λ i. if l.account_id == i then side l else nought) (λ i. sum_lines side i ls) as'
      ∙ ground (arith, h.0, over-hit l.account_id (side l) as', over-lines side as' ls h.1)

  unfoldable total : (JournalLine D → D) → (JournalEntry D → Bool) → List (JournalEntry D) → D
  total side counts [] = nought
  total side counts (e ∷ es) =
      let rest = total side counts es in
      if counts e then add (sum (map side e.lines)) rest else rest

  over-entries :
      (side : JournalLine D → D) (counts : JournalEntry D → Bool) (as' : List Account)
      (es : List (JournalEntry D))
      → Charted as' es
      → over (λ i. sum_entries side counts i es) as' ≡ total side counts es
  unfolding sum_entries total
  over-entries side counts as' [] h = over-nought as'
  over-entries side counts as' (e ∷ es) h = elim (Bool-cases (counts e)) [
    | inl counted ↦ rw counted (
        over-add (λ i. sum_lines side i e.lines) (λ i. sum_entries side counts i es) as'
        ∙ ground (arith, over-lines side as' e.lines h.0, over-entries side counts as' es h.1))
    | inr skipped ↦ rw skipped (over-entries side counts as' es h.1)
  ]

  rows-over :
      (counts : JournalEntry D → Bool) (es : List (JournalEntry D)) (as' : List Account)
      → (sum (map (λ (r : TrialBalanceRow D). r.debit) (trial_rows counts es as'))
          ≡ over (λ i. sum_entries (λ (l : JournalLine D). l.debit_base) counts i es) as')
        × (sum (map (λ (r : TrialBalanceRow D). r.credit) (trial_rows counts es as'))
            ≡ over (λ i. sum_entries (λ (l : JournalLine D). l.credit_base) counts i es) as')
  unfolding trial_rows over
  rows-over counts es [] = (refl, refl)
  rows-over counts es (a ∷ as') = ground (arith, rows-over counts es as')

  total-Even :
      (from to : Option Date) (entities : List ℕ) (es : List (JournalEntry D))
      → All (λ e. is_balanced e ≡ true) es
      → total (λ l. l.debit_base) (in_range from to entities) es
        ≡ total (λ l. l.credit_base) (in_range from to entities) es
  unfolding total in_range is_balanced
  total-Even from to entities [] b = refl
  total-Even from to entities (e ∷ es) b = ground (
    arith,
    b.0,
    total-Even from to entities es b.1,
    totals_from_nought laws (λ (l : JournalLine D). l.debit_base) (λ l. l.credit_base) e.lines,
    laws.eq_of_cmp (sum (map (λ (l : JournalLine D). l.debit_base) e.lines))
        (sum (map (λ (l : JournalLine D). l.credit_base) e.lines)),
  )

  -- When every posted entry balances in base currency and every line is on exactly one active
  -- account, the debits and the credits of the trial balance add up to the same, for any range of
  -- dates and any set of entities.
  pub trial_balance-Even :
      (from to : Option Date) (entities : List ℕ) (s : Store D)
      → IsBalanced s
      → Charted s.accounts s.entries
      → sum (map (λ (r : TrialBalanceRow D). r.debit) (trial_balance from to entities s))
        ≡ sum (map (λ (r : TrialBalanceRow D). r.credit) (trial_balance from to entities s))
  unfolding trial_balance
  trial_balance-Even from to entities s b charted =
      let rows = rows-over (in_range from to entities) s.entries s.accounts in
      rows.0
      ∙ over-entries (λ l. l.debit_base) (in_range from to entities) s.accounts s.entries charted
      ∙ total-Even from to entities s.entries b
      ∙ sym (
          over-entries (λ l. l.credit_base) (in_range from to entities) s.accounts s.entries
            charted)
      ∙ sym rows.1
