-- ===== src/Leases/Runs/Whole.antt =====
-- Every line of a lease pays its interest and its principal: what recognising and running leases
-- does to that invariant.
use iag_finance.Base.{
  All-append, ℕ, suc, zero, Bool, true, false, ◌+◌, ◌==◌, String, ◌≡◌, refl, sym, ap, subst, All,
  map, List, [], ◌∷◌, Option, arith,
}
use iag_finance.Calendar.{Time, Period, add_months}
use iag_finance.Decimal.{Decimal, Laws, nought, from_int, add, sub, mul, div, div_round, round}
use iag_finance.Store.{LeaseLine, AuditInfo, Store, Context}
use iag_finance.Ledger.Booking.{base_totals}
use iag_finance.Ledger.Booking.Frame.{IgnoresJournal, book_posted_entry-keeps}
use iag_finance.Ledger.Lines.{line_row}
use iag_finance.Leases.Schedule.{
  ScheduleRow, amortization_row, schedule_rows, present_value, discounted_payments,
  build_lease_schedule,
}
use iag_finance.Leases.Recognition.{
  CreateLeaseInput, lease_line, lease_line_rows, write_lease, book_lease, create_lease,
}
use iag_finance.Leases.Runs.{
  due_lease_lines, stamp_lease_lines, book_lease_lines, run_due_lines, run_lease_period,
  RunAccounts, run_lines, run_sums, no_sums,
}
use iag_finance.Leases.Runs.Balance.{TwoPlaces, PaysWhole, add_places, whole_lines, run_sums-whole}

module _ {D : Type 0} ⦃dec : Decimal D⦄ where
  -- All lines of the store.
  abbrev pub LinesWhole : Store D → Type 0
  LinesWhole s = All PaysWhole s.lease_lines

  -- A row whose line pays its interest and its principal.
  abbrev WholeRow : ScheduleRow D → Type 0
  WholeRow r = PaysWhole (lease_line 0 0 r)

  LinesWhole-frame : IgnoresJournal LinesWhole
  LinesWhole-frame s t same h =
      subst (λ (ls : List (LeaseLine D)). All PaysWhole ls)
        (sym (ap (λ (u : Store D). u.lease_lines) same)) h

  stamp_lease_lines-whole :
      (dues : List (LeaseLine D)) (entry : ℕ) (ls : List (LeaseLine D))
      → All PaysWhole ls
      → All PaysWhole (stamp_lease_lines dues entry ls)
  unfolding stamp_lease_lines
  stamp_lease_lines-whole dues entry [] h = tt
  stamp_lease_lines-whole dues entry (l ∷ ls) h =
      (ground (arith, h.0), stamp_lease_lines-whole dues entry ls h.1)

  due_lease_lines-whole :
      (p : Period) (ls : List (LeaseLine D))
      → All PaysWhole ls
      → All PaysWhole (due_lease_lines p ls)
  unfolding due_lease_lines
  due_lease_lines-whole p [] h = tt
  due_lease_lines-whole p (l ∷ ls) h = ground (arith, h.0, due_lease_lines-whole p ls h.1)

module _ {D : Type 0} ⦃dec : Decimal D⦄ (laws : Laws D) where
  sub_places : (a b : D) → TwoPlaces a → TwoPlaces b → TwoPlaces (sub a b)
  sub_places a b h k = ground (arith, laws.round_sub a b)

  amortization_row-places :
      (payment monthly rou depr_per : D) (last : Bool) (period : Period) (opening accum : D)
      → TwoPlaces payment
      → TwoPlaces opening
      → let r = amortization_row payment monthly rou depr_per last period opening accum in
        TwoPlaces r.principal
        × TwoPlaces r.interest
        × TwoPlaces r.closing
        × (r.payment ≡ add r.interest r.principal)
  unfolding amortization_row
  amortization_row-places payment monthly rou depr_per false period opening accum h k =
      let interest = laws.round_2_2 (mul opening monthly) in
      let principal = sub_places payment (round 2 (mul opening monthly)) h interest in
      (
        principal,
        interest,
        sub_places opening (sub payment (round 2 (mul opening monthly))) k principal,
        refl,
      )
  amortization_row-places payment monthly rou depr_per true period opening accum h k =
      (k, laws.round_2_2 (mul opening monthly), sub_places opening opening k k, refl)

  lease_line-whole :
      (id lease : ℕ) (r : ScheduleRow D)
      → TwoPlaces r.principal
      → TwoPlaces r.interest
      → r.payment ≡ add r.interest r.principal
      → PaysWhole (lease_line id lease r)
  lease_line-whole id lease r p i pays = (
    rw p (rw i (rw pays (add_places laws r.interest r.principal i p))),
    laws.round_2_2 r.interest,
    laws.round_2_2 r.principal,
    laws.round_2_2 r.payment,
    laws.round_2_2 r.depreciation,
  )

  schedule_rows-whole :
      (id lease : ℕ) (payment monthly rou depr_per : D) (n : ℕ) (period : Period)
      (opening accum : D)
      → TwoPlaces payment
      → TwoPlaces opening
      → All PaysWhole (
          lease_line_rows id lease
            (schedule_rows payment monthly rou depr_per n period opening accum))
  unfolding schedule_rows lease_line_rows
  schedule_rows-whole id lease payment monthly rou depr_per zero period opening accum h k = tt
  schedule_rows-whole id lease payment monthly rou depr_per (suc n) period opening accum h k =
      let r = amortization_row payment monthly rou depr_per (n == 0) period opening accum in
      let (principal, interest, closing, pays) =
        amortization_row-places payment monthly rou depr_per (n == 0) period opening accum h k in
      (
        lease_line-whole id lease r principal interest pays,
        schedule_rows-whole (id + 1) lease payment monthly rou depr_per n (add_months period 1)
            r.closing (add accum r.depreciation) h closing,
      )

  build_lease_schedule-whole :
      (id lease : ℕ) (payment annual_rate : D) (term : ℕ) (start : Period)
      → TwoPlaces payment
      → All PaysWhole
          (lease_line_rows id lease (build_lease_schedule payment annual_rate term start).1)
  unfolding build_lease_schedule present_value
  build_lease_schedule-whole id lease payment annual_rate term start h =
      let monthly = div annual_rate (from_int 12) in
      let pv = present_value payment monthly term in
      schedule_rows-whole id lease payment monthly pv (div_round pv (from_int term) 2) term start pv
        nought h (laws.round_2_2 (discounted_payments payment monthly term (from_int 1, nought)).1)

module _ {D : Type 0} ⦃dec : Decimal D⦄ (laws : Laws D) (c : Context) where
  write_lease-whole :
      (in' : CreateLeaseInput D) (pv : D) (rows : List (ScheduleRow D)) (entry : ℕ) (s : Store D)
      → ((id lease : ℕ) → All PaysWhole (lease_line_rows id lease rows))
      → LinesWhole s
      → LinesWhole (write_lease c in' pv rows entry s).1
  unfolding write_lease
  write_lease-whole in' pv rows entry s h k = ground (
    arith,
    All-append PaysWhole (lease_line_rows (s.next_id + 1) s.next_id rows) s.lease_lines
        (h (s.next_id + 1) s.next_id) k,
  )

  book_lease-whole :
      (in' : CreateLeaseInput D) (at : Time) (audit : Option AuditInfo) (pv : D)
      (rows : List (ScheduleRow D)) (s : Store D)
      → ((id lease : ℕ) → All PaysWhole (lease_line_rows id lease rows))
      → LinesWhole s
      → LinesWhole (book_lease c in' at audit pv rows s).1
  unfolding book_lease
  book_lease-whole in' at audit pv rows s h k = grind (
    arith,
    book_posted_entry-keeps c LinesWhole LinesWhole-frame (write_lease c in' pv rows)
        (λ id t. write_lease-whole in' pv rows id t h),
  )

  -- If every line of a lease pays exactly its interest and its principal, in amounts of two places,
  -- so it is after a lease with a payment of two places is recognised, and after a lease run,
  -- whether they succeed or fail.
  pub leases-LinesWhole :
      (in' : CreateLeaseInput D) (at : Time) (audit : Option AuditInfo) (s : Store D) (p : Period)
      (text : String)
      → TwoPlaces in'.monthly_payment
      → LinesWhole s
      → LinesWhole (create_lease c in' at audit s).1
        × LinesWhole (run_lease_period c p text at audit s).1
  unfolding create_lease run_lease_period run_due_lines book_lease_lines
  leases-LinesWhole in' at audit s p text h k =
      let b =
        build_lease_schedule in'.monthly_payment in'.annual_rate in'.term_months in'.start_period in
      let dues = due_lease_lines p s.lease_lines in
      (
        ground (
          arith,
          book_lease-whole in' at audit b.0 b.1 s
              (λ id lease.
                build_lease_schedule-whole laws id lease in'.monthly_payment in'.annual_rate
                  in'.term_months in'.start_period h)
              k,
        ),
        grind (
          arith,
          book_posted_entry-keeps c LinesWhole LinesWhole-frame (book_lease_lines dues)
              (λ id t. stamp_lease_lines-whole dues id t.lease_lines),
        ),
      )

module _ {D : Type 0} ⦃dec : Decimal D⦄ (laws : Laws D) where
  -- If every line of a lease pays exactly its interest and its principal, in amounts of two places,
  -- the entry of a run of any period, without the lines that are nought, has the same total of base
  -- debits and base credits, and the trigger has nothing to reject.
  pub run_lines-Even :
      (ids : RunAccounts) (p : Period) (s : Store D) (currency text : String)
      → LinesWhole s
      → let u = base_totals (
          map
            (line_row (from_int 1) currency)
            (run_lines ids (run_sums no_sums (due_lease_lines p s.lease_lines)) text)) in
        u.0 ≡ u.1
  run_lines-Even ids p s currency text whole =
      let dues = due_lease_lines p s.lease_lines in
      whole_lines laws ids (run_sums no_sums dues) currency text
        (run_sums-whole laws dues (due_lease_lines-whole p s.lease_lines whole))
