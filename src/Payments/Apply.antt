-- ===== src/Payments/Apply.antt =====
-- The rows of a payment: ApplyPayment and what it shares with ApplyPaymentWithJournal, of
-- internal/repository/payments.go,
-- enqueueOutboxTx of internal/repository/outbox.go.
use iag_finance.Base.{
  ℕ, ◌+◌, String, Bool, true, false, not, ◌&&◌, Option, none, some, List, [], ◌∷◌, if◌then◌else◌,
  ◌==◌, str_eq,
}
use iag_finance.Decimal.{Decimal, add, round, greater_than, greater_than_or_equal, is_positive}
use iag_finance.Store.{
  Direction, ar, ap, ItemStatus, partial, closed_item, OpenItem, Payment, OutboxRow, OutboxEvent,
  Store, Action, Result, ok, err, open_item_not_found, payment_exceeds, check_violation,
  unique_violation, payment_missing, pure, gets, lift, modify, transaction, raise_if, or_raise,
  ◌>>=◌, ◌>>◌,
}
use iag_finance.Ledger.Booking.{entry_by_source_event}
use iag_finance.Payments.Settlement.{find_item, items_of}

module _ {D : Type 0} ⦃dec : Decimal D⦄ where
  -- UPDATE ... SET amount_paid, status WHERE id = $1, of the one row with that id. The column has
  -- two places.
  unfoldable pub set_paid : ℕ → D → ItemStatus → List (OpenItem D) → List (OpenItem D)
  set_paid id paid status [] = []
  set_paid id paid status (i ∷ is) =
      if i.id == id
      then record i { amount_paid = round 2 paid; status = status } ∷ is
      else i ∷ set_paid id paid status is

  abbrev pub with_items : Direction → List (OpenItem D) → Store D → Store D
  with_items ar is s = record s { ar_items = is }
  with_items ap is s = record s { ap_items = is }

  -- The new amount paid and status, unless the payment exceeds the balance.
  unfoldable pub applied : OpenItem D → D → Result (D × ItemStatus)
  applied i amount =
      let new_paid = add i.amount_paid amount in
      if greater_than new_paid i.amount
      then err payment_exceeds
      else ok (new_paid, if greater_than_or_equal new_paid i.amount then closed_item else partial)

  abbrev pub payment_row : Direction → ℕ → D → String → String → ℕ → ℕ → Payment D
  payment_row direction item amount currency payment_ref entry id = record {
    id = id;
    direction = direction;
    open_item_id = item;
    amount = round 2 amount;
    currency = currency;
    payment_ref = payment_ref;
    journal_entry_id = entry;
  }

  -- A clash on uq_finance_payments_item_ref.
  unfoldable pub payment_taken : ℕ → String → List (Payment D) → Bool
  payment_taken item ref [] = false
  payment_taken item ref (p ∷ ps) =
      if (p.open_item_id == item) && str_eq p.payment_ref ref
      then true
      else payment_taken item ref ps

  -- The row of finance_payments, whose amount has to be positive.
  unfoldable pub insert_payment : Direction → ℕ → D → String → String → ℕ → Action D (Payment D)
  insert_payment direction item amount currency payment_ref entry = do
    raise_if (not (is_positive (round 2 amount))) check_violation
    raise_if (← gets (λ s. payment_taken item payment_ref s.payments)) unique_violation
    id ← gets (λ s. s.next_id)
    modify (λ s. record s {
      payments = payment_row direction item amount currency payment_ref entry id ∷ s.payments;
      next_id = s.next_id + 1;
    })
    pure (payment_row direction item amount currency payment_ref entry id)

  unfoldable pub update_item : Direction → ℕ → D → ItemStatus → Action D (Unit {0})
  unfolding set_paid
  update_item direction item paid status =
      modify (λ s. with_items direction (set_paid item paid status (items_of direction s)) s)

  unfoldable pub payment_by_entry : ℕ → List (Payment D) → Option (Payment D)
  payment_by_entry entry [] = none
  payment_by_entry entry (p ∷ ps) =
      if p.journal_entry_id == entry then some p else payment_by_entry entry ps

  -- paymentBySourceEvent
  unfoldable pub payment_by_source_event : String → Store D → Result (Payment D)
  payment_by_source_event event_id s = elim (entry_by_source_event event_id s.entries) [
    | none ↦ err payment_missing
    | some e ↦ elim (payment_by_entry e.id s.payments) [
      | none ↦ err payment_missing
      | some p ↦ ok p
    ]
  ]

  -- ApplyPayment
  unfoldable pub apply_payment : Direction → ℕ → D → String → String → ℕ → Action D (Payment D)
  apply_payment direction item amount currency payment_ref entry = transaction (do
    i ← or_raise (← gets (λ s. find_item item (items_of direction s))) open_item_not_found
    (new_paid, status) ← lift (applied i amount)
    update_item direction item new_paid status
    insert_payment direction item amount currency payment_ref entry)

unfoldable pub outbox_has : String → List OutboxRow → Bool
outbox_has event_id [] = false
outbox_has event_id (r ∷ rs) = if str_eq r.event_id event_id then true else outbox_has event_id rs

-- enqueueOutboxTx: ON CONFLICT (event_id) DO NOTHING
unfoldable pub enqueue_outbox : {D : Type 0} → OutboxEvent → Action D (Unit {0})
enqueue_outbox ev s = if outbox_has ev.event_id s.outbox then (ok tt, s) else (
  ok tt,
  record s {
    outbox =
        (record {
          id = s.next_id;
          topic = ev.topic;
          partition_key = ev.partition_key;
          event_id = ev.event_id;
          event_type = ev.event_type;
          payload = some ev.payload;
          published_at = none;
          attempts = 0;
          last_error = "";
        })
        ∷ s.outbox;
    next_id = s.next_id + 1;
  },
)

abbrev pub enqueue_if : {D : Type 0} → Option OutboxEvent → Action D (Unit {0})
enqueue_if none = pure tt
enqueue_if (some ev) = enqueue_outbox ev
