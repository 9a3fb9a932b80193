-- ===== src/Payments/Paid.antt =====
-- What payments keep true of the open items.
use iag_finance.Base.{
  ℕ, ◌≡◌, ◌≢◌, ◌⊎◌, inl, inr, refl, Option, none, some, List, [], ◌∷◌, All, arith, ◌==◌, Bool-cases,
  subst,
}
use iag_finance.Decimal.{Decimal, Laws, add, round, ◌≼◌}
use iag_finance.Store.{
  Direction, ar, ap, ItemStatus, closed_item, OpenItem, Store, Context, Result, ok, err, AuditInfo,
  OutboxEvent,
}
use iag_finance.Audit.{append_audit, append_chain}
use iag_finance.Ledger.Booking.{
  next_entry_number, insert_posted_entry, mark_processed, assert_balanced,
}
use iag_finance.Payments.Settlement.{find_item, items_of}
use iag_finance.Payments.Apply.{
  applied, set_paid, update_item, insert_payment, enqueue_outbox, enqueue_if, with_items,
}
use iag_finance.Payments.Journal.{
  payment_tx, apply_payment_with_journal, book_payment, record_payment, PaymentWithJournalParams,
}

module _ {D : Type 0} ⦃dec : Decimal D⦄ where
  -- Amounts have two places; no more is paid than is due, and an item is closed exactly if all of
  -- it is paid.
  abbrev pub ItemOk : OpenItem D → Type 0
  ItemOk i =
      (round 2 i.amount ≡ i.amount)
      × (round 2 i.amount_paid ≡ i.amount_paid)
      × (i.amount_paid ≼ i.amount)
      × (((i.status ≡ closed_item) × (i.amount_paid ≡ i.amount))
          ⊎ ((i.status ≢ closed_item) × (i.amount_paid ≢ i.amount)))

  abbrev pub ItemsOk : Store D → Type 0
  ItemsOk s = All ItemOk s.ar_items × All ItemOk s.ap_items

module _ {D : Type 0} ⦃dec : Decimal D⦄ (laws : Laws D) where
  applied-ItemOk :
      (i : OpenItem D) (amount new_paid : D) (status : ItemStatus)
      → round 2 amount ≡ amount
      → ItemOk i
      → applied i amount ≡ ok (new_paid, status)
      → ItemOk (record i { amount_paid = round 2 new_paid; status = status })
  unfolding applied
  applied-ItemOk i amount new_paid status places k h = ground (
    arith,
    laws.eq_of_cmp (add i.amount_paid amount) i.amount,
    laws.cmp_refl i.amount,
    laws.round_add i.amount_paid amount,
  )

  set_paid-ItemOk :
      (id : ℕ) (i : OpenItem D) (paid : D) (status : ItemStatus) (is : List (OpenItem D))
      → find_item id is ≡ some i
      → ItemOk (record i { amount_paid = round 2 paid; status = status })
      → All ItemOk is
      → All ItemOk (set_paid id paid status is)
  unfolding find_item set_paid
  set_paid-ItemOk id i paid status [] found new b = tt
  set_paid-ItemOk id i paid status (x ∷ is) found new b = elim (Bool-cases (x.id == id)) [
    | inl here ↦
        let is_x : i ≡ x = ground (arith, found, here) in
        rw here (
          subst
              (λ (y : OpenItem D).
                ItemOk (record y { amount_paid = round 2 paid; status = status }))
              is_x new,
          b.1,
        )
    | inr other ↦
        rw other (b.0, set_paid-ItemOk id i paid status is (ground (arith, found)) new b.1)
  ]

module _ {D : Type 0} ⦃dec : Decimal D⦄ (c : Context) where
  -- The items of both directions.
  abbrev SameItems : Store D → Store D → Type 0
  SameItems s t = (t.ar_items ≡ s.ar_items) × (t.ap_items ≡ s.ap_items)

  append_audit-items : (a : Option AuditInfo) (s : Store D) → SameItems s (append_audit c a s).1
  unfolding append_audit append_chain
  append_audit-items none s = (refl, refl)
  append_audit-items (some a) s = ground arith

  enqueue_if-items : (o : Option OutboxEvent) (s : Store D) → SameItems s (enqueue_if o s).1
  unfolding enqueue_outbox
  enqueue_if-items none s = (refl, refl)
  enqueue_if-items (some ev) s = ground arith

  book_payment-items :
      (p : PaymentWithJournalParams D) (s : Store D) → SameItems s (book_payment c p s).1
  unfolding book_payment next_entry_number insert_posted_entry mark_processed
  book_payment-items p s = ground arith

  record_payment-items :
      (p : PaymentWithJournalParams D) (audit : Option AuditInfo) (entry : ℕ) (s : Store D)
      → SameItems s (record_payment c p audit entry s).1
  unfolding record_payment insert_payment assert_balanced
  record_payment-items p audit entry s = grind (arith, append_audit-items, enqueue_if-items)

  abbrev pub settled : PaymentWithJournalParams D → Store D → Result (D × ItemStatus) → Store D
  settled p s (ok (new_paid, status)) =
      with_items p.direction (set_paid p.open_item_id new_paid status (items_of p.direction s)) s
  settled p s (err e) = s

  abbrev pub settled_item : PaymentWithJournalParams D → Store D → Option (OpenItem D) → Store D
  settled_item p s none = s
  settled_item p s (some i) = settled p s (applied i p.amount)

  -- The items after a payment are those before it, but for the one that is paid.
  abbrev pub PaidOne : PaymentWithJournalParams D → Store D → Store D → Type 0
  PaidOne p s t =
      SameItems s t
      ⊎ SameItems (settled_item p s (find_item p.open_item_id (items_of p.direction s))) t

  payment-PaidOne :
      (p : PaymentWithJournalParams D) (audit : Option AuditInfo) (s : Store D)
      → PaidOne p s (apply_payment_with_journal c p audit s).1
  unfolding apply_payment_with_journal payment_tx update_item
  payment-PaidOne p audit s = grind (arith, book_payment-items, record_payment-items)

module _ {D : Type 0} ⦃dec : Decimal D⦄ (laws : Laws D) (c : Context) where
  find_item-ItemOk :
      (id : ℕ) (i : OpenItem D) (is : List (OpenItem D))
      → find_item id is ≡ some i
      → All ItemOk is
      → ItemOk i
  unfolding find_item
  find_item-ItemOk id i [] found b = ground arith
  find_item-ItemOk id i (x ∷ is) found b = elim (Bool-cases (x.id == id)) [
    | inl here ↦ let is_x : x ≡ i = ground (arith, found, here) in subst ItemOk is_x b.0
    | inr other ↦ find_item-ItemOk id i is (ground (arith, found)) b.1
  ]

  settled-ItemsOk :
      (p : PaymentWithJournalParams D) (s : Store D) (i : OpenItem D) (r : Result (D × ItemStatus))
      → round 2 p.amount ≡ p.amount
      → find_item p.open_item_id (items_of p.direction s) ≡ some i
      → applied i p.amount ≡ r
      → ItemsOk s
      → ItemsOk (settled c p s r)
  settled-ItemsOk p s i (err e) places found is b = b
  settled-ItemsOk p s i (ok (new_paid, status)) places found is b = by_direction p.direction found
    where
      by_direction :
          (d : Direction)
          → find_item p.open_item_id (items_of d s) ≡ some i
          → ItemsOk (with_items d (set_paid p.open_item_id new_paid status (items_of d s)) s)
      by_direction ar at = (
        set_paid-ItemOk laws p.open_item_id i new_paid status s.ar_items at
            (applied-ItemOk laws i p.amount new_paid status places
              (find_item-ItemOk p.open_item_id i s.ar_items at b.0) is)
            b.0,
        b.1,
      )
      by_direction ap at = (
        b.0,
        set_paid-ItemOk laws p.open_item_id i new_paid status s.ap_items at
            (applied-ItemOk laws i p.amount new_paid status places
              (find_item-ItemOk p.open_item_id i s.ap_items at b.1) is)
            b.1,
      )

  settled_item-ItemsOk :
      (p : PaymentWithJournalParams D) (s : Store D) (o : Option (OpenItem D))
      → round 2 p.amount ≡ p.amount
      → find_item p.open_item_id (items_of p.direction s) ≡ o
      → ItemsOk s
      → ItemsOk (settled_item c p s o)
  settled_item-ItemsOk p s none places found b = b
  settled_item-ItemsOk p s (some i) places found b =
      settled-ItemsOk p s i (applied i p.amount) places found refl b

  -- If no open item has more paid than is due, and the closed ones are exactly those of which all
  -- is paid, so it is after a payment of an amount with two places, whether it succeeds, fails or
  -- is a replay. Amounts have two places throughout.
  pub apply_payment_with_journal-ItemsOk :
      (p : PaymentWithJournalParams D) (audit : Option AuditInfo) (s : Store D)
      → round 2 p.amount ≡ p.amount
      → ItemsOk s
      → ItemsOk (apply_payment_with_journal c p audit s).1
  apply_payment_with_journal-ItemsOk p audit s places b = elim (payment-PaidOne c p audit s) [
    | inl (same_ar, same_ap) ↦ (rw same_ar b.0, rw same_ap b.1)
    | inr (same_ar, same_ap) ↦
        let k =
          settled_item-ItemsOk p s (find_item p.open_item_id (items_of p.direction s)) places refl
            b in
        (rw same_ar k.0, rw same_ap k.1)
  ]
