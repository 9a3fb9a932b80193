-- ===== src/Adjustments/Floor.antt =====
-- What notes keep true of the open items, and where they stop.
use iag_finance.Base.{
  ℕ, String, str_eq, ◌≡◌, inl, inr, refl, sym, ap as cong, subst, Option, some, List, [], ◌∷◌, All,
  arith, Bool-cases, Option-cases,
}
use iag_finance.Calendar.{Time}
use iag_finance.Decimal.{Decimal, Laws, nought, nought_add, add, neg, round}
use iag_finance.Store.{
  Direction, ar, ap, ItemStatus, OpenItem, Store, Context, Result, ok, err, check_violation,
  AuditInfo,
}
use iag_finance.Approvals.Tiers.{Texts}
use iag_finance.Ledger.Booking.Frame.{IgnoresJournal, book_posted_entry-keeps}
use iag_finance.Payments.Settlement.{items_of}
use iag_finance.Payments.Paid.{ItemOk, ItemsOk}
use iag_finance.Adjustments.Items.{
  find_document, unless_closed, adjusted, set_amount, write_amount, adjust_open_item_amount,
  insert_adjustment,
}
use iag_finance.Adjustments.Notes.{
  BookAdjustmentParams, AdjustmentInput, write_note, book_adjustment, book_note, create_adjustment,
  note_delta, NoteKind, credit_note, debit_note,
}

module _ {D : Type 0} ⦃dec : Decimal D⦄ where
  ItemsOk-frame : IgnoresJournal (ItemsOk {D = D})
  ItemsOk-frame s t same (r, p) = (
    subst (All ItemOk) (sym (cong (λ (u : Store D). u.ar_items) same)) r,
    subst (All ItemOk) (sym (cong (λ (u : Store D). u.ap_items) same)) p,
  )

module _ {D : Type 0} ⦃dec : Decimal D⦄ (laws : Laws D) where
  adjusted-ItemOk :
      (i : OpenItem D) (delta amount : D) (status : ItemStatus)
      → round 2 delta ≡ delta
      → ItemOk i
      → adjusted i delta ≡ ok (amount, status)
      → ItemOk (record i { amount = round 2 amount; status = status })
  unfolding adjusted
  adjusted-ItemOk i delta amount status places k h = ground (
    arith,
    laws.eq_of_cmp (add i.amount delta) i.amount_paid,
    laws.cmp_refl i.amount_paid,
    laws.cmp_flip (add i.amount delta) i.amount_paid,
    laws.round_add i.amount delta,
  )

  set_amount-ItemOk :
      (ref : String) (i : OpenItem D) (amount : D) (status : ItemStatus) (is : List (OpenItem D))
      → find_document ref is ≡ some i
      → ItemOk (record i { amount = round 2 amount; status = status })
      → All ItemOk is
      → All ItemOk (set_amount ref amount status is)
  unfolding find_document set_amount
  set_amount-ItemOk ref i amount status [] found new b = tt
  set_amount-ItemOk ref i amount status (x ∷ is) found new b =
      elim (Bool-cases (str_eq x.document_ref ref)) [
        | inl here ↦
            let is_x : i ≡ x = ground (arith, found, here) in
            rw here (
              subst
                  (λ (y : OpenItem D).
                    ItemOk (record y { amount = round 2 amount; status = status }))
                  is_x new,
              b.1,
            )
        | inr other ↦
            rw other (b.0, set_amount-ItemOk ref i amount status is (ground (arith, found)) new b.1)
      ]

  find_document-ItemOk :
      (ref : String) (i : OpenItem D) (is : List (OpenItem D))
      → find_document ref is ≡ some i
      → All ItemOk is
      → ItemOk i
  unfolding find_document
  find_document-ItemOk ref i [] found b = ground arith
  find_document-ItemOk ref i (x ∷ is) found b = elim (Bool-cases (str_eq x.document_ref ref)) [
    | inl here ↦ let is_x : x ≡ i = ground (arith, found, here) in subst ItemOk is_x b.0
    | inr other ↦ find_document-ItemOk ref i is (ground (arith, found)) b.1
  ]

  adjusted_items-ItemOk :
      (ref : String) (delta : D) (i : OpenItem D) (amount : D) (status : ItemStatus)
      (is : List (OpenItem D))
      → round 2 delta ≡ delta
      → unless_closed (find_document ref is) ≡ some i
      → adjusted i delta ≡ ok (amount, status)
      → All ItemOk is
      → All ItemOk (set_amount ref amount status is)
  adjusted_items-ItemOk ref delta i amount status is places found is_ok b =
      let there : find_document ref is ≡ some i = ground arith in
      set_amount-ItemOk ref i amount status is there
        (adjusted-ItemOk i delta amount status places (find_document-ItemOk ref i is there b) is_ok)
        b

  write_amount-ItemsOk :
      (direction : Direction) (ref : String) (delta : D) (i : OpenItem D)
      (r : Result (D × ItemStatus)) (s : Store D)
      → round 2 delta ≡ delta
      → unless_closed (find_document ref (items_of direction s)) ≡ some i
      → adjusted i delta ≡ r
      → ItemsOk s
      → ItemsOk (write_amount direction ref r s).1
  unfolding write_amount
  write_amount-ItemsOk direction ref delta i (err e) s places found is_r b = b
  write_amount-ItemsOk ar ref delta i (ok (amount, status)) s places found is_r b =
      ground
        (arith, adjusted_items-ItemOk ref delta i amount status s.ar_items places found is_r b.0)
  write_amount-ItemsOk ap ref delta i (ok (amount, status)) s places found is_r b =
      ground
        (arith, adjusted_items-ItemOk ref delta i amount status s.ap_items places found is_r b.1)

  adjust_open_item_amount-ItemsOk :
      (direction : Direction) (ref : String) (delta : D) (s : Store D)
      → round 2 delta ≡ delta
      → ItemsOk s
      → ItemsOk (adjust_open_item_amount direction ref delta s).1
  unfolding adjust_open_item_amount
  adjust_open_item_amount-ItemsOk direction ref delta s places b =
      elim (Option-cases (unless_closed (find_document ref (items_of direction s)))) [
        | inl missing ↦ rw missing b
        | inr (i, found) ↦
            rw found
              (write_amount-ItemsOk direction ref delta i (adjusted i delta) s places found refl b)
      ]

  write_note-ItemsOk :
      (c : Context) (p : BookAdjustmentParams D) (entry : ℕ) (s : Store D)
      → round 2 p.delta ≡ p.delta
      → ItemsOk s
      → ItemsOk (write_note c p entry s).1
  unfolding write_note insert_adjustment
  write_note-ItemsOk c p entry s places b = grind (
    arith,
    adjust_open_item_amount-ItemsOk p.direction p.adjustment.original_document_ref p.delta s places
        b,
  )

module _ {D : Type 0} ⦃dec : Decimal D⦄ (c : Context) (in' : AdjustmentInput D) where
  -- What booking the note keeps, the checks before it keep.
  create_adjustment-keeps :
      (P : Store D → Type 0) (txt : Texts) (actor : String) (s : Store D)
      → ((kind : NoteKind) (direction : Direction) (doc_ref : String) (i : OpenItem D)
            (currency : String)
          → P (book_note c in' kind direction doc_ref i currency actor s).1)
      → P s
      → P (create_adjustment c txt in' actor s).1
  unfolding create_adjustment
  create_adjustment-keeps P txt actor s keeps h = grind (arith, keeps)

module _ {D : Type 0} ⦃dec : Decimal D⦄ (laws : Laws D) (c : Context) where
  note_delta-places :
      (kind : NoteKind) (a : D) → round 2 a ≡ a → round 2 (note_delta kind a) ≡ note_delta kind a
  unfolding note_delta
  note_delta-places debit_note a h = h
  note_delta-places credit_note a h = ground (
    arith,
    laws.round_sub nought a,
    laws.round_nought 2,
    laws.sub_eq nought a,
    nought_add laws (neg a),
  )

  book_adjustment-ItemsOk :
      (p : BookAdjustmentParams D) (at : Time) (audit : Option AuditInfo) (s : Store D)
      → round 2 p.delta ≡ p.delta
      → ItemsOk s
      → ItemsOk (book_adjustment c p at audit s).1
  unfolding book_adjustment
  book_adjustment-ItemsOk p at audit s places b = grind (
    arith,
    book_posted_entry-keeps c ItemsOk ItemsOk-frame (write_note c p)
        (λ id t. write_note-ItemsOk laws c p id t places),
  )

  book_note-ItemsOk :
      (in' : AdjustmentInput D) (kind : NoteKind) (direction : Direction) (doc_ref : String)
      (i : OpenItem D) (currency actor : String) (s : Store D)
      → round 2 in'.amount ≡ in'.amount
      → ItemsOk s
      → ItemsOk (book_note c in' kind direction doc_ref i currency actor s).1
  unfolding book_note
  book_note-ItemsOk in' kind direction doc_ref i currency actor s places b =
      grind (arith, book_adjustment-ItemsOk, note_delta-places kind in'.amount places)

  -- If no open item has more paid than is due, and the closed ones are exactly those of which all
  -- is paid, so it is after a credit or debit note of an amount with two places, whether it
  -- succeeds, fails or is a replay: no note takes an amount below what is paid.
  pub create_adjustment-ItemsOk :
      (txt : Texts) (in' : AdjustmentInput D) (actor : String) (s : Store D)
      → round 2 in'.amount ≡ in'.amount
      → ItemsOk s
      → ItemsOk (create_adjustment c txt in' actor s).1
  create_adjustment-ItemsOk txt in' actor s places b =
      create_adjustment-keeps c in' ItemsOk txt actor s
        (λ kind direction doc_ref i currency.
          book_note-ItemsOk in' kind direction doc_ref i currency actor s places b)
        b

  -- A credit note over the whole of an item of which nothing is paid never closes it: the row
  -- would be left at nought, which the table's check refuses, and nothing changes.
  pub adjust_open_item_amount-whole :
      (direction : Direction) (ref : String) (i : OpenItem D) (s : Store D)
      → unless_closed (find_document ref (items_of direction s)) ≡ some i
      → i.amount_paid ≡ nought
      → adjust_open_item_amount direction ref (neg i.amount) s ≡ (err check_violation, s)
  unfolding adjust_open_item_amount adjusted write_amount
  adjust_open_item_amount-whole direction ref i s found unpaid =
      ground (arith, laws.add_neg i.amount, laws.round_nought 2, laws.cmp_refl nought)
