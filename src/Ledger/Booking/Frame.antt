-- ===== src/Ledger/Booking/Frame.antt =====
-- What booking an entry keeps of the other tables.
use iag_finance.Base.{
  ℕ, String, ◌≡◌, refl, Bool, true, false, Option, none, some, arith, not, ◌&&◌, str_eq,
  if◌then◌else◌,
}
use iag_finance.Calendar.{Time}
use iag_finance.Decimal.{Decimal}
use iag_finance.Store.{
  CreateJournalParams, AuditInfo, Store, Context, Action, Result, ok, err, bind-keeps, ◌>>=◌, ◌>>◌,
  pure,
}
use iag_finance.Audit.{append_audit, append_chain}
use iag_finance.Ledger.Booking.{
  insert_posted_entry, next_entry_number, mark_processed, assert_balanced, booking, book_tx,
  book_posted_entry, conclude, finish_booking, write_rest, catch_unique, caught, with_source_event,
  is_event_processed, entry_by_source_event,
}

module _ {D : Type 0} where
  -- The tables but for the journal and the audit log.
  abbrev pub SameElsewhere : Store D → Store D → Type 0
  SameElsewhere s t = t ≡ record s {
    entries = t.entries;
    processed = t.processed;
    audit = t.audit;
    next_id = t.next_id;
    next_number = t.next_number;
  }

  -- A property of those tables.
  abbrev pub IgnoresJournal : (Store D → Type 0) → Type 0
  IgnoresJournal P = (s t : Store D) → SameElsewhere s t → P s → P t

module _ {D : Type 0} ⦃dec : Decimal D⦄ (c : Context) where
  pub append_audit-elsewhere :
      (a : Option AuditInfo) (s : Store D) → SameElsewhere s (append_audit c a s).1
  unfolding append_audit append_chain
  append_audit-elsewhere none s = refl
  append_audit-elsewhere (some a) s = ground arith

  pub next_entry_number-elsewhere : (s : Store D) → SameElsewhere s (next_entry_number s).1
  unfolding next_entry_number
  next_entry_number-elsewhere s = refl

  pub mark_processed-elsewhere :
      (event_id event_type : String) (s : Store D)
      → SameElsewhere s (mark_processed event_id event_type s).1
  unfolding mark_processed
  mark_processed-elsewhere event_id event_type s = ground arith

  pub insert_posted_entry-elsewhere :
      (p : CreateJournalParams D) (number : ℕ) (at : Time) (s : Store D)
      → SameElsewhere s (insert_posted_entry c p number at s).1
  unfolding insert_posted_entry
  insert_posted_entry-elsewhere p number at s = ground arith

  pub assert_balanced-elsewhere : (id : ℕ) (s : Store D) → SameElsewhere s (assert_balanced id s).1
  unfolding assert_balanced
  assert_balanced-elsewhere id s = ground arith

module _ {D : Type 0} ⦃dec : Decimal D⦄ (c : Context) (P : Store D → Type 0)
    (frame : IgnoresJournal P) (side : ℕ → Action D (Unit {0}))
    (side-keeps : (id : ℕ) (s : Store D) → P s → P (side id s).1) where
  write_rest-keeps :
      (id : ℕ) (audit : Option AuditInfo) (s : Store D) → P s → P (write_rest c id side audit s).1
  write_rest-keeps id audit s h =
      bind-keeps P (side id) (λ _. append_audit c audit >> (assert_balanced id >> pure (some id))) s
        (side-keeps id s h)
        (λ _ t k.
          bind-keeps P (append_audit c audit) (λ _. assert_balanced id >> pure (some id)) t
            (frame t (append_audit c audit t).1 (append_audit-elsewhere c audit t) k)
            (λ _ u l.
              bind-keeps P (assert_balanced id) (λ _. pure (some id)) u
                (frame u (assert_balanced id u).1 (assert_balanced-elsewhere c id u) l)
                (λ _ v m. m)))

  finish-keeps :
      (event_id event_type : String) (audit : Option AuditInfo) (inserted : Option ℕ) (s : Store D)
      → P s
      → P (finish_booking c event_id event_type side audit inserted s).1
  finish-keeps event_id event_type audit none s h = h
  finish-keeps event_id event_type audit (some id) s h = rest (str_eq event_id "")
    where
      wrote :
          (won : Bool) (t : Store D)
          → P t
          → P ((if won then write_rest c id side audit else pure none) t).1
      wrote true t k = write_rest-keeps id audit t k
      wrote false t k = k

      rest :
          (b : Bool)
          → P (
              (((if b then pure true else mark_processed event_id event_type) >>= λ won.
              if won then write_rest c id side audit else pure none)
                s).1)
      rest true = write_rest-keeps id audit s h
      rest false =
          bind-keeps P (mark_processed event_id event_type)
            (λ won. if won then write_rest c id side audit else pure none) s
            (frame s (mark_processed event_id event_type s).1
              (mark_processed-elsewhere c event_id event_type s) h)
            wrote

  caught-keeps : (no_event : Bool) (r : Result ℕ × Store D) → P r.1 → P (caught no_event r).1
  caught-keeps no_event (ok id, t) h = h
  caught-keeps no_event (err e, t) h = h

  booking-keeps :
      (p : CreateJournalParams D) (event_id event_type : String) (at : Time)
      (audit : Option AuditInfo) (s : Store D)
      → P s
      → P (booking c p event_id event_type at side audit s).1
  unfolding booking
  booking-keeps p event_id event_type at audit s h =
      bind-keeps P next_entry_number
        (λ number.
          catch_unique (str_eq event_id "") (insert_posted_entry c p number at) >>= λ inserted.
          finish_booking c event_id event_type side audit inserted)
        s (frame s (next_entry_number s).1 (next_entry_number-elsewhere c s) h)
        (λ number t k.
          bind-keeps P (catch_unique (str_eq event_id "") (insert_posted_entry c p number at))
            (λ inserted. finish_booking c event_id event_type side audit inserted) t
            (caught-keeps (str_eq event_id "") (insert_posted_entry c p number at t) (
              frame t (insert_posted_entry c p number at t).1
                (insert_posted_entry-elsewhere c p number at t) k))
            (λ inserted u l. finish-keeps event_id event_type audit inserted u l))

  conclude-keeps :
      (event_id : String) (s : Store D) (r : Result (Option ℕ) × Store D)
      → P s
      → P r.1
      → P (conclude c event_id s r).1
  conclude-keeps event_id s (ok (some id), t) h k = k
  conclude-keeps event_id s (ok none, t) h k =
      frame s (record s { next_number = t.next_number }) refl h
  conclude-keeps event_id s (err e, t) h k =
      frame s (record s { next_number = t.next_number }) refl h

  pub book_posted_entry-keeps :
      (p : CreateJournalParams D) (event_id event_type : String) (at : Time)
      (audit : Option AuditInfo) (s : Store D)
      → P s
      → P (book_posted_entry c p event_id event_type at side audit s).1
  unfolding book_posted_entry book_tx
  book_posted_entry-keeps p event_id event_type at audit s h =
      go (not (str_eq event_id "") && is_event_processed event_id s.processed)
    where
      go :
          (b : Bool)
          → P
              (if b
                then (ok (entry_by_source_event event_id s.entries), s)
                else book_tx c
                    (with_source_event c p event_id)
                    event_id
                    event_type
                    at
                    side
                    audit
                    s).1
      go true = h
      go false =
          conclude-keeps event_id s
            (booking c (with_source_event c p event_id) event_id event_type at side audit s) h
            (booking-keeps (with_source_event c p event_id) event_id event_type at audit s h)
