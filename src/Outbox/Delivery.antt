-- ===== src/Outbox/Delivery.antt =====
-- What a drain does to the rows.
use iag_finance.Base.{
  ℕ, String, ◌≡◌, ◌⊎◌, inl, inr, refl, Option, none, some, List, [], ◌∷◌, arith, ◌==◌, Bool-cases,
  subst,
}
use iag_finance.Calendar.{Time}
use iag_finance.Store.{OutboxRow}
use iag_finance.Outbox.{
  Bus, answer, mark_answer, deliver, drain_rows, mark_outbox_published, mark_outbox_failed,
  fetch_unpublished_outbox, outbox_batch_size, max_publish_attempts,
}

-- The bus took a row with this id.
abbrev pub Accepted : Bus → ℕ → List OutboxRow → Type 0
Accepted bus id [] = ⊥
Accepted bus id (r ∷ rs) = ((r.id ≡ id) × (answer bus r ≡ none)) ⊎ Accepted bus id rs

-- The row is the same event, and it is stamped only if the bus took it.
abbrev pub IsKept : Bus → List OutboxRow → OutboxRow → OutboxRow → Type 0
IsKept bus sent r r' =
    (r'.id ≡ r.id)
    × (r'.event_id ≡ r.event_id)
    × (r'.topic ≡ r.topic)
    × (r'.payload ≡ r.payload)
    × ((r'.published_at ≡ r.published_at) ⊎ Accepted bus r.id sent)

abbrev pub AreKept : Bus → List OutboxRow → List OutboxRow → List OutboxRow → Type 0
AreKept bus sent [] [] = Unit
AreKept bus sent (r ∷ rs) (r' ∷ rs') = IsKept bus sent r r' × AreKept bus sent rs rs'
AreKept bus sent _ _ = ⊥

AreKept-refl : (bus : Bus) (sent rows : List OutboxRow) → AreKept bus sent rows rows
AreKept-refl bus sent [] = tt
AreKept-refl bus sent (r ∷ rs) = ((refl, refl, refl, refl, inl refl), AreKept-refl bus sent rs)

published-AreKept :
    (bus : Bus) (sent : List OutboxRow) (id : ℕ) (at : Time) (rows rows' : List OutboxRow)
    → Accepted bus id sent
    → AreKept bus sent rows rows'
    → AreKept bus sent rows (mark_outbox_published id at rows')
unfolding mark_outbox_published
published-AreKept bus sent id at [] [] took h = tt
published-AreKept bus sent id at [] (r' ∷ rs') took h = h
published-AreKept bus sent id at (r ∷ rs) [] took h = h
published-AreKept bus sent id at (r ∷ rs) (r' ∷ rs') took ((i, e, t, p, s), h) = (
  elim (Bool-cases (r'.id == id)) [
    | inl here ↦
        rw here (i, e, t, p, inr (subst (λ k. Accepted bus k sent) (ground (arith, here, i)) took))
    | inr other ↦ rw other (i, e, t, p, s)
  ],
  published-AreKept bus sent id at rs rs' took h,
)

failed-AreKept :
    (bus : Bus) (sent : List OutboxRow) (id : ℕ) (message : String) (rows rows' : List OutboxRow)
    → AreKept bus sent rows rows'
    → AreKept bus sent rows (mark_outbox_failed id message rows')
unfolding mark_outbox_failed
failed-AreKept bus sent id message [] [] h = tt
failed-AreKept bus sent id message [] (r' ∷ rs') h = h
failed-AreKept bus sent id message (r ∷ rs) [] h = h
failed-AreKept bus sent id message (r ∷ rs) (r' ∷ rs') (k, h) = (
  elim (Bool-cases (r'.id == id)) [ inl here ↦ rw here k | inr other ↦ rw other k ],
  failed-AreKept bus sent id message rs rs' h,
)

mark_answer-AreKept :
    (bus : Bus) (sent : List OutboxRow) (id : ℕ) (at : Time) (o : Option String)
    (rows rows' : List OutboxRow)
    → (o ≡ none → Accepted bus id sent)
    → AreKept bus sent rows rows'
    → AreKept bus sent rows (mark_answer id at o rows')
unfolding mark_answer
mark_answer-AreKept bus sent id at none rows rows' took h =
    published-AreKept bus sent id at rows rows' (took refl) h
mark_answer-AreKept bus sent id at (some e) rows rows' took h =
    failed-AreKept bus sent id e rows rows' h

deliver-AreKept :
    (bus : Bus) (sent : List OutboxRow) (at : Time) (queue rows rows' : List OutboxRow)
    → ((id : ℕ) → Accepted bus id queue → Accepted bus id sent)
    → AreKept bus sent rows rows'
    → AreKept bus sent rows (deliver bus at queue rows')
unfolding deliver
deliver-AreKept bus sent at [] rows rows' inside h = h
deliver-AreKept bus sent at (r ∷ queue) rows rows' inside h =
    deliver-AreKept bus sent at queue rows (mark_answer r.id at (answer bus r) rows')
      (λ id a. inside id (inr a))
      (mark_answer-AreKept bus sent r.id at (answer bus r) rows rows'
        (λ took. inside r.id (inl (refl, took))) h)

-- A drain loses no event and changes none: every row is still there, with its event and payload,
-- and it is stamped as published only if it was so before, or the bus took the row of that id which
-- was fetched.
pub drain_rows-AreKept :
    (bus : Bus) (at : Time) (rows : List OutboxRow)
    → AreKept bus
        (fetch_unpublished_outbox outbox_batch_size max_publish_attempts rows)
        rows
        (drain_rows bus at rows)
unfolding drain_rows
drain_rows-AreKept bus at rows =
    let sent = fetch_unpublished_outbox outbox_batch_size max_publish_attempts rows in
    deliver-AreKept bus sent at sent rows rows (λ id a. a) (AreKept-refl bus sent rows)
