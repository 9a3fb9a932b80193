-- ===== src/Outbox/Progress.antt =====
-- A bus that takes every event gets all of them.
use iag_finance.Base.{
  ℕ, zero, suc, ◌+◌, ◌<◌, ◌≤◌, ◌≡◌, ◌⊎◌, inl, inr, refl, Bool, true, false, ◌&&◌, is_some, none,
  List, [], ◌∷◌, ◌++◌, All, All-append, arith, ◌==◌, if◌then◌else◌,
}
use iag_finance.Calendar.{Time}
use iag_finance.Store.{OutboxRow, Context, Store}
use iag_finance.Outbox.{
  Bus, is_pending_row, pending_rows, first_rows, answer, mark_answer, deliver, drain_rows, drain,
  drains, mark_outbox_published, fetch_unpublished_outbox, max_publish_attempts,
}

unfoldable pub count_pending : ℕ → List OutboxRow → ℕ
count_pending max [] = 0
count_pending max (r ∷ rs) = (if is_pending_row max r then 1 else 0) + count_pending max rs

-- A pending row with this id.
unfoldable has_pending : ℕ → ℕ → List OutboxRow → Bool
has_pending max id [] = false
has_pending max id (r ∷ rs) =
    if is_pending_row max r && (r.id == id) then true else has_pending max id rs

published-fewer :
    (max id : ℕ) (at : Time) (rows : List OutboxRow)
    → count_pending max (mark_outbox_published id at rows) ≤ count_pending max rows
unfolding count_pending mark_outbox_published
published-fewer max id at [] = omega arith
published-fewer max id at (r ∷ rs) = ground (arith, published-fewer max id at rs)

published-one :
    (max id : ℕ) (at : Time) (rows : List OutboxRow)
    → has_pending max id rows ≡ true
    → count_pending max (mark_outbox_published id at rows) < count_pending max rows
unfolding count_pending mark_outbox_published has_pending
published-one max id at [] h = ground (arith, h)
published-one max id at (r ∷ rs) h =
    ground (arith, published-fewer max id at rs, published-one max id at rs)

has_pending-cons :
    (max : ℕ) (r : OutboxRow) (rs queue : List OutboxRow)
    → All (λ q. has_pending max q.id rs ≡ true) queue
    → All (λ q. has_pending max q.id (r ∷ rs) ≡ true) queue
unfolding has_pending
has_pending-cons max r rs [] h = tt
has_pending-cons max r rs (q ∷ queue) (h, hs) =
    (ground (arith, h), has_pending-cons max r rs queue hs)

if_pending :
    (max : ℕ) (r : OutboxRow) (rs : List OutboxRow) (b : Bool)
    → is_pending_row max r ≡ b
    → All (λ q. has_pending max q.id (r ∷ rs) ≡ true) (if b then r ∷ [] else [])
unfolding has_pending
if_pending max r rs false h = tt
if_pending max r rs true h = (ground (arith, h), tt)

-- What is fetched is pending.
pending_rows-All :
    (max : ℕ) (rows : List OutboxRow)
    → All (λ r. has_pending max r.id rows ≡ true) (pending_rows max rows)
unfolding pending_rows
pending_rows-All max [] = tt
pending_rows-All max (r ∷ rs) =
    All-append (λ q. has_pending max q.id (r ∷ rs) ≡ true) (pending_rows max rs)
      (if is_pending_row max r then r ∷ [] else [])
      (has_pending-cons max r rs (pending_rows max rs) (pending_rows-All max rs))
      (if_pending max r rs (is_pending_row max r) refl)

-- A row whose payload decodes.
abbrev pub Decodable : OutboxRow → Type 0
Decodable r = is_some r.payload ≡ true

one-Decodable : (r : OutboxRow) (b : Bool) → Decodable r → All Decodable (if b then r ∷ [] else [])
one-Decodable r true h = (h, tt)
one-Decodable r false h = tt

pending_rows-Decodable :
    (max : ℕ) (rows : List OutboxRow) → All Decodable rows → All Decodable (pending_rows max rows)
unfolding pending_rows
pending_rows-Decodable max [] h = tt
pending_rows-Decodable max (r ∷ rs) (h, hs) =
    All-append Decodable (pending_rows max rs) (if is_pending_row max r then r ∷ [] else [])
      (pending_rows-Decodable max rs hs) (one-Decodable r (is_pending_row max r) h)

first_rows-Decodable :
    (n : ℕ) (rows : List OutboxRow) → All Decodable rows → All Decodable (first_rows n rows)
unfolding first_rows
first_rows-Decodable zero rows h = tt
first_rows-Decodable (suc n) [] h = tt
first_rows-Decodable (suc n) (r ∷ rs) (h, hs) = (h, first_rows-Decodable n rs hs)

published-Decodable :
    (id : ℕ) (at : Time) (rows : List OutboxRow)
    → All Decodable rows
    → All Decodable (mark_outbox_published id at rows)
unfolding mark_outbox_published
published-Decodable id at [] h = tt
published-Decodable id at (r ∷ rs) (h, hs) = (ground (arith, h), published-Decodable id at rs hs)

append-empty : (xs ys : List OutboxRow) → xs ++ ys ≡ [] → (xs ≡ []) × (ys ≡ [])
append-empty [] ys h = (refl, h)
append-empty (x ∷ xs) ys h = ground (arith, h)

if-empty : (max : ℕ) (r : OutboxRow) (b : Bool) → (if b then r ∷ [] else []) ≡ [] → b ≡ false
if-empty max r true h = ground (arith, h)
if-empty max r false h = refl

pending_rows-empty :
    (max : ℕ) (rows : List OutboxRow) → pending_rows max rows ≡ [] → count_pending max rows ≡ 0
unfolding count_pending pending_rows
pending_rows-empty max [] h = refl
pending_rows-empty max (r ∷ rs) h =
    let (before, now) =
      append-empty (pending_rows max rs) (if is_pending_row max r then r ∷ [] else []) h in
    rw (if-empty max r (is_pending_row max r) now) (omega (arith, pending_rows-empty max rs before))

module _ (bus : Bus) (takes : (r : OutboxRow) → bus.publish r ≡ none) where
  answer-Decodable : (r : OutboxRow) → Decodable r → answer bus r ≡ none
  unfolding answer
  answer-Decodable r h = ground (arith, h, takes r)

  deliver-fewer :
      (max : ℕ) (at : Time) (queue rows : List OutboxRow)
      → All Decodable queue
      → count_pending max (deliver bus at queue rows) ≤ count_pending max rows
  unfolding deliver mark_answer
  deliver-fewer max at [] rows h = omega arith
  deliver-fewer max at (r ∷ queue) rows (h, hs) = rw (answer-Decodable r h) (
      omega (
        arith,
        deliver-fewer max at queue (mark_outbox_published r.id at rows) hs,
        published-fewer max r.id at rows,
      ))

  deliver-Decodable :
      (at : Time) (queue rows : List OutboxRow)
      → All Decodable queue
      → All Decodable rows
      → All Decodable (deliver bus at queue rows)
  unfolding deliver mark_answer
  deliver-Decodable at [] rows h k = k
  deliver-Decodable at (r ∷ queue) rows (h, hs) k = rw (answer-Decodable r h) (
      deliver-Decodable at queue (mark_outbox_published r.id at rows) hs
        (published-Decodable r.id at rows k))

  first-fewer :
      (max : ℕ) (at : Time) (r : OutboxRow) (queue rows : List OutboxRow)
      → has_pending max r.id rows ≡ true
      → Decodable r
      → All Decodable queue
      → count_pending max (deliver bus at (r ∷ queue) rows) < count_pending max rows
  unfolding deliver mark_answer
  first-fewer max at r queue rows h k ks = rw (answer-Decodable r k) (
      omega (
        arith,
        deliver-fewer max at queue (mark_outbox_published r.id at rows) ks,
        published-one max r.id at rows h,
      ))

  -- A queue that starts with a pending row leaves fewer.
  batch-fewer :
      (max n : ℕ) (at : Time) (queue rows : List OutboxRow)
      → All (λ q. has_pending max q.id rows ≡ true) queue
      → All Decodable queue
      → (queue ≡ [])
        ⊎ (count_pending max (deliver bus at (first_rows (suc n) queue) rows)
            < count_pending max rows)
  unfolding first_rows
  batch-fewer max n at [] rows h k = inl refl
  batch-fewer max n at (r ∷ queue) rows (h, hs) (k, ks) =
      inr (first-fewer max at r (first_rows n queue) rows h k (first_rows-Decodable n queue ks))

  drain_rows-fewer :
      (at : Time) (rows : List OutboxRow)
      → All Decodable rows
      → (count_pending 6000 rows ≡ 0)
        ⊎ (count_pending 6000 (drain_rows bus at rows) < count_pending 6000 rows)
  unfolding drain_rows fetch_unpublished_outbox
  drain_rows-fewer at rows h =
      elim (batch-fewer 6000 99 at (pending_rows 6000 rows) rows (pending_rows-All 6000 rows)
        (pending_rows-Decodable 6000 rows h)) [
          | inl none' ↦ inl (pending_rows-empty 6000 rows none')
          | inr fewer ↦ inr fewer
        ]

  drain_rows-Decodable :
      (at : Time) (rows : List OutboxRow)
      → All Decodable rows
      → All Decodable (drain_rows bus at rows)
  unfolding drain_rows fetch_unpublished_outbox
  drain_rows-Decodable at rows h =
      deliver-Decodable at (first_rows 100 (pending_rows 6000 rows)) rows
        (first_rows-Decodable 100 (pending_rows 6000 rows) (pending_rows-Decodable 6000 rows h)) h

  drain_rows-none :
      (at : Time) (rows : List OutboxRow)
      → All Decodable rows
      → count_pending 6000 rows ≡ 0
      → count_pending 6000 (drain_rows bus at rows) ≡ 0
  unfolding drain_rows fetch_unpublished_outbox
  drain_rows-none at rows h k = omega (
    arith,
    k,
    deliver-fewer 6000 at (first_rows 100 (pending_rows 6000 rows)) rows
        (first_rows-Decodable 100 (pending_rows 6000 rows) (pending_rows-Decodable 6000 rows h)),
  )

  drains-bounded :
      {D : Type 0} (c : Context) (n : ℕ) (s : Store D)
      → All Decodable s.outbox
      → count_pending 6000 s.outbox ≤ n
      → count_pending 6000 (drains c bus n s).1.outbox ≡ 0
  unfolding drains drain
  drains-bounded c zero s h k = omega (arith, k)
  drains-bounded c (suc n) s h k =
      drains-bounded c n (record s { outbox = drain_rows bus c.now s.outbox })
        (drain_rows-Decodable c.now s.outbox h)
        (ground (arith, k, drain_rows-fewer c.now s.outbox h, drain_rows-none c.now s.outbox h))

-- With a bus that takes every event and payloads that decode, the relay delivers everything: after
-- at most as many drains as rows are pending, no row that is not parked is left unpublished.
pub drains-count_pending :
    {D : Type 0} (bus : Bus) (c : Context) (s : Store D)
    → ((r : OutboxRow) → bus.publish r ≡ none)
    → All Decodable s.outbox
    → count_pending max_publish_attempts
        (drains c bus (count_pending max_publish_attempts s.outbox) s).1.outbox
      ≡ 0
drains-count_pending bus c s takes h =
    drains-bounded bus takes c (count_pending 6000 s.outbox) s h (omega arith)
