-- ===== src/Outbox.antt =====
-- The relay of the outbox: FetchUnpublishedOutbox, CountParkedOutbox, MarkOutboxPublished,
-- MarkOutboxFailed and EnqueueOutbox of internal/repository/outbox.go, and the drain of
-- internal/worker/outbox.go. The bus is a function of the row: none if it takes the event, else the
-- text of its error.
pub mod Delivery
pub mod Progress
use iag_finance.Base.{
  ℕ, zero, suc, ◌+◌, String, Bool, true, false, not, ◌&&◌, ◌||◌, Option, none, some, List, [], ◌∷◌,
  ◌++◌, if◌then◌else◌, ◌==◌, ltb, leb, is_some,
}
use iag_finance.Calendar.{Time}
use iag_finance.Store.{OutboxRow, Context, Action, ok, modify, ◌>>=◌, ◌>>◌}

abbrev pub outbox_batch_size : ℕ
outbox_batch_size = 100

abbrev pub max_publish_attempts : ℕ
max_publish_attempts = 6000

abbrev pub default_max_publish_attempts : ℕ
default_max_publish_attempts = 6000

-- What PublishRaw answers, and the text of a payload that does not decode.
pub record Bus : Type 0 where
  pub publish : OutboxRow → Option String
  pub decode_error : OutboxRow → String

-- published_at IS NULL AND attempts < $2
abbrev pub is_pending_row : ℕ → OutboxRow → Bool
is_pending_row max_attempts r = not (is_some r.published_at) && ltb r.attempts max_attempts

-- ORDER BY created_at: the oldest row is the last of the table.
unfoldable pub pending_rows : ℕ → List OutboxRow → List OutboxRow
pending_rows max_attempts [] = []
pending_rows max_attempts (r ∷ rs) =
    pending_rows max_attempts rs ++ (if is_pending_row max_attempts r then r ∷ [] else [])

-- LIMIT $1
unfoldable pub first_rows : ℕ → List OutboxRow → List OutboxRow
first_rows zero rs = []
first_rows (suc n) [] = []
first_rows (suc n) (r ∷ rs) = r ∷ first_rows n rs

abbrev pub clamp_limit : ℕ → ℕ
clamp_limit limit = if (limit == 0) || ltb 500 limit then 100 else limit

abbrev pub clamp_attempts : ℕ → ℕ
clamp_attempts n = if n == 0 then default_max_publish_attempts else n

unfoldable pub fetch_unpublished_outbox : ℕ → ℕ → List OutboxRow → List OutboxRow
fetch_unpublished_outbox limit max_attempts rows =
    first_rows (clamp_limit limit) (pending_rows (clamp_attempts max_attempts) rows)

unfoldable pub count_parked : ℕ → List OutboxRow → ℕ
count_parked max_attempts [] = 0
count_parked max_attempts (r ∷ rs) =
    (if not (is_some r.published_at) && leb max_attempts r.attempts then 1 else 0)
    + count_parked max_attempts rs

unfoldable pub count_parked_outbox : ℕ → List OutboxRow → ℕ
count_parked_outbox max_attempts rows = count_parked (clamp_attempts max_attempts) rows

unfoldable pub mark_outbox_published : ℕ → Time → List OutboxRow → List OutboxRow
mark_outbox_published id at [] = []
mark_outbox_published id at (r ∷ rs) =
    (if r.id == id then record r { published_at = some at } else r) ∷ mark_outbox_published id at rs

unfoldable pub mark_outbox_failed : ℕ → String → List OutboxRow → List OutboxRow
mark_outbox_failed id message [] = []
mark_outbox_failed id message (r ∷ rs) =
    (if r.id == id then record r { attempts = r.attempts + 1; last_error = message } else r)
    ∷ mark_outbox_failed id message rs

-- What becomes of a row of the loop: none if it is delivered, else the text of the error.
unfoldable pub answer : Bus → OutboxRow → Option String
answer bus r = elim r.payload [ none ↦ some (bus.decode_error r) | some _ ↦ bus.publish r ]

unfoldable pub mark_answer : ℕ → Time → Option String → List OutboxRow → List OutboxRow
mark_answer id at none rows = mark_outbox_published id at rows
mark_answer id at (some e) rows = mark_outbox_failed id e rows

unfoldable pub deliver : Bus → Time → List OutboxRow → List OutboxRow → List OutboxRow
deliver bus at [] rows = rows
deliver bus at (r ∷ rs) rows = deliver bus at rs (mark_answer r.id at (answer bus r) rows)

unfoldable pub drain_rows : Bus → Time → List OutboxRow → List OutboxRow
drain_rows bus at rows =
    deliver bus at (fetch_unpublished_outbox outbox_batch_size max_publish_attempts rows) rows

-- drain
unfoldable pub drain : {D : Type 0} → Context → Bus → Action D (Unit {0})
drain c bus = modify (λ s. record s { outbox = drain_rows bus c.now s.outbox })

-- The ticks of Run, as long as it holds the lock.
unfoldable pub drains : {D : Type 0} → Context → Bus → ℕ → Action D (Unit {0})
drains c bus zero = λ s. (ok tt, s)
drains c bus (suc n) = do drain c bus; drains c bus n
