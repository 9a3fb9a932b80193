-- ===== src/Examples/Relaying.antt =====
-- The relay of the outbox.
use iag_finance.Base.{◌≡◌, refl, none, some, [], ◌∷◌, All}
use iag_finance.Base.Int.{ℤ}
use iag_finance.Store.{Store, OutboxRow}
use iag_finance.Outbox.{
  Bus, drains, drain_rows, fetch_unpublished_outbox, max_publish_attempts, outbox_batch_size,
}
use iag_finance.Outbox.Delivery.{AreKept, drain_rows-AreKept}
use iag_finance.Outbox.Progress.{Decodable, count_pending, drains-count_pending}
use iag_finance.Examples.Data.{ctx, empty_store}

abbrev event_row : OutboxRow
event_row = record {
  id = 1;
  topic = "finance";
  partition_key = "k";
  event_id = "e1";
  event_type = "payment.received";
  payload = some [];
  published_at = none;
  attempts = 2;
  last_error = "down";
}

abbrev open_bus : Bus
open_bus = record { publish = λ _. none; decode_error = λ _. "payload decode" }

abbrev queued : Store ℤ
queued = record empty_store { outbox = event_row ∷ [] }

drain_rows-AreKept_example :
    AreKept open_bus
      (fetch_unpublished_outbox outbox_batch_size max_publish_attempts queued.outbox)
      queued.outbox
      (drain_rows open_bus 7 queued.outbox)
drain_rows-AreKept_example = drain_rows-AreKept open_bus 7 queued.outbox

queued-Decodable : All Decodable queued.outbox
queued-Decodable = (refl, tt)

drains-count_pending_example :
    count_pending max_publish_attempts
      (drains ctx open_bus (count_pending max_publish_attempts queued.outbox) queued).1.outbox
    ≡ 0
drains-count_pending_example = drains-count_pending open_bus ctx queued (λ _. refl) queued-Decodable
