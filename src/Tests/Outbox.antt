-- ===== src/Tests/Outbox.antt =====
-- The outbox at concrete inputs.
use govibe_core.Prelude.{
  ◌+◌, ◌*◌, ◌≤◌, ◌≡◌, refl, false, some, [], ◌∷◌, arith, ◌==◌, find_row, update_rows, select_rows,
}
use govibe_core.Store.{Db, Clock, OutboxEvent, ok, ◌>>=◌}
use govibe_core.LaunchControl.{has}
use govibe_core.Journal.{pending_event}
use govibe_core.Outbox.Claims.{
  find_event, insert_by_creation, sort_by_creation, due_events, claim_batch_tx, claim_batch,
  delay_seconds, as_failed, set_next_attempt,
}
use govibe_core.Outbox.Processor.{
  Dispatcher, provider_auth, provider_timeout, failure_of, deliver, process_batch,
}
use govibe_core.Outbox.Backoff.{delay_seconds_doubles}
use govibe_core.Outbox.Lease.{claim_batch_disjoint}
use govibe_core.Outbox.Lifecycle.{phase_of, next_phase, deliver-next_phase}
use govibe_core.Outbox.Batch.{process_batch_ends}
use govibe_core.Tests.Fixtures.{noon, shop}

abbrev order_created : OutboxEvent
order_created = pending_event noon 60 "order" 30 "OrderCreated" []

abbrev queue : Db
queue = record shop { outbox_events = order_created ∷ [] }

abbrev soon : Clock
soon = record { app = 30999; db = 30999 }

abbrev leased : Db
leased = (claim_batch noon 100 queue).1

claims_one : claim_batch noon 100 queue ≡ (ok (order_created ∷ []), leased)
unfolding claim_batch claim_batch_tx ◌>>=◌ due_events select_rows sort_by_creation
    insert_by_creation
claims_one = refl

claims_none : claim_batch soon 100 leased ≡ (ok [], leased)
unfolding claim_batch claim_batch_tx ◌>>=◌ due_events select_rows sort_by_creation
    insert_by_creation update_rows has
claims_none = refl

claim_batch_disjoint_example : has ◌==◌ 60 [] ≡ false
unfolding has
claim_batch_disjoint_example =
    claim_batch_disjoint noon soon 100 100 queue leased leased (order_created ∷ []) [] 60 claims_one
      claims_none (omega arith) refl

-- A failure that is not retried gives the event up at once.
deliver-next_phase_example :
    ((deliver 2000 order_created (some provider_auth) queue).0 ≡ ok tt)
    × (stored' : OutboxEvent) × (find_event 60
          (deliver 2000 order_created (some provider_auth) queue).1.outbox_events
        ≡ some stored')
    × (phase_of stored' ≡ next_phase 0 (some provider_auth))
unfolding find_row
deliver-next_phase_example =
    deliver-next_phase 2000 order_created (some provider_auth) queue order_created refl refl

abbrev times_out : Dispatcher
times_out n row = some provider_timeout

process_batch_ends_example :
    (process_batch times_out noon (λ _. 1000) queue ≡ (
      ok 1,
      record queue {
        outbox_events =
            as_failed 1000
              (failure_of order_created provider_timeout)
              (set_next_attempt (some (noon.app + 30000)) order_created)
            ∷ [];
      },
    ))
    × (1 ≤ 100)
unfolding due_events select_rows sort_by_creation insert_by_creation update_rows as_failed has
process_batch_ends_example = process_batch_ends times_out noon (λ _. 1000) queue

delay_seconds_doubles_example :
    (delay_seconds 0 ≡ 1)
    × (delay_seconds (3 + 1) ≡ 2 * delay_seconds 3)
    × (delay_seconds (1 + 8) ≡ 256)
delay_seconds_doubles_example = delay_seconds_doubles 3 1 (omega arith)
