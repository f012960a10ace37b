-- ===== src/Outbox/Processor.antt =====
-- src/shared/outbox/outbox.processor.ts: a batch of events, each delivered or marked as failed.
-- The dispatcher is an interface, so what it throws is an argument; the log and the telemetry are
-- left out.
use govibe_core.Prelude.{
  ℕ, ◌+◌, String, Bool, true, false, ◌||◌, Option, none, some, List, [], ◌∷◌, length, leb, ◌==◌,
  text_eq, if◌then◌else◌,
}
use govibe_core.Store.{Db, Clock, OutboxEvent, Result, ok, err, Call}
use govibe_core.Outbox.Claims.{Failure, claim_batch, mark_processed, mark_failure}

-- What a dispatch throws: the classes of
-- src/modules/payments/domain/providers/provider-errors.ts with what the processor reads of them,
-- another error with its name, or a value without a name.
pub data DispatchError : Type 0 where
  provider_auth provider_timeout provider_network webhook_signature : DispatchError
  provider_response : (code : String) (status_code : ℕ) → DispatchError
  named : String → DispatchError
  nameless : DispatchError

-- What the dispatcher does with an event in a round of the batch: it ends normally, or throws.
abbrev pub Dispatcher : Type 0
Dispatcher = ℕ → OutboxEvent → Option DispatchError

-- `isRetryableError`
unfoldable pub is_retryable : DispatchError → Bool
is_retryable provider_timeout = true
is_retryable provider_network = true
is_retryable provider_auth = false
is_retryable webhook_signature = false
is_retryable (provider_response code status_code) =
    status_code == 0 || (leb 500 status_code || (status_code == 408 || status_code == 429))
is_retryable (named name) =
    if text_eq name "ValidationError" || (text_eq name "SyntaxError" || text_eq name "TypeError")
    then false
    else true
is_retryable nameless = true

-- `getErrorCode`
unfoldable pub error_code : DispatchError → String
error_code (provider_response code status_code) = code
error_code provider_auth = "ProviderAuthError"
error_code provider_timeout = "ProviderTimeoutError"
error_code provider_network = "ProviderNetworkError"
error_code webhook_signature = "WebhookSignatureError"
error_code (named name) = name
error_code nameless = "OUTBOX_DISPATCH_ERROR"

-- The failure that the processor reports of an event.
unfoldable pub failure_of : OutboxEvent → DispatchError → Failure
unfolding is_retryable error_code
failure_of row e = record {
  retry_count = row.retry_count + 1;
  error_code = error_code e;
  retryable = is_retryable e;
}

-- The `catch` block.
unfoldable pub fail_event : ℕ → OutboxEvent → DispatchError → Call (Unit {0})
unfolding failure_of mark_failure
fail_event now row e = mark_failure now row.id (failure_of row e)

-- The end of the `try` block: a mark that fails is caught like a dispatch that fails.
unfoldable pub after_mark : ℕ → OutboxEvent → Result (Unit {0}) × Db → Result (Unit {0}) × Db
unfolding fail_event
after_mark now row (ok u, db) = (ok u, db)
after_mark now row (err e, db) = fail_event now row (named "PrismaClientKnownRequestError") db

-- One round of the loop, for what the dispatcher did.
unfoldable pub deliver : ℕ → OutboxEvent → Option DispatchError → Call (Unit {0})
unfolding mark_processed after_mark fail_event
deliver now row none db = after_mark now row (mark_processed now row.id db)
deliver now row (some e) db = fail_event now row e db

-- The loop, from its `n`-th round; each round reads its own clock. An error of `markFailure` ends
-- it, and the rounds before it stay committed.
unfoldable pub process_rows : Dispatcher → (ℕ → ℕ) → ℕ → List OutboxEvent → Call (Unit {0})
unfolding deliver
process_rows dispatch times n [] db = (ok tt, db)
process_rows dispatch times n (row ∷ rows) db =
    let (r, db') = deliver (times n) row (dispatch n row) db in
    elim r [ ok u ↦ process_rows dispatch times (n + 1) rows db' | err e ↦ (err e, db') ]

-- The number of rows, once the loop has ended normally.
abbrev pub counted_rows : ℕ → Result (Unit {0}) × Db → Result ℕ × Db
counted_rows n (ok u, db) = (ok n, db)
counted_rows n (err e, db) = (err e, db)

-- `processBatch`, with BATCH_SIZE = 100. The claim is its own transaction.
unfoldable pub process_claimed :
    Dispatcher → (ℕ → ℕ) → Result (List OutboxEvent) × Db → Result ℕ × Db
unfolding process_rows
process_claimed dispatch times (ok rows, db) =
    counted_rows (length rows) (process_rows dispatch times 0 rows db)
process_claimed dispatch times (err e, db) = (err e, db)

unfoldable pub process_batch : Dispatcher → Clock → (ℕ → ℕ) → Call ℕ
unfolding claim_batch process_claimed
process_batch dispatch clock times db = process_claimed dispatch times (claim_batch clock 100 db)

-- `OutboxService.dispatchPendingBatch`: whatever limit is asked for, the batch has its own size.
unfoldable pub dispatch_pending_batch : Dispatcher → Clock → (ℕ → ℕ) → Option ℕ → Call ℕ
unfolding process_batch
dispatch_pending_batch dispatch clock times limit = process_batch dispatch clock times
