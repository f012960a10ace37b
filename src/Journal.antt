-- ===== src/Journal.antt =====
-- The audit log and the outbox as the use cases write them.
-- src/modules/audit/infrastructure/repositories/prisma-audit-log.repository.ts,
-- src/shared/outbox/prisma-outbox.repository.ts.
pub mod Keeps
use govibe_core.Prelude.{ℕ, String, false, none, ◌∷◌, ◌==◌, find_row}
use govibe_core.Store.{
  Clock, AuditLog, OutboxEvent, Json, Tx, ◌>>◌, throw_if, modify, is_some, unique_violation,
}

-- `AuditLogRepository.append`; a second row of the same id breaks the primary key.
unfoldable pub append_audit : AuditLog → Tx (Unit {0})
append_audit row db =
    (throw_if (is_some (find_row (λ r. r.id == row.id) db.audit_logs)) unique_violation
        >> modify (λ d. record d { audit_logs = row ∷ d.audit_logs }))
      db

-- The row that `OutboxRepository.append` creates, with the defaults of the schema.
abbrev pub pending_event : Clock → ℕ → String → ℕ → String → Json → OutboxEvent
pending_event clock id aggregate_type aggregate_id event_type payload = record {
  id = id;
  aggregate_type = aggregate_type;
  aggregate_id = aggregate_id;
  event_type = event_type;
  payload = payload;
  created_at = clock.db;
  processed = false;
  processed_at = none;
  retry_count = 0;
  next_attempt_at = none;
  last_error_code = none;
  dead_lettered_at = none;
}

-- `OutboxRepository.append`
unfoldable pub append_outbox : OutboxEvent → Tx (Unit {0})
append_outbox row db =
    (throw_if (is_some (find_row (λ r. r.id == row.id) db.outbox_events)) unique_violation
        >> modify (λ d. record d { outbox_events = row ∷ d.outbox_events }))
      db
