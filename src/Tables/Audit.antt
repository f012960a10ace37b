-- ===== src/Tables/Audit.antt =====
-- src/modules/tables/application/table-audit.service.ts, of the rows that the holds write. The
-- metadata gives a time in milliseconds.
use govibe_core.Prelude.{ℕ, String, Option, none, some, [], ◌∷◌}
use govibe_core.Store.{
  Db, TableAudit, TableAuditEvent, TableReservation, EventTable, EventTableStatus,
  event_table_status_text, num, text, Tx, modify,
}
use govibe_core.Webhooks.Outcome.{opt_num}

abbrev pub with_table_audit : TableAudit → Db → Db
with_table_audit row db = record db { table_audits = row ∷ db.table_audits }

-- `append`
unfoldable pub append_table_audit : TableAudit → Tx (Unit {0})
append_table_audit row = modify (with_table_audit row)

-- `logHoldCreated`
abbrev pub hold_created : EventTable → TableReservation → TableAudit
hold_created table row = record {
  actor_user_id = row.actor_user_id;
  organizer_id = some table.organizer_id;
  event_id = table.event_id;
  venue_table_id = some table.venue_table_id;
  event_table_id = table.id;
  reservation_id = some row.id;
  event = TableAuditEvent.table_hold_created;
  reason = none;
  metadata =
      ("reservationId", num row.id)
      ∷ ("eventTableId", num table.id)
      ∷ ("eventId", num table.event_id)
      ∷ ("organizerId", num table.organizer_id)
      ∷ ("amountMinor", num row.amount_minor)
      ∷ ("currency", text row.currency)
      ∷ ("holdExpiresAt", num row.hold_expires_at)
      ∷ [];
}

-- `logHoldExpired`
abbrev pub hold_expired : ℕ → EventTableStatus → EventTableStatus → TableReservation → TableAudit
hold_expired now previous next row = record {
  actor_user_id = row.actor_user_id;
  organizer_id = some row.organizer_id;
  event_id = row.event_id;
  venue_table_id = none;
  event_table_id = row.event_table_id;
  reservation_id = some row.id;
  event = TableAuditEvent.table_hold_expired;
  reason = some "hold_expired";
  metadata =
      ("reservationId", num row.id)
      ∷ ("eventTableId", num row.event_table_id)
      ∷ ("eventId", num row.event_id)
      ∷ ("organizerId", num row.organizer_id)
      ∷ ("reason", text "hold_expired")
      ∷ ("previousReservationStatus", text "HELD")
      ∷ ("newReservationStatus", text "EXPIRED")
      ∷ ("previousEventTableStatus", text (event_table_status_text previous))
      ∷ ("newEventTableStatus", text (event_table_status_text next))
      ∷ ("expiredAt", num now)
      ∷ ("holdExpiresAt", num row.hold_expires_at)
      ∷ [];
}

-- `logReservationRejected`
abbrev pub reservation_rejected :
    (actor event_id event_table_id : ℕ) → Option ℕ → Option ℕ → (reason : String) → TableAudit
reservation_rejected actor event_id event_table_id organizer_id venue_table_id reason = record {
  actor_user_id = actor;
  organizer_id = organizer_id;
  event_id = event_id;
  venue_table_id = venue_table_id;
  event_table_id = event_table_id;
  reservation_id = none;
  event = TableAuditEvent.table_reservation_rejected;
  reason = some reason;
  metadata =
      ("organizerId", opt_num organizer_id)
      ∷ ("eventId", num event_id)
      ∷ ("venueTableId", opt_num venue_table_id)
      ∷ ("eventTableId", num event_table_id)
      ∷ ("reason", text reason)
      ∷ [];
}
