-- ===== src/Journal/Keeps.antt =====
-- What the journal entries leave: one row more in their own table.
use govibe_core.Prelude.{◌∷◌, ◌≡◌, ap, arith}
use govibe_core.Store.{Db, AuditLog, OutboxEvent, Post, Post-weaken, Post-write, ◌>>=◌, ◌>>◌}
use govibe_core.Journal.{append_audit, append_outbox}

abbrev pub with_audit : AuditLog → Db → Db
with_audit row db = record db { audit_logs = row ∷ db.audit_logs }

abbrev pub with_event : OutboxEvent → Db → Db
with_event row db = record db { outbox_events = row ∷ db.outbox_events }

pub append_audit_writes :
    (row : AuditLog) (db : Db) → Post (append_audit row db) (λ _ db'. db' ≡ with_audit row db)
unfolding append_audit ◌>>=◌
append_audit_writes row db = ground arith

pub append_outbox_writes :
    (row : OutboxEvent) (db : Db) → Post (append_outbox row db) (λ _ db'. db' ≡ with_event row db)
unfolding append_outbox ◌>>=◌
append_outbox_writes row db = ground arith

-- An audit row and an event, as every use case writes them.
pub append_both_writes :
    (row : AuditLog) (event : OutboxEvent) (db : Db)
    → Post
        ((append_audit row >> append_outbox event) db)
        (λ _ db'. db' ≡ with_event event (with_audit row db))
append_both_writes row event db =
    Post-write (λ _ db'. db' ≡ with_event event (with_audit row db)) _ _ db _
      (append_audit_writes row db) (append_outbox_writes event (with_audit row db))

-- The tables that the inventory's invariant reads are the same.
abbrev pub SameStock : Db → Db → Type 0
SameStock db db' = (db'.inventories ≡ db.inventories) × (db'.reservations ≡ db.reservations)

pub append_both-SameStock :
    (row : AuditLog) (event : OutboxEvent) (db : Db)
    → Post ((append_audit row >> append_outbox event) db) (λ _ db'. SameStock db db')
append_both-SameStock row event db =
    Post-weaken (λ _ db'. SameStock db db') (λ _ db'. db' ≡ with_event event (with_audit row db))
      ((append_audit row >> append_outbox event) db) (append_both_writes row event db)
      (λ _ db' e. (ap (λ (d : Db). d.inventories) e, ap (λ (d : Db). d.reservations) e))
