-- ===== src/Initiation/Final.antt =====
-- What an initiation keeps of the other intents.
use govibe_core.Prelude.{
  ◌≡◌, refl, ap, ◌∙◌, subst, ℕ, true, false, Option, none, some, arith, ◌==◌, ==_iff, inl, inr,
  Bool-cases, if◌then◌else◌, find_row, update_rows, find_row_sound, find_row-update_rows, rewritten,
  is_some, text_eq, String,
}
use govibe_core.Store.{
  Db, PaymentIntent, PaymentProvider, is_initiation_failed, IntentAudit, Error, Result, ok, err, Tx,
  Post, Post-bind, Post-gets, Post-modify, Post-throw_if, Moves, Moves-bind, Moves-pure,
  Moves-modify, Moves-writes, Ends, Ends-run, Ends-then, Ends-throws, atomic-then, returns, ◌>=>◌,
  ◌>>=◌, modify, then-keeps,
}
use govibe_core.Intents.Repository.{
  has_id, has_key, clashes, with_intent, create_intent, find_intent, update_intent,
  mark_retry_pending, mark_initiated, mark_initiation_failed, append_intent_audit,
  find_by_buyer_and_idempotency, retry_pending, InitiationFailure, initiated_row,
  initiation_failed_row,
}
use govibe_core.Intents.Distinct.{AreDistinct, found_by_id, update_rows-AreDistinct, fresh_id}
use govibe_core.Initiation.Guards.{Eligible}
use govibe_core.Initiation.Begin.{
  InitiateInput, Hashing, Action, call_provider, return_existing, begin_existing, begin_new,
  begin_by, begin_tx, pending_intent, key_hash_of, use_case,
}
use govibe_core.Initiation.Attempt.{
  Attempting, attempted, ProviderInitiation, InitiationAnswer, initiated, thrown, Caught, Ending,
  stored, failing, record_initiation_failure, after_unstored, record_persistence_failure,
  persist_tx, after_persist, after_answer, after_ending,
}
use govibe_core.Initiation.Service.{Initiator, to_view, after_action, after_guards}

-- Ids are distinct, and an intent is found by its id.
pub record Holds (id : ℕ) (row : PaymentIntent) (db : Db) : Type 0 where
  pub distinct : AreDistinct db.payment_intents
  pub found : find_intent id db ≡ some row

-- The intents after an update of one.
abbrev with_update : ℕ → (PaymentIntent → PaymentIntent) → Db → Db
with_update i f db = record db { payment_intents = update_rows (has_id i) f db.payment_intents }

update_intent_writes :
    (i : ℕ) (f : PaymentIntent → PaymentIntent) (db : Db)
    → Post (update_intent i f db) (λ _ db'. db' ≡ with_update i f db)
unfolding update_intent ◌>>=◌
update_intent_writes i f db = ground arith

module _ (id : ℕ) (row : PaymentIntent) where
  abbrev P : Db → Type 0
  P = Holds id row

  -- The update of another intent keeps it.
  update_intent-Moves :
      (i : ℕ) (f : PaymentIntent → PaymentIntent)
      → ((x : PaymentIntent) → (f x).id ≡ x.id)
      → (i == id) ≡ false
      → Moves P P (update_intent i f)
  unfolding find_intent
  update_intent-Moves i f keep other =
      Moves-writes (with_update i f) (update_intent_writes i f) (λ d p. record {
        distinct = update_rows-AreDistinct (has_id i) f keep d.payment_intents p.distinct;
        found = found_after d p;
      })
    where
      unselected : (d : Db) → P d → has_id i row ≡ false
      unselected d p = ground (arith, other, find_row_sound (has_id id) d.payment_intents p.found)

      found_after : (d : Db) → P d → find_intent id (with_update i f d) ≡ some row
      found_after d p =
          find_row-update_rows (has_id id) (has_id i) f d.payment_intents
            (λ x. ap (λ n. n == id) (keep x))
          ∙ ap (rewritten (has_id i) f) p.found
          ∙ ap (λ b. some (if b then f row else row)) (unselected d p)

  append-Moves : (audit : IntentAudit) → Moves P P (append_intent_audit audit)
  unfolding append_intent_audit find_intent
  append-Moves audit = Moves-modify (λ d p. record { distinct = p.distinct; found = p.found })

  failed-Moves :
      (i : ℕ) (input : InitiationFailure)
      → (i == id) ≡ false
      → Moves P P (mark_initiation_failed i input)
  unfolding mark_initiation_failed
  failed-Moves i input other = update_intent-Moves i (initiation_failed_row input) (λ x. refl) other

  attempted-Ends :
      {A : Type 0} (refusal : Option Error) (m : Tx A)
      → Moves P P m
      → Ends P P (attempted refusal m)
  unfolding attempted
  attempted-Ends none m h = Ends-run (λ d p. p) h
  attempted-Ends (some e) m h = Ends-throws (λ d p. p)

  module _ (attempting : Attempting) (intent : PaymentIntent)
      (other : (intent.id == id) ≡ false) where
    record_failure-Ends :
        (provider : PaymentProvider) (caught : Caught)
        → Ends P P (record_initiation_failure attempting intent provider caught)
    unfolding record_initiation_failure
    record_failure-Ends provider caught =
        attempted-Ends _ _ (Moves-bind (failed-Moves _ _ other) (λ _. append-Moves _))

    after_unstored-keeps :
        (message : String) (c : Result (Unit {0}) × Db)
        → P c.1
        → P (after_unstored attempting intent message c)
    unfolding after_unstored
    after_unstored-keeps message (ok u, db) p = p
    after_unstored-keeps message (err e, db) p = (attempted-Ends _ _ (append-Moves _)).at db p

    persistence_failure-keeps :
        (answer : ProviderInitiation) (message : String) (db : Db)
        → P db
        → P (record_persistence_failure attempting intent answer message db)
    unfolding record_persistence_failure
    persistence_failure-keeps answer message db p =
        after_unstored-keeps message _
          ((attempted-Ends _ _ (Moves-bind (failed-Moves _ _ other) (λ _. append-Moves _))).at db p)

    persist_tx-Moves :
        (answer : ProviderInitiation) → Moves P P (persist_tx attempting intent answer)
    unfolding persist_tx mark_initiated
    persist_tx-Moves answer =
        Moves-bind (update_intent-Moves _ (initiated_row _) (λ x. refl) other)
          (λ _. Moves-bind (append-Moves _) (λ _. Moves-pure))

    after_persist-keeps :
        (answer : ProviderInitiation) (c : Result PaymentIntent × Db)
        → P c.1
        → P (after_persist attempting intent answer c).1
    unfolding after_persist
    after_persist-keeps answer (ok r, db) p = p
    after_persist-keeps answer (err e, db) p =
        persistence_failure-keeps answer (attempting.error_message e) db p

    after_answer-keeps :
        (answer : InitiationAnswer) (db : Db)
        → P db
        → P (after_answer attempting intent answer db).1
    unfolding after_answer
    after_answer-keeps (thrown e message) db p = p
    after_answer-keeps (initiated answer) db p =
        elim (Bool-cases (text_eq answer.provider_reference intent.provider_reference)) [
          | inl e ↦
              rw (e, if◌then◌else◌)
                (after_persist-keeps answer _
                  ((attempted-Ends _ _ (persist_tx-Moves answer)).at db p))
          | inr e ↦ rw (e, if◌then◌else◌) p
        ]

    after_ending-keeps :
        (provider : PaymentProvider) (c : Ending × Db)
        → P c.1
        → P (after_ending attempting intent provider c).1
    unfolding after_ending
    after_ending-keeps provider (stored r, db) p = p
    after_ending-keeps provider (failing caught, db) p =
        (Ends-then (λ d p. p) (record_failure-Ends provider caught)
            (λ _. Ends-throws (λ d p. p))).at
          db p

  -- Which intent an action may change.
  abbrev Spares : Action → Db → Type 0
  Spares (call_provider intent) d = P d × ((intent.id == id) ≡ false)
  Spares (return_existing intent) d = P d

  module _ (settled : is_initiation_failed row.status ≡ false) where
    begin_existing-Spares :
        (hashing : Hashing) (eligible : Eligible) (input : InitiateInput) (existing : PaymentIntent)
        (db : Db)
        → P db
        → find_row (has_id existing.id) db.payment_intents ≡ some existing
        → Post (begin_existing hashing eligible input existing db) Spares
    unfolding begin_existing mark_retry_pending append_intent_audit find_intent
    begin_existing-Spares hashing eligible input existing db p here =
        Post-throw_if Spares _ _ _ db (λ _.
          elim (Bool-cases (is_initiation_failed existing.status)) [
            | inr e ↦
                rw (e, if◌then◌else◌)
                  (Post-modify Spares _ _ db (record { distinct = p.distinct; found = p.found }))
            | inl e ↦
                rw (e, if◌then◌else◌)
                  (Post-bind Spares (λ _ d. P d) (mark_retry_pending existing.id) _ db
                    ((update_intent-Moves existing.id retry_pending (λ x. refl) (other e)).at db p)
                    (λ _ d q.
                      Post-modify Spares _ _ d
                        (record { distinct = q.distinct; found = q.found }, other e)))
          ])
      where
        other : is_initiation_failed existing.status ≡ true → (existing.id == id) ≡ false
        other e = elim (Bool-cases (existing.id == id)) [
          | inr s ↦ s
          | inl s ↦ absurd (
              ground (
                arith,
                e,
                settled,
                p.found,
                subst (λ n. find_row (has_id n) db.payment_intents ≡ some existing)
                    ((==_iff existing.id id).0 s) here,
              ))
        ]

    -- A row that is created is another one.
    create_intent-Spares :
        (new : PaymentIntent) (db : Db)
        → P db
        → Post (create_intent new db) (λ _ d. P d × ((new.id == id) ≡ false))
    unfolding create_intent find_intent find_row
    create_intent-Spares new db p =
        Post-throw_if (λ _ d. P d × ((new.id == id) ≡ false)) _ _ (modify (with_intent new)) db
          (λ e. (
            record {
              distinct = (fresh_id new db.payment_intents e, p.distinct);
              found =
                  ap (λ b. if b then some new else find_row (has_id id) db.payment_intents)
                    (other e)
                  ∙ p.found;
            },
            other e,
          ))
      where
        other : is_some (find_row (clashes new) db.payment_intents) ≡ false → (new.id == id) ≡ false
        other e = elim (Bool-cases (new.id == id)) [
          | inr s ↦ s
          | inl s ↦ absurd (
              ground (
                arith,
                p.found,
                subst (λ n. find_row (has_id n) db.payment_intents ≡ none) ((==_iff new.id id).0 s)
                    (fresh_id new db.payment_intents e),
              ))
        ]

    begin_new-Spares :
        (new : ℕ) (hashing : Hashing) (eligible : Eligible) (input : InitiateInput) (db : Db)
        → P db
        → Post (begin_new new hashing eligible input db) Spares
    unfolding begin_new append_intent_audit find_intent
    begin_new-Spares new hashing eligible input db p =
        Post-bind Spares (λ _ d. P d × ((new == id) ≡ false))
          (create_intent (pending_intent new hashing eligible input)) _ db
          (create_intent-Spares (pending_intent new hashing eligible input) db p)
          (λ _ d (q, other).
            Post-modify Spares _ _ d (record { distinct = q.distinct; found = q.found }, other))

    begin_tx-Spares :
        (new : ℕ) (hashing : Hashing) (eligible : Eligible) (input : InitiateInput) (db : Db)
        → P db
        → Post (begin_tx new hashing eligible input db) Spares
    unfolding begin_tx begin_by find_by_buyer_and_idempotency
    begin_tx-Spares new hashing eligible input db p = Post-gets Spares _ _ db (
        go
          (find_row (has_key eligible.buyer.id use_case (key_hash_of hashing input))
            db.payment_intents)
          refl)
      where
        go :
            (found : Option PaymentIntent)
            → find_row
                (has_key eligible.buyer.id use_case (key_hash_of hashing input))
                db.payment_intents
              ≡ found
            → Post (begin_by new hashing eligible input found db) Spares
        go none e = begin_new-Spares new hashing eligible input db p
        go (some existing) e = begin_existing-Spares hashing eligible input existing db p (
            found_by_id (has_key eligible.buyer.id use_case (key_hash_of hashing input))
              db.payment_intents existing p.distinct e)

    after_action-keeps :
        (initiator : Initiator) (input : InitiateInput) (eligible : Eligible) (action : Action)
        (db : Db)
        → Spares action db
        → P (after_action initiator input eligible action db).1
    unfolding after_action
    after_action-keeps initiator input eligible (return_existing intent) db p = p
    after_action-keeps initiator input eligible (call_provider intent) db (p, other) =
        after_ending-keeps initiator.attempting intent other input.provider _
          (after_answer-keeps initiator.attempting intent other _ db p)

    pub after_guards-Ends :
        (initiator : Initiator) (input : InitiateInput) (eligible : Eligible)
        → Ends P P (after_guards initiator input eligible)
    unfolding after_guards
    after_guards-Ends initiator input eligible = record {
      at = λ db p.
          atomic-then Spares P (begin_tx initiator.intent_id initiator.hashing eligible input)
            (λ action. after_action initiator input eligible action >=> λ r. returns (to_view r)) db
            p (begin_tx-Spares initiator.intent_id initiator.hashing eligible input db p)
            (λ action d q.
              then-keeps P P (after_action initiator input eligible action)
                (λ r. returns (to_view r)) d
                (after_action-keeps initiator input eligible action d q) (λ d q. q) (λ r d q. q));
    }
