-- ===== src/Bus.antt =====
-- packages/persistence/.../bus.py: SubjectBus, the durable message bus, over the tables
-- workflow_events and bus_deliveries, with add_event of workflow.py.
pub mod Claims
pub mod Delivery
pub mod Published
mod Tests
use greencompute_api.Prelude.{
  ℕ, ◌+◌, ◌-◌, String, Bool, true, false, ◌&&◌, ◌||◌, Option, none, some, List, [], ◌∷◌, ◌++◌, ◌==◌,
  string_eq, nat_eq, if◌then◌else◌, leb, select, take,
}
use greencompute_api.Prelude.Dict.{Dict, lookup, insert}
use greencompute_api.Prelude.Sort.{sorted}

pub data DeliveryStatus : Type 0 where
  pending processing completed failed : DeliveryStatus

abbrev pub is_pending : DeliveryStatus → Bool
is_pending pending = true
is_pending _ = false

abbrev pub is_processing : DeliveryStatus → Bool
is_processing processing = true
is_processing _ = false

-- A row of workflow_events, under its event_id. The payload is any text.
pub record WorkflowEvent : Type 0 where
  pub subject : String
  pub payload : String
  pub status : DeliveryStatus
  pub attempts : ℕ
  pub available_at : ℕ
  pub last_error : Option String
  pub created_at : ℕ
  pub updated_at : ℕ

-- A row of bus_deliveries, under its id.
pub record BusDelivery : Type 0 where
  pub event_id : String
  pub consumer : String
  pub subject : String
  pub status : DeliveryStatus
  pub attempts : ℕ
  pub available_at : ℕ
  pub last_error : Option String
  pub created_at : ℕ
  pub updated_at : ℕ

pub record BusMessage : Type 0 where
  pub delivery_id : ℕ
  pub event_id : String
  pub consumer : String
  pub subject : String
  pub payload : String
  pub attempts : ℕ
  pub available_at : ℕ
  pub last_error : Option String

-- The two tables, and the next value of the autoincrement column.
pub record Tables : Type 0 where
  pub deliveries : Dict ℕ BusDelivery
  pub events : Dict String WorkflowEvent
  pub next_id : ℕ

-- `SUBJECT_CONSUMERS.get(subject, [])`
unfoldable pub consumers_of : String → List String
consumers_of subject =
    if subject == "build.accepted" || subject == "build.job.progress"
    then "builder-worker" ∷ []
    else if subject == "deployment.requested"
        || (subject == "invocation.recorded" || subject == "usage.recorded")
    then "control-plane-worker" ∷ []
    else if subject == "probe.result.recorded" || subject == "validator.weights.published"
    then "validator-worker" ∷ []
    else []

-- UPDATE of the row with a primary key.
unfoldable pub update_row : ℕ → BusDelivery → Dict ℕ BusDelivery → Dict ℕ BusDelivery
update_row id row [] = []
update_row id row ((i, old) ∷ rows) =
    (if id == i then (i, row) else (i, old)) ∷ update_row id row rows

-- `_to_message`
abbrev pub to_message : ℕ → BusDelivery → WorkflowEvent → BusMessage
to_message id row event = record {
  delivery_id = id;
  event_id = row.event_id;
  consumer = row.consumer;
  subject = row.subject;
  payload = event.payload;
  attempts = row.attempts;
  available_at = row.available_at;
  last_error = row.last_error;
}

abbrev pub new_event : String → String → ℕ → WorkflowEvent
new_event subject payload now = record {
  subject = subject;
  payload = payload;
  status = pending;
  attempts = 0;
  available_at = now;
  last_error = none;
  created_at = now;
  updated_at = now;
}

abbrev pub new_delivery : String → String → String → ℕ → BusDelivery
new_delivery event_id subject consumer now = record {
  event_id = event_id;
  consumer = consumer;
  subject = subject;
  status = pending;
  attempts = 0;
  available_at = now;
  last_error = none;
  created_at = now;
  updated_at = now;
}

-- One delivery for each consumer.
unfoldable pub add_deliveries : String → String → ℕ → List String → Tables → Tables
add_deliveries event_id subject now [] t = t
add_deliveries event_id subject now (c ∷ cs) t = add_deliveries event_id subject now cs (record t {
  deliveries = t.deliveries ++ ((t.next_id, new_delivery event_id subject c now) ∷ []);
  next_id = t.next_id + 1;
})

-- `publish`: the event, with the fresh id given, and its deliveries in one transaction.
unfoldable pub publish : String → String → String → ℕ → Tables → Tables
publish event_id subject payload now t =
    add_deliveries event_id subject now (consumers_of subject)
      (record t { events = insert event_id (new_event subject payload now) t.events })

-- The WHERE clause of claim_pending.
unfoldable pub is_claimable : String → (String → Bool) → ℕ → ℕ × BusDelivery → Bool
is_claimable consumer wanted now (id, row) =
    row.consumer == consumer
    && wanted row.subject
    && is_pending row.status
    && leb row.available_at now

abbrev pub claimed : ℕ → BusDelivery → BusDelivery
claimed now row = record row { status = processing; attempts = row.attempts + 1; updated_at = now }

-- The loop of claim_pending over the rows of its SELECT.
unfoldable pub claim_rows : ℕ → List (ℕ × BusDelivery) → Tables → List BusMessage × Tables
claim_rows now [] t = ([], t)
claim_rows now ((id, row) ∷ rows) t =
    let (messages, t') =
      claim_rows now rows
        (record t { deliveries = update_row id (claimed now row) t.deliveries }) in
    elim (lookup row.event_id t.events) [
      | none ↦ (messages, t')
      | some event ↦ (to_message id (claimed now row) event ∷ messages, t')
    ]

abbrev pub older_first : ℕ × BusDelivery → ℕ × BusDelivery → Bool
older_first (i, a) (j, b) = leb a.created_at b.created_at

-- `claim_pending`; `wanted` is membership in its subjects.
unfoldable pub claim_pending : String → (String → Bool) → ℕ → ℕ → Tables → List BusMessage × Tables
claim_pending consumer wanted limit now t =
    claim_rows now
      (take limit (sorted older_first (select (is_claimable consumer wanted now) t.deliveries))) t

abbrev pub retry_at : Option ℕ → ℕ → ℕ → ℕ
retry_at none now old = old
retry_at (some wait) now old = now + wait

-- `_update_status`: the delivery, and its event if it is there.
unfoldable pub _update_status :
    ℕ → DeliveryStatus → Option String → Option ℕ → ℕ → Tables → Option BusMessage × Tables
_update_status id status error wait now t = elim (lookup id t.deliveries) [
  | none ↦ (none, t)
  | some old ↦
      let row = record old {
        status = status;
        last_error = error;
        available_at = retry_at wait now old.available_at;
        updated_at = now;
      } in
      let t' = record t { deliveries = update_row id row t.deliveries } in
      elim (lookup old.event_id t.events) [
        | none ↦ (none, t')
        | some event ↦ (
          some (to_message id row event),
          record t' {
            events =
                insert old.event_id
                  (record event {
                    status = status;
                    last_error = error;
                    available_at = elim wait [
                      | none ↦ event.available_at
                      | some _ ↦ row.available_at
                    ];
                    updated_at = now;
                  })
                  t.events;
          },
        )
      ]
]

-- `mark_completed`
unfoldable pub mark_completed : ℕ → ℕ → Tables → Option BusMessage × Tables
mark_completed id now = _update_status id completed none none now

-- `mark_failed`
unfoldable pub mark_failed : ℕ → String → Bool → Option ℕ → ℕ → Tables → Option BusMessage × Tables
mark_failed id error retryable wait now =
    _update_status id (if retryable then pending else failed) (some error) wait now

-- The WHERE clause of requeue_stale_processing, with `utcnow() - stale_after` as a difference.
unfoldable pub is_stale_delivery : String → (String → Bool) → ℕ → ℕ → ℕ × BusDelivery → Bool
is_stale_delivery consumer wanted stale_after now (id, row) =
    row.consumer == consumer
    && wanted row.subject
    && is_processing row.status
    && leb (row.updated_at + stale_after) now

abbrev pub requeued : ℕ → BusDelivery → BusDelivery
requeued now row = record row {
  status = pending;
  last_error = some "requeued after stale processing delivery";
  available_at = now;
  updated_at = now;
}

abbrev pub requeued_event : ℕ → WorkflowEvent → WorkflowEvent
requeued_event now event = record event {
  status = pending;
  last_error = some "requeued after stale processing delivery";
  available_at = now;
  updated_at = now;
}

-- The loop of requeue_stale_processing.
unfoldable pub requeue_rows : ℕ → List (ℕ × BusDelivery) → Tables → List BusMessage × Tables
requeue_rows now [] t = ([], t)
requeue_rows now ((id, row) ∷ rows) t =
    let t' = record t { deliveries = update_row id (requeued now row) t.deliveries } in
    elim (lookup row.event_id t.events) [
      | none ↦ requeue_rows now rows t'
      | some event ↦
          let (messages, t'') =
            requeue_rows now rows
              (record t' { events = insert row.event_id (requeued_event now event) t.events }) in
          (to_message id (requeued now row) event ∷ messages, t'')
    ]

-- `requeue_stale_processing`
unfoldable pub requeue_stale_processing :
    String → (String → Bool) → ℕ → ℕ → Tables → List BusMessage × Tables
requeue_stale_processing consumer wanted stale_after now t =
    requeue_rows now (select (is_stale_delivery consumer wanted stale_after now) t.deliveries) t
