-- ===== src/Webhook/Loops.antt =====
-- The two loops of `Dispatcher.Run` beside each other (internal/webhook/dispatch.go), interleaved
-- with the calls of `Notify` and `Test` and with the other writers of the database. A step is one
-- statement of `record`, `Test` or `sweep` that reads or writes the database or a channel.
pub mod Steps
pub mod Written
pub mod Served
pub mod Wake
use tokenzy.Prelude.{
  ℕ, ◌+◌, suc, ◌≤◌, ◌≡◌, Bool, true, false, Option, none, some, List, [], ◌∷◌, ◌++◌, ltb, length,
  is_nil, if◌then◌else◌, All,
}
use tokenzy.Prelude.Str.{Str}
use tokenzy.Prelude.Table.{select}
use tokenzy.Model.{Webhook, WebhookDelivery, EventType, event_name, subscribes}
use tokenzy.Db.{Database, TokenEvent, Result, ok, err, not_found}
use tokenzy.Db.Projects.{get_environment_by_id}
use tokenzy.Db.Webhooks.{
  HeaderJson, due_deliveries, list_enabled_webhooks, enqueue_delivery, get_webhook_by_id,
}
use tokenzy.Webhook.Request.{Net}
use tokenzy.Webhook.Record.{Format, Dispatcher, notify, nudge, new_event_id, build_payload}
use tokenzy.Webhook.Record.Fanout.{HasRow}
use tokenzy.Webhook.Attempt.{attempt, sweep_batch}

-- Where `recordLoop` stands: at its `select`, returned, or in `record`, before each of its
-- statements. `writing` is the loop over the webhooks that are left, with the id of the event, the
-- slug of the environment and whether a row was written.
pub data Recorder : Type 0 where
  idle returned : Recorder
  taken : TokenEvent → Recorder
  listed : TokenEvent → List Webhook → Recorder
  writing : TokenEvent → Str → Str → List Webhook → Bool → Recorder

-- Where `sendLoop` stands: before a batch of `sweep` is read, in a batch with the deliveries that are
-- left and whether it came back short, at its `select`, or returned.
pub data Sender : Type 0 where
  sweeping waiting stopped : Sender
  sending : List WebhookDelivery → Bool → Sender

-- In a recording that wrote a row and has neither nudged the sender nor returned.
abbrev pub has_written : Recorder → Bool
has_written (writing ev event_id slug hooks queued) = queued
has_written idle = false
has_written returned = false
has_written (taken ev) = false
has_written (listed ev hooks) = false

-- `tests` counts the calls of `Test` between their row and their nudge. `abandoned` is no variable of
-- the program: since the sender last woke, `record` returned an error behind a row that it wrote.
pub record System : Type 0 where
  pub channels : Dispatcher
  pub database : Database
  pub recorder : Recorder
  pub tests : ℕ
  pub sender : Sender
  pub cancelled : Bool
  pub now : ℕ
  pub abandoned : Bool

-- `New` and the start of `Run`
abbrev pub launch : ℕ → Database → System
launch ts d = record {
  channels = record { queue = []; wake = Bool.false };
  database = d;
  recorder = idle;
  tests = 0;
  sender = sweeping;
  cancelled = Bool.false;
  now = ts;
  abandoned = Bool.false;
}

-- `record` up to the webhooks
unfoldable pub list_hooks : HeaderJson → TokenEvent → Database → Recorder
list_hooks json ev d =
    let hooks = list_enabled_webhooks json ev.env_id d in
    if is_nil hooks then idle else listed ev hooks

-- `record` from the environment to the loop over the webhooks, with the random bytes that it draws
unfoldable pub look_up : Option Str → TokenEvent → List Webhook → Database → Recorder
look_up buf ev hooks d = elim (get_environment_by_id ev.env_id d) [
  | err e ↦ idle
  | ok env ↦ elim (new_event_id buf) [
    | none ↦ idle
    | some event_id ↦ writing ev event_id env.slug hooks false
  ]
]

-- An error of `record` in the loop over the webhooks
unfoldable pub give_up : Bool → System → System
give_up queued s = record s {
  recorder = idle;
  abandoned = if queued then Bool.true else s.abandoned;
}

-- `record` behind a call of EnqueueDelivery
unfoldable pub filed :
    TokenEvent
    → Str
    → Str
    → List Webhook
    → Bool
    → Result WebhookDelivery × Database
    → System
    → System
filed ev event_id slug hooks queued (err e, d) s = give_up queued (record s { database = d })
filed ev event_id slug hooks queued (ok x, d) s = record s {
  database = d;
  recorder = writing ev event_id slug hooks Bool.true;
}

-- One webhook in the loop of `record`
unfoldable pub write_row :
    Format → TokenEvent → Str → Str → Webhook → List Webhook → Bool → System → System
write_row fmt ev event_id slug hook hooks queued s =
    elim (subscribes hook (event_name ev.event_type)) [
      | false ↦ record s { recorder = writing ev event_id slug hooks queued }
      | true ↦
          elim (build_payload fmt s.now event_id (event_name ev.event_type) slug ev.tok
            hook.include_payload) [
              | none ↦ give_up queued s
              | some body ↦
                  filed ev event_id slug hooks queued
                    (enqueue_delivery s.now hook.id event_id (event_name ev.event_type) body
                      s.database)
                    s
            ]
    ]

-- `record` behind the loop over the webhooks
unfoldable pub finish : Bool → System → System
finish queued s = record s {
  recorder = idle;
  channels = if queued then nudge s.channels else s.channels;
}

-- `Test` behind its call of EnqueueDelivery
unfoldable pub test_filed : Result WebhookDelivery × Database → System → System
test_filed (err e, d) s = record s { database = d }
test_filed (ok x, d) s = record s { database = d; tests = s.tests + 1 }

-- The write of `Test`, whatever it read before.
unfoldable pub write_test : ℕ → Str → Str → System → System
write_test webhook event_id body s =
    test_filed
      (enqueue_delivery s.now webhook event_id (event_name EventType.webhook_test) body s.database)
      s

-- The batch that `sweep` reads
unfoldable pub read_batch : System → Sender
read_batch s =
    let due = due_deliveries s.now sweep_batch s.database in
    sending due (ltb (length due) sweep_batch)

-- `sweep` behind a batch
unfoldable pub next_batch : Bool → Sender
next_batch short = if short then waiting else sweeping
