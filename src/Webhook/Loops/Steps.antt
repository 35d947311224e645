-- ===== src/Webhook/Loops/Steps.antt =====
-- The steps of the two loops of `Dispatcher.Run` and of what runs beside them
-- (internal/webhook/dispatch.go), in any order.
use tokenzy.Prelude.{ℕ, suc, ◌≤◌, ◌≡◌, Bool, true, false, Option, List, [], ◌∷◌, ◌++◌, All}
use tokenzy.Prelude.Str.{Str}
use tokenzy.Prelude.Table.{select}
use tokenzy.Model.{Webhook, WebhookDelivery}
use tokenzy.Db.{Database, TokenEvent, err, not_found}
use tokenzy.Db.Webhooks.{HeaderJson, get_webhook_by_id}
use tokenzy.Webhook.Request.{Net}
use tokenzy.Webhook.Record.{Format, notify, nudge}
use tokenzy.Webhook.Record.Fanout.{HasRow}
use tokenzy.Webhook.Attempt.{attempt}
use tokenzy.Webhook.Loops.{
  idle, returned, taken, listed, writing, sweeping, waiting, stopped, sending, System, launch,
  list_hooks, look_up, write_row, finish, write_test, read_batch, next_batch,
}

pub data Step (json : HeaderJson) (fmt : Format) (s : System) : System → Type 0 where
  pass : {at : ℕ} → s.now ≤ at → Step json fmt s (record s { now = at })
  cancel : Step json fmt s (record s { cancelled = Bool.true })
  notified : (ev : TokenEvent) → Step json fmt s (record s { channels = notify ev s.channels })
  test_written :
      (webhook : ℕ) (event_id body : Str) → Step json fmt s (write_test webhook event_id body s)
  test_nudged :
      {n : ℕ}
      → s.tests ≡ suc n
      → Step json fmt s (record s { tests = n; channels = nudge s.channels })
  -- The rest of the program adds no delivery, and removes those of a webhook with it.
  others :
      {d : Database} (p : WebhookDelivery → Bool)
      → d.deliveries ≡ select p s.database.deliveries
      → All (λ x. HasRow d.webhooks x.webhook_id) d.deliveries
      → Step json fmt s (record s { database = d })
  received :
      {ev : TokenEvent} {rest : List TokenEvent}
      → s.recorder ≡ idle
      → s.channels.queue ≡ ev ∷ rest
      → Step json fmt s
          (record s { channels = record s.channels { queue = rest }; recorder = taken ev })
  hooks_listed :
      {ev : TokenEvent}
      → s.recorder ≡ taken ev
      → Step json fmt s (record s { recorder = list_hooks json ev s.database })
  looked_up :
      {ev : TokenEvent} {hooks : List Webhook} (buf : Option Str)
      → s.recorder ≡ listed ev hooks
      → Step json fmt s (record s { recorder = look_up buf ev hooks s.database })
  row_written :
      {ev : TokenEvent} {event_id slug : Str} {hook : Webhook} {hooks : List Webhook}
      {queued : Bool}
      → s.recorder ≡ writing ev event_id slug (hook ∷ hooks) queued
      → Step json fmt s (write_row fmt ev event_id slug hook hooks queued s)
  finished :
      {ev : TokenEvent} {event_id slug : Str} {queued : Bool}
      → s.recorder ≡ writing ev event_id slug [] queued
      → Step json fmt s (finish queued s)
  recorder_ends :
      s.recorder ≡ idle → s.cancelled ≡ true → Step json fmt s (record s { recorder = returned })
  batch_read :
      s.sender ≡ sweeping
      → s.cancelled ≡ false
      → Step json fmt s (record s { sender = read_batch s })
  -- The attempts of a batch end in any order. The webhook was loaded for this delivery or for an
  -- earlier one of the batch.
  attempted :
      {short : Bool} (before after : List WebhookDelivery) (x : WebhookDelivery) (net : Net)
      (done : ℕ) (hook : Webhook)
      → s.sender ≡ sending (before ++ x ∷ after) short
      → Step json fmt s (record s {
        database = attempt net done x hook s.database;
        sender = sending (before ++ after) short;
      })
  passed_over :
      {short : Bool} (before after : List WebhookDelivery) (x : WebhookDelivery)
      → s.sender ≡ sending (before ++ x ∷ after) short
      → get_webhook_by_id json x.webhook_id s.database ≡ err not_found
      → Step json fmt s (record s { sender = sending (before ++ after) short })
  batch_done :
      {short : Bool}
      → s.sender ≡ sending [] short
      → Step json fmt s (record s { sender = next_batch short })
  sweep_breaks :
      s.sender ≡ sweeping → s.cancelled ≡ true → Step json fmt s (record s { sender = waiting })
  woken :
      s.sender ≡ waiting
      → s.channels.wake ≡ true
      → Step json fmt s (record s {
        channels = record s.channels { wake = Bool.false };
        sender = sweeping;
        abandoned = Bool.false;
      })
  ticked :
      s.sender ≡ waiting → Step json fmt s (record s { sender = sweeping; abandoned = Bool.false })
  sender_ends :
      s.sender ≡ waiting → s.cancelled ≡ true → Step json fmt s (record s { sender = stopped })

-- The states that a dispatcher launched over a database may reach.
pub data Reach (json : HeaderJson) (fmt : Format) (ts : ℕ) (d : Database) : System → Type 0 where
  launched : Reach json fmt ts d (launch ts d)
  later : {s t : System} → Reach json fmt ts d s → Step json fmt s t → Reach json fmt ts d t
