-- ===== src/Examples/Loops.antt =====
-- A run of the dispatcher's two loops at concrete inputs.
use tokenzy.Prelude.Str.{codes}
use tokenzy.Prelude.{◌≡◌, refl, Bool, true, false, some, [], ◌∷◌, arith, All, inr}
use tokenzy.Prelude.Table.{select_row, select, sort_by, insert_by, update_where, next_rowid}
use tokenzy.Prelude.Text.{trim_space}
use tokenzy.Token.Generate.{hex, hex_digit}
use tokenzy.Model.{WebhookDelivery, pending, subscribes}
use tokenzy.Db.Projects.{get_environment_by_id}
use tokenzy.Db.Webhooks.{
  is_due, due_deliveries, scan_webhook, record_delivery_result, list_enabled_webhooks, split_events,
  enqueue_delivery, new_delivery,
}
use tokenzy.Webhook.Request.{post}
use tokenzy.Webhook.Record.{notify, nudge, new_event_id, build_payload}
use tokenzy.Webhook.Attempt.{sweep, attempt, retry_at}
use tokenzy.Webhook.Attempt.Complete.{sweep_complete}
use tokenzy.Webhook.Loops.{
  System, Sender, sweeping, taken, launch, list_hooks, look_up, write_row, filed, finish,
  read_batch, next_batch,
}
use tokenzy.Webhook.Loops.Steps.{
  Reach, launched, later, notified, received, hooks_listed, looked_up, row_written, finished,
  batch_read, attempted, batch_done, woken,
}
use tokenzy.Webhook.Loops.Written.{IsTried, IsWell}
use tokenzy.Webhook.Loops.Wake.{Reach-IsTried}
use tokenzy.Examples.Deliveries.{json, net, waiting, hook, hook_row, delivery}
use tokenzy.Examples.Api.{fmt, event}

sweep_complete_example :
    let (ended, d') = sweep json net (λ k. 20) (λ k. 21) (λ k. Bool.false) 5 0 waiting in
    (ended ≡ true) × All (λ r. is_due 15 r ≡ false) d'.deliveries
unfolding select_row
sweep_complete_example =
    sweep_complete json net (λ k. 20) (λ k. 21) (λ k. Bool.false) 15 5 0 waiting
      (λ i. (omega arith, omega arith, refl)) ((tt, tt), (refl, tt)) (unfold pending in omega arith)

-- One delivery was left by an earlier run. It is attempted; then an event is recorded, which wakes
-- the sender, and its delivery is attempted, too.
abbrev opened : System
opened = launch 10 waiting

abbrev first_sleep : System
first_sleep = record opened {
  database = attempt net 20 delivery hook waiting;
  sender = Sender.waiting;
}

abbrev at_work : System
at_work = record first_sleep { recorder = taken event }

abbrev row_ahead : System
row_ahead = record at_work {
  recorder =
      look_up (some (7 ∷ [])) event (list_enabled_webhooks json 1 at_work.database)
        at_work.database;
}

abbrev row_behind : System
row_behind =
    write_row fmt event (codes "evt_07") (codes "prod") (scan_webhook json hook_row) [] false
      row_ahead

abbrev awake : System
awake = record (finish true row_behind) {
  channels = record { queue = []; wake = Bool.false };
  sender = sweeping;
}

abbrev written : WebhookDelivery
written = new_delivery 10 2 1 (codes "evt_07") (codes "token.created") (codes "evt_07")

abbrev second_sleep : System
second_sleep = record awake {
  database = attempt net 30 written hook awake.database;
  sender = Sender.waiting;
}

first_sleeps : Reach json fmt 10 waiting first_sleep
unfolding read_batch next_batch due_deliveries is_due select sort_by insert_by
first_sleeps =
    later
      (later (later launched (batch_read refl refl)) (attempted [] [] delivery net 20 hook refl))
      (batch_done refl)

row_waits : Reach json fmt 10 waiting row_ahead
unfolding notify list_hooks list_enabled_webhooks select sort_by insert_by attempt post
    record_delivery_result split_events trim_space
row_waits =
    later
      (later (later (later first_sleeps (notified event)) (received refl refl)) (hooks_listed refl))
      (looked_up (some (7 ∷ [])) refl)

sender_wakes : Reach json fmt 10 waiting awake
unfolding look_up finish nudge write_row filed list_enabled_webhooks select sort_by insert_by
    attempt post record_delivery_result split_events trim_space subscribes build_payload
    enqueue_delivery select_row get_environment_by_id new_event_id hex hex_digit scan_webhook
    update_where next_rowid
sender_wakes = later (later (later row_waits (row_written refl)) (finished refl)) (woken refl refl)

second_sleeps : Reach json fmt 10 waiting second_sleep
unfolding look_up finish nudge write_row filed list_enabled_webhooks select sort_by insert_by
    attempt post record_delivery_result split_events trim_space subscribes build_payload
    enqueue_delivery select_row get_environment_by_id new_event_id hex hex_digit scan_webhook
    update_where next_rowid read_batch next_batch due_deliveries is_due retry_at
second_sleeps =
    later
      (later (later sender_wakes (batch_read refl refl)) (attempted [] [] written net 30 hook refl))
      (batch_done refl)

waiting-IsWell : IsWell 10 waiting
unfolding is_due select_row
waiting-IsWell = ((inr refl, tt), (refl, tt))

Reach-IsTried_example : All IsTried second_sleep.database.deliveries
unfolding look_up finish nudge write_row filed list_enabled_webhooks select sort_by insert_by
    attempt post record_delivery_result split_events trim_space subscribes build_payload
    enqueue_delivery select_row get_environment_by_id new_event_id hex hex_digit scan_webhook
    update_where next_rowid
Reach-IsTried_example =
    Reach-IsTried json fmt 10 waiting second_sleep waiting-IsWell second_sleeps refl refl refl refl
      refl refl
