-- ===== src/Webhook/Loops/Wake.antt =====
-- When the sender sleeps, there was nothing to send.
use tokenzy.Prelude.{
  ℕ, ◌≡◌, refl, sym, subst, ap, ◌∙◌, Bool, true, false, Option, none, some, List, arith, is_nil,
  inl, inr, All, All-map, Bool-cases, Option-cases,
}
use tokenzy.Prelude.Str.{Str}
use tokenzy.Db.Listing.Select.{select-All}
use tokenzy.Model.{Webhook, WebhookDelivery, event_name, subscribes}
use tokenzy.Db.{Database, TokenEvent, Result, ok, err}
use tokenzy.Db.Projects.{get_environment_by_id}
use tokenzy.Db.Webhooks.{HeaderJson, list_enabled_webhooks}
use tokenzy.Webhook.Record.{Format, nudge, new_event_id, build_payload}
use tokenzy.Webhook.Loops.{
  Recorder, idle, writing, waiting, System, has_written, list_hooks, look_up, give_up, filed,
  write_row, finish, test_filed, write_test,
}
use tokenzy.Webhook.Loops.Steps.{
  Step, pass, cancel, notified, test_written, test_nudged, others, received, hooks_listed,
  looked_up, row_written, finished, recorder_ends, batch_read, attempted, passed_over, batch_done,
  sweep_breaks, woken, ticked, sender_ends, Reach, launched, later,
}
use tokenzy.Webhook.Loops.Served.{
  Served, IsFed, IsReady-later, wake-notify, Served-select, attempt-IsWell, attempt-Served,
  passed_over-Served, read_batch-Served, next_batch-Served,
}
use tokenzy.Webhook.Loops.Written.{IsTried, IsReady, IsWell, IsFiled, enqueue_delivery-IsFiled}

list_hooks-has_written :
    (json : HeaderJson) (ev : TokenEvent) (d : Database)
    → has_written (list_hooks json ev d) ≡ false
unfolding list_hooks
list_hooks-has_written json ev d =
    elim (Bool-cases (is_nil (list_enabled_webhooks json ev.env_id d))) [
      | inl e ↦ rw e refl
      | inr e ↦ rw e refl
    ]

look_up-has_written :
    (buf : Option Str) (ev : TokenEvent) (hooks : List Webhook) (d : Database)
    → has_written (look_up buf ev hooks d) ≡ false
unfolding look_up new_event_id
look_up-has_written buf ev hooks d =
    elim (get_environment_by_id ev.env_id d)
      as (λ q.
        has_written (elim q as (λ _. Recorder) [
          | err e ↦ idle
          | ok env ↦ elim (new_event_id buf) [
            | none ↦ idle
            | some event_id ↦ writing ev event_id env.slug hooks false
          ]
        ])
        ≡ false) [
          | err e ↦ refl
          | ok env ↦
              elim buf
                as (λ b.
                  has_written (elim (new_event_id b) as (λ _. Recorder) [
                    | none ↦ idle
                    | some event_id ↦ writing ev event_id env.slug hooks false
                  ])
                  ≡ false) [ none ↦ refl | some bytes ↦ refl ]
        ]

give_up-IsFed :
    (queued : Bool) (s : System)
    → has_written s.recorder ≡ queued
    → IsFed s
    → IsFed (give_up queued s)
unfolding give_up
give_up-IsFed true s e (well, served) = (well, (λ c k. absurd (cc)))
give_up-IsFed false s e (well, served) = (well, (λ c k. served c (k.0, e, k.2, k.3)))

filed-IsFed :
    (ev : TokenEvent) (event_id slug : Str) (hooks : List Webhook) (queued : Bool)
    (q : Result WebhookDelivery × Database) (s : System)
    → IsFiled s.now s.database q
    → has_written s.recorder ≡ queued
    → IsFed s
    → IsFed (filed ev event_id slug hooks queued q s)
unfolding filed
filed-IsFed ev event_id slug hooks queued (err e, d) s same w f =
    give_up-IsFed queued (record s { database = d }) w
      (subst (λ d'. IsFed (record s { database = d' })) (sym same) f)
filed-IsFed ev event_id slug hooks queued (ok x, d) s keeps w (well, served) =
    (keeps well, (λ c k. absurd (cc)))

write_row-IsFed :
    (fmt : Format) (ev : TokenEvent) (event_id slug : Str) (hook : Webhook) (hooks : List Webhook)
    (queued : Bool) (s : System)
    → has_written s.recorder ≡ queued
    → IsFed s
    → IsFed (write_row fmt ev event_id slug hook hooks queued s)
unfolding write_row
write_row-IsFed fmt ev event_id slug hook hooks queued s w f =
    elim (Bool-cases (subscribes hook (event_name ev.event_type))) [
      | inr e ↦ rw (e, write_row) (f.0, (λ c k. f.1 c (k.0, w ∙ k.1, k.2, k.3)))
      | inl e ↦
          elim (Option-cases (
            build_payload fmt s.now event_id (event_name ev.event_type) slug ev.tok
              hook.include_payload)) [
                | inl n ↦ rw (e, write_row) (rw n (give_up-IsFed queued s w f))
                | inr (body, n) ↦
                    rw (e, write_row)
                      (rw n (
                        filed-IsFed ev event_id slug hooks queued _ s
                          (enqueue_delivery-IsFiled s.now hook.id event_id
                            (event_name ev.event_type) body s.database)
                          w f))
              ]
    ]

finish-IsFed :
    (queued : Bool) (s : System)
    → has_written s.recorder ≡ queued
    → IsFed s
    → IsFed (finish queued s)
unfolding finish nudge
finish-IsFed true s e (well, served) = (well, (λ c k. absurd (cc)))
finish-IsFed false s e (well, served) = (well, (λ c k. served c (k.0, e, k.2, k.3)))

test_filed-IsFed :
    (q : Result WebhookDelivery × Database) (s : System)
    → IsFiled s.now s.database q
    → IsFed s
    → IsFed (test_filed q s)
unfolding test_filed
test_filed-IsFed (err e, d) s same f = subst (λ d'. IsFed (record s { database = d' })) (sym same) f
test_filed-IsFed (ok x, d) s keeps (well, served) =
    (keeps well, (λ c k. absurd (omega (arith, k.2))))

module _ (json : HeaderJson) (fmt : Format) where
  step-IsFed : (s t : System) → Step json fmt s t → IsFed s → IsFed t
  unfolding write_test nudge
  step-IsFed s t (pass {at} h) ((ready, hooks), served) = (
    (All-map (IsReady s.now) (IsReady at) _ (λ r k. IsReady-later s.now at r h k) ready, hooks),
    served,
  )
  step-IsFed s t cancel (well, served) = (well, (λ c. absurd (cc)))
  step-IsFed s t (notified ev) (well, served) =
      (well, (λ c k. served c (sym (wake-notify ev s.channels) ∙ k.0, k.1, k.2, k.3)))
  step-IsFed s t (test_written webhook event_id body) f =
      test_filed-IsFed _ s (enqueue_delivery-IsFiled s.now webhook event_id _ body s.database) f
  step-IsFed s t (test_nudged e) (well, served) = (well, (λ c k. absurd (cc)))
  step-IsFed s t (others {d} p e k) ((ready, hooks), served) = (
    (rw e (select-All (IsReady s.now) p s.database.deliveries ready), k),
    (λ c w. rw e (Served-select s.sender p s.database.deliveries (served c w))),
  )
  step-IsFed s t (received e q) (well, served) =
      (well, (λ c k. served c (k.0, rw e refl, k.2, k.3)))
  step-IsFed s t (hooks_listed e) (well, served) =
      (well, (λ c k. served c (k.0, rw e refl, k.2, k.3)))
  step-IsFed s t (looked_up buf e) (well, served) =
      (well, (λ c k. served c (k.0, rw e refl, k.2, k.3)))
  step-IsFed s t (row_written {ev} {event_id} {slug} {hook} {hooks} {queued} e) f =
      write_row-IsFed fmt ev event_id slug hook hooks queued s (ap has_written e) f
  step-IsFed s t (finished {queued} e) f = finish-IsFed queued s (ap has_written e) f
  step-IsFed s t (recorder_ends e c) (well, served) = (well, (λ k. absurd (cc)))
  step-IsFed s t (batch_read e c) (well, served) = (well, (λ _ _. read_batch-Served s well))
  step-IsFed s t (attempted {short} before after x net done hook e) (well, served) = (
    attempt-IsWell net done s.now x hook s.database well,
    (λ c k.
        attempt-Served before after x short net done hook s.database
          (subst (λ q. Served q s.database.deliveries) e (served c k))),
  )
  step-IsFed s t (passed_over {short} before after x e gone) (well, served) = (
    well,
    (λ c k.
        passed_over-Served json before after x short s.database gone well.1
          (subst (λ q. Served q s.database.deliveries) e (served c k))),
  )
  step-IsFed s t (batch_done {short} e) (well, served) = (
    well,
    (λ c k.
        next_batch-Served short s.database.deliveries
          (subst (λ q. Served q s.database.deliveries) e (served c k))),
  )
  step-IsFed s t (sweep_breaks e c) (well, served) = (well, (λ k. absurd (cc)))
  step-IsFed s t (woken e n) (well, served) = (well, (λ c k. tt))
  step-IsFed s t (ticked e) (well, served) = (well, (λ c k. tt))
  step-IsFed s t (sender_ends e c) (well, served) = (well, (λ k. absurd (cc)))

  Reach-IsFed : (ts : ℕ) (d : Database) (s : System) → IsWell ts d → Reach json fmt ts d s → IsFed s
  Reach-IsFed ts d s w launched = (w, (λ c k. tt))
  Reach-IsFed ts d s w (later {s = q} r st) = step-IsFed q s st (Reach-IsFed ts d q w r)

-- However the statements of the two loops, the calls of `Notify` and `Test` and the other writers
-- are interleaved, under a clock that does not run backwards: as long as the dispatcher is not
-- cancelled, its sender waits without a nudge only when an attempt was made at every delivery in the
-- table, unless a recording or a `Test` is behind a row of its own and has not nudged the sender
-- yet, or a recording ended with an error behind a row that it wrote since the sender last woke: such
-- rows wait for the timer. The dispatcher starts over a database in which every delivery is due or
-- was attempted, and has its webhook.
pub Reach-IsTried :
    (json : HeaderJson) (fmt : Format) (ts : ℕ) (d : Database) (s : System)
    → IsWell ts d
    → Reach json fmt ts d s
    → s.cancelled ≡ false
    → s.sender ≡ waiting
    → s.channels.wake ≡ false
    → has_written s.recorder ≡ false
    → s.tests ≡ 0
    → s.abandoned ≡ false
    → All IsTried s.database.deliveries
Reach-IsTried json fmt ts d s w r c e wake written tests abandoned =
    subst (λ q. Served q s.database.deliveries) e
      ((Reach-IsFed json fmt ts d s w r).1 c (wake, written, tests, abandoned))
