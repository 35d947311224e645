-- ===== src/Webhook/Record/Listeners.antt =====
-- Whom an event is for, by the rows of the webhooks alone.
use tokenzy.Prelude.{
  ℕ, ◌≤◌, ◌≡◌, ◌∙◌, refl, Bool, false, ◌&&◌, ◌||◌, List, [], ◌∷◌, map, arith, is_nil, is_none, ◌==◌,
  All, All-map, Bool-cases, inl, inr,
}
use tokenzy.Prelude.Str.{Str, str_eq}
use tokenzy.Prelude.Table.{select, count_where, sort_by, insert_by}
use tokenzy.Prelude.Table.Counts.{count-sort_by, count-select, count-same}
use tokenzy.Model.{Webhook, event_name, subscribes, contains}
use tokenzy.Db.{Database, WebhookRow, TokenEvent}
use tokenzy.Db.Webhooks.{
  HeaderJson, enabled_in, lowest_first, list_enabled_webhooks, scan_webhook, split_events,
}

-- The name is in the list, or the list is empty and stands for all.
abbrev pub has_name : List Str → Str → Bool
has_name [] name = false
has_name (e ∷ es) name = str_eq e name || has_name es name

abbrev pub hears : List Str → Str → Bool
hears events name = is_nil events || has_name events name

-- The row is of the event's environment, not disabled, and for events of its type.
abbrev pub is_listener : TokenEvent → WebhookRow → Bool
is_listener ev w =
    w.environment_id == ev.env_id
    && (is_none w.disabled_at && hears (split_events w.events) (event_name ev.event_type))

abbrev pub IsAscending : List ℕ → Type 0
IsAscending [] = Unit
IsAscending (n ∷ ns) = All (λ m. n ≤ m) ns × IsAscending ns

-- The ids are those of the event's listeners, each as often as it is one, in ascending order.
abbrev pub AreListeners : TokenEvent → List WebhookRow → List ℕ → Type 0
AreListeners ev rows ids =
    IsAscending ids
    × ((id : ℕ)
        → count_where (λ n. n == id) ids ≡ count_where (λ w. is_listener ev w && w.id == id) rows)

contains-has_name : (es : List Str) (name : Str) → contains es name ≡ has_name es name
unfolding contains
contains-has_name [] name = refl
contains-has_name (e ∷ es) name = ground (arith, contains-has_name es name)

subscribes-hears : (h : Webhook) (name : Str) → subscribes h name ≡ hears h.events name
unfolding subscribes
subscribes-hears h name = ground (arith, contains-has_name h.events name)

module _ (json : HeaderJson) (p : Webhook → Bool) where
  ids : List WebhookRow → List ℕ
  ids rows = map (λ (h : Webhook). h.id) (select p (map (scan_webhook json) rows))

  ids-All :
      (P : ℕ → Type 0) (rows : List WebhookRow)
      → All (λ (w : WebhookRow). P w.id) rows
      → All P (ids rows)
  unfolding ids select scan_webhook
  ids-All P [] h = tt
  ids-All P (w ∷ rows) h = elim (Bool-cases (p (scan_webhook json w))) [
    | inl e ↦ rw e (h.0, ids-All P rows h.1)
    | inr e ↦ rw e (ids-All P rows h.1)
  ]

  -- The rows ascend by their ids.
  abbrev Ascend : List WebhookRow → Type 0
  Ascend [] = Unit
  Ascend (w ∷ rows) = All (λ (v : WebhookRow). w.id ≤ v.id) rows × Ascend rows

  ids-IsAscending : (rows : List WebhookRow) → Ascend rows → IsAscending (ids rows)
  unfolding ids select scan_webhook
  ids-IsAscending [] h = tt
  ids-IsAscending (w ∷ rows) h = elim (Bool-cases (p (scan_webhook json w))) [
    | inl e ↦ rw e (ids-All (λ m. w.id ≤ m) rows h.0, ids-IsAscending rows h.1)
    | inr e ↦ rw e (ids-IsAscending rows h.1)
  ]

  count-ids :
      (id : ℕ) (rows : List WebhookRow)
      → count_where (λ n. n == id) (ids rows)
        ≡ count_where (λ (w : WebhookRow). p (scan_webhook json w) && w.id == id) rows
  unfolding count_where ids select scan_webhook
  count-ids id [] = refl
  count-ids id (w ∷ rows) = elim (Bool-cases (p (scan_webhook json w))) [
    | inl e ↦ rw e (ground (arith, count-ids id rows))
    | inr e ↦ rw e (ground (arith, count-ids id rows))
  ]

  insert_by-All {κ} :
      (P : WebhookRow → Type κ) (w : WebhookRow) (ws : List WebhookRow)
      → P w
      → All P ws
      → All P (insert_by lowest_first w ws)
  unfolding insert_by
  insert_by-All P w [] h l = (h, tt)
  insert_by-All P w (v ∷ ws) h l = elim (Bool-cases (lowest_first v w)) [
    | inl e ↦ rw e (l.0, insert_by-All P w ws h l.1)
    | inr e ↦ rw e (h, l)
  ]

  insert_by-Ascend :
      (w : WebhookRow) (ws : List WebhookRow) → Ascend ws → Ascend (insert_by lowest_first w ws)
  unfolding insert_by
  insert_by-Ascend w [] h = (tt, tt)
  insert_by-Ascend w (v ∷ ws) h = elim (Bool-cases (lowest_first v w)) [
    | inl e ↦ rw e (
      insert_by-All (λ (u : WebhookRow). v.id ≤ u.id) w ws (ground arith) h.0,
      insert_by-Ascend w ws h.1,
    )
    | inr e ↦
        let below : w.id ≤ v.id = ground arith in
        rw e (
          (
            below,
            All-map (λ (u : WebhookRow). v.id ≤ u.id) (λ (u : WebhookRow). w.id ≤ u.id) ws
                (λ u k. omega (arith, k, below)) h.0,
          ),
          h,
        )
  ]

  sort_by-Ascend : (ws : List WebhookRow) → Ascend (sort_by lowest_first ws)
  unfolding sort_by
  sort_by-Ascend [] = tt
  sort_by-Ascend (w ∷ ws) = insert_by-Ascend w (sort_by lowest_first ws) (sort_by-Ascend ws)

pub listed-AreListeners :
    (json : HeaderJson) (ev : TokenEvent) (d : Database)
    → AreListeners ev d.webhooks (
        map
          (λ (h : Webhook). h.id)
          (select
            (λ h. subscribes h (event_name ev.event_type))
            (list_enabled_webhooks json ev.env_id d)))
unfolding list_enabled_webhooks ids
listed-AreListeners json ev d =
    let told : Webhook → Bool = λ h. subscribes h (event_name ev.event_type) in
    let rows = select (enabled_in ev.env_id) d.webhooks in
    (
      ids-IsAscending json told (sort_by lowest_first rows) (sort_by-Ascend json told rows),
      (λ id.
          let q : WebhookRow → Bool =
            λ (w : WebhookRow). told (scan_webhook json w) && w.id == id in
          count-ids json told id (sort_by lowest_first rows)
          ∙ count-sort_by q lowest_first rows
          ∙ count-select q (enabled_in ev.env_id) d.webhooks
          ∙ count-same (λ w. enabled_in ev.env_id w && q w) (λ w. is_listener ev w && w.id == id)
              d.webhooks
              (λ w.
                unfold scan_webhook in
                rw (subscribes-hears (scan_webhook json w) (event_name ev.event_type))
                  (ground arith))),
    )
