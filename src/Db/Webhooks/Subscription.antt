-- ===== src/Db/Webhooks/Subscription.antt =====
-- The subscription list survives its text column: names joined by commas, split and trimmed again.
use tokenzy.Prelude.{
  ℕ, ◌≡◌, refl, ap, sym, ◌∙◌, true, false, List, [], ◌∷◌, ◌++◌, map, All, inl, inr, zero, suc,
  length, is_nil, Bool-cases, subst,
}
use mathlib.Core.List.{reverse, reverse-append, reverse-reverse, append_assoc, append-nil}
use tokenzy.Prelude.Str.{Str, str_eq, str_eq-eq}
use tokenzy.Prelude.Text.{trim_space, split_at, join_with, leading_space, trailing_space, strip}
use tokenzy.Model.{
  EventType, token_created, token_consumed, token_exhausted, token_revoked, webhook_test,
  event_name, contains, valid_webhook_event,
}
use tokenzy.Db.Webhooks.{trimmed_parts, split_events}

abbrev known : List EventType
known = token_created ∷ token_consumed ∷ token_exhausted ∷ token_revoked ∷ []

abbrev names : List EventType → List Str
names = map event_name

split_at-first :
    (k : EventType) (rest : Str)
    → split_at b',' (event_name k ++ (b',' ∷ rest)) ≡ event_name k ∷ split_at b',' rest
unfolding split_at
split_at-first token_created rest = refl
split_at-first token_consumed rest = refl
split_at-first token_exhausted rest = refl
split_at-first token_revoked rest = refl
split_at-first webhook_test rest = refl

split_at-last : (k : EventType) → split_at b',' (event_name k) ≡ event_name k ∷ []
unfolding split_at
split_at-last token_created = refl
split_at-last token_consumed = refl
split_at-last token_exhausted = refl
split_at-last token_revoked = refl
split_at-last webhook_test = refl

split_at-names :
    (k : EventType) (ks : List EventType)
    → split_at b',' (join_with b',' (names (k ∷ ks))) ≡ names (k ∷ ks)
unfolding join_with
split_at-names k [] = split_at-last k
split_at-names k (j ∷ ks) =
    split_at-first k _ ∙ ap (λ (l : List Str). event_name k ∷ l) (split_at-names j ks)

trim_space-name : (k : EventType) → trim_space (event_name k) ≡ event_name k
unfolding trim_space
trim_space-name token_created = refl
trim_space-name token_consumed = refl
trim_space-name token_exhausted = refl
trim_space-name token_revoked = refl
trim_space-name webhook_test = refl

is_nil-name : (k : EventType) → is_nil (event_name k) ≡ false
is_nil-name token_created = refl
is_nil-name token_consumed = refl
is_nil-name token_exhausted = refl
is_nil-name token_revoked = refl
is_nil-name webhook_test = refl

trimmed_parts-names : (ks : List EventType) → trimmed_parts (names ks) ≡ names ks
unfolding trimmed_parts
trimmed_parts-names [] = refl
trimmed_parts-names (k ∷ ks) =
    rw (trim_space-name k)
      (rw (is_nil-name k) (ap (λ (l : List Str). event_name k ∷ l) (trimmed_parts-names ks)))

-- No blank begins or ends the column.
leading_space-name : (k : EventType) (rest : Str) → leading_space (event_name k ++ rest) ≡ 0
unfolding leading_space
leading_space-name token_created rest = refl
leading_space-name token_consumed rest = refl
leading_space-name token_exhausted rest = refl
leading_space-name token_revoked rest = refl
leading_space-name webhook_test rest = refl

trailing_space-name :
    (k : EventType) (rest : Str) → trailing_space (reverse (event_name k) ++ rest) ≡ 0
unfolding trailing_space
trailing_space-name token_created rest = refl
trailing_space-name token_consumed rest = refl
trailing_space-name token_exhausted rest = refl
trailing_space-name token_revoked rest = refl
trailing_space-name webhook_test rest = refl

strip-zero : (n : ℕ) (measure : Str → ℕ) (s : Str) → measure s ≡ 0 → strip n measure s ≡ s
unfolding strip
strip-zero zero measure s h = refl
strip-zero (suc n) measure s h = rw h refl

trim_space-solid :
    (s : Str) → leading_space s ≡ 0 → trailing_space (reverse s) ≡ 0 → trim_space s ≡ s
unfolding trim_space
trim_space-solid s h k =
    rw (strip-zero (length s) leading_space s h)
      (rw (strip-zero (length s) trailing_space (reverse s) k) (reverse-reverse s))

join_with-first :
    (k : EventType) (ks : List EventType)
    → (rest : Str) × (join_with b',' (names (k ∷ ks)) ≡ event_name k ++ rest)
unfolding join_with
join_with-first k [] = ([], sym (append-nil (event_name k)))
join_with-first k (j ∷ ks) = (b',' ∷ join_with b',' (names (j ∷ ks)), refl)

join_with-last :
    (k : EventType) (ks : List EventType)
    → (j : EventType) × (pre : Str) × (join_with b',' (names (k ∷ ks)) ≡ pre ++ event_name j)
unfolding join_with
join_with-last k [] = (k, [], refl)
join_with-last k (j ∷ ks) =
    let (l, pre, e) = join_with-last j ks in
    (
      l,
      event_name k ++ (b',' ∷ pre),
      ap (λ (s : Str). event_name k ++ (b',' ∷ s)) e
          ∙ sym (append_assoc (event_name k) (b',' ∷ pre) (event_name l)),
    )

trim_space-names :
    (k : EventType) (ks : List EventType)
    → trim_space (join_with b',' (names (k ∷ ks))) ≡ join_with b',' (names (k ∷ ks))
trim_space-names k ks =
    let (rest, first) = join_with-first k ks in
    let (j, pre, last) = join_with-last k ks in
    trim_space-solid (join_with b',' (names (k ∷ ks)))
      (ap leading_space first ∙ leading_space-name k rest)
      (ap (λ (s : Str). trailing_space (reverse s)) last
        ∙ ap trailing_space (reverse-append pre (event_name j))
        ∙ trailing_space-name j (reverse pre))

is_nil-append : (k : EventType) (rest : Str) → is_nil (event_name k ++ rest) ≡ false
is_nil-append token_created rest = refl
is_nil-append token_consumed rest = refl
is_nil-append token_exhausted rest = refl
is_nil-append token_revoked rest = refl
is_nil-append webhook_test rest = refl

is_nil-names :
    (k : EventType) (ks : List EventType) → is_nil (join_with b',' (names (k ∷ ks))) ≡ false
is_nil-names k ks =
    let (rest, first) = join_with-first k ks in ap is_nil first ∙ is_nil-append k rest

split_events-cons :
    (k : EventType) (ks : List EventType)
    → split_events (join_with b',' (names (k ∷ ks))) ≡ names (k ∷ ks)
unfolding split_events
split_events-cons k ks =
    rw (trim_space-names k ks)
      (rw (is_nil-names k ks) (rw (split_at-names k ks) (trimmed_parts-names (k ∷ ks))))

split_events-names : (ks : List EventType) → split_events (join_with b',' (names ks)) ≡ names ks
unfolding split_events join_with trim_space
split_events-names [] = refl
split_events-names (k ∷ ks) = split_events-cons k ks

-- A name among the known ones is that of an event type.
contains-names :
    (ks : List EventType) (s : Str)
    → contains (names ks) s ≡ true
    → (k : EventType) × (event_name k ≡ s)
unfolding contains
contains-names [] s h = absurd (cc)
contains-names (k ∷ ks) s h = elim (Bool-cases (str_eq (event_name k) s)) [
  | inl same ↦ (k, str_eq-eq (event_name k) s same)
  | inr other ↦ contains-names ks s (rw other at h)
]

-- Valid names are names of event types.
valid-names :
    (events : List Str)
    → All (λ (e : Str). valid_webhook_event e ≡ true) events
    → (ks : List EventType) × (names ks ≡ events)
unfolding valid_webhook_event
valid-names [] h = ([], refl)
valid-names (e ∷ events) h =
    let (k, p) = contains-names known e h.0 in
    let (ks, q) = valid-names events h.1 in (k ∷ ks, λ i. p i ∷ q i)

-- A list of valid event names comes back from the text column as it was stored.
pub split_events-join_with :
    (events : List Str)
    → All (λ (e : Str). valid_webhook_event e ≡ true) events
    → split_events (join_with b',' events) ≡ events
split_events-join_with events h =
    let (ks, p) = valid-names events h in
    subst (λ (l : List Str). split_events (join_with b',' l) ≡ l) p (split_events-names ks)
