-- ===== src/Token/Status.antt =====
-- internal/token/status.go: a status is derived from the row at an instant, never stored.
use tokenzy.Prelude.{ℕ, Bool, Option, none, some, List, [], ◌∷◌, leb, is_some, if◌then◌else◌}
use tokenzy.Prelude.Str.{Str, codes, str_eq}
use tokenzy.Model.{Token}

pub data Status : Type 0 where
  active expired exhausted revoked : Status

abbrev pub status_name : Status → Str
status_name active = codes "active"
status_name expired = codes "expired"
status_name exhausted = codes "exhausted"
status_name revoked = codes "revoked"

abbrev pub statuses : List Status
statuses = active ∷ expired ∷ exhausted ∷ revoked ∷ []

-- `max_uses IS NOT NULL AND used_count >= max_uses`
abbrev pub spent : Token → Bool
spent t = elim t.max_uses [ none ↦ Bool.false | some m ↦ leb m t.used_count ]

unfoldable pub status_of : Token → ℕ → Status
status_of t now =
    if is_some t.revoked_at
    then revoked
    else if leb t.expires_at now
    then expired
    else if spent t
    then exhausted
    else active

unfoldable pub usable : Token → ℕ → Bool
unfolding status_of
usable t now = elim (status_of t now) [ active ↦ Bool.true | _ ↦ Bool.false ]

-- `ValidStatus` together with the status that the name stands for.
unfoldable pub find_status : Str → List Status → Option Status
find_status s [] = none
find_status s (known ∷ l) = if str_eq s (status_name known) then some known else find_status s l

unfoldable pub valid_status : Str → Bool
unfolding find_status
valid_status s = is_some (find_status s statuses)
