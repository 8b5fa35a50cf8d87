-- ===== src/Sync/Google.antt =====
-- apps/api/src/sync_service.rs: reading and writing Google's events.
use prosepect.Base.{
  starts_with, ℕ, ◌*◌, ◌/◌, Option, none, some, Bool, true, false, not, ◌||◌, List, [], ◌∷◌, ◌++◌,
  ◌==◌, if◌then◌else◌, Text, String, codes, find?,
}
use prosepect.Store.{EventRecurrence, once, daily, weekly, monthly, yearly}
use prosepect.Sync.{
  SyncResult, success, failure, unreadable, needs, ◌>>=◌, GoogleEvent, GoogleEventTime,
  NormalizedEvent, GoogleEventWrite, GoogleEventTimeWrite, Codec,
}

-- Microseconds in a day.
abbrev pub day : ℕ
day = 86_400 * 1_000_000

unfoldable pub event_time : GoogleEventTime → SyncResult ℕ
event_time value = elim value.date_time [
  | some at ↦ success at
  | none ↦ elim value.date [
    | some date ↦ success (date * day)
    | none ↦ failure (unreadable "Google event time is empty")
  ]
]

-- `str::contains`
abbrev pub contains : Text → Text → Bool
contains [] p = starts_with [] p
contains (c ∷ s) p = starts_with (c ∷ s) p || contains s p

-- `str::strip_prefix`
abbrev pub strip_prefix : Text → Text → Option Text
strip_prefix s [] = some s
strip_prefix [] (c ∷ p) = none
strip_prefix (d ∷ s) (c ∷ p) = let rest = strip_prefix s p in if d == c then rest else none

abbrev pub add_to_head : ℕ → List Text → List Text
add_to_head c [] = (c ∷ []) ∷ []
add_to_head c (part ∷ parts) = (c ∷ part) ∷ parts

-- `str::split`, at one character.
abbrev pub split : ℕ → Text → List Text
split at [] = [] ∷ []
split at (c ∷ s) = if c == at then [] ∷ split at s else add_to_head c (split at s)

abbrev pub first_some : Option Text → Option Text → Option Text
first_some (some a) b = some a
first_some none b = b

-- `find_map(|part| part.strip_prefix(prefix))`
abbrev pub find_stripped : Text → List Text → Option Text
find_stripped prefix [] = none
find_stripped prefix (part ∷ parts) =
    first_some (strip_prefix part prefix) (find_stripped prefix parts)

abbrev and_then {ℓ κ} : {A : Type ℓ} {B : Type κ} → Option A → (A → Option B) → Option B
and_then none f = none
and_then (some a) f = f a

unfoldable pub rule_frequency : Text → EventRecurrence
rule_frequency rule =
    if contains rule (codes "FREQ=DAILY")
    then daily
    else if contains rule (codes "FREQ=WEEKLY")
    then weekly
    else if contains rule (codes "FREQ=MONTHLY")
    then monthly
    else if contains rule (codes "FREQ=YEARLY")
    then yearly
    else once

-- The name of the variant, in upper case.
abbrev pub frequency_name : EventRecurrence → String
frequency_name once = "NONE"
frequency_name daily = "DAILY"
frequency_name weekly = "WEEKLY"
frequency_name monthly = "MONTHLY"
frequency_name yearly = "YEARLY"

module _ (g : Codec) where
  unfoldable pub parse_recurrence : List Text → EventRecurrence × Option ℕ
  unfolding rule_frequency
  parse_recurrence values = elim (find? (λ v. starts_with v (codes "RRULE:")) values) [
    | none ↦ (once, none)
    | some rule ↦ (
      rule_frequency rule,
      and_then (find_stripped (codes "UNTIL=") (split b';' rule)) g.parse_until,
    )
  ]

  abbrev until_part : Option ℕ → Text
  until_part none = []
  until_part (some until) = codes ";UNTIL=" ++ g.format_until until

  unfoldable pub recurrence_rule : EventRecurrence → Option ℕ → List Text
  recurrence_rule once until = []
  recurrence_rule value until =
      (codes "RRULE:FREQ=" ++ (codes (frequency_name value) ++ until_part until)) ∷ []

  abbrev unwrap_or : Option Text → Text → Text
  unwrap_or none d = d
  unwrap_or (some s) d = s

  abbrev is_none : Option ℕ → Bool
  is_none none = true
  is_none (some n) = false

  unfoldable pub normalize_event : GoogleEvent → SyncResult NormalizedEvent
  unfolding event_time parse_recurrence
  normalize_event event = do
    start ← needs event.start "Google event has no start"
    end ← needs event.end "Google event has no end"
    starts_at ← event_time start
    ends_at ← event_time end
    success (record {
      title = unwrap_or event.summary (codes "Untitled event");
      description = event.description;
      starts_at = starts_at;
      ends_at = ends_at;
      all_day = is_none start.date_time;
      timezone = unwrap_or start.time_zone (codes "UTC");
      location = event.location;
      attendees = event.attendees;
      recurrence = (parse_recurrence event.recurrence).0;
      recurrence_until = (parse_recurrence event.recurrence).1;
    })

  abbrev then_some {ℓ} : {A : Type ℓ} → Bool → A → Option A
  then_some true a = some a
  then_some false a = none

  unfoldable pub write_time : Bool → ℕ → Text → GoogleEventTimeWrite
  write_time all_day at timezone = record {
    date_time = then_some (not all_day) at;
    date = then_some all_day (at / day);
    time_zone = then_some (not all_day) timezone;
  }

  -- `GoogleEventWrite::from_local`
  unfoldable pub from_local : NormalizedEvent → GoogleEventWrite
  unfolding write_time
  from_local e = record {
    id = none;
    summary = e.title;
    description = e.description;
    start = write_time e.all_day e.starts_at e.timezone;
    end = write_time e.all_day e.ends_at e.timezone;
    location = e.location;
    attendees = e.attendees;
    recurrence = recurrence_rule e.recurrence e.recurrence_until;
  }

  unfoldable pub local_fingerprint : NormalizedEvent → Text
  unfolding from_local
  local_fingerprint e = g.digest (from_local e)
