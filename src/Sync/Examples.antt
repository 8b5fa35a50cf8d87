-- ===== src/Sync/Examples.antt =====
-- The theorems on the synchronization at one calendar of Google with one event.
use prosepect.Base.{
  ℕ, arith, ◌≡◌, refl, inr, Option, none, some, true, false, [], ◌∷◌, All, codes, text_eq, find?,
  if◌then◌else◌,
}
use prosepect.Error.{ok}
use prosepect.Tasks.Examples.{plain}
use prosepect.Store.{Db, Mapping, SyncConflict, app, keep_google, once, next_version}
use prosepect.Store.Blocks.{insert_job}
use prosepect.Store.Examples.{block, home, value}
use prosepect.Sync.{
  SyncError, refused, google, SyncResult, GoogleEvent, GoogleEventTime, NormalizedEvent, success,
  failure,
}
use prosepect.Sync.Google.{
  normalize_event, event_time, parse_recurrence, recurrence_rule, from_local, local_fingerprint,
  write_time,
}
use prosepect.Sync.Canonical.{
  passes_checks, drop_spaces, drop_last_spaces, write_canonical, update_linked_task,
  update_canonical_event, update_mapping_baseline, record_activity, create_conflict,
  insert_conflict,
}
use prosepect.Sync.Apply.{
  SyncCalendar, is_external, policy_of, local_updated_at, keeps_local, accept_change, apply_change,
  apply_mapped, apply_remote_event,
}
use prosepect.Sync.Pull.{page, apply_all, pull_calendar}
use prosepect.Sync.Push.{
  Google, rejected, missing, is_pushable, push_calendar, push_all, push_all_new, push_mapping,
  push_update, local_event,
}
use prosepect.Sync.Resolve.{
  parse_resolution, resolve_sync_conflict, is_held, settle, resolution_key,
}
use prosepect.Sync.Protect.{SameContent, asked, apply_remote_event-protects}
use prosepect.Sync.Converge.{
  Settled, Ready, linked, apply_remote_event-Settled, apply_remote_event-idempotent,
}
use prosepect.Sync.Frame.{SameCalendars}
use prosepect.Sync.Tokens.{Pulled, pull_calendar-Pulled, pull_calendar-refused}
use prosepect.Sync.Stuck.{preferred-fails}
use prosepect.Sync.Settles.{push_calendar-settles}
use prosepect.Sync.Rules.Examples.{digits, codec}
use prosepect.Sync.Choice.{apply_remote_event-resolve_sync_conflict}
use prosepect.Sync.Resolvable.{Resolvable}

abbrev calendar : SyncCalendar
calendar = record { id = 2; external_id = codes "me"; sync_token = none }

abbrev at : ℕ → Option GoogleEventTime
at n = some (record { date_time = some n; date = none; time_zone = some (codes "UTC") })

-- A new state at Google of the event of the mapping.
abbrev moved : GoogleEvent
moved = record {
  id = some (codes "e3");
  etag = some (codes "2");
  status = some "confirmed";
  summary = some (codes "Tea");
  description = [];
  start = at 30;
  end = at 40;
  location = [];
  attendees = [];
  recurrence = [];
  updated = some 25;
}

abbrev tea : NormalizedEvent
tea = record {
  title = codes "Tea";
  description = [];
  starts_at = 30;
  ends_at = 40;
  all_day = false;
  timezone = codes "UTC";
  location = [];
  attendees = [];
  recurrence = once;
  recurrence_until = none;
}

abbrev mapping : Mapping
mapping = record {
  id = 5;
  user_id = 7;
  calendar_id = 2;
  canonical_event_id = some 3;
  external_calendar_id = codes "me";
  external_event_id = codes "e3";
  external_etag = some (codes "1");
  base_fingerprint = none;
  local_dirty = false;
  local_deleted = false;
  unresolved = false;
  pending_resolution = none;
  last_synced_at = none;
  deletion_hold_until = none;
  reversible_tombstone = false;
  delete_resolution_pending = false;
}

abbrev dirty : Db
dirty = record home { mappings = record mapping { local_dirty = true } ∷ [] }

abbrev conflict : SyncConflict
conflict = record {
  id = 9;
  user_id = 7;
  mapping_id = 5;
  canonical_event_id = some 3;
  title = codes "Tea";
  resolution = none;
  created_at = 50;
  resolved_at = none;
}

abbrev conflicted : Db
unfolding create_conflict
conflicted = create_conflict 50 7 (record mapping { local_dirty = true }) (codes "Tea") dirty

-- The user is asked: the change at Google is not written.
apply_remote_event-protects_example : SameContent dirty conflicted
unfolding apply_remote_event apply_mapped apply_change policy_of normalize_event event_time
    parse_recurrence local_updated_at text_eq create_conflict
apply_remote_event-protects_example =
    apply_remote_event-protects codec 50 7 calendar (record mapping { local_dirty = true }) moved
      dirty conflicted (codes "e3") refl refl (asked refl refl) refl

abbrev clean : Db
clean = record home { mappings = mapping ∷ [] }

abbrev or_db {ℓ} : {A : Type ℓ} → SyncResult A → A → A
or_db (success a) other = a
or_db (failure e) other = other

abbrev applied : Db
unfolding apply_remote_event
applied = or_db (apply_remote_event codec 50 7 calendar moved clean) clean

clean-Ready : Ready 7 calendar (codes "e3") moved clean
unfolding text_eq
clean-Ready =
    linked mapping 3 (record { event = block; user_id = 7 }) refl
      (record { untouched = refl; kept = refl; active = refl }) refl refl refl

apply_remote_event-Settled_example :
    (e : NormalizedEvent) × (normalize_event codec moved ≡ success e)
    × Settled codec 7 calendar (codes "e3") moved e applied
unfolding apply_remote_event apply_mapped apply_change policy_of normalize_event event_time
    parse_recurrence local_updated_at text_eq accept_change update_canonical_event passes_checks
    drop_spaces drop_last_spaces update_linked_task write_canonical next_version
    update_mapping_baseline record_activity local_fingerprint from_local write_time recurrence_rule
    applied
apply_remote_event-Settled_example =
    apply_remote_event-Settled codec 50 7 calendar (codes "e3") moved clean applied refl refl
      clean-Ready refl

apply_remote_event-idempotent_example :
    apply_remote_event codec 60 7 calendar moved applied ≡ success applied
unfolding apply_remote_event apply_mapped apply_change policy_of normalize_event event_time
    parse_recurrence local_updated_at text_eq accept_change update_canonical_event passes_checks
    drop_spaces drop_last_spaces update_linked_task write_canonical next_version
    update_mapping_baseline record_activity local_fingerprint from_local write_time recurrence_rule
    applied
apply_remote_event-idempotent_example =
    apply_remote_event-idempotent codec 50 7 calendar (codes "e3") moved 60 clean applied refl refl
      clean-Ready refl

pull_calendar-Pulled_example : Pulled 2 clean (
    pull_calendar codec 50 7 calendar
      (page (record {
        items = moved ∷ [];
        next_page_token = none;
        next_sync_token = some (codes "s");
      })
        ∷ [])
      clean)
pull_calendar-Pulled_example =
    pull_calendar-Pulled codec 50 7 calendar
      (page (record {
        items = moved ∷ [];
        next_page_token = none;
        next_sync_token = some (codes "s");
      })
        ∷ [])
      clean

-- An event at Google that ends when it starts.
abbrev instant : GoogleEvent
instant = record moved { id = some (codes "e9"); end = at 30 }

abbrev instant_here : NormalizedEvent
instant_here = record tea { ends_at = 30 }

pull_calendar-refused_example :
    (pull_calendar codec 50 7 calendar
        (page (record {
          items = instant ∷ moved ∷ [];
          next_page_token = none;
          next_sync_token = some (codes "s");
        })
          ∷ [])
        clean
      ≡ (clean, some refused))
    × SameCalendars clean clean
unfolding apply_all text_eq normalize_event event_time parse_recurrence passes_checks drop_spaces
    drop_last_spaces
pull_calendar-refused_example =
    pull_calendar-refused codec 50 7 calendar [] (moved ∷ []) instant none (some (codes "s")) []
      (codes "e9") instant_here clean clean refl refl refl refl refl refl

abbrev preferring : Db
preferring = record dirty { policies = (7, app) ∷ [] }

-- A Google that has the event at its second state.
abbrev remote : Google
unfolding text_eq
remote = record {
  post = λ c w. rejected (google "exists");
  get = λ c e. missing;
  put = λ c e etag w. elim etag [
    | none ↦ success moved
    | some known ↦ if text_eq known (codes "2") then success moved else failure (google "412")
  ];
  delete = λ c e etag. success tt;
  event_id = digits 3;
}

preferred-fails_example :
    (db' : Db) × (apply_remote_event codec 50 7 calendar moved preferring ≡ success db')
    × ((kept : Mapping) × (find? (is_external 7 (codes "me") (codes "e3")) db'.mappings ≡ some kept)
        × (kept.local_dirty ≡ true)
        × (kept.external_etag ≡ some (codes "1"))
        × ((error : SyncError) × (push_mapping codec remote 60 7 calendar (kept, some block) db'
              ≡ failure error)))
unfolding text_eq normalize_event event_time parse_recurrence policy_of keeps_local remote
preferred-fails_example =
    preferred-fails codec 50 7 calendar (record mapping { local_dirty = true }) moved (codes "1")
      (codes "2") preferring remote 60 (codes "e3") tea block refl refl refl refl refl
      (record {
        active = refl;
        dirty = refl;
        kept = refl;
        based = refl;
        known = refl;
        stale = refl;
        answered = refl;
        preferred = refl;
      })
      (λ etag body other. (google "412", rw other refl))

abbrev accepting : Google
accepting = record remote { put = λ c e etag w. success moved }

abbrev pushed : Db
unfolding push_calendar remote
pushed = (push_calendar codec accepting 60 7 calendar dirty).0

push_calendar-settles_example : All (λ m. is_pushable 60 7 2 m ≡ false) pushed.mappings
unfolding push_calendar push_all push_all_new push_mapping push_update local_event local_fingerprint
    from_local write_time recurrence_rule record_activity is_pushable remote pushed
push_calendar-settles_example =
    push_calendar-settles codec accepting 60 7 calendar dirty pushed
      (record { fresh = (ground arith, tt); unique = (((λ _. refl), tt), tt) }) refl

abbrev resolved : Db
unfolding resolve_sync_conflict create_conflict
resolved = (value (resolve_sync_conflict plain 60 7 9 "google" conflicted) (conflicted, conflict)).0

resolves :
    resolve_sync_conflict plain 60 7 9 "google" conflicted
    ≡ ok (resolved, record conflict { resolution = some keep_google; resolved_at = some 60 })
unfolding parse_resolution resolve_sync_conflict is_held settle create_conflict insert_conflict
    record_activity text_eq insert_job resolution_key resolved
resolves = refl

-- The tables after the pull that follows the choice.
abbrev accepted : Db
unfolding apply_remote_event resolved
accepted = or_db (apply_remote_event codec 70 7 calendar moved resolved) resolved

accepts_change : apply_remote_event codec 70 7 calendar moved resolved ≡ success accepted
unfolding apply_remote_event apply_mapped apply_change policy_of normalize_event event_time
    parse_recurrence local_updated_at text_eq accept_change update_canonical_event passes_checks
    drop_spaces drop_last_spaces update_linked_task write_canonical next_version
    update_mapping_baseline record_activity local_fingerprint from_local write_time recurrence_rule
    parse_resolution resolve_sync_conflict is_held settle create_conflict insert_conflict insert_job
    resolution_key keeps_local resolved accepted
accepts_change = refl

apply_remote_event-resolve_sync_conflict_example :
    (e : NormalizedEvent) × (normalize_event codec moved ≡ success e)
    × Settled codec 7 calendar (codes "e3") moved e accepted
unfolding create_conflict insert_conflict record_activity text_eq
apply_remote_event-resolve_sync_conflict_example =
    apply_remote_event-resolve_sync_conflict plain 60 7 calendar (codes "e3") moved
      (record mapping { local_dirty = true; unresolved = true }) codec 70 9 conflicted resolved
      accepted conflict (record conflict { resolution = some keep_google; resolved_at = some 60 })
      refl refl refl refl refl refl (inr (3, refl, (record { event = block; user_id = 7 }, refl)))
      resolves accepts_change
