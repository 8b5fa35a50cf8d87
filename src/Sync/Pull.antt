-- ===== src/Sync/Pull.antt =====
-- `pull_calendar` of apps/api/src/sync_service.rs. What Google answers to the
-- requests of a pull is the list of its answers, in their order.
use prosepect.Base.{
  ℕ, Option, none, some, Bool, true, false, ◌&&◌, List, [], ◌∷◌, ◌==◌, if◌then◌else◌, any, Text,
  update_where,
}
use prosepect.Store.{Db, Calendar}
use prosepect.Sync.{SyncError, google, SyncResult, success, failure, GoogleEvent, Codec}
use prosepect.Sync.Apply.{SyncCalendar, apply_remote_event}

pub record GoogleEventList : Type 0 where
  pub items : List GoogleEvent
  pub next_page_token : Option Text
  pub next_sync_token : Option Text

-- An answer: 410, another failure, or a page.
pub data Answer : Type 0 where
  gone : Answer
  bad : SyncError → Answer
  page : GoogleEventList → Answer

-- `Result<()>`, with what has been written until then.
abbrev pub Written : Type 0
Written = Db × Option SyncError

abbrev pub and_continue : Written → (Db → Written) → Written
and_continue (db, some error) rest = (db, some error)
and_continue (db, none) rest = rest db

-- A step that fails has written nothing.
abbrev pub or_keep : Db → SyncResult Db → Written
or_keep db (success db') = (db', none)
or_keep db (failure error) = (db, some error)

abbrev pub has_unresolved : ℕ → Db → Bool
has_unresolved calendar db = any (λ m. m.calendar_id == calendar && m.unresolved) db.mappings

abbrev pub set_calendar : (Calendar → Bool) → (Calendar → Calendar) → Db → Db
set_calendar test f db = record db { calendars = update_where test f db.calendars }

abbrev pub set_token : Text → Calendar → Calendar
set_token token c = record c { sync_token = some token }

-- After the last page.
unfoldable pub finish_pull : ℕ → Option Text → Db → Db
finish_pull calendar none db = db
finish_pull calendar (some token) db =
    if has_unresolved calendar db
    then db
    else set_calendar (λ c. c.id == calendar) (set_token token) db

module _ (g : Codec) (now user : ℕ) (calendar : SyncCalendar) where
  unfoldable pub apply_all : List GoogleEvent → Db → Written
  apply_all [] db = (db, none)
  apply_all (e ∷ events) db =
      and_continue (or_keep db (apply_remote_event g now user calendar e db)) (apply_all events)

  -- The loop. Only the first 410 starts it again, as a full pull; where the answers end, the request
  -- fails.
  unfoldable pub pull : List Answer → Bool → Db → Written
  pull [] retried_full db = (db, some (google "Google Calendar request failed"))
  pull (gone ∷ answers) retried_full db =
      let again = pull answers true db in
      if retried_full then (db, some (google "Google event pull failed")) else again
  pull (bad error ∷ answers) retried_full db = (db, some error)
  pull (page p ∷ answers) retried_full db = and_continue (apply_all p.items db) λ applied.
      elim p.next_page_token [
        | some token ↦ pull answers retried_full applied
        | none ↦ (finish_pull calendar.id p.next_sync_token applied, none)
      ]

  unfoldable pub pull_calendar : List Answer → Db → Written
  unfolding pull
  pull_calendar answers db = pull answers false db
