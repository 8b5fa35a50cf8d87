-- ===== src/Sync/Tokens.antt =====
-- `pull_calendar` of apps/api/src/sync_service.rs: when the sync token moves on, and what an event
-- that fails does to the pull.
use prosepect.Base.{
  ℕ, ◌≡◌, refl, ap, ◌∙◌, inl, inr, Option, none, some, Bool, true, false, ◌==◌, Bool-cases, find?,
  List, [], ◌∷◌, ◌++◌, Text, update_where,
}
use prosepect.Store.{Db}
use prosepect.Sync.{
  SyncError, refused, SyncResult, success, failure, GoogleEvent, NormalizedEvent, Codec,
}
use prosepect.Sync.Google.{normalize_event}
use prosepect.Sync.Canonical.{passes_checks, insert_canonical_event}
use prosepect.Sync.Apply.{
  SyncCalendar, is_cancelled, is_external, import_event, apply_unmapped, apply_remote_event,
}
use prosepect.Sync.Pull.{
  GoogleEventList, Answer, gone, bad, page, Written, and_continue, or_keep, has_unresolved,
  set_token, finish_pull, apply_all, pull, pull_calendar,
}
use prosepect.Sync.Frame.{SameCalendars, OnSuccess, apply-SameCalendars}

-- What a pull does to the calendars: nothing, or a new sync token for the one that is pulled, when no
-- conflict of it is open and no step has failed.
pub data Pulled (calendar : ℕ) (db : Db) (result : Written) : Type 0 where
  kept : SameCalendars db result.0 → Pulled calendar db result
  advanced :
      (token : Text)
      → result.1 ≡ none
      → has_unresolved calendar result.0 ≡ false
      → result.0.calendars ≡ update_where (λ c. c.id == calendar) (set_token token) db.calendars
      → Pulled calendar db result

kept-SameCalendars :
    (db : Db) (result : SyncResult Db)
    → OnSuccess result (SameCalendars db)
    → SameCalendars db (or_keep db result).0
unfolding OnSuccess
kept-SameCalendars db (failure e) h = refl
kept-SameCalendars db (success db') h = h

finish-Pulled :
    (calendar : ℕ) (token : Option Text) (db applied : Db)
    → SameCalendars db applied
    → Pulled calendar db (finish_pull calendar token applied, none)
unfolding finish_pull
finish-Pulled calendar none db applied same = kept same
finish-Pulled calendar (some token) db applied same =
    elim (Bool-cases (has_unresolved calendar applied)) [
      | inl open_conflict ↦ kept (rw (finish_pull, open_conflict) same)
      | inr settled ↦ advanced token refl (rw (finish_pull, settled) settled) (
          rw (finish_pull, settled)
            (ap (update_where (λ c. c.id == calendar) (set_token token)) same))
    ]

-- A pull that goes on from a state with the same calendars.
from-Pulled :
    (calendar : ℕ) (db applied : Db) (result : Written)
    → SameCalendars db applied
    → Pulled calendar applied result
    → Pulled calendar db result
from-Pulled calendar db applied result same (kept h) = kept (h ∙ same)
from-Pulled calendar db applied result same (advanced token done settled h) =
    advanced token done settled
      (h ∙ ap (update_where (λ c. c.id == calendar) (set_token token)) same)

module _ (g : Codec) (now user : ℕ) (calendar : SyncCalendar) where
  apply_all-SameCalendars :
      (events : List GoogleEvent) (db : Db)
      → SameCalendars db (apply_all g now user calendar events db).0
  unfolding apply_all OnSuccess
  apply_all-SameCalendars [] db = refl
  apply_all-SameCalendars (e ∷ events) db =
      go (λ db'. apply_all-SameCalendars events db') (apply_remote_event g now user calendar e db)
        (apply-SameCalendars g now user calendar e db)
    where
      go :
          ((db' : Db) → SameCalendars db' (apply_all g now user calendar events db').0)
          → (result : SyncResult Db) → OnSuccess result (SameCalendars db)
          → SameCalendars db
              (and_continue (or_keep db result) (apply_all g now user calendar events)).0
      go later (failure e) h = refl
      go later (success db') h = later db' ∙ h

  page-Pulled :
      (p : GoogleEventList) (rest : Db → Written) (db : Db) (applied : Written)
      → SameCalendars db applied.0
      → ((db : Db) → Pulled calendar.id db (rest db))
      → Pulled calendar.id db (
          and_continue applied λ applied. elim p.next_page_token [
            | some token ↦ rest applied
            | none ↦ (finish_pull calendar.id p.next_sync_token applied, none)
          ])
  page-Pulled p rest db (applied, some error) same h = kept same
  page-Pulled p rest db (applied, none) same h = go p.next_page_token
    where
      go :
          (next : Option Text)
          → Pulled calendar.id db (elim next [
            | some token ↦ rest applied
            | none ↦ (finish_pull calendar.id p.next_sync_token applied, none)
          ])
      go (some token) = from-Pulled calendar.id db applied (rest applied) same (h applied)
      go none = finish-Pulled calendar.id p.next_sync_token db applied same

  pull-Pulled :
      (answers : List Answer) (retried_full : Bool) (db : Db)
      → Pulled calendar.id db (pull g now user calendar answers retried_full db)
  unfolding pull
  pull-Pulled [] retried_full db = kept refl
  pull-Pulled (gone ∷ answers) true db = kept refl
  pull-Pulled (gone ∷ answers) false db = pull-Pulled answers true db
  pull-Pulled (bad error ∷ answers) retried_full db = kept refl
  pull-Pulled (page p ∷ answers) retried_full db =
      page-Pulled p (pull g now user calendar answers retried_full) db
        (apply_all g now user calendar p.items db) (apply_all-SameCalendars p.items db)
        (pull-Pulled answers retried_full)

  -- Whatever Google answers, a pull leaves the calendars as they were, or it succeeds, no mapping of
  -- the calendar has an open conflict, and the calendar has a new sync token and no other change.
  pub pull_calendar-Pulled :
      (answers : List Answer) (db : Db)
      → Pulled calendar.id db (pull_calendar g now user calendar answers db)
  unfolding pull_calendar
  pull_calendar-Pulled answers db = pull-Pulled answers false db

  import-refused :
      (external : Text) (event : GoogleEvent) (e : NormalizedEvent) (db : Db)
      → passes_checks e ≡ false
      → import_event g now user calendar external event e db ≡ failure refused
  unfolding import_event insert_canonical_event
  import-refused external event e db fails = rw (import_event, insert_canonical_event, fails) refl

  apply-refused :
      (external : Text) (event : GoogleEvent) (e : NormalizedEvent) (db : Db)
      → event.id ≡ some external
      → is_cancelled event ≡ false
      → find? (is_external user calendar.external_id external) db.mappings ≡ none
      → normalize_event g event ≡ success e
      → passes_checks e ≡ false
      → apply_remote_event g now user calendar event db ≡ failure refused
  unfolding apply_remote_event apply_unmapped
  apply-refused external event e db named alive unknown normal fails =
      rw (apply_remote_event, named, unknown, apply_unmapped, alive, normal)
        (import-refused external event e db fails)

  apply_all-stops :
      (before after : List GoogleEvent) (event : GoogleEvent) (db reached : Db) (error : SyncError)
      → apply_all g now user calendar before db ≡ (reached, none)
      → apply_remote_event g now user calendar event reached ≡ failure error
      → apply_all g now user calendar (before ++ event ∷ after) db ≡ (reached, some error)
  unfolding apply_all
  apply_all-stops [] after event db reached error h fails =
      let same : db ≡ reached = cc h in rw (same, fails) refl
  apply_all-stops (b ∷ before) after event db reached error h fails =
      go (λ db' k. apply_all-stops before after event db' reached error k fails)
        (apply_remote_event g now user calendar b db) h
    where
      go :
          ((db' : Db)
            → apply_all g now user calendar before db' ≡ (reached, none)
            → apply_all g now user calendar (before ++ event ∷ after) db' ≡ (reached, some error))
          → (result : SyncResult Db)
          → and_continue (or_keep db result) (apply_all g now user calendar before)
            ≡ (reached, none)
          → and_continue
              (or_keep db result)
              (apply_all g now user calendar (before ++ event ∷ after))
            ≡ (reached, some error)
      go later (failure e) k = cc k
      go later (success db') k = later db' k

  -- An event at Google that is new here and whose content the table refuses ends the pull of its page:
  -- the events before it are applied, those after it are not, the pull fails, and the calendars are as
  -- they were, the sync token too.
  pub pull_calendar-refused :
      (before after : List GoogleEvent) (event : GoogleEvent) (next token : Option Text)
      (answers : List Answer) (external : Text) (e : NormalizedEvent) (db reached : Db)
      → apply_all g now user calendar before db ≡ (reached, none)
      → event.id ≡ some external
      → is_cancelled event ≡ false
      → find? (is_external user calendar.external_id external) reached.mappings ≡ none
      → normalize_event g event ≡ success e
      → passes_checks e ≡ false
      → (pull_calendar g now user calendar
            (page (record {
              items = before ++ event ∷ after;
              next_page_token = next;
              next_sync_token = token;
            })
              ∷ answers)
            db
          ≡ (reached, some refused))
        × SameCalendars db reached
  unfolding pull_calendar pull
  pull_calendar-refused before after event next token answers external e db reached applied named
        alive unknown normal fails =
      (
        rw
            (apply_all-stops before after event db reached refused applied
              (apply-refused external event e reached named alive unknown normal fails))
            refl,
        rw (← ap (λ (w : Written). w.0) applied) (apply_all-SameCalendars before db),
      )
