-- ===== src/Store/Calendars.antt =====
-- The operations that create and update calendars of apps/api/src/calendar_store.rs.
use prosepect.Base.{
  ℕ, suc, Option, none, some, Bool, true, false, not, ◌&&◌, ◌||◌, [], ◌∷◌, ◌++◌, map, if◌then◌else◌,
  nat_eq, ◌==◌, ltb, leb, Text, codes, trim, is_empty, find?, length, update_where,
}
use prosepect.Base.Int.{ℤ, is_version}
use prosepect.Error.{
  AppResult, ok, err, panicked, validation, conflict, not_found, literal, changed_since, fail_if,
  ◌>>=◌, ◌>>◌,
}
use prosepect.Jobs.{enqueue_sync}
use prosepect.Tasks.{Platform}
use prosepect.Store.{Db, Calendar, native, is_google, is_calendar, next_version}
use prosepect.Store.Events.{utf8_length}

pub record CreateCalendarRequest : Type 0 where
  pub name : Text
  pub color : Text

pub record UpdateCalendarRequest : Type 0 where
  pub fields : CreateCalendarRequest
  pub selected : Bool
  pub expected_version : ℤ

-- `char::is_ascii_hexdigit`
abbrev pub is_hex : ℕ → Bool
is_hex c = (leb b'0' c && leb c b'9') || (leb b'a' c && leb c b'f') || (leb b'A' c && leb c b'F')

abbrev pub all_hex : Text → Bool
all_hex [] = true
all_hex (c ∷ s) = is_hex c && all_hex s

-- `color.starts_with('#')`, and the digits after that.
abbrev pub is_hash_and_hex : Text → Bool
is_hash_and_hex [] = false
is_hash_and_hex (c ∷ s) = c == b'#' && all_hex s

unfoldable pub validate_calendar_fields : CreateCalendarRequest → AppResult (Unit {0})
unfolding utf8_length
validate_calendar_fields r = do
  fail_if (is_empty (trim r.name) || ltb 120 (length (trim r.name)))
      (validation (literal "calendar name must contain between 1 and 120 characters"))
  fail_if (not (utf8_length r.color == 7) || not (is_hash_and_hex r.color))
      (validation (literal "calendar color must be a six-digit hexadecimal color"))

abbrev pub calendar_error {ℓ} : {A : Type ℓ} → ℕ → ℕ → ℤ → Db → AppResult A
calendar_error user id expected db = elim (find? (is_calendar user id) db.calendars) [
  | some c ↦ err (conflict (changed_since "calendar" expected c.version))
  | none ↦ err (not_found "calendar")
]

abbrev pub is_current_calendar : ℕ → ℕ → ℤ → Calendar → Bool
is_current_calendar user id expected c = is_calendar user id c && is_version expected c.version

-- The key of the job that a selection adds.
unfoldable pub selection_key : Platform → Calendar → Text
selection_key p c =
    codes "calendar-selection:" ++ p.uuid_text c.id ++ codes ":" ++ p.decimal c.version

module _ (p : Platform) (now user : ℕ) where
  unfoldable pub new_calendar : ℕ → CreateCalendarRequest → Calendar
  new_calendar id r = record {
    id = id;
    user_id = user;
    name = trim r.name;
    color = p.to_lowercase r.color;
    source = native;
    external_id = none;
    selected = true;
    is_default = false;
    provider_primary = false;
    access_role = "reader";
    sync_token = none;
    last_synced_at = none;
    last_sync_error = none;
    created_at = now;
    updated_at = now;
    version = 1;
  }

  unfoldable pub create_calendar : CreateCalendarRequest → Db → AppResult (Db × Calendar)
  unfolding new_calendar validate_calendar_fields
  create_calendar r db = do
    validate_calendar_fields r
    ok (
      record db {
        next_id = suc db.next_id;
        calendars = db.calendars ++ new_calendar db.next_id r ∷ [];
      },
      new_calendar db.next_id r,
    )

  -- The SET clause.
  unfoldable pub rewrite_calendar : UpdateCalendarRequest → ℕ → Calendar → Calendar
  rewrite_calendar r version c = record c {
    name = trim r.fields.name;
    color = p.to_lowercase r.fields.color;
    selected = r.selected;
    updated_at = now;
    version = version;
  }

  -- What a request to synchronize the calendar leaves, and its answer. The update before it stays,
  -- also where the request fails.
  unfoldable pub enqueue_selection : Calendar → Db → Db × AppResult Calendar
  unfolding enqueue_sync selection_key
  enqueue_selection c db =
      elim (enqueue_sync db.next_id now user (some c.id) "calendar_sync" (selection_key p c)
        (record {
          calendars = map (λ (d : Calendar). (d.id, d.user_id)) db.calendars;
          jobs = db.jobs;
          activity = db.activity;
          task_delete_undos = [];
        })) [
          | err e ↦ (record db { next_id = suc db.next_id }, err e)
          | panicked ↦ (db, panicked)
          | ok (q, job) ↦ (record db { next_id = suc db.next_id; jobs = q.jobs }, ok c)
        ]

  -- The UPDATE, with the row that it returns, if one has the version.
  unfoldable pub write_calendar : ℕ → UpdateCalendarRequest → Db → AppResult (Db × Option Calendar)
  unfolding next_version rewrite_calendar
  write_calendar id r db =
      elim (find? (is_current_calendar user id r.expected_version) db.calendars) [
        | none ↦ ok (db, none)
        | some c ↦ next_version c.version >>= λ version. ok (
          record db {
            calendars =
                update_where (is_current_calendar user id r.expected_version)
                  (rewrite_calendar r version) db.calendars;
          },
          some (rewrite_calendar r version c),
        )
      ]

  -- `if source == Google && selected { enqueue_sync }`
  unfoldable pub after_selection : Calendar → Db → Db × AppResult Calendar
  unfolding enqueue_selection
  after_selection c db =
      if is_google c.source && c.selected then enqueue_selection c db else (db, ok c)

  unfoldable pub update_calendar : ℕ → UpdateCalendarRequest → Db → Db × AppResult Calendar
  unfolding validate_calendar_fields write_calendar after_selection
  update_calendar id r db = elim (validate_calendar_fields r.fields >> write_calendar id r db) [
    | err e ↦ (db, err e)
    | panicked ↦ (db, panicked)
    | ok (db', some c) ↦ after_selection c db'
    | ok (db', none) ↦ (db', calendar_error user id r.expected_version db')
  ]
