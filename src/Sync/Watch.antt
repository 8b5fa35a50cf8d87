-- ===== src/Sync/Watch.antt =====
-- The jobs that the queue is given without a user's request, in apps/api/src/sync_store.rs: the
-- periodic ones, those for the channels by which Google notifies of changes, and its notifications.
use text.Mathlib.Text.{◌==◌ as str_eq}
use prosepect.Base.{
  ℕ, suc, ◌+◌, ◌*◌, ◌/◌, Option, none, some, Bool, true, false, not, ◌&&◌, List, [], ◌∷◌, ◌++◌,
  ◌==◌, ltb, leb, if◌then◌else◌, any, retain, delete_where, find?, Text, String, codes, text_eq,
}
use prosepect.Jobs.{SyncJob, new_job, is_same_request}
use prosepect.Tasks.{Platform}
use prosepect.Store.{Db, TaskConnection, Calendar, is_google}
use prosepect.Store.Blocks.{insert_job, can_write}

-- A row of `google_watch_channels`.
pub record WatchChannel : Type 0 where
  pub channel_id : ℕ
  pub user_id : ℕ
  pub calendar_id : ℕ
  pub resource_id : Text
  pub token_hash : Text
  pub expires_at : ℕ

-- A row of `google_accounts`, without the credentials.
pub record GoogleAccount : Type 0 where
  pub user_id : ℕ
  pub scopes : List String

-- The tables, with the instants at which the attempts to log in expire.
pub record Watches : Type 0 where
  pub db : Db
  pub channels : List WatchChannel
  pub login_attempts : List ℕ
  pub accounts : List GoogleAccount

-- What a job is for.
pub record JobRequest : Type 0 where
  pub user_id : ℕ
  pub calendar_id : Option ℕ
  pub key : Text

abbrev pub seconds : ℕ → ℕ
seconds n = n * 1_000_000

abbrev pub is_taken : JobRequest → List SyncJob → Bool
is_taken r jobs = any (is_same_request r.user_id r.key) jobs

abbrev pub count_one : Bool → Db × ℕ → Db × ℕ
count_one taken (db, n) = (db, if taken then n else suc n)

-- `INSERT ... SELECT ... ON CONFLICT (user_id, idempotency_key) DO NOTHING`, with the number of the
-- rows that it inserts.
unfoldable pub insert_jobs : ℕ → String → List JobRequest → Db → Db × ℕ
insert_jobs now kind [] db = (db, 0)
insert_jobs now kind (r ∷ rs) db = count_one (is_taken r db.jobs) (
    insert_jobs now kind rs (record db {
      next_id = suc db.next_id;
      jobs = insert_job (new_job db.next_id now r.user_id r.calendar_id kind r.key) db.jobs;
    }))

-- `last_synced_at IS NULL OR last_synced_at < NOW() - INTERVAL '5 minutes'`
abbrev pub is_stale : ℕ → Option ℕ → Bool
is_stale now none = true
is_stale now (some at) = ltb (at + seconds 300) now

module _ (p : Platform) (now : ℕ) where
  abbrev pub calendar_request : String → ℕ → Calendar → JobRequest
  calendar_request prefix bucket c = record {
    user_id = c.user_id;
    calendar_id = some c.id;
    key = codes prefix ++ (p.uuid_text c.id ++ (codes ":" ++ p.decimal bucket));
  }

  abbrev pub requests : String → ℕ → List Calendar → List JobRequest
  requests prefix bucket [] = []
  requests prefix bucket (c ∷ cs) = calendar_request prefix bucket c ∷ requests prefix bucket cs

  abbrev pub is_periodic : Calendar → Bool
  is_periodic c = is_google c.source && c.selected && is_stale now c.last_synced_at

  abbrev pub grants_tasks : ℕ → GoogleAccount → Bool
  grants_tasks user a =
      a.user_id == user && any (λ s. str_eq s "https://www.googleapis.com/auth/tasks") a.scopes

  abbrev pub is_tasks_periodic : List GoogleAccount → TaskConnection → Bool
  is_tasks_periodic accounts c =
      c.enabled && any (grants_tasks c.user_id) accounts && is_stale now c.last_synced_at

  abbrev pub task_requests : ℕ → List TaskConnection → List JobRequest
  task_requests bucket [] = []
  task_requests bucket (c ∷ cs) =
      record {
        user_id = c.user_id;
        calendar_id = none;
        key = codes "tasks-periodic:" ++ (p.uuid_text c.user_id ++ (codes ":" ++ p.decimal bucket));
      }
      ∷ task_requests bucket cs

  unfoldable pub enqueue_periodic_synchronizations : Watches → Watches × ℕ
  unfolding insert_jobs
  enqueue_periodic_synchronizations w =
      let bucket = now / seconds 300 in
      let (db, calendars) =
        insert_jobs now "calendar_sync"
          (requests "periodic:" bucket (retain is_periodic w.db.calendars)) w.db in
      let (db', tasks) =
        insert_jobs now "tasks_sync"
          (task_requests bucket (retain (is_tasks_periodic w.accounts) w.db.task_connections)) db in
      (
        record w { db = db'; login_attempts = delete_where (λ at. leb at now) w.login_attempts },
        calendars + tasks,
      )

  abbrev is_only : Option ℕ → ℕ → Bool
  is_only none user = true
  is_only (some only) user = user == only

  -- The WHERE clause of the calendars to watch.
  unfoldable pub needs_watch : Option ℕ → List WatchChannel → Calendar → Bool
  needs_watch only channels c =
      is_google c.source
      && c.selected
      && can_write c.access_role
      && is_only only c.user_id
      && not (any (λ h. h.calendar_id == c.id && ltb (now + seconds 86_400) h.expires_at) channels)

  unfoldable pub enqueue_expiring_calendar_watches : Option ℕ → Watches → Watches × ℕ
  unfolding insert_jobs
  enqueue_expiring_calendar_watches only w =
      let live = delete_where (λ (h : WatchChannel). leb h.expires_at now) w.channels in
      let bucket = now / seconds 21_600 in
      let (db, added) =
        insert_jobs now "calendar_watch"
          (requests "calendar-watch:" bucket (retain (needs_watch only live) w.db.calendars))
          w.db in
      (record w { db = db; channels = live }, added)

  -- Whether there is a webhook.
  unfoldable pub enqueue_periodic_work : Bool → Watches → Watches × ℕ
  unfolding enqueue_periodic_synchronizations enqueue_expiring_calendar_watches
  enqueue_periodic_work true w =
      let (synchronized, n) = enqueue_periodic_synchronizations w in
      let (watched, m) = enqueue_expiring_calendar_watches none synchronized in (watched, n + m)
  enqueue_periodic_work false w = enqueue_periodic_synchronizations w

  -- The channel that a notification names, with its secret.
  abbrev pub is_notified : ℕ → Text → Text → WatchChannel → Bool
  is_notified channel resource hash h =
      h.channel_id == channel
      && text_eq h.resource_id resource
      && text_eq h.token_hash hash
      && ltb now h.expires_at

  -- Whether the notification is accepted. The caller has drawn the identifier of the job.
  unfoldable pub enqueue_google_watch_notification :
      ℕ → Text → Text → Text → Watches → Watches × Bool
  enqueue_google_watch_notification channel resource hash message w =
      elim (find? (is_notified channel resource hash) w.channels) [
        | none ↦ (w, false)
        | some h ↦ (
          record w {
            db = record w.db {
              next_id = suc w.db.next_id;
              jobs =
                  insert_job
                    (new_job w.db.next_id now h.user_id (some h.calendar_id) "calendar_sync"
                      (codes "google-watch:" ++ (p.uuid_text channel ++ (codes ":" ++ message))))
                    w.db.jobs;
            };
          },
          true,
        )
      ]

abbrev pub is_channel_of : ℕ → ℕ → WatchChannel → Bool
is_channel_of user calendar h = h.user_id == user && h.calendar_id == calendar

-- The channels that the new one replaces are returned, to be stopped.
unfoldable pub replace_google_watch_channel :
    ℕ → ℕ → ℕ → Text → Text → ℕ → Watches → Watches × List WatchChannel
replace_google_watch_channel user calendar channel resource hash expires_at w = (
  record w {
    channels =
        delete_where (is_channel_of user calendar) w.channels
        ++ record {
          channel_id = channel;
          user_id = user;
          calendar_id = calendar;
          resource_id = resource;
          token_hash = hash;
          expires_at = expires_at;
        }
          ∷ [];
  },
  retain (is_channel_of user calendar) w.channels,
)

unfoldable pub google_watch_channels_for_user : ℕ → Watches → List WatchChannel
google_watch_channels_for_user user w = retain (λ (h : WatchChannel). h.user_id == user) w.channels
