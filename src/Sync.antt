-- ===== src/Sync.antt =====
-- apps/api/src/sync_service.rs: the two-way synchronization of a calendar with Google. The types of
-- Google's events and of the results; a statement that fails ends the synchronization where it is.
pub mod Google
pub mod Canonical
pub mod Apply
pub mod Pull
pub mod Push
pub mod Run
pub mod Resolve
pub mod Protect
pub mod Placed
pub mod Converge
pub mod Frame
pub mod Tokens
mod Examples
pub mod Watch
pub mod Discover
pub mod Stuck
pub mod Choice
pub mod Resolvable
pub mod Settles
pub mod Rules
use prosepect.Base.{ℕ, Option, Bool, true, false, none, some, List, Text, String}
use prosepect.Error.{AppError}
use prosepect.Store.{EventRecurrence}

-- `anyhow::Error`, by what caused it: an event that cannot be read, a statement that the API's own
-- functions report, a row that a CHECK constraint refuses, or Google.
pub data SyncError : Type 0 where
  unreadable : String → SyncError
  database : AppError → SyncError
  refused : SyncError
  google : String → SyncError

pub data SyncResult {ℓ} (A : Type ℓ) : Type ℓ where
  failure : SyncError → SyncResult A
  success : A → SyncResult A

infixl 5 ◌>>=◌ ◌>>◌
abbrev pub ◌>>=◌ {ℓ κ} :
    {A : Type ℓ} {B : Type κ} → SyncResult A → (A → SyncResult B) → SyncResult B
◌>>=◌ (failure e) rest = failure e
◌>>=◌ (success a) rest = rest a

abbrev pub ◌>>◌ {ℓ} : {B : Type ℓ} → SyncResult (Unit {0}) → SyncResult B → SyncResult B
◌>>◌ (failure e) rest = failure e
◌>>◌ (success done) rest = rest

-- `.ok_or_else(|| anyhow!(...))`
abbrev pub needs {ℓ} : {A : Type ℓ} → Option A → String → SyncResult A
needs none message = failure (unreadable message)
needs (some a) message = success a

pub record GoogleEventTime : Type 0 where
  pub date_time : Option ℕ
  -- The days since the epoch.
  pub date : Option ℕ
  pub time_zone : Option Text

pub record GoogleEvent : Type 0 where
  pub id : Option Text
  pub etag : Option Text
  pub status : Option String
  pub summary : Option Text
  pub description : Text
  pub start : Option GoogleEventTime
  pub end : Option GoogleEventTime
  pub location : Text
  -- The email of each attendee.
  pub attendees : List Text
  pub recurrence : List Text
  pub updated : Option ℕ

-- What an event here and an event at Google have in common; LocalEvent has the identifier too.
pub record NormalizedEvent : Type 0 where
  pub title : Text
  pub description : Text
  pub starts_at : ℕ
  pub ends_at : ℕ
  pub all_day : Bool
  pub timezone : Text
  pub location : Text
  pub attendees : List Text
  pub recurrence : EventRecurrence
  pub recurrence_until : Option ℕ

pub record GoogleEventTimeWrite : Type 0 where
  pub date_time : Option ℕ
  pub date : Option ℕ
  pub time_zone : Option Text

pub record GoogleEventWrite : Type 0 where
  pub id : Option Text
  pub summary : Text
  pub description : Text
  pub start : GoogleEventTimeWrite
  pub end : GoogleEventTimeWrite
  pub location : Text
  pub attendees : List Text
  pub recurrence : List Text

-- What the synchronization takes from outside the repository: the text of an instant as chrono reads
-- and writes it in the format %Y%m%dT%H%M%SZ, and SHA-256 of the JSON of an event.
pub record Codec : Type 0 where
  pub parse_until : Text → Option ℕ
  pub format_until : ℕ → Text
  pub digest : GoogleEventWrite → Text
  pub uuid_text : ℕ → Text
