-- ===== src/Sync/Resolve.antt =====
-- `resolve_sync_conflict` of apps/api/src/sync_store.rs. The synchronization's lock, and a change of
-- the mapping while the transaction runs, are outside: the transaction runs alone.
use text.Mathlib.Text.{◌==◌ as str_eq}
use prosepect.Base.{
  ℕ, suc, Option, none, some, Bool, true, false, not, ◌&&◌, ◌++◌, ◌==◌, if◌then◌else◌, any, find?,
  update_where, Text, String, codes,
}
use prosepect.Error.{
  AppResult, ok, AppError, database, validation, conflict, not_found, literal, fail_if, ok_or,
  ◌>>=◌, ◌>>◌,
}
use prosepect.Jobs.{new_job}
use prosepect.Tasks.{Platform}
use prosepect.Tasks.Validate.{is_some}
use prosepect.Store.{Db, Mapping, SyncConflict, Policy, latest, keep_google, app}
use prosepect.Store.Blocks.{insert_job}
use prosepect.Sync.Canonical.{set_mapping, has_mapping_id}

-- The three names that the request may give.
unfoldable pub parse_resolution : String → Option Policy
parse_resolution s =
    if str_eq s "google"
    then some keep_google
    else if str_eq s "prosepect"
    then some app
    else if str_eq s "latest"
    then some latest
    else none

abbrev pub is_keep_google : Policy → Bool
is_keep_google keep_google = true
is_keep_google _ = false

abbrev pub is_open : ℕ → ℕ → SyncConflict → Bool
is_open user id c = c.id == id && c.user_id == user && not (is_some c.resolution)

-- The SELECT of a held mapping: whether the conflict's is a tombstone.
unfoldable pub is_held : SyncConflict → Db → Bool
is_held c db = any (λ m. m.id == c.mapping_id && m.reversible_tombstone) db.mappings

abbrev pub release : Mapping → Mapping
release m = record m {
  reversible_tombstone = false;
  deletion_hold_until = none;
  delete_resolution_pending = true;
}

abbrev pub arm : Policy → Mapping → Mapping
arm resolution m = record m {
  unresolved = false;
  local_dirty = not (is_keep_google resolution);
  local_deleted = if is_keep_google resolution then false else m.local_deleted;
  external_etag = if is_keep_google resolution then none else m.external_etag;
  pending_resolution = some resolution;
}

abbrev pub close : ℕ → Policy → SyncConflict → SyncConflict
close now resolution c = record c { resolution = some resolution; resolved_at = some now }

abbrev pub resolution_error : AppError
resolution_error = validation (literal "resolution must be google, prosepect, or latest")

abbrev pub held_error : AppError
held_error = conflict (
    literal
      "This deleted-task conflict can only be resolved with Keep Google. The task stays deleted and Google is preserved.")

-- `format!("conflict-resolution:{conflict_id}:{resolution}")`
unfoldable pub resolution_key : Platform → ℕ → String → Text
resolution_key p id resolution =
    codes "conflict-resolution:" ++ (p.uuid_text id ++ (codes ":" ++ codes resolution))

module _ (p : Platform) (now user : ℕ) where
  unfoldable pub settle : SyncConflict → Policy → String → ℕ → Db → Db
  settle c resolution name calendar db = record db {
    next_id = suc db.next_id;
    conflicts = update_where (is_open user c.id) (close now resolution) db.conflicts;
    mappings = update_where (has_mapping_id c.mapping_id) (arm resolution) db.mappings;
    jobs =
        insert_job
          (new_job db.next_id now user (some calendar) "calendar_sync" (resolution_key p c.id name))
          db.jobs;
  }

  unfoldable pub resolve_sync_conflict : ℕ → String → Db → AppResult (Db × SyncConflict)
  unfolding settle
  resolve_sync_conflict id name db = do
    resolution ← ok_or (parse_resolution name) resolution_error
    c ← ok_or (find? (is_open user id) db.conflicts) (not_found "sync conflict")
    fail_if (is_held c db && not (is_keep_google resolution)) held_error
    let released = if is_held c db then set_mapping c.mapping_id release db else db
    m ← ok_or (find? (has_mapping_id c.mapping_id) released.mappings) (database none)
    ok (settle c resolution name m.calendar_id released, close now resolution c)
