-- ===== src/Sync/Resolvable.antt =====
-- `resolve_sync_conflict` of apps/api/src/sync_store.rs: which conflicts it resolves.
use text.Mathlib.Text.{◌==◌ as str_eq}
use prosepect.Base.{ℕ, ◌≡◌, ◌⊎◌, none, false, ◌==◌, All, Has, List, String}
use prosepect.Store.{Db, Mapping, SyncConflict}

abbrev pub IsNamed : String → Type 0
IsNamed name = (name ≡ "google") ⊎ (name ≡ "prosepect") ⊎ (name ≡ "latest")

-- None of the conflict's mappings is a tombstone of a deletion with Undo.
abbrev pub IsFree : SyncConflict → List Mapping → Type 0
IsFree c = All (λ m. m.id ≡ c.mapping_id → m.reversible_tombstone ≡ false)

-- A conflict that the user can resolve by the name.
pub record Resolvable (user id : ℕ) (name : String) (db : Db) : Type 0 where
  pub named : IsNamed name
  pub conflict : SyncConflict
  pub stored : Has conflict db.conflicts
  pub identified : conflict.id ≡ id
  pub owned : conflict.user_id ≡ user
  pub waiting : conflict.resolution ≡ none
  pub mapping : Mapping
  pub mapped : Has mapping db.mappings
  pub linked : mapping.id ≡ conflict.mapping_id
  pub free : (name ≡ "google") ⊎ IsFree conflict db.mappings

-- The primary key of the conflicts.
abbrev pub HasConflictKey : Db → Type 0
HasConflictKey db =
    (c d : SyncConflict) → Has c db.conflicts → Has d db.conflicts → c.id ≡ d.id → c ≡ d
