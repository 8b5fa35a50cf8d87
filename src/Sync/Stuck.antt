-- ===== src/Sync/Stuck.antt =====
-- A local change that the policy prefers to Google's, in apps/api/src/sync_service.rs: what the pull
-- leaves of its mapping, and what the push does with it then.
use prosepect.Base.{
  ℕ, ◌≡◌, refl, some, Bool, true, false, ◌&&◌, ◌||◌, ==_refl, find?, find?-update_where, ◌∙◌,
  if◌then◌else◌, Text, text_eq,
}
use prosepect.Store.{Db, Mapping, CalendarEvent}
use prosepect.Sync.{
  SyncError, success, failure, GoogleEvent, GoogleEventWrite, NormalizedEvent, Codec,
}
use prosepect.Sync.Google.{normalize_event, from_local}
use prosepect.Sync.Canonical.{set_mapping, has_mapping_id}
use prosepect.Sync.Apply.{
  SyncCalendar, is_ask, is_cancelled, same_etag, is_external, policy_of, local_updated_at,
  keeps_local, clear_resolution, apply_change, apply_mapped, apply_remote_event,
}
use prosepect.Sync.Push.{Google, local_event, push_update, push_mapping}

-- Google refuses a replacement whose If-Match is not the etag that the event has.
abbrev pub ChecksEtag : Google → Text → Text → Text → Type 0
ChecksEtag api calendar external current =
    (etag : Text) (body : GoogleEventWrite)
    → text_eq etag current ≡ false
    → (error : SyncError) × (api.put calendar external (some etag) body ≡ failure error)

-- A change here, made on another state of the event than Google now has, that the policy prefers.
pub record IsPreferred (user : ℕ) (m : Mapping) (event : GoogleEvent) (old current : Text) (db : Db)
    : Type 0 where
  pub active : m.reversible_tombstone ≡ false
  pub dirty : m.local_dirty ≡ true
  pub kept : m.local_deleted ≡ false
  pub based : m.external_etag ≡ some old
  pub known : event.etag ≡ some current
  pub stale : text_eq old current ≡ false
  pub answered : is_ask (policy_of user m db) ≡ false
  pub preferred : keeps_local (policy_of user m db) event (local_updated_at m db) ≡ true

-- The branch of a change that is preferred.
preferred-branch {ℓ} :
    {A : Type ℓ} (same dirty deleted asks keeps : Bool) (a b c d : A)
    → same ≡ false
    → dirty ≡ true
    → asks ≡ false
    → keeps ≡ true
    → (if same
        then a
        else if (dirty || deleted) && asks
        then b
        else if (dirty || deleted) && keeps
        then c
        else d)
      ≡ c
preferred-branch same dirty deleted asks keeps a b c d s t u v = rw (s, t, u, v) refl

last-branch {ℓ} :
    {A : Type ℓ} (first second : Bool) (a b c : A)
    → first ≡ false
    → second ≡ false
    → (if first then a else if second then b else c) ≡ c
last-branch first second a b c s t = rw (s, t) refl

module _ (g : Codec) (now user : ℕ) (calendar : SyncCalendar) (m : Mapping) (event : GoogleEvent)
    (old current : Text) (db : Db) where
  change-keeps :
      (e : NormalizedEvent)
      → IsPreferred user m event old current db
      → apply_change g now user calendar.id m event e db
        ≡ success (set_mapping m.id clear_resolution db)
  unfolding apply_change text_eq
  change-keeps e p =
      preferred-branch (same_etag m.external_etag event.etag) m.local_dirty m.local_deleted
        (is_ask (policy_of user m db))
        (keeps_local (policy_of user m db) event (local_updated_at m db)) _ _ _ _
        (rw (p.based, p.known) p.stale) p.dirty p.answered p.preferred

  apply-keeps :
      (external : Text) (e : NormalizedEvent)
      → event.id ≡ some external
      → is_cancelled event ≡ false
      → find? (is_external user calendar.external_id external) db.mappings ≡ some m
      → normalize_event g event ≡ success e
      → IsPreferred user m event old current db
      → apply_remote_event g now user calendar event db
        ≡ success (set_mapping m.id clear_resolution db)
  unfolding apply_remote_event apply_mapped
  apply-keeps external e named alive found normal p =
      rw (apply_remote_event, named, found)
        (last-branch m.reversible_tombstone (is_cancelled event) _ _ _ p.active alive
          ∙ rw normal (change-keeps e p))

  -- A change here that the policy prefers to a change at Google cannot reach Google, where Google
  -- refuses a replacement for an etag that is not the event's: the pull of Google's event succeeds and
  -- leaves the mapping its mark of a change here and the etag that it had, and the push of the mapping
  -- fails.
  pub preferred-fails :
      (api : Google) (later : ℕ) (external : Text) (e : NormalizedEvent) (ours : CalendarEvent)
      → event.id ≡ some external
      → is_cancelled event ≡ false
      → find? (is_external user calendar.external_id external) db.mappings ≡ some m
      → m.external_event_id ≡ external
      → normalize_event g event ≡ success e
      → IsPreferred user m event old current db
      → ChecksEtag api calendar.external_id external current
      → (db' : Db) × (apply_remote_event g now user calendar event db ≡ success db')
        × ((kept : Mapping) × (find? (is_external user calendar.external_id external) db'.mappings
              ≡ some kept)
            × (kept.local_dirty ≡ true)
            × (kept.external_etag ≡ some old)
            × ((error : SyncError) × (push_mapping g api later user calendar (kept, some ours) db'
                  ≡ failure error)))
  unfolding push_mapping push_update
  preferred-fails api later external e ours named alive found identified normal p checks =
      let body = from_local g (local_event ours) in
      let (error, fails) = checks old body p.stale in
      (
        set_mapping m.id clear_resolution db,
        apply-keeps external e named alive found normal p,
        (
          clear_resolution m,
          find?-update_where (is_external user calendar.external_id external) (has_mapping_id m.id)
              clear_resolution db.mappings m (λ y. refl) found (==_refl m.id),
          p.dirty,
          p.based,
          (
            error,
            last-branch m.local_deleted false _ (failure error) _ p.kept refl
                ∙ rw (identified, p.based, fails) refl,
          ),
        ),
      )
