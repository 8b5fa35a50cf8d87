-- ===== src/Sync/Settles.antt =====
-- `push_calendar` of apps/api/src/sync_service.rs: what is left to push after a push that succeeds.
use prosepect.Base.{
  ℕ, suc, ◌<◌, ◌≡◌, refl, ap, subst, ◌⊎◌, inl, inr, Option, none, some, Bool, true, false, not,
  ◌==◌, Bool-cases, if◌then◌else◌, List, [], ◌∷◌, ◌++◌, All, All-append, All-retain,
  All-retain_split, All-update_split, All-imp, All-both, retain, delete_where, update_where, Text,
  arith,
}
use prosepect.Store.{Db, Mapping, CalendarEvent, EventRow}
use prosepect.Sync.{refused, SyncResult, success, failure, Codec}
use prosepect.Sync.Google.{from_local, local_fingerprint}
use prosepect.Sync.Canonical.{delete_mapping, record_activity, has_mapping_id}
use prosepect.Sync.Apply.{SyncCalendar}
use prosepect.Sync.Pull.{Written, and_continue, or_keep}
use prosepect.Sync.Protect.{>>-eq-success, >>=-eq-success}
use prosepect.Sync.Push.{
  Google, local_event, is_unmapped, is_pushable, pushed_baseline, create_remote, pushed_mapping,
  insert_mapping, push_new, push_deletion, push_update, push_mapping, push_all_new, push_all,
  joined, push_calendar,
}

-- The primary key of the mappings, and the identifiers that the draws have not reached.
pub record HasKeys (db : Db) : Type 0 where
  pub fresh : All (λ (m : Mapping). m.id < db.next_id) db.mappings
  pub unique :
      All (λ (m : Mapping). All (λ (n : Mapping). n.id ≡ m.id → n ≡ m) db.mappings) db.mappings

-- The rows of the query: a mapping with its event.
abbrev Row : Type 0
Row = Mapping × Option CalendarEvent

-- One of the rows is of the mapping with the identifier.
abbrev Covers : List Row → ℕ → Type 0
Covers [] id = ⊥
Covers (r ∷ rows) id = (r.0.id ≡ id) ⊎ Covers rows id

abbrev value_or : Db → SyncResult Db → Db
value_or db (failure e) = db
value_or db (success db') = db'

-- A new mapping under the identifier that the draw gives.
append-HasKeys :
    (db : Db) (m : Mapping) (db' : Db)
    → m.id ≡ db.next_id
    → db'.next_id ≡ suc db.next_id
    → db'.mappings ≡ db.mappings ++ m ∷ []
    → HasKeys db
    → HasKeys db'
append-HasKeys db m db' named next appended keys = record {
  fresh =
      rw (appended, next)
        (All-append _ db.mappings (m ∷ [])
          (All-imp _ _ db.mappings (λ n below. ground (arith, below)) keys.fresh)
          (ground (arith, named), tt));
  unique = rw appended (
      All-append _ db.mappings (m ∷ [])
        (All-imp _ _ db.mappings
          (λ n both.
            All-append _ db.mappings (m ∷ []) both.1
              ((λ same. absurd (ground (arith, named, same, both.0))), tt))
          (All-both _ _ db.mappings keys.fresh keys.unique))
        (
          All-append _ db.mappings (m ∷ [])
              (All-imp _ _ db.mappings (λ n below same. absurd (ground (arith, below, same, named)))
                keys.fresh)
              ((λ _. refl), tt),
          tt,
        ));
}

module _ (g : Codec) (api : Google) (now user : ℕ) (calendar : SyncCalendar) where
  -- A mapping that waits is in the rows that are left, and they know whether it is deleted.
  record Pending (rows : List Row) (m : Mapping) : Type 0 where
    covered : is_pushable now user calendar.id m ≡ true → Covers rows m.id
    agreed : All (λ (r : Row). r.0.id ≡ m.id → r.0.local_deleted ≡ m.local_deleted) rows

  -- The row of another mapping is no longer needed.
  other-Pending :
      (r : Row) (rows : List Row) (m : Mapping)
      → (m.id == r.0.id) ≡ false
      → Pending (r ∷ rows) m
      → Pending rows m
  other-Pending r rows m other p = record {
    covered =
        λ waits. elim (p.covered waits) [ inl same ↦ absurd (ground arith) | inr later ↦ later ];
    agreed = p.agreed.1;
  }

  pushed-Pending :
      (etag : Option Text) (fingerprint : Text) (r : Row) (rows : List Row) (m : Mapping)
      → r.0.local_deleted ≡ false
      → (m.id == r.0.id) ≡ true
      → Pending (r ∷ rows) m
      → Pending rows (pushed_baseline now etag fingerprint m)
  unfolding is_pushable
  pushed-Pending etag fingerprint r rows m kept same p =
      let alive : m.local_deleted ≡ false = ground (arith, p.agreed.0, kept, same) in
      record { covered = λ waits. absurd (ground (arith, alive, waits)); agreed = p.agreed.1 }

  deletion-Pending :
      (r : Row) (rows : List Row) (db db' : Db)
      → push_deletion g api now user calendar r.0 db ≡ success db'
      → All (Pending (r ∷ rows)) db.mappings
      → All (Pending rows) db'.mappings
  unfolding push_deletion record_activity delete_mapping
  deletion-Pending r rows db db' h pending =
      let same =
        >>-eq-success (api.delete calendar.external_id r.0.external_event_id r.0.external_etag) _
          h in
      let deleted : delete_where (has_mapping_id r.0.id) db.mappings ≡ db'.mappings = cc same in
      rw (← deleted) (
        All-retain_split (Pending (r ∷ rows)) (Pending rows) (λ m. not (has_mapping_id r.0.id m))
          db.mappings (λ m other p. other-Pending r rows m (ground (arith, other)) p) pending)

  update-Pending :
      (m : Mapping) (e : CalendarEvent) (rows : List Row) (db db' : Db)
      → m.local_deleted ≡ false
      → push_update g api now user calendar m e db ≡ success db'
      → All (Pending ((m, some e) ∷ rows)) db.mappings
      → All (Pending rows) db'.mappings
  unfolding push_update record_activity
  update-Pending m e rows db db' kept h pending =
      let (remote, _, h1) =
        >>=-eq-success
          (api.put calendar.external_id m.external_event_id m.external_etag
            (from_local g (local_event e)))
          _ h in
      let mark = pushed_baseline now remote.etag (local_fingerprint g (local_event e)) in
      let updated : update_where (has_mapping_id m.id) mark db.mappings ≡ db'.mappings = cc h1 in
      rw (← updated) (
        All-update_split (Pending ((m, some e) ∷ rows)) (Pending rows) (has_mapping_id m.id) mark
          db.mappings
          (λ n same p.
            pushed-Pending remote.etag (local_fingerprint g (local_event e)) (m, some e) rows n kept
              same p)
          (λ n other p. other-Pending (m, some e) rows n other p) pending)

  mapping-Pending :
      (r : Row) (rows : List Row) (db db' : Db)
      → push_mapping g api now user calendar r db ≡ success db'
      → All (Pending (r ∷ rows)) db.mappings
      → All (Pending rows) db'.mappings
  unfolding push_mapping push_deletion push_update
  mapping-Pending (m, none) rows db db' h pending = deletion-Pending (m, none) rows db db' h pending
  mapping-Pending (m, some e) rows db db' h pending = elim (Bool-cases m.local_deleted) [
    | inl deleted ↦
        deletion-Pending (m, some e) rows db db' (rw (push_mapping, deleted) at h) pending
    | inr kept ↦ update-Pending m e rows db db' kept (rw (push_mapping, kept) at h) pending
  ]

  push_all-Pending :
      (rows : List Row) (db db' : Db)
      → push_all g api now user calendar rows db ≡ (db', none)
      → All (Pending rows) db.mappings
      → All (Pending []) db'.mappings
  unfolding push_all
  push_all-Pending [] db db' h pending = let same : db ≡ db' = cc h in rw (← same) pending
  push_all-Pending (r ∷ rows) db db' h pending =
      go (λ next k p. push_all-Pending rows next db' k p)
        (push_mapping g api now user calendar r db) refl h
    where
      go :
          ((next : Db)
            → push_all g api now user calendar rows next ≡ (db', none)
            → All (Pending rows) next.mappings
            → All (Pending []) db'.mappings)
          → (result : SyncResult Db) → push_mapping g api now user calendar r db ≡ result
          → and_continue (or_keep db result) (push_all g api now user calendar rows) ≡ (db', none)
          → All (Pending []) db'.mappings
      go later (failure e) pushed k = cc k
      go later (success next) pushed k =
          later next k (mapping-Pending r rows db next pushed pending)

  later-Covers :
      (waits : Bool) (db : Db) (m : Mapping) (ms : List Mapping) (id : ℕ)
      → Covers (joined g api now user calendar db ms) id
      → Covers (joined g api now user calendar db (if waits then m ∷ ms else ms)) id
  later-Covers true db m ms id covered = inr covered
  later-Covers false db m ms id covered = covered

  first-Covers :
      (waits : Bool) (db : Db) (m : Mapping) (ms : List Mapping)
      → waits ≡ true
      → Covers (joined g api now user calendar db (if waits then m ∷ ms else ms)) m.id
  first-Covers true db m ms due = inl refl
  first-Covers false db m ms due = cc

  joined-Covers :
      (db : Db) (ms : List Mapping)
      → All
          (λ m.
            is_pushable now user calendar.id m ≡ true
            → Covers
                (joined g api now user calendar db (retain (is_pushable now user calendar.id) ms))
                m.id)
          ms
  joined-Covers db [] = tt
  joined-Covers db (m ∷ ms) = (
    first-Covers (is_pushable now user calendar.id m) db m _,
    All-imp _ _ ms
        (λ n covered due.
          later-Covers (is_pushable now user calendar.id m) db m
            (retain (is_pushable now user calendar.id) ms) n.id (covered due))
        (joined-Covers db ms),
  )

  joined-agreed :
      (db : Db) (m : Mapping) (ms : List Mapping)
      → All (λ (n : Mapping). n.id ≡ m.id → n ≡ m) ms
      → All
          (λ (r : Row). r.0.id ≡ m.id → r.0.local_deleted ≡ m.local_deleted)
          (joined g api now user calendar db ms)
  joined-agreed db m [] h = tt
  joined-agreed db m (n ∷ ms) h =
      (λ same. ap (λ (k : Mapping). k.local_deleted) (h.0 same), joined-agreed db m ms h.1)

  keys-Pending :
      (db : Db)
      → HasKeys db
      → All
          (Pending (
            joined g api now user calendar db
              (retain (is_pushable now user calendar.id) db.mappings)))
          db.mappings
  keys-Pending db keys =
      All-imp _ _ db.mappings
        (λ m both. record {
          covered = both.0;
          agreed =
              joined-agreed db m (retain (is_pushable now user calendar.id) db.mappings)
                (All-retain _ (is_pushable now user calendar.id) db.mappings both.1);
        })
        (All-both _ _ db.mappings (joined-Covers db db.mappings) keys.unique)

  insert-HasKeys :
      (m : Mapping) (db db' : Db)
      → m.id ≡ db.next_id
      → insert_mapping g api now user calendar m db ≡ success db'
      → HasKeys db
      → HasKeys db'
  unfolding insert_mapping
  insert-HasKeys m db db' named h keys = go _ h
    where
      go :
          (taken : Bool)
          → (if taken
              then failure refused
              else success
                  (record db { next_id = suc db.next_id; mappings = db.mappings ++ m ∷ [] }))
            ≡ success db'
          → HasKeys db'
      go true k = cc k
      go false k = subst HasKeys (ap (value_or db) k) (append-HasKeys db m _ named refl refl keys)

  push_new-HasKeys :
      (e : CalendarEvent) (db db' : Db)
      → push_new g api now user calendar e db ≡ success db'
      → HasKeys db
      → HasKeys db'
  unfolding push_new record_activity
  push_new-HasKeys e db db' h keys =
      let (remote, _, h1) =
        >>=-eq-success (create_remote g api now user calendar (api.event_id e.id) e) _ h in
      let m = pushed_mapping g api now user calendar db.next_id e remote in
      let (inserted, inserts, h2) =
        >>=-eq-success (insert_mapping g api now user calendar m db) _ h1 in
      let own = insert-HasKeys m db inserted refl inserts keys in
      subst HasKeys (ap (value_or db) h2) (record { fresh = own.fresh; unique = own.unique })

  push_all_new-HasKeys :
      (events : List EventRow) (db db' : Db)
      → push_all_new g api now user calendar events db ≡ (db', none)
      → HasKeys db
      → HasKeys db'
  unfolding push_all_new
  push_all_new-HasKeys [] db db' h keys = let same : db ≡ db' = cc h in rw (← same) keys
  push_all_new-HasKeys (e ∷ events) db db' h keys =
      go (λ next k own. push_all_new-HasKeys events next db' k own)
        (push_new g api now user calendar e.event db) refl h
    where
      go :
          ((next : Db)
            → push_all_new g api now user calendar events next ≡ (db', none)
            → HasKeys next
            → HasKeys db')
          → (result : SyncResult Db) → push_new g api now user calendar e.event db ≡ result
          → and_continue (or_keep db result) (push_all_new g api now user calendar events)
            ≡ (db', none)
          → HasKeys db'
      go later (failure error) pushed k = cc k
      go later (success next) pushed k = later next k (push_new-HasKeys e.event db next pushed keys)

  idle : (m : Mapping) → Pending [] m → is_pushable now user calendar.id m ≡ false
  idle m p = elim (Bool-cases (is_pushable now user calendar.id m)) [
    | inl waits ↦ absurd (p.covered waits)
    | inr done ↦ done
  ]

  -- After a push of a calendar that succeeds, where no two mappings have one identifier and none has
  -- one that is still to be drawn, no mapping of the user in the calendar is left to push.
  pub push_calendar-settles :
      (db db' : Db)
      → HasKeys db
      → push_calendar g api now user calendar db ≡ (db', none)
      → All (λ m. is_pushable now user calendar.id m ≡ false) db'.mappings
  unfolding push_calendar
  push_calendar-settles db db' keys h =
      go
        (push_all_new g api now user calendar
          (retain (is_unmapped user calendar.id db.mappings) db.events) db)
        refl h
    where
      go :
          (created : Written)
          → push_all_new g api now user calendar
              (retain (is_unmapped user calendar.id db.mappings) db.events)
              db
            ≡ created
          → (and_continue created λ created.
              push_all g api now user calendar
                (joined g api now user calendar created
                  (retain (is_pushable now user calendar.id) created.mappings))
                created)
            ≡ (db', none)
          → All (λ m. is_pushable now user calendar.id m ≡ false) db'.mappings
      go (created, some error) pushed k = cc k
      go (created, none) pushed k =
          let own = push_all_new-HasKeys _ db created pushed keys in
          All-imp _ _ db'.mappings idle
            (push_all-Pending _ created db' k (keys-Pending created own))
