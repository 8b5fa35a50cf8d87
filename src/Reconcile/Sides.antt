-- ===== src/Reconcile/Sides.antt =====
-- What the reconciliation of apps/api/src/google_tasks.rs promises to the two sides.
use prosepect.Base.{
  some, ◌≡◌, ◌≢◌, inl, inr, refl, sym, PartialEq, arith, nat_eq, bool_eq, option_eq, list_eq,
}
use prosepect.Reconcile.{
  TaskFields, ConflictField, title, date, completion, TaskConflictChoice, google, app, Reconciled,
  merged, conflicting, merge, reconcile, resolve_conflicting_fields, preferred, unwrap_or,
}
use prosepect.Reconcile.Merge.{
  MergesTo, same_edit, local_edit, remote_edit, Diverges, merge-cases, merge-some_iff,
  merge-none_iff,
}

module _ {ℓ} {T : Type ℓ} ⦃e : PartialEq T⦄ (baseline local remote : T) where
  MergesTo-swap : {t : T} → MergesTo baseline local remote t → MergesTo baseline remote local t
  MergesTo-swap (same_edit p q) = same_edit (sym p) (cc)
  MergesTo-swap (local_edit p q) = remote_edit p q
  MergesTo-swap (remote_edit p q) = local_edit p q

  Diverges-swap : Diverges baseline local remote → Diverges baseline remote local
  Diverges-swap d = record {
    sides_differ = λ p. d.sides_differ (sym p);
    local_changed = d.remote_changed;
    remote_changed = d.local_changed;
  }

module _ {ℓ} {T : Type ℓ} ⦃e : PartialEq T⦄ (baseline local remote : T) where
  merge_comm : merge baseline local remote ≡ merge baseline remote local
  merge_comm = elim (merge-cases baseline local remote) [
    | inl (t, found, m) ↦
        cc ((merge-some_iff baseline remote local t).1 (MergesTo-swap baseline local remote m))
    | inr (lost, d) ↦
        cc ((merge-none_iff baseline remote local).1 (Diverges-swap baseline local remote d))
  ]

module _ {ℓ} {T : Type ℓ} ⦃e : PartialEq T⦄ (baseline edited : T) where
  merge_local_only : merge baseline edited baseline ≡ some edited
  merge_local_only = (merge-some_iff baseline edited baseline edited).1 (local_edit refl refl)

  merge_remote_only : merge baseline baseline edited ≡ some edited
  merge_remote_only = (merge-some_iff baseline baseline edited edited).1 (remote_edit refl refl)

-- Reconciliation treats the two sides alike: exchanging them changes neither the merged fields nor
-- the field reported as a conflict.
reconcile_comm :
    (baseline local remote : TaskFields)
    → reconcile baseline local remote ≡ reconcile baseline remote local
unfolding reconcile
reconcile_comm b l r = rw (
  merge_comm b.title l.title r.title,
  merge_comm b.date l.date r.date,
  merge_comm b.completed l.completed r.completed,
)

-- An edit on one side alone is adopted unchanged, in all three fields.
pub reconcile_one_side :
    (baseline edited : TaskFields)
    → (reconcile baseline baseline edited ≡ merged edited)
      × (reconcile baseline edited baseline ≡ merged edited)
unfolding reconcile
reconcile_one_side b x = (
  rw (
    merge_remote_only b.title x.title,
    merge_remote_only b.date x.date,
    merge_remote_only b.completed x.completed,
  ),
  rw (
    merge_local_only b.title x.title,
    merge_local_only b.date x.date,
    merge_local_only b.completed x.completed,
  ),
)

-- The merged fields, field by field.
pub record FieldsMergeTo (baseline local remote m : TaskFields) : Type 0 where
  pub titles : MergesTo baseline.title local.title remote.title m.title
  pub dates : MergesTo baseline.date local.date remote.date m.date
  pub completions : MergesTo baseline.completed local.completed remote.completed m.completed

-- The named field, and none before it in the order title, date, completion, has diverged.
abbrev pub DivergesAt : TaskFields → TaskFields → TaskFields → ConflictField → Type 0
DivergesAt b l r title = Diverges b.title l.title r.title
DivergesAt b l r date =
    ((t : _) × MergesTo b.title l.title r.title t) × Diverges b.date l.date r.date
DivergesAt b l r completion =
    ((t : _) × MergesTo b.title l.title r.title t)
    × ((d : _) × MergesTo b.date l.date r.date d)
    × Diverges b.completed l.completed r.completed

abbrev pub Outcome : TaskFields → TaskFields → TaskFields → Reconciled → Type 0
Outcome b l r (merged m) = FieldsMergeTo b l r m
Outcome b l r (conflicting f) = DivergesAt b l r f

-- Reconciliation returns fields that merge field by field, or names the first field that the two
-- sides changed to different values.
pub reconcile-Outcome :
    (baseline local remote : TaskFields)
    → Outcome baseline local remote (reconcile baseline local remote)
unfolding reconcile
reconcile-Outcome b l r = elim (merge-cases b.title l.title r.title) [
  | inr (lost, d) ↦ rw lost d
  | inl (t, found, m) ↦ rw found (elim (merge-cases b.date l.date r.date) [
    | inr (lost, d) ↦ rw lost ((t, m), d)
    | inl (u, found', m') ↦ rw found' (elim (merge-cases b.completed l.completed r.completed) [
      | inr (lost, d) ↦ rw lost ((t, m), (u, m'), d)
      | inl (c, found'', m'') ↦ rw found'' (record { titles = m; dates = m'; completions = m'' })
    ])
  ])
]

-- Where the sides do not conflict, resolution gives the merged fields whatever the choice is.
pub resolve-reconcile :
    (baseline local remote m : TaskFields) (choice : TaskConflictChoice)
    → reconcile baseline local remote ≡ merged m
    → resolve_conflicting_fields baseline local remote choice ≡ m
unfolding reconcile resolve_conflicting_fields
resolve-reconcile b l r m choice h = ground arith

module _ {ℓ} {T : Type ℓ} ⦃e : PartialEq T⦄ (baseline local remote : T) where
  resolved_remote : remote ≢ baseline → unwrap_or (merge baseline local remote) remote ≡ remote
  resolved_remote changed = elim (merge-cases baseline local remote) [
    | inl (t, found, m) ↦ rw found (from_merge m)
    | inr (lost, d) ↦ rw lost
  ]
    where
      from_merge : {t : T} → MergesTo baseline local remote t → t ≡ remote
      from_merge (same_edit p q) = cc
      from_merge (local_edit p q) = absurd (changed p)
      from_merge (remote_edit p q) = q

  resolved_local : local ≢ baseline → unwrap_or (merge baseline local remote) local ≡ local
  resolved_local changed = elim (merge-cases baseline local remote) [
    | inl (t, found, m) ↦ rw found (from_merge m)
    | inr (lost, d) ↦ rw lost
  ]
    where
      from_merge : {t : T} → MergesTo baseline local remote t → t ≡ local
      from_merge (same_edit p q) = q
      from_merge (local_edit p q) = q
      from_merge (remote_edit p q) = absurd (changed p)

-- Every field that the side changed has the side's value in `m`.
pub record KeepsEdits (baseline side m : TaskFields) : Type 0 where
  pub titles : side.title ≢ baseline.title → m.title ≡ side.title
  pub dates : side.date ≢ baseline.date → m.date ≡ side.date
  pub completions : side.completed ≢ baseline.completed → m.completed ≡ side.completed

-- Resolution in favour of a side loses none of that side's edits.
pub resolve-KeepsEdits :
    (baseline local remote : TaskFields) (choice : TaskConflictChoice)
    → KeepsEdits baseline
        (preferred choice local remote)
        (resolve_conflicting_fields baseline local remote choice)
unfolding resolve_conflicting_fields
resolve-KeepsEdits b l r google = record {
  titles = resolved_remote b.title l.title r.title;
  dates = resolved_remote b.date l.date r.date;
  completions = resolved_remote b.completed l.completed r.completed;
}
resolve-KeepsEdits b l r app = record {
  titles = resolved_local b.title l.title r.title;
  dates = resolved_local b.date l.date r.date;
  completions = resolved_local b.completed l.completed r.completed;
}
