-- ===== src/Reconcile/Merge.antt =====
-- `merge` of apps/api/src/google_tasks.rs against a description of a three-way merge.
use prosepect.Base.{none, some, ◌≡◌, ◌≢◌, ◌⊎◌, ◌↔◌, inl, inr, refl, PartialEq, Bool-cases}
use prosepect.Reconcile.{merge}

-- The value that two edits of a common baseline agree on.
pub data MergesTo {ℓ} {T : Type ℓ} (baseline local remote : T) : T → Type ℓ where
  same_edit : {t : T} → local ≡ remote → t ≡ local → MergesTo baseline local remote t
  local_edit : {t : T} → remote ≡ baseline → t ≡ local → MergesTo baseline local remote t
  remote_edit : {t : T} → local ≡ baseline → t ≡ remote → MergesTo baseline local remote t

-- Both sides changed the value, and to different values.
pub record Diverges {ℓ} {T : Type ℓ} (baseline local remote : T) : Type ℓ where
  pub sides_differ : local ≢ remote
  pub local_changed : local ≢ baseline
  pub remote_changed : remote ≢ baseline

module _ {ℓ} {T : Type ℓ} ⦃e : PartialEq T⦄ (baseline local remote : T) where
  pub merge-cases :
      ((t : T) × (merge baseline local remote ≡ some t) × MergesTo baseline local remote t)
      ⊎ ((merge baseline local remote ≡ none) × Diverges baseline local remote)
  unfolding merge
  merge-cases = elim (Bool-cases (e.eq local remote)) [
    | inl s ↦ inl (local, rw s, same_edit ((e.eq_iff local remote).0 s) refl)
    | inr s ↦ elim (Bool-cases (e.eq remote baseline)) [
      | inl r ↦ inl (local, rw (s, r), local_edit ((e.eq_iff remote baseline).0 r) refl)
      | inr r ↦ elim (Bool-cases (e.eq local baseline)) [
        | inl l ↦ inl (remote, rw (s, r, l), remote_edit ((e.eq_iff local baseline).0 l) refl)
        | inr l ↦ inr (
          rw (s, r, l),
          record {
            sides_differ = λ p. cc ((e.eq_iff local remote).1 p);
            local_changed = λ p. cc ((e.eq_iff local baseline).1 p);
            remote_changed = λ p. cc ((e.eq_iff remote baseline).1 p);
          },
        )
      ]
    ]
  ]

  -- The merged value is determined by the three values.
  MergesTo-unique :
      {s t : T} → MergesTo baseline local remote s → MergesTo baseline local remote t → s ≡ t
  MergesTo-unique (same_edit p q) (same_edit p' q') = cc
  MergesTo-unique (same_edit p q) (local_edit p' q') = cc
  MergesTo-unique (same_edit p q) (remote_edit p' q') = cc
  MergesTo-unique (local_edit p q) (same_edit p' q') = cc
  MergesTo-unique (local_edit p q) (local_edit p' q') = cc
  MergesTo-unique (local_edit p q) (remote_edit p' q') = cc
  MergesTo-unique (remote_edit p q) (same_edit p' q') = cc
  MergesTo-unique (remote_edit p q) (local_edit p' q') = cc
  MergesTo-unique (remote_edit p q) (remote_edit p' q') = cc

  MergesTo-not-Diverges :
      {t : T} → MergesTo baseline local remote t → ¬ Diverges baseline local remote
  MergesTo-not-Diverges (same_edit p q) d = d.sides_differ p
  MergesTo-not-Diverges (local_edit p q) d = d.remote_changed p
  MergesTo-not-Diverges (remote_edit p q) d = d.local_changed p

  -- `merge` returns exactly the value that the edits agree on.
  pub merge-some_iff :
      (t : T) → (merge baseline local remote ≡ some t) ↔ MergesTo baseline local remote t
  merge-some_iff t = elim merge-cases [
    | inl (s, found, m) ↦ (
      λ h. let same : s ≡ t = cc in rw same at m,
      λ n. let same : s ≡ t = MergesTo-unique m n in cc,
    )
    | inr (lost, d) ↦ (λ h. absurd (cc), λ n. absurd (MergesTo-not-Diverges n d))
  ]

  -- `merge` gives up exactly when the edits diverge.
  pub merge-none_iff : (merge baseline local remote ≡ none) ↔ Diverges baseline local remote
  merge-none_iff = elim merge-cases [
    | inl (s, found, m) ↦ (λ h. absurd (cc), λ d. absurd (MergesTo-not-Diverges m d))
    | inr (lost, d) ↦ (λ h. d, λ d'. lost)
  ]
