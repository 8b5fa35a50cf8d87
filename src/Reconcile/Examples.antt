-- ===== src/Reconcile/Examples.antt =====
-- Concrete reconciliations.
use prosepect.Base.{some, none, false, true, ◌≡◌, refl, codes, bool_eq, nat_eq, option_eq, list_eq}
use prosepect.Reconcile.{TaskFields, google, merged, merge, reconcile, resolve_conflicting_fields}
use prosepect.Reconcile.Sides.{
  reconcile-Outcome, resolve-reconcile, KeepsEdits, resolve-KeepsEdits, Outcome,
}

abbrev proposal : TaskFields
proposal = record { title = codes "Proposal"; date = some 20_728; completed = false }

abbrev revised : TaskFields
revised = record { title = codes "Revised proposal"; date = some 20_728; completed = false }

abbrev finished : TaskFields
finished = record { title = codes "Proposal"; date = none; completed = true }

abbrev joined : TaskFields
joined = record { title = codes "Revised proposal"; date = none; completed = true }

independent_changes_merge : reconcile proposal revised finished ≡ merged joined
unfolding reconcile merge
independent_changes_merge = refl

reconcile-Outcome_example : Outcome proposal revised finished (reconcile proposal revised finished)
reconcile-Outcome_example = reconcile-Outcome proposal revised finished

resolve-reconcile_example : resolve_conflicting_fields proposal revised finished google ≡ joined
resolve-reconcile_example =
    resolve-reconcile proposal revised finished joined google independent_changes_merge

resolve-KeepsEdits_example :
    KeepsEdits proposal finished (resolve_conflicting_fields proposal revised finished google)
resolve-KeepsEdits_example = resolve-KeepsEdits proposal revised finished google
