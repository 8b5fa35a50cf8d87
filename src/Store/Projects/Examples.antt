-- ===== src/Store/Projects/Examples.antt =====
-- Two updates of one project on the same version.
use prosepect.Base.{◌≡◌, refl, none, some, false, [], ◌∷◌, codes, trim, find?, nat_eq}
use prosepect.Base.Int.{pos, is_version}
use prosepect.Error.{ok, err, conflict, changed_since}
use prosepect.Store.{next_version}
use prosepect.Store.Examples.{home}
use prosepect.Store.Projects.{
  ProjectRow, Project, Portfolio, UpdateProjectRequest, active, planned, validate_project_fields,
  with_counts, update_project, is_project, rewrite_project,
}
use prosepect.Store.Projects.Stale.{update_project-update_project}

abbrev garden : ProjectRow
garden = record {
  id = 20;
  user_id = 7;
  name = codes "Garden";
  outcome = [];
  target_date = none;
  status = planned;
  created_at = 0;
  updated_at = 0;
  version = 1;
}

abbrev workspace : Portfolio
workspace = record { db = record home { projects = (20, 7) ∷ [] }; rows = garden ∷ [] }

abbrev start : UpdateProjectRequest
start = record {
  fields = record {
    name = codes " Garden ";
    outcome = codes "Beds";
    target_date = some 20_728;
    status = active;
  };
  expected_version = pos 1;
}

abbrev rename : UpdateProjectRequest
rename = record start {
  fields = record { name = codes "Yard"; outcome = []; target_date = none; status = active };
}

abbrev started : ProjectRow
started = rewrite_project 30 start.fields 2 garden

abbrev started_workspace : Portfolio
started_workspace = record workspace { rows = started ∷ [] }

abbrev started_project : Project
started_project = record { row = started; total_tasks = 0; completed_tasks = 0 }

starts : update_project 30 7 20 start workspace ≡ ok (started_workspace, started_project)
unfolding update_project validate_project_fields trim with_counts next_version
starts = refl

renames : validate_project_fields rename.fields.name rename.fields.outcome ≡ ok tt
unfolding validate_project_fields trim
renames = refl

update_project-update_project_example :
    (r : ProjectRow) × (find? (is_project 7 20) started_workspace.rows ≡ some r)
    × (is_version (pos 1) r.version ≡ false)
    × (update_project 40 7 20 rename started_workspace
        ≡ err (conflict (changed_since "project" (pos 1) r.version)))
update_project-update_project_example =
    update_project-update_project 30 40 7 20 start rename workspace started_workspace
      started_project starts refl renames
