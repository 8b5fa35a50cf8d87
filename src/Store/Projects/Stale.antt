-- ===== src/Store/Projects/Stale.antt =====
-- The optimistic concurrency of Store::update_project of apps/api/src/store.rs.
use prosepect.Base.{
  ℕ, ◌+◌, ◌≡◌, refl, sym, ap, ◌∙◌, ◌≢◌, inl, inr, some, none, true, false, Option-cases, nat_eq,
  arith, find?, find?-eq-some, find?-Has, find?-eq-some-Has, Bool-cases, find?-update_where-none,
  Has-update_where, update_where, List,
}
use prosepect.Base.Int.{ℤ, below_one, is_version, is_version-eq}
use prosepect.Error.{ok, err, conflict, changed_since, fail_if-eq-ok, >>=-eq-ok, >>-eq-ok}
use prosepect.Store.{next_version}
use prosepect.Store.Versions.{next_version-eq-ok}
use prosepect.Store.Projects.{
  CreateProjectRequest, ProjectRow, Project, Portfolio, UpdateProjectRequest,
  validate_project_fields, update_project, is_project, is_current_project, rewrite_project,
  project_changed, version_error, with_counts,
}

project_changed-fails {ℓ} :
    {A : Type ℓ} (user id : ℕ) (expected : ℤ) (w : Portfolio) (a : A)
    → project_changed user id expected w ≢ ok a
project_changed-fails user id expected w a h =
    elim (Option-cases (find? (is_project user id) w.rows)) [
      | inl missing ↦ cc (rw (project_changed, missing) at h)
      | inr (r, found) ↦ cc (rw (project_changed, found) at h)
    ]

-- What an update that succeeds has written.
update_project-eq-ok :
    (now user id : ℕ) (request : UpdateProjectRequest) (w w' : Portfolio) (p : Project)
    → update_project now user id request w ≡ ok (w', p)
    → (below_one request.expected_version ≡ false)
      × (r : ProjectRow) × (find? (is_current_project user id request.expected_version) w.rows
          ≡ some r)
      × (w'.rows
          ≡ update_where
              (is_current_project user id request.expected_version)
              (rewrite_project now request.fields (r.version + 1))
              w.rows)
unfolding update_project
update_project-eq-ok now user id request w w' p h =
    let (_, h1) =
      >>-eq-ok (validate_project_fields request.fields.name request.fields.outcome) _ h in
    let (below, h2) = fail_if-eq-ok (below_one request.expected_version) version_error _ h1 in
    elim (Option-cases (find? (is_current_project user id request.expected_version) w.rows)) [
      | inl missing ↦
          absurd
            (project_changed-fails user id request.expected_version w (w', p) (rw missing at h2))
      | inr (r, found) ↦
          let (version, next, h3) = >>=-eq-ok (next_version r.version) _ (rw found at h2) in
          let up : version ≡ r.version + 1 = next_version-eq-ok r.version version next in
          let made : Portfolio × Project = (
            record w {
              rows =
                  update_where (is_current_project user id request.expected_version)
                    (rewrite_project now request.fields version) w.rows;
            },
            with_counts w.db.tasks (rewrite_project now request.fields version r),
          ) in
          let pair : made ≡ (w', p) = cc h3 in
          (below, r, found, rw (← up) (sym (ap (λ x. (x.0).rows) pair)))
    ]

module _ (user id : ℕ) (expected : ℤ) where
  not_current :
      (rows : List ProjectRow) (s : ProjectRow)
      → find? (is_current_project user id expected) rows ≡ none
      → find? (is_project user id) rows ≡ some s
      → is_version expected s.version ≡ false
  not_current rows s gone found = elim (Bool-cases (is_version expected s.version)) [
    | inl still ↦
        let own = find?-eq-some (is_project user id) rows s found in
        let both : is_current_project user id expected s ≡ true = rw (own, still) refl in
        let (x, other) =
          find?-Has (is_current_project user id expected) rows s
            (find?-eq-some-Has (is_project user id) rows s found) both in
        let clash : some x ≡ none = sym other ∙ gone in cc clash
    | inr not_now ↦ not_now
  ]

  moved :
      (r : ProjectRow)
      → is_current_project user id expected r ≡ true
      → (is_project user id r ≡ true) × (is_version expected (r.version + 1) ≡ false)
  moved r t =
      let at : is_version expected r.version ≡ true = ground arith in
      (ground arith, rw (is_version-eq expected r.version at) (ground arith))

  -- The table after an update of the project.
  after_write :
      (now : ℕ) (fields : CreateProjectRequest) (rows : List ProjectRow) (r : ProjectRow)
      → find? (is_current_project user id expected) rows ≡ some r
      → let written =
          update_where
            (is_current_project user id expected)
            (rewrite_project now fields (r.version + 1))
            rows in
        (find? (is_current_project user id expected) written ≡ none)
        × (s : ProjectRow) × (find? (is_project user id) written ≡ some s)
  after_write now fields rows r found =
      let (is_r, later) =
        moved r (find?-eq-some (is_current_project user id expected) rows r found) in
      let gone =
        find?-update_where-none (is_current_project user id expected)
          (rewrite_project now fields (r.version + 1)) rows (λ x t. rw later (ground arith)) in
      let (s, there) =
        find?-Has (is_project user id)
          (update_where (is_current_project user id expected)
            (rewrite_project now fields (r.version + 1)) rows)
          (rewrite_project now fields (r.version + 1) r)
          (Has-update_where (is_current_project user id expected)
            (rewrite_project now fields (r.version + 1)) rows r found)
          is_r in
      (gone, s, there)

refused :
    (later user id : ℕ) (second : UpdateProjectRequest) (w : Portfolio) (s : ProjectRow)
    → validate_project_fields second.fields.name second.fields.outcome ≡ ok tt
    → below_one second.expected_version ≡ false
    → find? (is_current_project user id second.expected_version) w.rows ≡ none
    → find? (is_project user id) w.rows ≡ some s
    → update_project later user id second w
      ≡ err (conflict (changed_since "project" second.expected_version s.version))
unfolding update_project
refused later user id second w s valid below gone found =
    rw (valid, below, gone) (rw (project_changed, found) refl)

-- Of two updates of a project that name the same version, the second fails after the first, at
-- whatever time and whatever else it asks for, where its fields are valid: the error is a conflict,
-- and the version that it gives is the one of the project now, which is not the one requested.
pub update_project-update_project :
    (now later user id : ℕ) (first second : UpdateProjectRequest) (w w' : Portfolio) (p : Project)
    → update_project now user id first w ≡ ok (w', p)
    → second.expected_version ≡ first.expected_version
    → validate_project_fields second.fields.name second.fields.outcome ≡ ok tt
    → (r : ProjectRow) × (find? (is_project user id) w'.rows ≡ some r)
      × (is_version second.expected_version r.version ≡ false)
      × (update_project later user id second w'
          ≡ err (conflict (changed_since "project" second.expected_version r.version)))
update_project-update_project now later user id first second w w' p h same valid =
    let (below, r, found, rows) = update_project-eq-ok now user id first w w' p h in
    let expected = first.expected_version in
    let (gone, s, there) = after_write user id expected now first.fields w.rows r found in
    let none_left : find? (is_current_project user id expected) w'.rows ≡ none = rw rows gone in
    let stored : find? (is_project user id) w'.rows ≡ some s = rw rows there in
    (
      s,
      stored,
      rw same (not_current user id expected w'.rows s none_left stored),
      refused later user id second w' s valid (rw same below) (rw same none_left) stored,
    )
