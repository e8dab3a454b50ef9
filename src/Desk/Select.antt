-- ===== src/Desk/Select.antt =====
-- crates/korg-core/src/repo/selectors.rs: a project or an area by its id or by its name. The hints of
-- the refusals are left out.
use korg.Base.{ℕ, String, Option, none, some, ◌&&◌, ◌==◌, find, nat_eq, if◌then◌else◌}
use korg.Core.Vocab.{project_status_active}
use korg.Desk.Tables.{
  ProjectRow, Desk, Denial, no_project, selector_conflict, unknown_project, archived_project,
  unknown_area, area_without_project, Answer, done, denied, ◌>>=◌, ◌>>◌, project_by_id,
  project_by_name,
}

abbrev pub takes_work : ProjectRow → Option Denial
takes_work p = if p.status == project_status_active then none else some (archived_project p.name)

unfoldable pub project_id_for_name : Desk → String → Answer ℕ
project_id_for_name d name = elim (project_by_name d name) [
  | none ↦ denied (unknown_project name)
  | some p ↦ takes_work p >> done p.id
]

unfoldable pub require_project : Desk → ℕ → Option Denial
require_project d id = elim (project_by_id d id) [
  | none ↦ some (no_project id)
  | some p ↦ takes_work p
]

unfoldable pub resolve_project : Desk → Option ℕ → Option String → Answer (Option ℕ)
resolve_project d (some id) (some name) = denied (selector_conflict "project_id" "project")
resolve_project d (some id) none = require_project d id >> done (some id)
resolve_project d none (some name) = do id ← project_id_for_name d name; done (some id)
resolve_project d none none = done none

-- Of a patch: the outer `Option` is whether the project is mentioned, and the inner one `none` to
-- unassign it.
unfoldable pub resolve_project_patch :
    Desk → Option (Option ℕ) → Option (Option String) → Answer (Option (Option ℕ))
resolve_project_patch d (some id) (some name) = denied (selector_conflict "project_id" "project")
resolve_project_patch d (some (some id)) none = require_project d id >> done (some (some id))
resolve_project_patch d (some none) none = done (some none)
resolve_project_patch d none (some (some name)) = do
  id ← project_id_for_name d name
  done (some (some id))
resolve_project_patch d none (some none) = done (some none)
resolve_project_patch d none none = done none

unfoldable pub area_id_for_name : Desk → Option ℕ → String → Answer ℕ
area_id_for_name d none name = denied (area_without_project name)
area_id_for_name d (some project) name =
    elim (find (λ a. nat_eq a.project_id project && a.name == name) d.areas) [
      | none ↦ denied (unknown_area name)
      | some a ↦ done a.id
    ]

unfoldable pub resolve_area : Desk → Option ℕ → Option ℕ → Option String → Answer (Option ℕ)
resolve_area d project (some id) (some name) = denied (selector_conflict "area_id" "area")
resolve_area d project (some id) none = done (some id)
resolve_area d project none (some name) = do id ← area_id_for_name d project name; done (some id)
resolve_area d project none none = done none

unfoldable pub resolve_area_patch :
    Desk → Option ℕ → Option (Option ℕ) → Option (Option String) → Answer (Option (Option ℕ))
resolve_area_patch d project (some id) (some name) = denied (selector_conflict "area_id" "area")
resolve_area_patch d project (some id) none = done (some id)
resolve_area_patch d project none (some (some name)) = do
  id ← area_id_for_name d project name
  done (some (some id))
resolve_area_patch d project none (some none) = done (some none)
resolve_area_patch d project none none = done none
