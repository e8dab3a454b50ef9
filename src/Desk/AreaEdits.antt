-- ===== src/Desk/AreaEdits.antt =====
-- crates/korg-core/src/repo/areas.rs: how areas are created, renamed and deleted. Descriptions are left
-- out.
pub mod Fits
use korg.Base.{
  ℕ, String, List, [], ◌∷◌, Option, none, some, Bool, true, false, not, ◌&&◌, ◌==◌, map, find,
  retain, any, nat_eq, blank, if◌then◌else◌, is_some,
}
use korg.Desk.Tables.{
  ProjectRow, AreaRow, WorkItemRow, Desk, Denial, blank_field, no_project_named, no_area_named,
  area_taken, area_in_use, Answer, done, denied, ◌>>=◌, ◌>>◌, ok_or, mapped, project_by_name,
}
use korg.Desk.Awaiting.{ids_below}

abbrev pub row_id : Option AreaRow → Option ℕ
row_id none = none
row_id (some a) = some a.id

abbrev pub in_project_named : Desk → String → AreaRow → Bool
in_project_named d project a = elim (find (λ p. nat_eq p.id a.project_id) d.projects) [
  | none ↦ false
  | some p ↦ p.name == project
]

-- `JOIN project p ON p.id = a.project_id WHERE p.name = $1 AND a.name = $2`
unfoldable pub area_row_id : Desk → (project name : String) → Option ℕ
area_row_id d project name =
    row_id (find (λ a. in_project_named d project a && a.name == name) d.areas)

-- Whether another area of the project has the name.
unfoldable pub clash : Desk → (project name : String) → ℕ → Bool
clash d project name id =
    any (λ a. in_project_named d project a && a.name == name && not (nat_eq a.id id)) d.areas

abbrev pub renamed : ℕ → String → AreaRow → AreaRow
renamed id name a = if nat_eq a.id id then record a { name = name } else a

unfoldable pub rename_area : ℕ → String → Desk → Desk
rename_area id name d = record d { areas = map (renamed id name) d.areas }

unfoldable pub check_name : Option String → Option Denial
check_name none = none
check_name (some name) = if blank name then some (blank_field "area name") else none

unfoldable pub write_name : String → ℕ → Option String → Desk → Answer Desk
write_name project id none d = done d
write_name project id (some name) d =
    if clash d project name id
    then denied (area_taken project name)
    else done (rename_area id name d)

unfoldable pub update_area : (project name : String) → Option String → Desk → Answer Desk
update_area project name new_name d = check_name new_name >> do
  id ← ok_or (area_row_id d project name) (no_area_named project name)
  write_name project id new_name d

abbrev pub in_area : ℕ → Option WorkItemRow → Bool
in_area id none = false
in_area id (some w) = elim w.area_id [ none ↦ false | some a ↦ nat_eq a id ]

-- Whether work items are filed under the area.
unfoldable pub filed : Desk → ℕ → Bool
filed d id = any (λ i. in_area id (d.work_items i)) (ids_below d.next_node)

abbrev pub cleared : ℕ → Option ℕ → Option ℕ
cleared id none = none
cleared id (some area) = if nat_eq area id then none else some area

abbrev pub unfiled : ℕ → WorkItemRow → WorkItemRow
unfiled id w = record w { area_id = cleared id w.area_id }

-- `DELETE FROM area`, which sets the area of its work items to null.
unfoldable pub remove_area : ℕ → Desk → Desk
remove_area id d = record d {
  areas = retain (λ a. not (nat_eq a.id id)) d.areas;
  work_items = λ i. mapped (unfiled id) (d.work_items i);
}

unfoldable pub drop_area : String → Option ℕ → Desk → Answer (Desk × Bool)
drop_area name none d = done (d, false)
drop_area name (some id) d =
    if filed d id then denied (area_in_use name) else done (remove_area id d, true)

unfoldable pub delete_area : (project name : String) → Desk → Answer (Desk × Bool)
delete_area project name d = drop_area name (area_row_id d project name) d

unfoldable pub upsert_area : ℕ → ℕ → String → Option AreaRow → Desk → Desk × ℕ
upsert_area fresh pid name (some a) d = (d, a.id)
upsert_area fresh pid name none d =
    (record d { areas = record { id = fresh; project_id = pid; name = name } ∷ d.areas }, fresh)

-- With the id that the sequence of the table gives.
unfoldable pub create_area : ℕ → (project name : String) → Desk → Answer (Desk × ℕ)
create_area fresh project name d = do
  p ← ok_or (project_by_name d project) (no_project_named project)
  done (
      upsert_area fresh p.id name (find (λ a. nat_eq a.project_id p.id && a.name == name) d.areas)
        d)
