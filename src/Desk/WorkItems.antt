-- ===== src/Desk/WorkItems.antt =====
-- crates/korg-core/src/repo/work_items.rs: how a work item is created and updated.
pub mod Written
pub mod Areas
pub mod Targets
pub mod Restart
use korg.Base.{
  ℕ, suc, String, List, Option, none, some, Bool, true, false, ◌&&◌, nat_eq, if◌then◌else◌, is_some,
}
use korg.Core.Vocab.{wi_statuses, wi_types, wi_tshirts}
use korg.Desk.Tables.{
  NodeRow, WorkItemRow, Desk, Denial, no_work_item, no_parent, no_area, foreign_area, row_gone,
  Answer, done, denied, ◌>>=◌, ◌>>◌, ok_or, put, alter, mapped, patched, area_project,
}
use korg.Desk.Postgres.{Postgres}
use korg.Desk.Log.{
  touch_node, record_activity, record_status, fingerprint, record_edit, in_vocabulary,
  in_vocabulary_patch,
}
use korg.Desk.Select.{resolve_project, resolve_project_patch, resolve_area, resolve_area_patch}
use korg.Desk.Awaiting.{settle_awaiting}
use korg.Desk.Schedules.{advance_completed_anchor}

pub record NewWorkItem : Type 0 where
  pub project_id : Option ℕ
  pub project : Option String
  pub area_id : Option ℕ
  pub area : Option String
  pub wi_type : String
  pub wi_status : String
  pub wi_tshirt : String
  pub sprint : Option String
  pub title : String
  pub content : String
  pub details : Option String
  pub check_after : Option String
  pub invalidated_if : Option String
  pub category : Option String
  pub tags : List String

-- In a field of two `Option`s, the outer one is whether the patch mentions it.
pub record WorkItemPatch : Type 0 where
  pub title : Option String
  pub content : Option String
  pub details : Option (Option String)
  pub wi_type : Option String
  pub wi_status : Option String
  pub wi_tshirt : Option String
  pub sprint : Option (Option String)
  pub check_after : Option (Option String)
  pub invalidated_if : Option (Option String)
  pub project_id : Option (Option ℕ)
  pub project : Option (Option String)
  pub area_id : Option (Option ℕ)
  pub area : Option (Option String)
  pub parent : Option (Option ℕ)
  pub archived : Option Bool
  pub category : Option (Option String)
  pub tags : Option (List String)

abbrev pub same_id : Option ℕ → Option ℕ → Bool
same_id none none = true
same_id (some a) (some b) = nat_eq a b
same_id _ _ = false

-- An area id that is given has to be one of the project's.
unfoldable pub check_area : Desk → Option ℕ → Option ℕ → Option Denial
check_area d project none = none
check_area d project (some area) = elim (area_project d area) [
  | none ↦ some (no_area area)
  | some p ↦ if same_id (some p) project then none else some (foreign_area area)
]

unfoldable pub insert_work_item : ℕ → NewWorkItem → Option ℕ → Option ℕ → Desk → Desk
insert_work_item now new project area d =
    let id = d.next_node in
    record_activity id "created" (record d {
      nodes =
          put id
            (record {
              kind = "workitem";
              project_id = project;
              category = new.category;
              tags = new.tags;
              archived = false;
              awaiting_since = none;
              awaiting_note = none;
              updated = now;
            })
            d.nodes;
      work_items =
          put id
            (record {
              area_id = area;
              wi_type = new.wi_type;
              wi_status = new.wi_status;
              wi_tshirt = new.wi_tshirt;
              sprint = new.sprint;
              title = new.title;
              content = new.content;
              details = new.details;
              check_after = new.check_after;
              invalidated_if = new.invalidated_if;
              parent_node_id = none;
            })
            d.work_items;
      next_node = suc id;
    })

unfoldable pub create_work_item : ℕ → NewWorkItem → Desk → Answer Desk
create_work_item now new d =
    in_vocabulary wi_statuses new.wi_status
    >> (in_vocabulary wi_types new.wi_type
        >> (in_vocabulary wi_tshirts new.wi_tshirt >> do
          project ← resolve_project d new.project_id new.project
          area ← resolve_area d project new.area_id new.area
          check_area d project area >> done (insert_work_item now new project area d)))

-- `node_id_for_wi`
unfoldable pub node_id_for_wi : Desk → ℕ → Option ℕ
node_id_for_wi d wi_number = if is_some (d.work_items wi_number) then some wi_number else none

unfoldable pub parent_node : Desk → Option (Option ℕ) → Answer (Option (Option ℕ))
parent_node d none = done none
parent_node d (some none) = done (some none)
parent_node d (some (some number)) = do
  id ← ok_or (node_id_for_wi d number) (no_parent number)
  done (some (some id))

unfoldable pub patch_item : WorkItemPatch → WorkItemRow → WorkItemRow
patch_item p w = record w {
  title = patched p.title w.title;
  content = patched p.content w.content;
  details = patched p.details w.details;
  wi_type = patched p.wi_type w.wi_type;
  wi_status = patched p.wi_status w.wi_status;
  wi_tshirt = patched p.wi_tshirt w.wi_tshirt;
  sprint = patched p.sprint w.sprint;
  check_after = patched p.check_after w.check_after;
  invalidated_if = patched p.invalidated_if w.invalidated_if;
}

-- Whether the area is one of the project that the work item will have.
unfoldable pub fits : Desk → Option ℕ → ℕ → Bool
fits d effective area = is_some effective && same_id (area_project d area) effective

-- The area to write: `none` keeps it, `some none` clears it. A move clears an area that no longer fits.
unfoldable pub new_area :
    Desk → Option ℕ → (moves : Bool) → Option (Option ℕ) → Option ℕ → Answer (Option (Option ℕ))
new_area d effective moves (some (some area)) current =
    if fits d effective area then done (some (some area)) else denied (foreign_area area)
new_area d effective moves (some none) current = done (some none)
new_area d effective true none (some area) =
    if fits d effective area then done none else done (some none)
new_area d effective true none none = done none
new_area d effective false none current = done none

unfoldable pub log_status : ℕ → Option String → String → Desk → Desk
log_status id none before d = d
log_status id (some status) before d = record_status id before status d

unfoldable pub advance_for : ℕ → ℕ → Option String → Desk → Desk
advance_for now id none d = d
advance_for now id (some status) d = advance_completed_anchor now id status d

unfoldable pub write_rows :
    ℕ → WorkItemPatch → (project area parent : Option (Option ℕ)) → Desk → Desk
write_rows id p project area parent d = record d {
  work_items =
      alter id
        (λ w. record (patch_item p w) {
          area_id = patched area w.area_id;
          parent_node_id = patched parent w.parent_node_id;
        })
        d.work_items;
  nodes =
      alter id
        (λ n. record n {
          project_id = patched project n.project_id;
          archived = patched p.archived n.archived;
          category = patched p.category n.category;
          tags = patched p.tags n.tags;
        })
        d.nodes;
}

-- What follows the writes of the rows, in the same transaction.
unfoldable pub finish_update : Postgres → ℕ → ℕ → Option String → (was : Desk) → Desk → Desk
finish_update db now id status was d =
    record_edit db id (fingerprint db id was)
      (touch_node now id (advance_for now id status (settle_awaiting id d)))

unfoldable pub write_work_item :
    Postgres
    → ℕ
    → ℕ
    → WorkItemPatch
    → (project parent : Option (Option ℕ)) → NodeRow
    → WorkItemRow
    → Desk
    → Answer Desk
write_work_item db now id p project parent node item d =
    let effective = patched project node.project_id in
    do
      chosen ← resolve_area_patch d effective p.area_id p.area
      area ← new_area d effective (is_some project) chosen item.area_id
      done (
          finish_update db now id p.wi_status d
            (log_status id p.wi_status item.wi_status (write_rows id p project area parent d)))

unfoldable pub update_work_item : Postgres → ℕ → ℕ → WorkItemPatch → Desk → Answer Desk
update_work_item db now wi_number p d = do
  id ← ok_or (node_id_for_wi d wi_number) (no_work_item wi_number)
  in_vocabulary_patch wi_statuses p.wi_status
      >> (in_vocabulary_patch wi_types p.wi_type
          >> (in_vocabulary_patch wi_tshirts p.wi_tshirt >> do
            parent ← parent_node d p.parent
            project ← resolve_project_patch d p.project_id p.project
            node ← ok_or (d.nodes id) (row_gone id)
            item ← ok_or (d.work_items id) (row_gone id)
            write_work_item db now id p project parent node item d))
